-- ===== src/Idempotency/Settled.antt =====
-- What a settled request answers to the next one, and what two requests at once may do.
use stellar_insured_backend.Prelude.{
  ap, arith, if◌then◌else◌, none, refl, some, subst, true, ℕ, ◌==◌, ◌∙◌, ◌≡◌, ◌≤◌,
}
use stellar_insured_backend.Database.{Error, bad_request}
use stellar_insured_backend.Database.Bulk.{BulkTable}
use stellar_insured_backend.Idempotency.{
  Handled, KeyRecord, KeyStatus, Request, StoredResponse, admit, admit_existing, admit_new,
  after_conflict, claim, claimed_row, intercept, proceeds, rearm, record_outcome, refused, replayed,
  returned, threw,
}
use stellar_insured_backend.Idempotency.Replay.{Armed, admit-Armed, intercept-Armed, row_at}

module _ {Keys : Type 0} (keys : BulkTable Keys KeyRecord) where
  -- The row after its handler has ended.
  abbrev settled : KeyRecord → Handled → KeyRecord
  settled row (returned response) = record row {
    status = KeyStatus.completed;
    response = some response;
  }
  settled row (threw response) = record row { status = KeyStatus.failed; response = some response }

  settled_row :
      (key : ℕ) (row : KeyRecord) (handled : Handled) (t : Keys)
      → row_at keys t key ≡ some row
      → row_at keys (record_outcome keys true key handled t) key ≡ some (settled row handled)
  unfolding record_outcome
  settled_row key row (returned response) t found =
      ground (arith, keys.table.find-save t key key (settled row (returned response)))
  settled_row key row (threw response) t found =
      ground (arith, keys.table.find-save t key key (settled row (threw response)))

  completed_lem :
      (later next : ℕ) (other : Request) (row : KeyRecord) (response : StoredResponse) (u : Keys)
      → row_at keys u other.key ≡ some row
      → row.status ≡ KeyStatus.completed
      → row.response ≡ some response
      → later ≤ row.expires_at
      → intercept keys later next other u ≡ (
        if other.body.text == row.request_body then replayed response else refused bad_request,
        u,
      )
  unfolding intercept admit_existing
  completed_lem later next other row response u found done cached early = ground arith

  -- A request that was let through and whose answer was recorded is not run again until it expires: a
  -- request with the same key is answered with the recorded answer if the text of its body is the text
  -- that the column gives back of the first body, is refused as a bad request if not, even where it is
  -- the first request again, and changes nothing.
  pub intercept-replays :
      (now expires_at later next : ℕ) (request other : Request) (response : StoredResponse)
      (t u : Keys)
      → intercept keys now expires_at request t ≡ (proceeds, u)
      → later ≤ expires_at
      → other.key ≡ request.key
      → intercept keys later next other (record_outcome keys true request.key (returned response) u)
        ≡ (
          if other.body.text == request.body.stored_text
              then replayed response
              else refused bad_request,
          record_outcome keys true request.key (returned response) u,
        )
  intercept-replays now expires_at later next request other response t u e early same =
      let (created_at, row) = intercept-Armed keys now expires_at request t u e in
      let before = claimed_row created_at expires_at request in
      let v = record_outcome keys true request.key (returned response) u in
      completed_lem later next other (settled before (returned response)) response v
        (ap (λ k. row_at keys v k) same ∙ settled_row request.key before (returned response) u row)
        refl refl early

  failed_lem :
      (later next : ℕ) (request : Request) (row : KeyRecord) (u : Keys)
      → row_at keys u request.key ≡ some row
      → row.status ≡ KeyStatus.failed
      → row.request_body ≡ request.body.text
      → later ≤ row.expires_at
      → (intercept keys later next request u).0 ≡ proceeds
  unfolding intercept admit_existing rearm
  failed_lem later next request row u found done same early =
      ground (arith, keys.table.include-find u request.key row found)

  -- After a failure that was recorded, the same request is let through again until it expires, if the
  -- column gives back the text of its body.
  intercept-retries :
      (now expires_at later next : ℕ) (request : Request) (response : StoredResponse) (t u : Keys)
      → intercept keys now expires_at request t ≡ (proceeds, u)
      → later ≤ expires_at
      → request.body.stored_text ≡ request.body.text
      → (intercept keys later next request
          (record_outcome keys true request.key (threw response) u)).0
        ≡ proceeds
  intercept-retries now expires_at later next request response t u e early kept =
      let (created_at, row) = intercept-Armed keys now expires_at request t u e in
      let before = claimed_row created_at expires_at request in
      failed_lem later next request (settled before (threw response))
        (record_outcome keys true request.key (threw response) u)
        (settled_row request.key before (threw response) u row) refl kept early

  -- A request whose key has a row that the reads hide, as the cleanup leaves it, is refused as a
  -- conflict and changes nothing, whatever the time is.
  pub deleted_key_refused :
      (now expires_at : ℕ) (request : Request) (row : KeyRecord) (t : Keys)
      → row_at keys t request.key ≡ none
      → keys.table.include t request.key ≡ some row
      → intercept keys now expires_at request t ≡ (refused Error.conflict, t)
  unfolding intercept admit_new claim after_conflict
  deleted_key_refused now expires_at request row t hidden there = ground arith

  -- Of two requests that both read that a key has no row, the second is refused as a conflict and
  -- changes nothing when the first was let through and has not settled.
  claim_race :
      (now expires_at later next : ℕ) (request other : Request) (t u : Keys)
      → admit keys now expires_at request none t ≡ (proceeds, u)
      → other.key ≡ request.key
      → admit keys later next other none u ≡ (refused Error.conflict, u)
  unfolding admit admit_new claim after_conflict
  claim_race now expires_at later next request other t u e same =
      let (created_at, row) =
        subst (Armed keys expires_at request) e (admit-Armed keys now expires_at request none t) in
      let found = ap (λ k. row_at keys u k) same ∙ row in
      let there =
        keys.table.include-find u other.key (claimed_row created_at expires_at request) found in
      ground (arith, found, there)

  rearmed_lem :
      (now expires_at : ℕ) (request : Request) (row stored : KeyRecord) (t : Keys)
      → keys.table.include t request.key ≡ some stored
      → row.status ≡ KeyStatus.failed
      → row.request_body ≡ request.body.text
      → now ≤ row.expires_at
      → admit keys now expires_at request (some row) t ≡ (
        proceeds,
        keys.table.save t request.key (claimed_row stored.created_at expires_at request),
      )
  unfolding admit admit_existing rearm
  rearmed_lem now expires_at request row stored t there done same early = ground arith

  -- Two requests with one key, the text of whose bodies is that of the stored one, and which both read
  -- the same failed row before it expires and before one of them has re-armed it, are both let through.
  pub rearm_race :
      (now expires_at later next : ℕ) (request other : Request) (row : KeyRecord) (t : Keys)
      → row_at keys t request.key ≡ some row
      → other.key ≡ request.key
      → row.status ≡ KeyStatus.failed
      → row.request_body ≡ request.body.text
      → row.request_body ≡ other.body.text
      → later ≤ row.expires_at
      → now ≤ row.expires_at
      → ((admit keys now expires_at request (some row) t).0 ≡ proceeds)
        × ((admit keys later next other
              (some row)
              (admit keys now expires_at request (some row) t).1).0
            ≡ proceeds)
  rearm_race now expires_at later next request other row t found one done same same' early₁ early₂ =
      let there = keys.table.include-find t request.key row found in
      let new = claimed_row row.created_at expires_at request in
      let u = keys.table.save t request.key new in
      let first = rearmed_lem now expires_at request row row t there done same early₂ in
      let still : keys.table.include u other.key ≡ some new =
        keys.table.include-find u other.key new
          (ground (arith, one, keys.table.find-save t request.key other.key new)) in
      rw first
        (refl, ap (λ x. x.0) (rearmed_lem later next other row new u still done same' early₁))
