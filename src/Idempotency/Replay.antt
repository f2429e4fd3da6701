-- ===== src/Idempotency/Replay.antt =====
-- A request is run once for its key.
use stellar_insured_backend.Prelude.{
  Bool-cases, Option, Option-cases, ap, arith, if◌then◌else◌, inl, inr, ltb, none, refl, some,
  subst, sym, ℕ, ◌==◌, ◌∙◌, ◌≡◌, ◌≢◌, ◌≤◌,
}
use stellar_insured_backend.Database.{Error, bad_request}
use stellar_insured_backend.Database.Bulk.{BulkTable}
use stellar_insured_backend.Idempotency.{
  Admission, KeyRecord, KeyStatus, Request, StoredResponse, admit, admit_existing, admit_new,
  after_conflict, claim, claimed_row, intercept, proceeds, rearm, refused, replayed,
}

module _ {Keys : Type 0} (keys : BulkTable Keys KeyRecord) where
  abbrev pub row_at : Keys → ℕ → Option KeyRecord
  row_at t key = keys.table.find t key

  -- If the handler is to run, the key is pending in the state that was left, with this request.
  abbrev pub Armed : ℕ → Request → Admission × Keys → Type 0
  Armed expires_at request (proceeds, u) =
      (created_at : ℕ) × (row_at u request.key ≡ some (claimed_row created_at expires_at request))
  Armed expires_at request (refused e, u) = Unit
  Armed expires_at request (replayed r, u) = Unit

  rearm-Armed :
      (expires_at : ℕ) (request : Request) (t : Keys)
      → Armed expires_at request (rearm keys expires_at request t)
  unfolding rearm
  rearm-Armed expires_at request t = elim (Option-cases (keys.table.include t request.key)) [
    | inl missing ↦ rw (missing, Armed) tt
    | inr (row, found) ↦
        let new = claimed_row row.created_at expires_at request in
        rw (found, Armed)
          (row.created_at, ground (arith, keys.table.find-save t request.key request.key new))
  ]

  response-Armed :
      (expires_at : ℕ) (request : Request) (o : Option StoredResponse) (t : Keys)
      → Armed expires_at request (elim o [
        | some response ↦ (replayed response, t)
        | none ↦ rearm keys expires_at request t
      ])
  response-Armed expires_at request (some response) t = tt
  response-Armed expires_at request none t = rearm-Armed expires_at request t

  status-Armed :
      (expires_at : ℕ) (request : Request) (status : KeyStatus) (o : Option StoredResponse)
      (t : Keys)
      → Armed expires_at request (elim status [
        | KeyStatus.pending ↦ (refused Error.conflict, t)
        | KeyStatus.failed ↦ rearm keys expires_at request t
        | KeyStatus.completed ↦ elim o [
          | some response ↦ (replayed response, t)
          | none ↦ rearm keys expires_at request t
        ]
      ])
  status-Armed expires_at request KeyStatus.pending o t = tt
  status-Armed expires_at request KeyStatus.failed o t = rearm-Armed expires_at request t
  status-Armed expires_at request KeyStatus.completed o t = response-Armed expires_at request o t

  existing-Armed :
      (now expires_at : ℕ) (request : Request) (row : KeyRecord) (t : Keys)
      → Armed expires_at request (admit_existing keys now expires_at request row t)
  unfolding admit_existing
  existing-Armed now expires_at request row t = elim (Bool-cases (ltb row.expires_at now)) [
    | inl expired ↦ rw (expired) (rearm-Armed expires_at request t)
    | inr alive ↦ elim (Bool-cases (request.body.text == row.request_body)) [
      | inl same ↦ rw (alive, same) (status-Armed expires_at request row.status row.response t)
      | inr other ↦ rw (alive, other) tt
    ]
  ]

  refused_or_replayed :
      (expires_at : ℕ) (request : Request) (a : Admission) (t : Keys)
      → a ≢ proceeds
      → Armed expires_at request (a, t)
  refused_or_replayed expires_at request proceeds t h = absurd (h refl)
  refused_or_replayed expires_at request (refused e) t h = tt
  refused_or_replayed expires_at request (replayed r) t h = tt

  after_conflict-ne-proceeds :
      (now : ℕ) (request : Request) (t : Keys) → after_conflict keys now request t ≢ proceeds
  unfolding after_conflict
  after_conflict-ne-proceeds now request t h = ground arith

  admit_new_of_taken :
      (now expires_at : ℕ) (request : Request) (row : KeyRecord) (t : Keys)
      → keys.table.include t request.key ≡ some row
      → admit_new keys now expires_at request t ≡ (after_conflict keys now request t, t)
  unfolding admit_new claim
  admit_new_of_taken now expires_at request row t taken = ground arith

  new-Armed :
      (now expires_at : ℕ) (request : Request) (t : Keys)
      → Armed expires_at request (admit_new keys now expires_at request t)
  unfolding admit_new claim
  new-Armed now expires_at request t = elim (Option-cases (keys.table.include t request.key)) [
    | inl unused ↦
        let new = claimed_row now expires_at request in
        rw (unused, Armed) (now, ground (arith, keys.table.find-save t request.key request.key new))
    | inr (row, taken) ↦
        subst (Armed expires_at request)
          (sym (admit_new_of_taken now expires_at request row t taken))
          (refused_or_replayed expires_at request (after_conflict keys now request t) t
            (after_conflict-ne-proceeds now request t))
  ]

  pub admit-Armed :
      (now expires_at : ℕ) (request : Request) (o : Option KeyRecord) (t : Keys)
      → Armed expires_at request (admit keys now expires_at request o t)
  unfolding admit
  admit-Armed now expires_at request none t = new-Armed now expires_at request t
  admit-Armed now expires_at request (some row) t = existing-Armed now expires_at request row t

  pub intercept-Armed :
      (now expires_at : ℕ) (request : Request) (t u : Keys)
      → intercept keys now expires_at request t ≡ (proceeds, u)
      → Armed expires_at request (proceeds, u)
  unfolding intercept
  intercept-Armed now expires_at request t u e =
      subst (Armed expires_at request) e
        (admit-Armed now expires_at request (row_at t request.key) t)

  pending_lem :
      (later next : ℕ) (other : Request) (row : KeyRecord) (u : Keys)
      → row_at u other.key ≡ some row
      → row.status ≡ KeyStatus.pending
      → later ≤ row.expires_at
      → intercept keys later next other u ≡ (
        if other.body.text == row.request_body then refused Error.conflict else refused bad_request,
        u,
      )
  unfolding intercept admit_existing
  pending_lem later next other row u found waiting early = ground arith

  -- A request that was let through leaves its key pending: until it is settled or has expired, a
  -- request with the same key is refused, as a conflict if the text of its body is that of the stored
  -- one and as a bad request if not, and changes nothing.
  intercept_twice :
      (now expires_at later next : ℕ) (request other : Request) (t u : Keys)
      → intercept keys now expires_at request t ≡ (proceeds, u)
      → later ≤ expires_at
      → other.key ≡ request.key
      → intercept keys later next other u ≡ (
        if other.body.text == request.body.stored_text
            then refused Error.conflict
            else refused bad_request,
        u,
      )
  intercept_twice now expires_at later next request other t u e early same =
      let (created_at, row) = intercept-Armed now expires_at request t u e in
      pending_lem later next other (claimed_row created_at expires_at request) u
        (ap (λ k. row_at u k) same ∙ row) refl early
