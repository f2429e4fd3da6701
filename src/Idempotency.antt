-- ===== src/Idempotency.antt =====
-- interceptors/idempotency.service.ts, idempotency.interceptor.ts and tasks/
-- idempotency-cleanup.task.ts, for requests that carry a key. A text is a number
-- that is compared.
pub mod Replay
pub mod Settled
use stellar_insured_backend.Prelude.{
  Bool, Option, false, if◌then◌else◌, ltb, none, not, some, true, ℕ, ◌==◌,
}
use stellar_insured_backend.Database.{BulkTable, Error, bad_request, record_not_found}

pub data KeyStatus : Type 0 where
  pending completed failed : KeyStatus

-- The cached answer, or the message of an error in its place.
pub record StoredResponse : Type 0 where
  pub data_or_error : ℕ
  pub status_code : ℕ

pub record KeyRecord : Type 0 where
  pub method : ℕ
  pub endpoint : ℕ
  pub request_body : ℕ
  pub response : Option StoredResponse
  pub status : KeyStatus
  pub expires_at : ℕ
  pub created_at : ℕ

-- The text that JSON.stringify makes of a body, and the one that it makes of what the column requestBody
-- gives back of the body: jsonb keeps the members, in an order of its own.
pub record Body : Type 0 where
  pub text : ℕ
  pub stored_text : ℕ

pub record Request : Type 0 where
  pub key : ℕ
  pub method : ℕ
  pub endpoint : ℕ
  pub body : Body

-- What the interceptor does with a request before the handler: it answers from the cache, refuses,
-- or lets the handler run.
pub data Admission : Type 0 where
  replayed : StoredResponse → Admission
  refused : Error → Admission
  proceeds : Admission

-- How the handler ended.
pub data Handled : Type 0 where
  returned threw : StoredResponse → Handled

pub data Claimed : Type 0 where
  created conflict : Claimed

abbrev pub claimed_row : ℕ → ℕ → Request → KeyRecord
claimed_row now expires_at request = record {
  method = request.method;
  endpoint = request.endpoint;
  request_body = request.body.stored_text;
  response = none;
  status = KeyStatus.pending;
  expires_at = expires_at;
  created_at = now;
}

module _ {Keys : Type 0} (keys : BulkTable Keys KeyRecord) where
  unfoldable pub find_existing : ℕ → Keys → Option KeyRecord
  find_existing key t = keys.table.find t key

  -- The key is unique among all the rows, the deleted ones too.
  unfoldable pub claim : ℕ → ℕ → Request → Keys → Claimed × Keys
  claim now expires_at request t = elim (keys.table.include t request.key) [
    | some _ ↦ (conflict, t)
    | none ↦ (created, keys.table.save t request.key (claimed_row now expires_at request))
  ]

  -- The update writes deletedAt null, so that the middleware lets it reach a deleted row, which becomes
  -- live. It keeps when the row was created, and is none where no row has the key.
  unfoldable pub reset_to_pending : ℕ → Request → Keys → Option Keys
  reset_to_pending expires_at request t = elim (keys.table.include t request.key) [
    | none ↦ none
    | some row ↦
        some (keys.table.save t request.key (claimed_row row.created_at expires_at request))
  ]

  abbrev pub write_status : ℕ → KeyStatus → StoredResponse → Keys → Keys
  write_status key status response t = elim (keys.table.find t key) [
    | none ↦ t
    | some row ↦ keys.table.save t key (record row { status = status; response = some response })
  ]

  -- `reached` says whether the write got to the database, through the breaker for a completion.
  unfoldable pub mark_completed : Bool → ℕ → StoredResponse → Keys → Keys
  mark_completed true key response t = write_status key KeyStatus.completed response t
  mark_completed false key response t = t

  unfoldable pub mark_failed : Bool → ℕ → StoredResponse → Keys → Keys
  mark_failed true key response t = write_status key KeyStatus.failed response t
  mark_failed false key response t = t

  -- The re-arming of a key that was read; a row that went away meanwhile is an error.
  unfoldable pub rearm : ℕ → Request → Keys → Admission × Keys
  unfolding reset_to_pending
  rearm expires_at request t = elim (reset_to_pending expires_at request t) [
    | none ↦ (refused record_not_found, t)
    | some u ↦ (proceeds, u)
  ]

  unfoldable pub admit_existing : ℕ → ℕ → Request → KeyRecord → Keys → Admission × Keys
  admit_existing now expires_at request row t =
      if ltb row.expires_at now
      then rearm expires_at request t
      else if not (request.body.text == row.request_body)
      then (refused bad_request, t)
      else elim row.status [
        | KeyStatus.pending ↦ (refused Error.conflict, t)
        | KeyStatus.failed ↦ rearm expires_at request t
        | KeyStatus.completed ↦ elim row.response [
          | some response ↦ (replayed response, t)
          | none ↦ rearm expires_at request t
        ]
      ]

  -- The second read after a conflict.
  unfoldable pub after_conflict : ℕ → Request → Keys → Admission
  unfolding find_existing
  after_conflict now request t = elim (find_existing request.key t) [
    | none ↦ refused Error.conflict
    | some winner ↦ elim winner.status [
      | KeyStatus.completed ↦ elim winner.response [
        | some response ↦
            if ltb winner.expires_at now then refused Error.conflict else replayed response
        | none ↦ refused Error.conflict
      ]
      | _ ↦ refused Error.conflict
    ]
  ]

  unfoldable pub admit_new : ℕ → ℕ → Request → Keys → Admission × Keys
  unfolding claim after_conflict
  admit_new now expires_at request t =
      let (claimed, u) = claim now expires_at request t in
      elim claimed [ created ↦ (proceeds, u) | conflict ↦ (after_conflict now request u, u) ]

  -- The part of the interceptor after its read, which another request may come before.
  unfoldable pub admit : ℕ → ℕ → Request → Option KeyRecord → Keys → Admission × Keys
  unfolding admit_existing admit_new rearm
  admit now expires_at request none t = admit_new now expires_at request t
  admit now expires_at request (some row) t = admit_existing now expires_at request row t

  -- A request that no other comes between.
  unfoldable pub intercept : ℕ → ℕ → Request → Keys → Admission × Keys
  unfolding find_existing admit
  intercept now expires_at request t = admit now expires_at request (find_existing request.key t) t

  -- What is recorded when the handler has ended.
  unfoldable pub record_outcome : Bool → ℕ → Handled → Keys → Keys
  unfolding mark_completed mark_failed
  record_outcome reached key (returned response) t = mark_completed reached key response t
  record_outcome reached key (threw response) t = mark_failed reached key response t

  -- The nightly cleanup, through the middleware.
  unfoldable pub handle_cron : ℕ → Keys → Keys
  handle_cron stale_date t = keys.remove_many t (λ row. ltb row.created_at stale_date)
