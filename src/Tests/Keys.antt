-- ===== src/Tests/Keys.antt =====
-- Runs of the idempotency interceptor.
use stellar_insured_backend.Prelude.{
  [], arith, false, if◌then◌else◌, refl, some, true, ◌==◌, ◌∷◌, ◌≡◌,
}
use stellar_insured_backend.Database.{Error, bad_request}
use stellar_insured_backend.Database.Bulk.{BulkTable, memory_bulk}
use stellar_insured_backend.Database.Memory.{Rows}
use stellar_insured_backend.Idempotency.Settled.{deleted_key_refused, intercept-replays, rearm_race}
use stellar_insured_backend.Idempotency.{
  KeyRecord, KeyStatus, Request, StoredResponse, admit, claimed_row, intercept, proceeds,
  record_outcome, refused, replayed, returned,
}

abbrev keys : BulkTable (Rows KeyRecord) KeyRecord
keys = memory_bulk KeyRecord

abbrev order : Request
order = record { key = 5; method = 1; endpoint = 2; body = record { text = 30; stored_text = 31 } }

abbrev changed : Request
changed = record {
  key = 5;
  method = 1;
  endpoint = 2;
  body = record { text = 31; stored_text = 31 };
}

abbrev answer : StoredResponse
answer = record { data_or_error = 8; status_code = 201 }

abbrev nothing : Rows KeyRecord
nothing = []

abbrev claimed_table : Rows KeyRecord
claimed_table = let (a, t) = intercept keys 10 90 order nothing in t

-- The members of the body come back in another order: the request itself is refused.
intercept-replays_example :
    intercept keys 20 100 order (record_outcome keys true 5 (returned answer) claimed_table) ≡ (
      if order.body.text == order.body.stored_text then replayed answer else refused bad_request,
      record_outcome keys true 5 (returned answer) claimed_table,
    )
unfolding intercept
intercept-replays_example =
    intercept-replays keys 10 90 20 100 order order answer nothing claimed_table refl (omega arith)
      refl

-- After the cleanup.
abbrev cleaned : Rows KeyRecord
cleaned = (5, false, claimed_row 10 90 order) ∷ []

deleted_key_refused_example :
    intercept keys 500 600 order cleaned ≡ (refused Error.conflict, cleaned)
deleted_key_refused_example =
    deleted_key_refused keys 500 600 order (claimed_row 10 90 order) cleaned refl refl

abbrev failed_row : KeyRecord
failed_row = record (claimed_row 10 90 order) { status = KeyStatus.failed; response = some answer }

abbrev failed_table : Rows KeyRecord
failed_table = (5, true, failed_row) ∷ []

-- The same key and body at another endpoint.
abbrev elsewhere : Request
elsewhere = record changed { endpoint = 3 }

rearm_race_example :
    ((admit keys 20 100 changed (some failed_row) failed_table).0 ≡ proceeds)
    × ((admit keys 21 101 elsewhere
          (some failed_row)
          (admit keys 20 100 changed (some failed_row) failed_table).1).0
        ≡ proceeds)
rearm_race_example =
    rearm_race keys 20 100 21 101 changed elsewhere failed_row failed_table refl refl refl refl refl
      (omega arith) (omega arith)
