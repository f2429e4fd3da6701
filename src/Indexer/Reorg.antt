-- ===== src/Indexer/Reorg.antt =====
-- The start of the indexer, and chain reorganisations in indexer/services/ledger-tracker.service.ts.
use stellar_insured_backend.Prelude.{
  Option, arith, ltb, min, none, refl, some, true, ℕ, ◌+◌, ◌-◌, ◌<◌, ◌↔◌, ◌≡◌, ◌≢◌, ◌≤◌, ◌⊎◌,
}
use stellar_insured_backend.Database.{ok}
use stellar_insured_backend.Indexer.Poll.{start_ledger}
use stellar_insured_backend.Indexer.Events.{event_at}
use stellar_insured_backend.Indexer.{
  Backend, Cursor, LedgerInfo, ProcessedEvent, ReorgDetectionResult, State, detect_reorg,
  get_start_ledger, handle_reorg,
}

module _ (b : Backend) where
  -- A start that is read again, without a poll between, is the same, whatever the network says then,
  -- if the configured start is not 0 and the network was at ledger 1 or later.
  start_twice :
      (configured : Option ℕ) (latest later n : ℕ) (s t : State b)
      → configured ≢ some 0
      → 1 ≤ latest
      → get_start_ledger b configured latest s ≡ (ok n, t)
      → get_start_ledger b configured later t ≡ (ok n, t)
  unfolding get_start_ledger
  start_twice configured latest later n s t set new e = ground arith

  -- With a cursor that has a hash, a reorganisation is reported exactly when the current ledger is
  -- behind the cursor, or is the cursor's with another hash.
  detect_reorg_iff :
      (current : LedgerInfo) (c : Cursor) (hash : ℕ) (s : State b)
      → s.cursor ≡ some c
      → c.last_ledger_hash ≡ some hash
      → ((detect_reorg b current s).has_reorg ≡ true) ↔ (
          (current.sequence < c.last_ledger_seq)
          ⊎ ((current.sequence ≡ c.last_ledger_seq) × (current.hash ≢ hash)))
  unfolding detect_reorg
  detect_reorg_iff current c hash s there known = (λ h. ground arith, λ h. ground arith)

  detect_reorg-last_valid :
      (current : LedgerInfo) (c : Cursor) (s : State b)
      → s.cursor ≡ some c
      → (detect_reorg b current s).has_reorg ≡ true
      → (detect_reorg b current s).last_valid_ledger ≤ c.last_ledger_seq
  unfolding detect_reorg
  detect_reorg-last_valid current c s there found = ground arith

  handle_reorg_of_found :
      (threshold : ℕ) (r : ReorgDetectionResult) (c : Cursor) (s : State b)
      → s.cursor ≡ some c
      → r.has_reorg ≡ true
      → handle_reorg b threshold r s ≡ (
        ok (r.last_valid_ledger - min (r.reorg_depth + 2) threshold),
        record s {
          cursor = some (record {
            last_ledger_seq = r.last_valid_ledger - min (r.reorg_depth + 2) threshold;
            last_ledger_hash = none;
          });
          processed =
              b.events.hard_delete_many s.processed
                (λ e. ltb (r.last_valid_ledger - min (r.reorg_depth + 2) threshold) e.ledger_seq);
        },
      )
  unfolding handle_reorg
  handle_reorg_of_found threshold r c s there found = ground arith

  kept_lem :
      (safe id : ℕ) (e : ProcessedEvent) (s : State b)
      → (b.events.table.find (b.events.hard_delete_many s.processed (λ e. ltb safe e.ledger_seq)) id
          ≡ some e)
        ↔ ((event_at b s id ≡ some e) × (e.ledger_seq ≤ safe))
  kept_lem safe id e s =
      let law = b.events.find-hard_delete_many s.processed (λ e. ltb safe e.ledger_seq) id in
      (λ h. ground (arith, law, h), λ h. ground (arith, law, h))

  -- With a cursor, handling a reorganisation that was detected succeeds, moves the cursor back to a
  -- ledger that is not after the last valid one nor the old cursor, keeps the processed events up
  -- to it and no other, and leaves no row, deleted or not, of an event after it.
  detect-handle_reorg :
      (threshold : ℕ) (current : LedgerInfo) (c : Cursor) (s : State b)
      → s.cursor ≡ some c
      → (detect_reorg b current s).has_reorg ≡ true
      → (safe : ℕ) × (t : State b) × (handle_reorg b threshold (detect_reorg b current s) s
          ≡ (ok safe, t))
        × (safe ≤ (detect_reorg b current s).last_valid_ledger)
        × (safe ≤ c.last_ledger_seq)
        × (start_ledger b t ≡ safe + 1)
        × ((id : ℕ) (e : ProcessedEvent)
            → (event_at b t id ≡ some e) ↔ ((event_at b s id ≡ some e) × (e.ledger_seq ≤ safe)))
        × ((id : ℕ) (e : ProcessedEvent)
            → b.events.table.include t.processed id ≡ some e
            → e.ledger_seq ≤ safe)
  detect-handle_reorg threshold current c s there found =
      let r = detect_reorg b current s in
      let safe = r.last_valid_ledger - min (r.reorg_depth + 2) threshold in
      let before = detect_reorg-last_valid current c s there found in
      (
        safe,
        record s {
          cursor = some (record { last_ledger_seq = safe; last_ledger_hash = none });
          processed = b.events.hard_delete_many s.processed (λ e. ltb safe e.ledger_seq);
        },
        handle_reorg_of_found threshold r c s there found,
        omega arith,
        omega (arith, before),
        refl,
        λ id e. kept_lem safe id e s,
        λ id e h. ground (
          arith,
          h,
          b.events.include-hard_delete_many s.processed (λ e. ltb safe e.ledger_seq) id,
        ),
      )
