-- ===== src/Indexer.antt =====
-- indexer/services/ledger-tracker.service.ts and the poll cycle of indexer/services/
-- indexer.service.ts, for one network. What the handlers do to the rest of the database, the decoding
-- of an event and the answers of the RPC server are arguments.
pub mod Poll
pub mod Events
pub mod Cycle
pub mod Reorg
pub mod Gaps
pub mod Fetch
use stellar_insured_backend.Prelude.{
  Bool, List, Option, false, if◌then◌else◌, ltb, min, none, not, some, true, ℕ, ◌+◌, ◌-◌, ◌==◌,
}
use stellar_insured_backend.Database.{BulkTable, err, ok, record_not_found}
use stellar_insured_backend.Service.{Io, pure, ◌>>◌}

pub record Cursor : Type 0 where
  pub last_ledger_seq : ℕ
  pub last_ledger_hash : Option ℕ

pub record Event : Type 0 where
  pub id : ℕ
  pub ledger : ℕ

-- A row of the processed events, under the id of its event.
pub record ProcessedEvent : Type 0 where
  pub ledger_seq : ℕ

pub record LedgerInfo : Type 0 where
  pub sequence : ℕ
  pub hash : ℕ

pub record ReorgDetectionResult : Type 0 where
  pub has_reorg : Bool
  pub reorg_depth : ℕ
  pub last_valid_ledger : ℕ
  pub new_latest_ledger : ℕ

pub data LogEntry : Type 0 where
  event_failed : ℕ → LogEntry
  poll_failed : LogEntry
  progress : ℕ → ℕ → ℕ → LogEntry

-- What the decoding of an event gave: nothing, a garbage event to set aside, or an event to handle.
pub data Parsed : Type 0 where
  unparsed quarantined routed : Parsed

-- The table of processed events, and what the event handler does to the state `Domain` of the rest.
pub record Backend : Type 1 where
  pub Events : Type 0
  pub Domain : Type 0
  pub events : BulkTable Events ProcessedEvent
  pub parse_event : Event → Parsed
  pub handle : Event → Io Domain Bool

pub record State (b : Backend) : Type 0 where
  pub cursor : Option Cursor
  pub processed : b.Events
  pub domain : b.Domain
  pub quarantine : List ℕ
  pub logs : List LogEntry
  pub is_running : Bool

module _ (b : Backend) where
  unfoldable pub upsert_cursor : ℕ → Io (State b) (Unit {0})
  upsert_cursor seq s = (
    ok tt,
    record s { cursor = some (record { last_ledger_seq = seq; last_ledger_hash = none }) },
  )

  -- Without a hash the column is set to null.
  unfoldable pub update_cursor : ℕ → Option ℕ → Io (State b) (Unit {0})
  update_cursor seq hash s = elim s.cursor [
    | none ↦ (err record_not_found, s)
    | some _ ↦ (
      ok tt,
      record s { cursor = some (record { last_ledger_seq = seq; last_ledger_hash = hash }) },
    )
  ]

  -- The configured start is absent or 0 where the option is none.
  unfoldable pub get_start_ledger : Option ℕ → ℕ → Io (State b) ℕ
  unfolding upsert_cursor
  get_start_ledger configured latest s = elim s.cursor [
    | some c ↦ (ok (c.last_ledger_seq + 1), s)
    | none ↦ elim configured [
      | some start ↦ (upsert_cursor (start - 1) >> pure start) s
      | none ↦ (upsert_cursor (latest - 1) >> pure latest) s
    ]
  ]

  -- The comparison with a cursor that has a hash.
  unfoldable pub compare_ledgers : LedgerInfo → ℕ → ℕ → ReorgDetectionResult
  compare_ledgers current seq hash =
      if current.sequence == seq
      then (if not (current.hash == hash)
          then record {
            has_reorg = true;
            reorg_depth = 1;
            last_valid_ledger = current.sequence - 1;
            new_latest_ledger = current.sequence;
          }
          else record {
            has_reorg = false;
            reorg_depth = 0;
            last_valid_ledger = current.sequence;
            new_latest_ledger = current.sequence;
          })
      else if ltb seq current.sequence
      then record {
        has_reorg = false;
        reorg_depth = 0;
        last_valid_ledger = seq;
        new_latest_ledger = current.sequence;
      }
      else record {
        has_reorg = true;
        reorg_depth = seq - current.sequence;
        last_valid_ledger = current.sequence;
        new_latest_ledger = current.sequence;
      }

  abbrev no_reorg : LedgerInfo → ReorgDetectionResult
  no_reorg current = record {
    has_reorg = false;
    reorg_depth = 0;
    last_valid_ledger = current.sequence - 1;
    new_latest_ledger = current.sequence;
  }

  unfoldable pub detect_reorg : LedgerInfo → State b → ReorgDetectionResult
  unfolding compare_ledgers
  detect_reorg current s = elim s.cursor [
    | none ↦ no_reorg current
    | some c ↦ elim c.last_ledger_hash [
      | none ↦ no_reorg current
      | some hash ↦ compare_ledgers current c.last_ledger_seq hash
    ]
  ]

  -- The hard deletion passes the middleware with its flag, so that it removes the deleted rows too; the
  -- row of its audit is in SoftDelete.Service.
  unfoldable pub handle_reorg : ℕ → ReorgDetectionResult → Io (State b) ℕ
  unfolding update_cursor
  handle_reorg threshold reorg s =
      if reorg.has_reorg
      then (let safe = reorg.last_valid_ledger - min (reorg.reorg_depth + 2) threshold in
          let kept = record s {
            processed = b.events.hard_delete_many s.processed (λ e. ltb safe e.ledger_seq);
          } in
          (update_cursor safe none >> pure safe) kept)
      else (ok reorg.new_latest_ledger, s)
