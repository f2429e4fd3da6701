-- ===== src/Tests/Events.antt =====
-- Runs of the indexer.
use stellar_insured_backend.Prelude.{
  List, Option, [], arith, false, if◌then◌else◌, none, refl, some, true, ℕ, ◌+◌, ◌==◌, ◌∷◌, ◌≡◌,
}
use stellar_insured_backend.Database.{err, failure, ok}
use stellar_insured_backend.Database.Bulk.{memory_bulk}
use stellar_insured_backend.Database.Memory.{Rows}
use stellar_insured_backend.Indexer.Poll.{last_seq, poll_events, process_event}
use stellar_insured_backend.Indexer.Events.{event_at}
use stellar_insured_backend.Indexer.Cycle.{NotBehind, poll_events-NotBehind}
use stellar_insured_backend.Indexer.Gaps.{poll_passes_failure, reorg_never_found}
use stellar_insured_backend.Indexer.Fetch.{Pages}
use stellar_insured_backend.Indexer.{
  Backend, Cursor, Event, LedgerInfo, ProcessedEvent, State, detect_reorg, get_start_ledger, routed,
}

-- A handler that counts the events and fails on those of ledger 7.
abbrev backend : Backend
backend = record {
  Events = Rows ProcessedEvent;
  Domain = ℕ;
  events = memory_bulk ProcessedEvent;
  parse_event = λ event. routed;
  handle = λ event d. if event.ledger == 7 then (err failure, d) else (ok true, d + 1);
}

abbrev at_five : Cursor
at_five = record { last_ledger_seq = 5; last_ledger_hash = none }

abbrev hashed : Cursor
hashed = record { last_ledger_seq = 5; last_ledger_hash = some 77 }

abbrev idle : State backend
idle = record {
  cursor = some at_five;
  processed = (3, true, record { ledger_seq = 4 }) ∷ [];
  domain = 0;
  quarantine = [];
  logs = [];
  is_running = false;
}

abbrev bad_event : Event
bad_event = record { id = 10; ledger = 7 }

abbrev good_event : Event
good_event = record { id = 11; ledger = 8 }

abbrev handled_once : State backend
handled_once = let (r, t) = process_event backend good_event idle in t

abbrev answers : ℕ → ℕ → Option (List Event)
answers from to = some (bad_event ∷ good_event ∷ [])

poll_events-NotBehind_example :
    NotBehind backend idle (poll_events backend (some 9) answers idle)
    × (idle.is_running ≡ false → (poll_events backend (some 9) answers idle).is_running ≡ false)
    × (idle.is_running ≡ true → poll_events backend (some 9) answers idle ≡ idle)
poll_events-NotBehind_example = poll_events-NotBehind backend (some 9) answers idle

poll_passes_failure_example :
    (last_seq backend (poll_events backend (some 9) answers idle) ≡ 8)
    × (event_at backend (poll_events backend (some 9) answers idle) 10 ≡ none)
poll_passes_failure_example =
    poll_passes_failure backend bad_event good_event 9 failure at_five 0 1 idle refl refl
      (omega arith) (omega arith) (omega arith) (λ h. omega (arith, h)) refl refl refl refl refl
      refl

reorg_never_found_example :
    (detect_reorg backend
      (record { sequence = 2; hash = 1 })
      (poll_events backend (some 9) answers idle)).has_reorg
    ≡ false
reorg_never_found_example =
    reorg_never_found backend (some 9) answers (record { sequence = 2; hash = 1 }) idle refl

abbrev behind : LedgerInfo
behind = record { sequence = 4; hash = 1 }

abbrev known : State backend
known = record idle { cursor = some hashed }

abbrev fresh_start : State backend
fresh_start = record idle { cursor = none }

abbrev started : State backend
started = let (r, t) = get_start_ledger backend none 100 fresh_start in t

abbrev hundred : ℕ
hundred = 100

-- A first page of one event, and empty pages after it, each of which names the next one.
abbrev empty_pages : Pages
empty_pages none = some (good_event ∷ [], some 1)
empty_pages (some c) = some ([], some (c + 1))

-- Two pages of one event.
abbrev two_pages : Pages
two_pages none = some (good_event ∷ [], some 1)
two_pages (some c) = some (good_event ∷ [], none)
