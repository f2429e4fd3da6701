-- ===== src/Indexer/Events.antt =====
-- Events are handled once.
use stellar_insured_backend.Prelude.{
  Option, Option-cases, ap, arith, false, inl, inr, is_some, some, sym, true, true-ne-false, ℕ, ◌∙◌,
  ◌≡◌,
}
use stellar_insured_backend.Database.{ok}
use stellar_insured_backend.Indexer.Poll.{process_event, run_handler}
use stellar_insured_backend.Indexer.{Backend, Event, ProcessedEvent, State}

module _ (b : Backend) where
  abbrev pub event_at : State b → ℕ → Option ProcessedEvent
  event_at s id = b.events.table.find s.processed id

  -- An event that is processed already is answered false, and nothing changes.
  pub process_event_of_processed :
      (event : Event) (r : ProcessedEvent) (s : State b)
      → event_at s event.id ≡ some r
      → process_event b event s ≡ (ok false, s)
  unfolding process_event
  process_event_of_processed event r s done = ground arith

  -- A success leaves the event among the processed ones.
  process_event-marks :
      (event : Event) (s t : State b)
      → process_event b event s ≡ (ok true, t)
      → is_some (event_at t event.id) ≡ true
  unfolding process_event run_handler
  process_event-marks event s t e = ground (
    arith,
    e,
    b.events.table.find-save s.processed event.id event.id (record { ledger_seq = event.ledger }),
  )

  -- Once an event was handled with success, handling it again is answered false and changes nothing.
  process_once :
      (event : Event) (s t : State b)
      → process_event b event s ≡ (ok true, t)
      → process_event b event t ≡ (ok false, t)
  process_once event s t e = elim (Option-cases (event_at t event.id)) [
    | inl missing ↦
        absurd (true-ne-false (sym (process_event-marks event s t e) ∙ ap is_some missing))
    | inr (r, found) ↦ process_event_of_processed event r t found
  ]

  -- The cursor and the running flag stay.
  pub process_event-Frame :
      (event : Event) (s : State b)
      → ((process_event b event s).1.cursor ≡ s.cursor)
        × ((process_event b event s).1.is_running ≡ s.is_running)
  unfolding process_event run_handler
  process_event-Frame event s = (ground arith, ground arith)
