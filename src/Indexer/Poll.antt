-- ===== src/Indexer/Poll.antt =====
-- The processing of events and the poll cycle of indexer/services/indexer.service.ts.
use stellar_insured_backend.Prelude.{
  Bool, List, Option, [], false, if◌then◌else◌, is_some, ltb, max, none, some, true, ℕ, ◌+◌, ◌-◌,
  ◌∷◌,
}
use stellar_insured_backend.Database.{Result, err, failure, ok}
use stellar_insured_backend.Service.{Io, pure, ◌>>=◌, ◌>>◌}
use stellar_insured_backend.Indexer.{
  Backend, Event, LogEntry, State, event_failed, poll_failed, progress, quarantined, routed,
  unparsed, update_cursor,
}

module _ (b : Backend) where
  unfoldable pub is_event_processed : ℕ → State b → Bool
  is_event_processed id s = is_some (b.events.table.find s.processed id)

  -- An upsert with an empty update: the first row stays.
  unfoldable pub mark_event_processed : Event → Io (State b) (Unit {0})
  unfolding is_event_processed
  mark_event_processed event s = if is_event_processed event.id s then (ok tt, s) else (
    ok tt,
    record s {
      processed = b.events.table.save s.processed event.id (record { ledger_seq = event.ledger });
    },
  )

  -- Its own failure is caught and logged.
  unfoldable pub quarantine_event : Event → Io (State b) (Unit {0})
  quarantine_event event s = (ok tt, record s { quarantine = event.id ∷ s.quarantine })

  unfoldable pub run_handler : Event → Io (State b) Bool
  run_handler event s = let (r, d) = b.handle event s.domain in (r, record s { domain = d })

  unfoldable pub process_event : Event → Io (State b) Bool
  unfolding is_event_processed mark_event_processed quarantine_event
  process_event event s =
      if is_event_processed event.id s then (ok false, s) else elim (b.parse_event event) [
        | unparsed ↦ (ok false, s)
        | quarantined ↦ (quarantine_event event >> (mark_event_processed event >> pure false)) s
        | routed ↦
            (run_handler event >>= λ success.
            if success then mark_event_processed event >> pure true else pure false)
              s
      ]

  unfoldable pub log_entry : LogEntry → State b → State b
  log_entry entry s = record s { logs = entry ∷ s.logs }

  -- The loop over the fetched events: the last ledger with a success and the number of successes.
  unfoldable pub process_all : List Event → ℕ → ℕ → State b → (ℕ × ℕ) × State b
  process_all [] last count s = ((last, count), s)
  process_all (event ∷ events) last count s =
      let (r, t) = process_event event s in
      elim r [
        | ok true ↦ process_all events (max last event.ledger) (count + 1) t
        | ok false ↦ process_all events last count t
        | err _ ↦ process_all events last count (log_entry (event_failed event.id) t)
      ]

  abbrev pub start_ledger : State b → ℕ
  start_ledger s = elim s.cursor [ none ↦ 1 | some c ↦ c.last_ledger_seq + 1 ]

  -- `?.lastLedgerSeq ?? 0`
  abbrev pub last_seq : State b → ℕ
  last_seq s = elim s.cursor [ none ↦ 0 | some c ↦ c.last_ledger_seq ]

  -- The end of a cycle that found events.
  unfoldable pub advance : ℕ → ℕ → ℕ → Io (State b) (Unit {0})
  unfolding update_cursor log_entry
  advance last count latest s =
      if ltb (last_seq s) last
      then (update_cursor b last none >>= λ _ t. (ok tt, log_entry (progress last latest count) t))
          s
      else (ok tt, log_entry (progress last latest count) s)

  -- What the cycle does with the fetched events, none where an RPC call failed.
  unfoldable pub poll_found : ℕ → Option (List Event) → Io (State b) (Unit {0})
  poll_found newest none s = (err failure, s)
  poll_found newest (some []) s = update_cursor b newest none s
  poll_found newest (some (event ∷ events)) s =
      let ((last, count), t) = process_all (event ∷ events) (start_ledger s - 1) 0 s in
      advance last count newest t

  -- The body of the `try`, on the latest ledger, none where the RPC call failed.
  unfoldable pub poll_body : Option ℕ → (ℕ → ℕ → Option (List Event)) → Io (State b) (Unit {0})
  poll_body none fetch s = (err failure, s)
  poll_body (some newest) fetch s =
      if ltb newest (start_ledger s)
      then (ok tt, s)
      else poll_found newest (fetch (start_ledger s) newest) s

  -- The `catch` and the `finally`.
  unfoldable pub finish : Result (Unit {0}) × State b → State b
  unfolding log_entry
  finish (ok _, t) = record t { is_running = false }
  finish (err _, t) = record (log_entry poll_failed t) { is_running = false }

  unfoldable pub poll_events : Option ℕ → (ℕ → ℕ → Option (List Event)) → State b → State b
  unfolding finish
  poll_events latest fetch s =
      if s.is_running then s else finish (poll_body latest fetch (record s { is_running = true }))
