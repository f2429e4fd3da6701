-- ===== src/Indexer/Gaps.antt =====
-- What a cycle leaves behind: an event that failed, and a cursor without a hash.
use stellar_insured_backend.Prelude.{
  Bool, Bool-cases, List, Option, [], ap, arith, false, inl, inr, ltb, max, none, refl, some, true,
  ℕ, ◌+◌, ◌-◌, ◌<◌, ◌∙◌, ◌∷◌, ◌≡◌, ◌≢◌,
}
use stellar_insured_backend.Database.{Error, Result, err, ok}
use stellar_insured_backend.Indexer.Events.{event_at}
use stellar_insured_backend.Indexer.Cycle.{process_all_lem}
use stellar_insured_backend.Indexer.Poll.{
  advance, finish, last_seq, log_entry, poll_body, poll_events, poll_found, process_all,
  process_event, run_handler, start_ledger,
}
use stellar_insured_backend.Indexer.{
  Backend, Cursor, Event, LedgerInfo, State, detect_reorg, event_failed, routed, update_cursor,
}

module _ (b : Backend) where
  abbrev pub hash_of : State b → Option ℕ
  hash_of s = elim s.cursor [ none ↦ none | some c ↦ c.last_ledger_hash ]

  update_cursor-hash :
      (seq : ℕ) (s : State b) → hash_of s ≡ none → hash_of (update_cursor b seq none s).1 ≡ none
  unfolding update_cursor
  update_cursor-hash seq s h = ground arith

  advance-hash :
      (last count latest : ℕ) (s : State b)
      → hash_of s ≡ none
      → hash_of (advance b last count latest s).1 ≡ none
  unfolding advance update_cursor
  advance-hash last count latest s h = ground arith

  found-hash :
      (newest : ℕ) (o : Option (List Event)) (s : State b)
      → hash_of s ≡ none
      → hash_of (poll_found b newest o s).1 ≡ none
  unfolding poll_found
  found-hash newest none s h = h
  found-hash newest (some []) s h = update_cursor-hash newest s h
  found-hash newest (some (event ∷ events)) s h =
      let loop = process_all b (event ∷ events) (start_ledger b s - 1) 0 s in
      let same = (process_all_lem b (event ∷ events) (start_ledger b s - 1) 0 s).cursor in
      advance-hash loop.0.0 loop.0.1 newest loop.1
        (ap (λ c. elim c [ none ↦ none | some d ↦ d.last_ledger_hash ]) same ∙ h)

  body-hash :
      (latest : Option ℕ) (fetch : ℕ → ℕ → Option (List Event)) (s : State b)
      → hash_of s ≡ none
      → hash_of (poll_body b latest fetch s).1 ≡ none
  unfolding poll_body
  body-hash none fetch s h = h
  body-hash (some newest) fetch s h = elim (Bool-cases (ltb newest (start_ledger b s))) [
    | inl done ↦ rw (done) h
    | inr more ↦ rw (more) (found-hash newest (fetch (start_ledger b s) newest) s h)
  ]

  finish-hash : (r : Result (Unit {0}) × State b) → hash_of r.1 ≡ none → hash_of (finish b r) ≡ none
  unfolding finish
  finish-hash (ok v, t) h = h
  finish-hash (err e, t) h = h

  poll_events-hash :
      (latest : Option ℕ) (fetch : ℕ → ℕ → Option (List Event)) (s : State b)
      → hash_of s ≡ none
      → hash_of (poll_events b latest fetch s) ≡ none
  unfolding poll_events
  poll_events-hash latest fetch s h = elim (Bool-cases s.is_running) [
    | inl busy ↦ rw (busy) h
    | inr idle ↦
        let started = record s { is_running = true } in
        rw (idle)
          (finish-hash (poll_body b latest fetch started) (body-hash latest fetch started h))
  ]

  -- From a cursor without a hash, or none, a reorganisation is not reported after a poll cycle,
  -- whatever the current ledger is.
  pub reorg_never_found :
      (latest : Option ℕ) (fetch : ℕ → ℕ → Option (List Event)) (current : LedgerInfo) (s : State b)
      → hash_of s ≡ none
      → (detect_reorg b current (poll_events b latest fetch s)).has_reorg ≡ false
  unfolding detect_reorg
  reorg_never_found latest fetch current s h =
      let after = poll_events-hash latest fetch s h in ground (arith, after)

  failed_lem :
      (event : Event) (x : Error) (d : b.Domain) (s : State b)
      → event_at b s event.id ≡ none
      → b.parse_event event ≡ routed
      → b.handle event s.domain ≡ (err x, d)
      → process_event b event s ≡ (err x, record s { domain = d })
  unfolding process_event run_handler
  failed_lem event x d s new parsed fails = ground arith

  handled_lem :
      (event : Event) (d : b.Domain) (s : State b)
      → event_at b s event.id ≡ none
      → b.parse_event event ≡ routed
      → b.handle event s.domain ≡ (ok true, d)
      → process_event b event s ≡ (
        ok true,
        record s {
          domain = d;
          processed =
              b.events.table.save s.processed event.id (record { ledger_seq = event.ledger });
        },
      )
  unfolding process_event run_handler
  handled_lem event d s new parsed works = ground arith

  abbrev handled : Event → Event → b.Domain → State b → State b
  handled first second d s = record s {
    domain = d;
    processed = b.events.table.save s.processed second.id (record { ledger_seq = second.ledger });
    logs = event_failed first.id ∷ s.logs;
  }

  cons_failed :
      (event : Event) (events : List Event) (last count : ℕ) (x : Error) (s t : State b)
      → process_event b event s ≡ (err x, t)
      → process_all b (event ∷ events) last count s
        ≡ process_all b events last count (log_entry b (event_failed event.id) t)
  unfolding process_all
  cons_failed event events last count x s t e =
      ap
        (λ (r : Result Bool × State b). elim r.0 [
          | ok true ↦ process_all b events (max last event.ledger) (count + 1) r.1
          | ok false ↦ process_all b events last count r.1
          | err _ ↦ process_all b events last count (log_entry b (event_failed event.id) r.1)
        ])
        e

  cons_handled :
      (event : Event) (events : List Event) (last count : ℕ) (s t : State b)
      → process_event b event s ≡ (ok true, t)
      → process_all b (event ∷ events) last count s
        ≡ process_all b events (max last event.ledger) (count + 1) t
  unfolding process_all
  cons_handled event events last count s t e =
      ap
        (λ (r : Result Bool × State b). elim r.0 [
          | ok true ↦ process_all b events (max last event.ledger) (count + 1) r.1
          | ok false ↦ process_all b events last count r.1
          | err _ ↦ process_all b events last count (log_entry b (event_failed event.id) r.1)
        ])
        e

  loop_lem :
      (first second : Event) (last : ℕ) (x : Error) (d d' : b.Domain) (s : State b)
      → event_at b s first.id ≡ none
      → event_at b s second.id ≡ none
      → b.parse_event first ≡ routed
      → b.parse_event second ≡ routed
      → b.handle first s.domain ≡ (err x, d)
      → b.handle second d ≡ (ok true, d')
      → process_all b (first ∷ second ∷ []) last 0 s
        ≡ ((max last second.ledger, 1), handled first second d' s)
  unfolding process_all log_entry
  loop_lem first second last x d d' s new₁ new₂ parsed₁ parsed₂ fails works =
      let s₂ : State b = record s { domain = d; logs = event_failed first.id ∷ s.logs } in
      cons_failed first (second ∷ []) last 0 x s (record s { domain = d })
        (failed_lem first x d s new₁ parsed₁ fails)
      ∙ cons_handled second [] last 0 s₂ (handled first second d' s)
          (handled_lem second d' s₂ new₂ parsed₂ works)

  advanced :
      (last count newest : ℕ) (c : Cursor) (s : State b)
      → s.cursor ≡ some c
      → c.last_ledger_seq < last
      → (last_seq b (advance b last count newest s).1 ≡ last)
        × ((advance b last count newest s).1.processed ≡ s.processed)
  unfolding advance update_cursor
  advanced last count newest c s there ahead = (ground arith, ground arith)

  finished :
      (r : Result (Unit {0}) × State b)
      → (last_seq b (finish b r) ≡ last_seq b r.1) × ((finish b r).processed ≡ r.1.processed)
  unfolding finish
  finished (ok v, t) = (refl, refl)
  finished (err e, t) = (refl, refl)

  found_events :
      (newest : ℕ) (events : List Event) (event : Event) (c : Cursor) (s : State b)
      → s.is_running ≡ false
      → s.cursor ≡ some c
      → c.last_ledger_seq < newest
      → poll_events b (some newest) (λ _ _. some (event ∷ events)) s
        ≡ finish b (poll_found b newest (some (event ∷ events)) (record s { is_running = true }))
  unfolding poll_events poll_body
  found_events newest events event c s idle there behind =
      let late : ltb newest (start_ledger b s) ≡ false = ground arith in rw (idle, late) refl

  -- A cycle that is not behind another one and finds two new events beyond the cursor, the first of
  -- which its handler fails on and the second of which, on a later ledger, succeeds, moves the
  -- cursor to the second event's ledger; the first event stays unprocessed.
  pub poll_passes_failure :
      (first second : Event) (newest : ℕ) (x : Error) (c : Cursor) (d d' : b.Domain) (s : State b)
      → s.is_running ≡ false
      → s.cursor ≡ some c
      → c.last_ledger_seq < newest
      → c.last_ledger_seq < first.ledger
      → first.ledger < second.ledger
      → first.id ≢ second.id
      → event_at b s first.id ≡ none
      → event_at b s second.id ≡ none
      → b.parse_event first ≡ routed
      → b.parse_event second ≡ routed
      → b.handle first s.domain ≡ (err x, d)
      → b.handle second d ≡ (ok true, d')
      → (last_seq b (poll_events b (some newest) (λ _ _. some (first ∷ second ∷ [])) s)
          ≡ second.ledger)
        × (event_at b (poll_events b (some newest) (λ _ _. some (first ∷ second ∷ [])) s) first.id
            ≡ none)
  unfolding poll_found
  poll_passes_failure first second newest x c d d' s idle there behind before later other new₁ new₂
        parsed₁ parsed₂ fails works =
      let s₁ = record s { is_running = true } in
      let t = handled first second d' s₁ in
      let loop =
        loop_lem first second (start_ledger b s₁ - 1) x d d' s₁ new₁ new₂ parsed₁ parsed₂ fails
          works in
      let last = max (start_ledger b s₁ - 1) second.ledger in
      let top : last ≡ second.ledger = ground arith in
      let (moved, kept) = advanced last 1 newest c t there (omega (arith, top)) in
      let (same, rows) = finished (advance b last 1 newest t) in
      rw (found_events newest (second ∷ []) first c s idle there behind, loop)
        (
          same ∙ moved ∙ top,
          ap (λ p. b.events.table.find p first.id) (rows ∙ kept)
              ∙ ground (
                arith,
                new₁,
                b.events.table.find-save s.processed second.id first.id
                    (record { ledger_seq = second.ledger }),
              ),
        )
