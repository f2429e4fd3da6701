-- ===== src/Indexer/Cycle.antt =====
-- The poll cycle: the cursor never goes back, the running flag is given back, and a failed event is
-- passed by a later success.
use stellar_insured_backend.Prelude.{
  Bool, Bool-cases, List, Option, [], ap, arith, false, inl, inr, is_some, ltb, max, none, refl,
  some, true, ℕ, ◌+◌, ◌-◌, ◌∙◌, ◌∷◌, ◌≡◌, ◌≤◌,
}
use stellar_insured_backend.Database.{Result, err, ok}
use stellar_insured_backend.Indexer.Events.{process_event-Frame}
use stellar_insured_backend.Indexer.Poll.{
  advance, finish, last_seq, log_entry, poll_body, poll_events, poll_found, process_all,
  process_event, start_ledger,
}
use stellar_insured_backend.Indexer.{Backend, Event, State, event_failed, update_cursor}

module _ (b : Backend) where
  -- The loop keeps the cursor and the flag, and its ledger only grows.
  pub record Looped (last : ℕ) (s : State b) (r : (ℕ × ℕ) × State b) : Type 0 where
    pub cursor : r.1.cursor ≡ s.cursor
    pub is_running : r.1.is_running ≡ s.is_running
    pub grows : last ≤ r.0.0

  Looped-step :
      (last next : ℕ) (s t : State b) (r : (ℕ × ℕ) × State b)
      → t.cursor ≡ s.cursor
      → t.is_running ≡ s.is_running
      → last ≤ next
      → Looped next t r
      → Looped last s r
  Looped-step last next s t r c f le h = record {
    cursor = h.cursor ∙ c;
    is_running = h.is_running ∙ f;
    grows = let g = h.grows in omega arith;
  }

  pub process_all_lem :
      (events : List Event) (last count : ℕ) (s : State b)
      → Looped last s (process_all b events last count s)
  unfolding process_all log_entry
  process_all_lem [] last count s = record { cursor = refl; is_running = refl; grows = omega arith }
  process_all_lem (event ∷ events) last count s =
      let (c, f) = process_event-Frame b event s in
      go (λ l n t. process_all_lem events l n t) (process_event b event s).0
        (process_event b event s).1 c f
    where
      go :
          ((l n : ℕ) (t : State b) → Looped l t (process_all b events l n t))
          → (r : Result Bool) (t : State b) → t.cursor ≡ s.cursor
          → t.is_running ≡ s.is_running
          → Looped last s (elim r [
            | ok true ↦ process_all b events (max last event.ledger) (count + 1) t
            | ok false ↦ process_all b events last count t
            | err _ ↦ process_all b events last count (log_entry b (event_failed event.id) t)
          ])
      go ih (ok true) t c f =
          Looped-step last (max last event.ledger) s t
            (process_all b events (max last event.ledger) (count + 1) t) c f (omega arith)
            (ih (max last event.ledger) (count + 1) t)
      go ih (ok false) t c f =
          Looped-step last last s t (process_all b events last count t) c f (omega arith)
            (ih last count t)
      go ih (err e) t c f =
          let u = log_entry b (event_failed event.id) t in
          Looped-step last last s u (process_all b events last count u) c f (omega arith)
            (ih last count u)

  -- The cursor of `t` is not behind that of `s`, and there is one exactly if there was.
  abbrev pub NotBehind : State b → State b → Type 0
  NotBehind s t = (last_seq b s ≤ last_seq b t) × (is_some t.cursor ≡ is_some s.cursor)

  -- What a part of a cycle does to the cursor and the flag.
  abbrev pub Keeps : State b → Result (Unit {0}) × State b → Type 0
  Keeps s r = NotBehind s r.1 × (r.1.is_running ≡ s.is_running)

  advance_lem : (last count latest : ℕ) (s : State b) → Keeps s (advance b last count latest s)
  unfolding advance update_cursor
  advance_lem last count latest s = ((ground arith, ground arith), ground arith)

  update_cursor_lem :
      (seq : ℕ) (hash : Option ℕ) (s : State b)
      → last_seq b s ≤ seq
      → Keeps s (update_cursor b seq hash s)
  unfolding update_cursor
  update_cursor_lem seq hash s h = ((ground arith, ground arith), ground arith)

  found_lem :
      (newest : ℕ) (o : Option (List Event)) (s : State b)
      → last_seq b s ≤ newest
      → Keeps s (poll_found b newest o s)
  unfolding poll_found
  found_lem newest none s le = ((omega arith, refl), refl)
  found_lem newest (some []) s le = update_cursor_lem newest none s le
  found_lem newest (some (event ∷ events)) s le =
      let loop = process_all b (event ∷ events) (start_ledger b s - 1) 0 s in
      let h = process_all_lem (event ∷ events) (start_ledger b s - 1) 0 s in
      let ((ahead, there), flag) = advance_lem loop.0.0 loop.0.1 newest loop.1 in
      let same = h.cursor in
      ((ground (arith, same, ahead), there ∙ ap is_some same), flag ∙ h.is_running)

  poll_body_lem :
      (latest : Option ℕ) (fetch : ℕ → ℕ → Option (List Event)) (s : State b)
      → Keeps s (poll_body b latest fetch s)
  unfolding poll_body
  poll_body_lem none fetch s = ((omega arith, refl), refl)
  poll_body_lem (some newest) fetch s = elim (Bool-cases (ltb newest (start_ledger b s))) [
    | inl done ↦ rw (done) ((omega arith, refl), refl)
    | inr more ↦ rw (more) (found_lem newest (fetch (start_ledger b s) newest) s (ground arith))
  ]

  finish_lem :
      (s : State b) (r : Result (Unit {0}) × State b)
      → NotBehind s r.1
      → NotBehind s (finish b r) × ((finish b r).is_running ≡ false)
  unfolding finish
  finish_lem s (ok v, t) h = (h, refl)
  finish_lem s (err e, t) h = (h, refl)

  -- Whatever the RPC server answers and the handlers do, a poll cycle never moves the cursor back,
  -- makes or loses none, and gives the running flag back if it took it; a cycle that finds another one
  -- running does nothing.
  pub poll_events-NotBehind :
      (latest : Option ℕ) (fetch : ℕ → ℕ → Option (List Event)) (s : State b)
      → NotBehind s (poll_events b latest fetch s)
        × (s.is_running ≡ false → (poll_events b latest fetch s).is_running ≡ false)
        × (s.is_running ≡ true → poll_events b latest fetch s ≡ s)
  unfolding poll_events
  poll_events-NotBehind latest fetch s = elim (Bool-cases s.is_running) [
    | inl busy ↦ rw (busy) ((omega arith, refl), λ idle. cc, λ _. refl)
    | inr idle ↦
        let started = record s { is_running = true } in
        let (h, f) =
          finish_lem s (poll_body b latest fetch started) (poll_body_lem latest fetch started).0 in
        rw (idle) (h, λ _. f, λ busy. cc)
  ]
