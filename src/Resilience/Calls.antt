-- ===== src/Resilience/Calls.antt =====
-- How often a task is fired: common/resilience/resilience.ts.
-- A breaker whose calls are counted.
use stellar_insured_backend.Prelude.{
  Option, arith, false, if◌then◌else◌, max, none, some, suc, true, zero, ℕ, ◌+◌, ◌-◌, ◌≤◌,
}
use stellar_insured_backend.Resilience.{
  Fired, RetryOptions, after_fire, attempt_from, circuit_open, compute_backoff_delay, fulfilled,
  rejected, task_failed, with_resilience,
}

unfoldable pub counted : {W A : Type 0} → (W → Fired A × W) → W × ℕ → Fired A × (W × ℕ)
counted fire (w, n) = let (r, v) = fire w in (r, (v, n + 1))

abbrev pub paused : {W : Type 0} → (ℕ → ℕ → ℕ → W → W) → ℕ → ℕ → ℕ → W × ℕ → W × ℕ
paused pause e attempt ms (w, n) = (pause e attempt ms w, n)

abbrev pub allowed : Option RetryOptions → ℕ
allowed none = 1
allowed (some options) = max 1 options.attempts

abbrev pub FiredWithin : {W A : Type 0} → ℕ → ℕ → Fired A × (W × ℕ) → Type 0
FiredWithin low high r = (low ≤ r.1.1) × (r.1.1 ≤ high)

module _ {W A : Type 0} (fire : W → Fired A × W) (pause : ℕ → ℕ → ℕ → W → W) (random : ℕ → ℕ) where
  after_fire-FiredWithin :
      (options : RetryOptions) (attempt n high : ℕ) (again : W × ℕ → Fired A × (W × ℕ))
      → ((v : W) → FiredWithin n high (again (v, n)))
      → n ≤ high
      → (r : Fired A) (v : W)
      → FiredWithin n high
          (after_fire (counted fire) (paused pause) random options attempt again (r, (v, n)))
  after_fire-FiredWithin options attempt n high again ih le (fulfilled a) v = (omega arith, le)
  after_fire-FiredWithin options attempt n high again ih le (rejected circuit_open) v =
      (omega arith, le)
  after_fire-FiredWithin options attempt n high again ih le (rejected (task_failed e)) v =
      elim (options.retry_if e attempt)
        as (λ b. FiredWithin n high (
          if b
          then again (
              paused pause e attempt (compute_backoff_delay attempt options (random attempt))
                (v, n))
          else (rejected (task_failed e), (v, n)))) [
            | false ↦ (omega arith, le)
            | true ↦ ih (pause e attempt (compute_backoff_delay attempt options (random attempt)) v)
          ]

  attempt_from-FiredWithin :
      (options : RetryOptions) (left attempt n : ℕ) (w : W)
      → FiredWithin
          (n + 1)
          (n + 1 + left)
          (attempt_from (counted fire) (paused pause) random options left attempt (w, n))
  unfolding attempt_from counted
  attempt_from-FiredWithin options zero attempt n w = (omega arith, omega arith)
  attempt_from-FiredWithin options (suc left) attempt n w =
      after_fire-FiredWithin options attempt (n + 1) (n + 1 + suc left)
        (λ v. attempt_from (counted fire) (paused pause) random options left (attempt + 1) v)
        (λ v.
          let (low, high) = attempt_from-FiredWithin options left (attempt + 1) (n + 1) v in
          (omega arith, omega arith))
        (omega arith) (fire w).0 (fire w).1

  -- A call of withResilience fires the breaker at least once, and at most as often as the retry
  -- options allow: max(1, attempts) times, and once where no retry is configured.
  with_resilience-FiredWithin :
      (retry : Option RetryOptions) (fallback : Option A) (w : W)
      → FiredWithin 1
          (allowed retry)
          (with_resilience (counted fire) (paused pause) random retry fallback (w, 0))
  unfolding with_resilience counted
  with_resilience-FiredWithin none fallback w = (omega arith, omega arith)
  with_resilience-FiredWithin (some options) fallback w =
      let (low, high) = attempt_from-FiredWithin options (max 1 options.attempts - 1) 1 0 w in
      (low, omega arith)
