-- ===== src/Resilience/Recovery.antt =====
-- Calls of withResilience that end early, in an answer or at an open circuit:
-- common/resilience/resilience.ts.
use stellar_insured_backend.Prelude.{
  Option, arith, max, refl, some, suc, true, zero, ℕ, ◌+◌, ◌-◌, ◌<◌, ◌≡◌, ◌≤◌,
}
use stellar_insured_backend.Resilience.{
  Fired, RetryOptions, attempt_from, circuit_open, compute_backoff_delay, fulfilled, or_fallback,
  rejected, task_failed, with_resilience,
}

module _ {W A : Type 0} (fire : W → Fired A × W) (pause : ℕ → ℕ → ℕ → W → W) (random : ℕ → ℕ) where
  -- `Ends options attempt k w r x`: from the attempt on, k fires fail with errors that may be
  -- retried, and the one after them answers, or finds the circuit open, with the result r in x.
  pub data Ends (options : RetryOptions) : ℕ → ℕ → W → Fired A → W → Type 0 where
    answered :
        {attempt : ℕ} {w v : W} {a : A}
        → fire w ≡ (fulfilled a, v)
        → Ends options attempt 0 w (fulfilled a) v
    tripped :
        {attempt : ℕ} {w v : W}
        → fire w ≡ (rejected circuit_open, v)
        → Ends options attempt 0 w (rejected circuit_open) v
    failed :
        {attempt k e : ℕ} {w v x : W} {r : Fired A}
        → fire w ≡ (rejected (task_failed e), v)
        → options.retry_if e attempt ≡ true
        → Ends options
            (attempt + 1)
            k
            (pause e attempt (compute_backoff_delay attempt options (random attempt)) v)
            r
            x
        → Ends options attempt (suc k) w r x

  attempt_from-Ends :
      (options : RetryOptions) (left attempt k : ℕ) (w : W) (r : Fired A) (x : W)
      → Ends options attempt k w r x
      → k ≤ left
      → attempt_from fire pause random options left attempt w ≡ (r, x)
  unfolding attempt_from
  attempt_from-Ends options zero attempt zero w r x (answered e) le = e
  attempt_from-Ends options zero attempt zero w r x (tripped e) le = e
  attempt_from-Ends options zero attempt (suc k) w r x (failed e t rest) le = absurd (omega arith)
  attempt_from-Ends options (suc left) attempt zero w r x (answered e) le = rw (e) refl
  attempt_from-Ends options (suc left) attempt zero w r x (tripped e) le = rw (e) refl
  attempt_from-Ends options (suc left) attempt (suc k) w r x (failed e t rest) le =
      rw (e, t) (attempt_from-Ends options left (attempt + 1) k _ r x rest (omega arith))

  -- Where the first k fires of a call fail with errors that may be retried, each followed by a
  -- pause of the backoff's length, and k is smaller than the number of attempts, the next fire ends
  -- the call: its answer is returned, and at an open circuit the fallback, or the refusal of the
  -- breaker where there is no fallback.
  pub with_resilience-Ends :
      (options : RetryOptions) (fallback : Option A) (k : ℕ) (w : W) (r : Fired A) (x : W)
      → Ends options 1 k w r x
      → k < max 1 options.attempts
      → with_resilience fire pause random (some options) fallback w ≡ (or_fallback fallback r, x)
  unfolding with_resilience
  with_resilience-Ends options fallback k w r x ends lt =
      let enough : k ≤ max 1 options.attempts - 1 = omega arith in
      rw (attempt_from-Ends options (max 1 options.attempts - 1) 1 k w r x ends enough) refl
