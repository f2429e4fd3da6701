-- ===== src/Resilience.antt =====
-- common/resilience/retry.ts and resilience.ts: a task behind a circuit breaker, with retries. The
-- breaker of opossum is the argument `fire`, a draw of Math.random is a number out of 2 ^ 53, and an
-- error that a task throws is a number.
pub mod Calls
pub mod Recovery
use stellar_insured_backend.Prelude.{
  Bool, Option, if◌then◌else◌, max, min, none, some, suc, zero, ℕ, ◌*◌, ◌+◌, ◌-◌, ◌/◌, ◌^◌,
}

pub data Failure : Type 0 where
  circuit_open : Failure
  task_failed : ℕ → Failure

pub data Fired (A : Type 0) : Type 0 where
  fulfilled : A → Fired A
  rejected : Failure → Fired A

pub record RetryOptions : Type 0 where
  pub attempts : ℕ
  pub base_delay_ms : ℕ
  pub max_delay_ms : Option ℕ
  pub jitter : Bool
  pub retry_if : ℕ → ℕ → Bool

-- `Math.round(capped * (0.5 + Math.random() * 0.5))` with a jitter.
unfoldable pub compute_backoff_delay : ℕ → RetryOptions → ℕ → ℕ
compute_backoff_delay attempt options draw =
    let exponential : ℕ = options.base_delay_ms * 2 ^ (attempt - 1) in
    let capped : ℕ = elim options.max_delay_ms [
      | none ↦ exponential
      | some m ↦ min exponential m
    ] in
    if options.jitter then (capped * (2 ^ 53 + draw) + 2 ^ 53) / (2 * 2 ^ 53) else capped

abbrev pub or_fallback : {A : Type 0} → Option A → Fired A → Fired A
or_fallback (some a) (rejected circuit_open) = fulfilled a
or_fallback (some a) (rejected (task_failed e)) = rejected (task_failed e)
or_fallback (some a) (fulfilled b) = fulfilled b
or_fallback none r = r

-- `pause error attempt delay` is the observer onRetry and the wait.
module _ {W A : Type 0} (fire : W → Fired A × W) (pause : ℕ → ℕ → ℕ → W → W) (random : ℕ → ℕ) where
  -- The code after a fire, with `again` the attempts that follow.
  abbrev pub after_fire : RetryOptions → ℕ → (W → Fired A × W) → Fired A × W → Fired A × W
  after_fire options attempt again (fulfilled a, v) = (fulfilled a, v)
  after_fire options attempt again (rejected circuit_open, v) = (rejected circuit_open, v)
  after_fire options attempt again (rejected (task_failed e), v) =
      if options.retry_if e attempt
      then again (pause e attempt (compute_backoff_delay attempt options (random attempt)) v)
      else (rejected (task_failed e), v)

  -- The attempts from one on, with how many may follow it.
  unfoldable pub attempt_from : RetryOptions → ℕ → ℕ → W → Fired A × W
  attempt_from options zero attempt w = fire w
  attempt_from options (suc left) attempt w =
      after_fire options attempt (λ v. attempt_from options left (attempt + 1) v) (fire w)

  unfoldable pub with_resilience : Option RetryOptions → Option A → W → Fired A × W
  with_resilience none fallback w = let (r, v) = fire w in (or_fallback fallback r, v)
  with_resilience (some options) fallback w =
      let (r, v) = attempt_from options (max 1 options.attempts - 1) 1 w in
      (or_fallback fallback r, v)
