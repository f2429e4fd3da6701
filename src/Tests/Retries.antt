-- ===== src/Tests/Retries.antt =====
-- Example calls behind a circuit breaker: common/resilience/resilience.ts.
use stellar_insured_backend.Resilience.{
  Fired, RetryOptions, attempt_from, compute_backoff_delay, fulfilled, rejected, task_failed,
  with_resilience,
}
use stellar_insured_backend.Resilience.Recovery.{answered, failed, with_resilience-Ends}
use stellar_insured_backend.Prelude.{arith, none, refl, some, suc, true, zero, ℕ, ◌^◌, ◌≡◌}

-- A service that fails twice before it answers.
abbrev flaky : ℕ → Fired ℕ × ℕ
flaky zero = (rejected (task_failed 5), 1)
flaky (suc zero) = (rejected (task_failed 5), 2)
flaky (suc (suc n)) = (fulfilled 7, suc (suc n))

abbrev wait : ℕ → ℕ → ℕ → ℕ → ℕ
wait error attempt delay n = n

abbrev draw_of : ℕ → ℕ
draw_of attempt = 2 ^ 52

abbrev options : RetryOptions
options = record {
  attempts = 4;
  base_delay_ms = 100;
  max_delay_ms = some 300;
  jitter = true;
  retry_if = λ e attempt. true;
}

third_delay : compute_backoff_delay 3 options (2 ^ 52) ≡ 225
unfolding compute_backoff_delay
third_delay = refl

third_answer : with_resilience flaky wait draw_of (some options) none 0 ≡ (fulfilled 7, 2)
unfolding with_resilience attempt_from
third_answer = refl

with_resilience-Ends_example :
    with_resilience flaky wait draw_of (some options) (some 9) 0 ≡ (fulfilled 7, 2)
with_resilience-Ends_example =
    with_resilience-Ends flaky wait draw_of options (some 9) 2 0 (fulfilled 7) 2
      (failed refl refl (failed refl refl (answered refl))) (omega arith)
