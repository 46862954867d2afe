-- ===== src/Gateway/CircuitBreaker/Tests.antt =====
-- The breaker of the gateway on concrete calls.
use mini_lambda.Common.{ℕ, ◌≡◌, refl, inr, String, true, none, some, List, [], ◌∷◌, arith}
use mini_lambda.Gateway.CircuitBreaker.{
  closed, open_circuit, CircuitBreaker, new, from_fn, Attempt, call, run,
}
use mini_lambda.Gateway.CircuitBreaker.Laws.{
  Inv, breaker-Inv, opens_at_limit, open_isolates, trial_settles,
}
use mini_lambda.Gateway.CircuitBreaker.Interleaving.{
  System, start, Reach, Reach-start-Inv, Reach-begin, trial_failure_may_not_open,
}
use mini_lambda.Gateway.CircuitBreaker.Interleaving

abbrev fail_at : ℕ → Attempt String
fail_at t = record { start = t; done = t; outcome = some "timeout" }

abbrev succeed_at : ℕ → Attempt String
succeed_at t = record { start = t; done = t; outcome = none }

abbrev three_failures : List (Attempt String)
three_failures = fail_at 1 ∷ fail_at 2 ∷ fail_at 3 ∷ []

opens_after_three : (run three_failures (new 3 30)).0.state ≡ open_circuit
unfolding run call new
opens_after_three = refl

abbrev tripped : CircuitBreaker
tripped = record {
  max_failures = 3;
  reset_timeout = 30;
  state = open_circuit;
  failures = 3;
  last_failure_time = 3;
}

trips : (run three_failures (new 3 30)).0 ≡ tripped
unfolding run call new
trips = refl

recovers :
    (run (succeed_at 20 ∷ succeed_at 40 ∷ []) tripped)
    ≡ (record tripped { state = closed; failures = 0 }, 1)
unfolding run call
recovers = refl

breaker-Inv_example : Inv (run three_failures (new 3 30)).0
breaker-Inv_example = breaker-Inv 3 30 three_failures (omega arith)

opens_at_limit_example :
    ((run three_failures (new 3 30)).0.state ≡ open_circuit)
    × ((run three_failures (new 3 30)).1 ≡ 3)
opens_at_limit_example =
    opens_at_limit 3 30 three_failures (omega arith)
      (("timeout", refl), (("timeout", refl), (("timeout", refl), tt))) (omega arith)

open_isolates_example : run (succeed_at 20 ∷ fail_at 33 ∷ []) tripped ≡ (tripped, 0)
open_isolates_example = open_isolates (succeed_at 20 ∷ fail_at 33 ∷ []) tripped refl (omega arith)

tripped-Inv : Inv tripped
tripped-Inv = ground arith

trial_settles_example :
    ((call (fail_at 40) tripped).1 ≡ record { error = some (from_fn "timeout"); ran = true })
    × ((call (fail_at 40) tripped).0.state ≡ open_circuit)
    × ((call (fail_at 40) tripped).0.last_failure_time ≡ 40)
trial_settles_example = trial_settles (fail_at 40) tripped tripped-Inv (inr (refl, omega arith))

Reach-start-Inv_example : Interleaving.Inv 3 (record (start 3 30) { running = 2 })
unfolding start new
Reach-start-Inv_example = Reach-start-Inv 3 30 _ (omega arith) (Reach-begin 3 30 2)
