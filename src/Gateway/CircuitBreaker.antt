-- ===== src/Gateway/CircuitBreaker.antt =====
-- services/gateway/internal/circuitbreaker: circuit_breaker.go and registry.go.
-- Times are nanoseconds since an epoch that lies before every call, and the zero `time.Time` is 0.
-- A counter that only grows by one, such as `failures`, is kept below 2 ^ 63 by the run time.
pub mod Laws
pub mod Interleaving
mod Tests
use mini_lambda.Common.{
  ℕ, suc, ◌-◌, String, Bool, true, false, Option, none, some, List, [], ◌∷◌, leb, if◌then◌else◌,
}
use mini_lambda.Common.Maps.{lookup, insert}

pub data State : Type 0 where
  closed open_circuit half_open : State

-- `State.String`; every value of the type is one of the three constants.
unfoldable pub to_string : State → String
to_string closed = "CLOSED"
to_string open_circuit = "OPEN"
to_string half_open = "HALF-OPEN"

pub record CircuitBreaker : Type 0 where
  pub max_failures : ℕ
  pub reset_timeout : ℕ
  pub state : State
  pub failures : ℕ
  pub last_failure_time : ℕ

-- `NewCircuitBreaker`
unfoldable pub new : ℕ → ℕ → CircuitBreaker
new max_failures reset_timeout = record {
  max_failures = max_failures;
  reset_timeout = reset_timeout;
  state = closed;
  failures = 0;
  last_failure_time = 0;
}

-- The error of a call: the breaker's own, or the one that `fn` returned.
pub data Failure (E : Type 0) : Type 0 where
  circuit_is_open : Failure E
  from_fn : E → Failure E

abbrev pub wrap : {E : Type 0} → Option E → Option (Failure E)
wrap none = none
wrap (some e) = some (from_fn e)

-- A success in HALF-OPEN closes the circuit.
abbrev pub close_if_half_open : State → State
close_if_half_open half_open = closed
close_if_half_open closed = closed
close_if_half_open open_circuit = open_circuit

-- One call of `Call`: the time at which it starts, the time at which `fn` returns, and what
-- `fn` returns if it is run.
pub record Attempt (E : Type 0) : Type 0 where
  pub start : ℕ
  pub done : ℕ
  pub outcome : Option E

-- What the caller sees, and whether `fn` was run.
pub record Reply (E : Type 0) : Type 0 where
  pub error : Option (Failure E)
  pub ran : Bool

-- `time.Since(last) <= resetTimeout`; a `-` that stops at 0 gives the same test.
abbrev pub is_waiting : ℕ → CircuitBreaker → Bool
is_waiting now cb = leb (now - cb.last_failure_time) cb.reset_timeout

-- One more if `fn` was run.
abbrev pub count_ran : Bool → ℕ → ℕ
count_ran true n = suc n
count_ran false n = n

module _ {E : Type 0} where
  -- `recordResult`, at the time `now`
  unfoldable pub record_result : ℕ → Option E → CircuitBreaker → CircuitBreaker
  record_result now none cb = record cb { state = close_if_half_open cb.state; failures = 0 }
  record_result now (some e) cb =
      let counted = record cb { failures = suc cb.failures; last_failure_time = now } in
      if leb cb.max_failures (suc cb.failures)
      then record counted { state = open_circuit }
      else counted

  unfoldable pub handle_closed : Attempt E → CircuitBreaker → CircuitBreaker × Reply E
  handle_closed a cb =
      (record_result a.done a.outcome cb, record { error = wrap a.outcome; ran = true })

  unfoldable pub handle_half_open : Attempt E → CircuitBreaker → CircuitBreaker × Reply E
  handle_half_open a cb =
      (record_result a.done a.outcome cb, record { error = wrap a.outcome; ran = true })

  unfoldable pub handle_open : Attempt E → CircuitBreaker → CircuitBreaker × Reply E
  handle_open a cb =
      if is_waiting a.start cb
      then (cb, record { error = some circuit_is_open; ran = false })
      else handle_half_open a (record cb { state = half_open })

  -- The `switch` of `Call`
  unfoldable pub dispatch : State → Attempt E → CircuitBreaker → CircuitBreaker × Reply E
  dispatch open_circuit a cb = handle_open a cb
  dispatch half_open a cb = handle_half_open a cb
  dispatch closed a cb = handle_closed a cb

  unfoldable pub call : Attempt E → CircuitBreaker → CircuitBreaker × Reply E
  unfolding dispatch handle_open handle_half_open handle_closed record_result
  call a cb = dispatch cb.state a cb

  -- Calls one after another, and how many of them ran `fn`.
  unfoldable pub run : List (Attempt E) → CircuitBreaker → CircuitBreaker × ℕ
  run [] cb = (cb, 0)
  run (a ∷ as') cb =
      let (cb', reply) = call a cb in let (last, n) = run as' cb' in (last, count_ran reply.ran n)

-- The registry: a Go map of shared breakers; a call through it changes the breaker in place.
abbrev pub Registry : Type 0
Registry = List (String × CircuitBreaker)

abbrev pub new_registry : Registry
new_registry = []

unfoldable pub register : String → ℕ → ℕ → Registry → Registry × CircuitBreaker
register name max_failures reset_timeout r =
    let cb = new max_failures reset_timeout in (insert name cb r, cb)

-- `Get`; `none` is the error "circuit breaker not found".
unfoldable pub get : String → Registry → Option CircuitBreaker
get name r = lookup name r

-- `Get` and then `Call`, as the gateway does.
unfoldable pub call_service :
    {E : Type 0} → String → Attempt E → Registry → Option (Registry × Reply E)
call_service name a r = elim (get name r) [
  | none ↦ none
  | some cb ↦ let (cb', reply) = call a cb in some (insert name cb' r, reply)
]
