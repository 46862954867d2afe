-- ===== src/Gateway/CircuitBreaker/Laws.antt =====
-- circuit_breaker.go and registry.go: calls one after another.
use text.Mathlib.Text.{◌==◌ as str_eq}
use mini_lambda.Common.{
  ℕ, suc, ◌+◌, ◌≤◌, ◌<◌, ◌≡◌, refl, String, Bool, true, false, Option, none, some, List, [], ◌∷◌,
  arith, All, length, leb, if◌then◌else◌, ◌⊎◌,
}
use mini_lambda.Common.Maps.{insert, lookup-insert}
use mini_lambda.Gateway.CircuitBreaker.{
  State, closed, open_circuit, half_open, CircuitBreaker, new, circuit_is_open, Attempt, call, run,
  wrap, Registry, get, call_service,
}

abbrev pub is_tripped : State → Bool
is_tripped closed = false
is_tripped open_circuit = true
is_tripped half_open = true

-- CLOSED has failures to spare, and the other states have used them up.
pub record Inv (cb : CircuitBreaker) : Type 0 where
  pub limited : 0 < cb.max_failures
  pub counted : is_tripped cb.state ≡ leb cb.max_failures cb.failures

module _ {E : Type 0} where
  pub call-Inv : (a : Attempt E) (cb : CircuitBreaker) → Inv cb → Inv (call a cb).0
  unfolding call
  call-Inv a cb v = ground arith

  run_keeps_Inv : (as' : List (Attempt E)) (cb : CircuitBreaker) → Inv cb → Inv (run as' cb).0
  unfolding run
  run_keeps_Inv [] cb v = v
  run_keeps_Inv (a ∷ as') cb v = run_keeps_Inv as' (call a cb).0 (call-Inv a cb v)

  -- After any sequence of calls on a new breaker with a positive limit, the circuit is CLOSED
  -- only while fewer than `maxFailures` failures are counted, and is OPEN or HALF-OPEN only
  -- with at least `maxFailures` of them.
  pub breaker-Inv :
      (max_failures reset_timeout : ℕ) (as' : List (Attempt E))
      → 0 < max_failures
      → Inv (run as' (new max_failures reset_timeout)).0
  unfolding new
  breaker-Inv m t as' h = run_keeps_Inv as' (new m t) (ground arith)

  abbrev pub Fails : Attempt E → Type 0
  Fails a = (e : E) × (a.outcome ≡ some e)

  fail_closed :
      (a : Attempt E) (cb : CircuitBreaker)
      → Fails a
      → cb.state ≡ closed
      → suc cb.failures < cb.max_failures
      → ((call a cb).0.state ≡ closed)
        × ((call a cb).0.failures ≡ suc cb.failures)
        × ((call a cb).0.max_failures ≡ cb.max_failures)
        × ((call a cb).1.ran ≡ true)
  unfolding call
  fail_closed a cb f c h = ground arith

  fail_last :
      (a : Attempt E) (cb : CircuitBreaker)
      → Fails a
      → cb.state ≡ closed
      → suc cb.failures ≡ cb.max_failures
      → ((call a cb).0.state ≡ open_circuit) × ((call a cb).1.ran ≡ true)
  unfolding call
  fail_last a cb f c h = ground arith

  failures_open :
      (as' : List (Attempt E)) (cb : CircuitBreaker)
      → All Fails as'
      → cb.state ≡ closed
      → cb.failures < cb.max_failures
      → cb.failures + length as' ≤ cb.max_failures
      → ((run as' cb).0.state
          ≡ (if leb cb.max_failures (cb.failures + length as') then open_circuit else closed))
        × ((run as' cb).1 ≡ length as')
  unfolding run
  failures_open [] cb f c h k = ground arith
  failures_open (a ∷ []) cb f c h k = ground (arith, fail_closed a cb f.0 c, fail_last a cb f.0 c)
  failures_open (a ∷ b ∷ as') cb f c h k =
      ground
        (arith, fail_closed a cb f.0 c (omega arith), failures_open (b ∷ as') (call a cb).0 f.1)

  -- Up to `maxFailures` failing calls in a row on a new breaker all run `fn`, and the circuit is
  -- OPEN after them exactly when there were `maxFailures` of them; before that it is CLOSED.
  pub opens_at_limit :
      (max_failures reset_timeout : ℕ) (as' : List (Attempt E))
      → 0 < max_failures
      → All Fails as'
      → length as' ≤ max_failures
      → ((run as' (new max_failures reset_timeout)).0.state
          ≡ (if leb max_failures (length as') then open_circuit else closed))
        × ((run as' (new max_failures reset_timeout)).1 ≡ length as')
  unfolding new
  opens_at_limit m t as' p f h = ground (arith, failures_open as' (new m t) f refl)

  abbrev pub StartsInTime : CircuitBreaker → Attempt E → Type 0
  StartsInTime cb a = a.start ≤ cb.last_failure_time + cb.reset_timeout

  pub reject_early :
      (a : Attempt E) (cb : CircuitBreaker)
      → cb.state ≡ open_circuit
      → StartsInTime cb a
      → call a cb ≡ (cb, record { error = some circuit_is_open; ran = false })
  unfolding call
  reject_early a cb o h = ground arith

  -- While the circuit is OPEN, any number of calls that start within the reset timeout of the
  -- last failure leave the breaker as it is, and none of them runs `fn`.
  pub open_isolates :
      (as' : List (Attempt E)) (cb : CircuitBreaker)
      → cb.state ≡ open_circuit
      → All (StartsInTime cb) as'
      → run as' cb ≡ (cb, 0)
  unfolding run
  open_isolates [] cb o h = refl
  open_isolates (a ∷ as') cb o h =
      ground (arith, reject_early a cb o h.0, open_isolates as' cb o h.1)

  -- The state that a trial call leaves, and the time of the last failure.
  abbrev pub settled : Option E → State
  settled none = closed
  settled (some e) = open_circuit

  abbrev pub last_failure : Option E → ℕ → ℕ → ℕ
  last_failure none before done = before
  last_failure (some e) before done = done

  -- Where the invariant holds, a call that finds the circuit HALF-OPEN, or OPEN with the reset
  -- timeout over, runs `fn` and returns its error; a success closes the circuit, and a failure
  -- leaves it OPEN from the time of that failure.
  pub trial_settles :
      (a : Attempt E) (cb : CircuitBreaker)
      → Inv cb
      → (cb.state ≡ half_open)
        ⊎ ((cb.state ≡ open_circuit) × (cb.last_failure_time + cb.reset_timeout < a.start))
      → ((call a cb).1 ≡ record { error = wrap a.outcome; ran = true })
        × ((call a cb).0.state ≡ settled a.outcome)
        × ((call a cb).0.last_failure_time ≡ last_failure a.outcome cb.last_failure_time a.done)
  unfolding call
  trial_settles a cb v late = ground arith

  -- A call through the registry fails only for a service that is not registered. Otherwise the
  -- service's breaker is then the one that the call leaves, and no other service's changes.
  pub call_service_isolated :
      (name : String) (a : Attempt E) (r : Registry) (cb : CircuitBreaker)
      → get name r ≡ some cb
      → (r' : Registry) × (call_service name a r ≡ some (r', (call a cb).1))
        × ((other : String)
            → get other r' ≡ (if str_eq name other then some (call a cb).0 else get other r))
  unfolding call_service get
  call_service_isolated name a r cb e = (
    insert name (call a cb).0 r,
    rw (e, call_service),
    λ other. lookup-insert name other (call a cb).0 r,
  )
