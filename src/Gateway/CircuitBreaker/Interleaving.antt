-- ===== src/Gateway/CircuitBreaker/Interleaving.antt =====
-- circuit_breaker.go with calls that overlap. `Call` reads the state under one lock, `handleOpen`
-- tests the timeout under a second one, and `recordResult` takes a third when `fn` has returned;
-- other calls run between these.
use mathlib.Core.Path.{subst}
use mini_lambda.Common.{
  ℕ, zero, suc, ◌≤◌, ◌<◌, ◌≡◌, refl, ◌≢◌, true, false, Option, none, some, arith,
}
use mini_lambda.Gateway.CircuitBreaker.{
  State, closed, open_circuit, half_open, CircuitBreaker, new, record_result, is_waiting,
}

-- The breaker, the calls that have read OPEN and wait for the lock, and those that run `fn`.
pub record System : Type 0 where
  pub breaker : CircuitBreaker
  pub observed : ℕ
  pub running : ℕ

unfoldable pub start : ℕ → ℕ → System
start max_failures reset_timeout = record {
  breaker = new max_failures reset_timeout;
  observed = 0;
  running = 0;
}

pub data Step : System → System → Type 0 where
  -- `getState` returns CLOSED or HALF-OPEN, and `fn` is called.
  begin :
      (s : System) → s.breaker.state ≢ open_circuit → Step s (record s { running = suc s.running })
  -- `getState` returns OPEN.
  observe :
      (s : System)
      → s.breaker.state ≡ open_circuit
      → Step s (record s { observed = suc s.observed })
  -- `handleOpen` finds the timeout running.
  reject :
      (s : System) (n now : ℕ)
      → s.observed ≡ suc n
      → is_waiting now s.breaker ≡ true
      → Step s (record s { observed = n })
  -- `handleOpen` finds the timeout over: whatever the state is now, it becomes HALF-OPEN.
  trial :
      (s : System) (n now : ℕ)
      → s.observed ≡ suc n
      → is_waiting now s.breaker ≡ false
      → Step s (record s {
        breaker = record (s.breaker) { state = half_open };
        observed = n;
        running = suc s.running;
      })
  -- `fn` returns, and `recordResult` runs.
  finish :
      (s : System) (n now : ℕ) (err : Option (Unit {0}))
      → s.running ≡ suc n
      → Step s (record s { breaker = record_result now err s.breaker; running = n })

pub data Reach (s : System) : System → Type 0 where
  here : Reach s s
  next : {t u : System} → Reach s t → Step t u → Reach s u

abbrev pub SpareIfClosed : State → ℕ → ℕ → Type 0
SpareIfClosed closed failures limit = failures < limit
SpareIfClosed open_circuit failures limit = Unit {0}
SpareIfClosed half_open failures limit = Unit {0}

-- What holds under every interleaving.
pub record Inv (max_failures : ℕ) (s : System) : Type 0 where
  pub limit : s.breaker.max_failures ≡ max_failures
  pub limited : 0 < max_failures
  pub spare : SpareIfClosed s.breaker.state s.breaker.failures max_failures

Step-Inv : {m : ℕ} {s t : System} → Step s t → Inv m s → Inv m t
unfolding record_result
Step-Inv (begin s h) v = ground arith
Step-Inv (observe s h) v = ground arith
Step-Inv (reject s n now h w) v = ground arith
Step-Inv (trial s n now h w) v = ground arith
Step-Inv (finish s n now none h) v = ground arith
Step-Inv (finish s n now (some e) h) v = ground arith

Reach-Inv : {m : ℕ} {s t : System} → Inv m s → Reach s t → Inv m t
Reach-Inv v here = v
Reach-Inv v (next r st) = Step-Inv st (Reach-Inv v r)

-- However calls overlap, a new breaker with a positive limit keeps its limit, and while it is
-- CLOSED it has counted fewer failures than the limit.
pub Reach-start-Inv :
    (max_failures reset_timeout : ℕ) (s : System)
    → 0 < max_failures
    → Reach (start max_failures reset_timeout) s
    → Inv max_failures s
unfolding start new
Reach-start-Inv m t s h r = Reach-Inv (ground arith) r

-- `n` calls in flight on a CLOSED breaker with `k` failures.
abbrev pub busy : ℕ → ℕ → ℕ → ℕ → System
busy m t k n = record {
  breaker = record {
    max_failures = m;
    reset_timeout = t;
    state = closed;
    failures = k;
    last_failure_time = 0;
  };
  observed = 0;
  running = n;
}

pub Reach-begin : (m t n : ℕ) → Reach (start m t) (busy m t 0 n)
unfolding start new
Reach-begin m t zero = here
Reach-begin m t (suc n) = next (Reach-begin m t n) (begin (busy m t 0 n) (λ e. cc))

fail_below :
    (m t k n : ℕ)
    → suc k < m
    → record_result 0 (some tt) (busy m t k n).breaker ≡ (busy m t (suc k) n).breaker
unfolding record_result
fail_below m t k n h = ground arith

Reach-fail : (m t k n : ℕ) → k < m → Reach (start m t) (busy m t k n)
Reach-fail m t zero n h = Reach-begin m t n
Reach-fail m t (suc k) n h = next (Reach-fail m t k (suc n) (omega arith)) (
    subst (λ b. Step (busy m t k (suc n)) (record { breaker = b; observed = 0; running = n }))
      (fail_below m t k n h) (finish (busy m t k (suc n)) n 0 (some tt) refl))

-- OPEN with `k` failures counted, the last at time 0.
abbrev tripped : ℕ → ℕ → State → ℕ → CircuitBreaker
tripped m t st k = record {
  max_failures = m;
  reset_timeout = t;
  state = st;
  failures = k;
  last_failure_time = 0;
}

fail_at_limit :
    (k t n : ℕ)
    → record_result 0 (some tt) (busy (suc k) t k n).breaker
      ≡ tripped (suc k) t open_circuit (suc k)
unfolding record_result
fail_at_limit k t n = ground arith

-- The calls fail until the circuit opens, and one more that began before succeeds late.
Reach-open :
    (k t : ℕ)
    → Reach
        (start (suc k) t)
        (record { breaker = tripped (suc k) t open_circuit 0; observed = 0; running = 0 })
unfolding record_result
Reach-open k t =
    next
      (next (Reach-fail (suc k) t k 2 (omega arith)) (
        subst (λ b. Step (busy (suc k) t k 2) (record { breaker = b; observed = 0; running = 1 }))
          (fail_at_limit k t 2) (finish (busy (suc k) t k 2) 1 0 (some tt) refl)))
      (finish
        (record { breaker = tripped (suc k) t open_circuit (suc k); observed = 0; running = 1 }) 0 0
        none refl)

abbrev probing : ℕ → ℕ → System
probing m t = record { breaker = tripped m t half_open 0; observed = 0; running = 1 }

timeout_over : (k t : ℕ) → is_waiting (suc t) (tripped (suc k) t open_circuit 0) ≡ false
timeout_over k t = ground arith

Reach-probing : (k t : ℕ) → Reach (start (suc k) t) (probing (suc k) t)
Reach-probing k t =
    next
      (next (Reach-open k t) (
        observe (record { breaker = tripped (suc k) t open_circuit 0; observed = 0; running = 0 })
          refl))
      (trial (record { breaker = tripped (suc k) t open_circuit 0; observed = 1; running = 0 }) 0
        (suc t) refl (timeout_over k t))

still_probing :
    (k t now : ℕ)
    → 1 ≤ k
    → (record_result now (some tt) (probing (suc k) t).breaker).state ≡ half_open
unfolding record_result
still_probing k t now h = ground arith

-- With a limit of two failures or more, overlapping calls can bring a new breaker to HALF-OPEN
-- with one trial call running, such that the failure of that call, at any time, does not open
-- the circuit again: a call that succeeded late had cleared the count while it was OPEN.
pub trial_failure_may_not_open :
    (max_failures reset_timeout now : ℕ)
    → 2 ≤ max_failures
    → (s : System) × Reach (start max_failures reset_timeout) s
      × (s.breaker.state ≡ half_open)
      × (s.running ≡ 1)
      × ((record_result now (some tt) s.breaker).state ≡ half_open)
trial_failure_may_not_open zero t now h = absurd (omega arith)
trial_failure_may_not_open (suc k) t now h =
    (probing (suc k) t, Reach-probing k t, refl, refl, still_probing k t now (omega arith))
