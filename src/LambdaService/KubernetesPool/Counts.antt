-- ===== src/LambdaService/KubernetesPool/Counts.antt =====
-- kubernetes_pool.go: how the numbers of containers change, and the bound on the size.
use text.Mathlib.Text.{◌==◌ as str_eq}
use mini_lambda.Common.{
  ℕ, zero, suc, ◌+◌, ◌-◌, ◌≤◌, ◌<◌, ◌≡◌, refl, ap, String, Bool, true, false, ◌||◌, Option, none,
  some, List, [], ◌∷◌, leb, length, length-append, if◌then◌else◌, arith, Bool-cases, inl, inr,
}
use mini_lambda.Common.Count.{count, count-append, unit_if}
use mini_lambda.Common.Text.{str_eq_refl}
use mini_lambda.LambdaService.Pool.{ContainerState, warm, in_use, cleaning, evicted, Container}
use mini_lambda.LambdaService.KubernetesPool.{
  KubernetesPodPool, is_warm, is_in_use, is_warm_state, is_in_use_state, keep_before, take_warm,
  lend_pod, hand_over, acquire, all_but_last, close_gap, swap_remove, remove_pod, evict, evict_from,
  lru_index, at, create_begin, create_end, create_new, pod_of,
}

-- What `Acquire` takes out is warm, and the rest has the other containers.
abbrev pub Takes : List Container → Option (Container × List Container) → Type 0
Takes cs none = count is_warm cs ≡ 0
Takes cs (some (c, others)) =
    (is_warm c ≡ true)
    × ((count is_warm cs ≡ suc (count is_warm others))
        × ((count is_in_use cs ≡ count is_in_use others) × (length cs ≡ suc (length others))))

pub ifs_true {ℓ} : {A : Type ℓ} {b : Bool} (x y : A) → b ≡ true → (if b then x else y) ≡ x
ifs_true x y h = rw h

pub ifs_false {ℓ} : {A : Type ℓ} {b : Bool} (x y : A) → b ≡ false → (if b then x else y) ≡ y
ifs_false x y h = rw h

pub warm_not_in_use : (s : ContainerState) → is_warm_state s ≡ true → is_in_use_state s ≡ false
warm_not_in_use warm h = refl
warm_not_in_use in_use h = absurd (ground arith)
warm_not_in_use cleaning h = refl
warm_not_in_use evicted h = refl

pub keep_before-Takes :
    (c : Container) (cs : List Container) (taken : Option (Container × List Container))
    → is_warm c ≡ false
    → Takes cs taken
    → Takes (c ∷ cs) (keep_before c taken)
keep_before-Takes c cs none e h = omega (arith, h, ap unit_if e)
keep_before-Takes c cs (some (found, others)) e h =
    (h.0, (omega (arith, h.1.0), (omega (arith, h.1.1.0), ap suc h.1.1.1)))

pub take_warm-Takes : (cs : List Container) → Takes cs (take_warm cs)
unfolding take_warm
take_warm-Takes [] = refl
take_warm-Takes (c ∷ cs) = elim (Bool-cases (is_warm c)) [
  | inl e ↦ rw (ifs_true (some (c, cs)) (keep_before c (take_warm cs)) e) (
    e,
    (omega (arith, ap unit_if e), (omega (arith, ap unit_if (warm_not_in_use c.state e)), refl)),
  )
  | inr e ↦
      rw (ifs_false (some (c, cs)) (keep_before c (take_warm cs)) e)
        (keep_before-Takes c cs (take_warm cs) e (take_warm-Takes cs))
]

pub length-all_but_last :
    (c : Container) (cs : List Container) → length (all_but_last c cs) ≡ length cs
length-all_but_last c [] = refl
length-all_but_last c (d ∷ ds) = ap suc (length-all_but_last d ds)

pub length-close_gap : (cs : List Container) → length (close_gap cs) ≡ length cs
unfolding close_gap
length-close_gap [] = refl
length-close_gap (c ∷ cs) = ap suc (length-all_but_last c cs)

abbrev pub has_id : String → List Container → Bool
has_id id [] = false
has_id id (c ∷ cs) = str_eq c.id id || has_id id cs

pub length-swap_remove :
    (id : String) (cs : List Container)
    → length (swap_remove id cs) + unit_if (has_id id cs) ≡ length cs
unfolding swap_remove
length-swap_remove id [] = refl
length-swap_remove id (c ∷ cs) = elim (Bool-cases (str_eq c.id id)) [
  | inl e ↦ rw e (omega (arith, length-close_gap cs))
  | inr e ↦ rw e (omega (arith, length-swap_remove id cs))
]

pub at-has_id :
    (i : ℕ) (c : Container) (cs : List Container) → has_id ((at i c cs).id) (c ∷ cs) ≡ true
at-has_id zero c cs = rw (str_eq_refl c.id)
at-has_id (suc i) c [] = rw (str_eq_refl c.id)
at-has_id (suc i) c (d ∷ ds) = ground (arith, at-has_id i d ds)

pub evict_from-length :
    (now : ℕ) (cs : List Container) (p : KubernetesPodPool)
    → p.containers ≡ cs
    → length (evict_from now cs p).0.0.containers ≡ length cs - 1
unfolding evict_from remove_pod
evict_from-length now [] p h = rw h
evict_from-length now (c ∷ cs) p h =
    let id = (at (lru_index 0 0 now (c ∷ cs)) c cs).id in
    rw h (
      omega (
        arith,
        length-swap_remove id (c ∷ cs),
        ap unit_if (at-has_id (lru_index 0 0 now (c ∷ cs)) c cs),
      ))

abbrev pub count_some {ℓ} : {A : Type ℓ} → Option A → ℕ
count_some none = 0
count_some (some a) = 1

pub evict-length :
    (now : ℕ) (p : KubernetesPodPool)
    → length (evict now p).0.0.containers ≡ length p.containers - 1
unfolding evict
evict-length now p = evict_from-length now p.containers p refl

-- The effect of an `Acquire` on the numbers of containers.
abbrev pub Lends : KubernetesPodPool → KubernetesPodPool × Option Container → Type 0
Lends p (p', lent) =
    (count_some lent ≡ unit_if (leb 1 (count is_warm p.containers)))
    × ((count is_warm p.containers ≡ count is_warm p'.containers + count_some lent)
        × ((count is_in_use p'.containers ≡ count is_in_use p.containers + count_some lent)
            × (length p'.containers ≡ length p.containers)))

pub hand_over-Lends :
    (now : ℕ) (p : KubernetesPodPool) (taken : Option (Container × List Container))
    → Takes p.containers taken
    → Lends p (hand_over now p taken)
hand_over-Lends now p none h = (rw h (ground arith), (omega arith, (omega arith, refl)))
hand_over-Lends now p (some (c, others)) h =
    let more = lend_pod now c ∷ [] in
    (
      rw h.1.0 (ground arith),
      (
        omega (arith, h.1.0, count-append is_warm others more),
        (
          omega (arith, h.1.1.0, count-append is_in_use others more),
          omega (arith, h.1.1.1, length-append others more),
        ),
      ),
    )

-- `Acquire` gives a container exactly when one is warm; it then turns one warm container into one
-- in use. The number of containers stays as it is.
pub acquire-Lends : (now : ℕ) (p : KubernetesPodPool) → Lends p (acquire now p)
unfolding acquire
acquire-Lends now p = hand_over-Lends now p (take_warm p.containers) (take_warm-Takes p.containers)

pub create_begin-length :
    (now : ℕ) (p : KubernetesPodPool)
    → length p.containers ≤ p.config.max_size
    → 0 < p.config.max_size
    → length (create_begin now p).0.0.containers < p.config.max_size
unfolding create_begin
create_begin-length now p h k = elim (Bool-cases (leb p.config.max_size (length p.containers))) [
  | inl e ↦ rw e (omega (arith, evict-length now p))
  | inr e ↦ rw e (ground arith)
]

pub create_end-length :
    (answer : Option (String × String)) (now : ℕ) (p : KubernetesPodPool)
    → length (create_end answer now p).0.containers ≤ suc (length p.containers)
unfolding create_end
create_end-length none now p = omega arith
create_end-length (some (name, ip)) now p =
    omega (arith, length-append p.containers (pod_of name ip now ∷ []))

-- A `CreateNew` that no other call comes between keeps the pool within MaxSize, whatever the
-- cluster answers, if MaxSize is positive.
pub create_new-bound :
    (answer : Option (String × String)) (now : ℕ) (p : KubernetesPodPool)
    → length p.containers ≤ p.config.max_size
    → 0 < p.config.max_size
    → length (create_new answer now p).0.0.containers ≤ p.config.max_size
unfolding create_new
create_new-bound answer now p h k = elim (Bool-cases (create_begin now p).1) [
  | inl e ↦ rw e (
      omega (
        arith,
        create_begin-length now p h k,
        create_end-length answer now (create_begin now p).0.0,
      ))
  | inr e ↦ rw e (omega (arith, create_begin-length now p h k))
]
