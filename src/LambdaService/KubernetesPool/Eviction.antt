-- ===== src/LambdaService/KubernetesPool/Eviction.antt =====
-- kubernetes_pool.go: which container `Evict` takes, and what overlapping calls of `CreateNew` do.
use mini_lambda.Common.{
  ℕ, suc, ◌≡◌, refl, ap, sym, ◌∙◌, String, true, false, some, List, [], ◌∷◌, ◌++◌, leb, length,
  length-append, arith, Bool-cases, inl, inr,
}
use mini_lambda.Common.Count.{count, unit_if}
use mini_lambda.LambdaService.Pool.{Container}
use mini_lambda.LambdaService.KubernetesPool.{
  KubernetesPodPool, is_warm, remove_pod, evict, evict_from, lru_index, create_begin, create_end,
  pod_of,
}

pub lru_index-no_warm :
    (i best oldest : ℕ) (cs : List Container)
    → count is_warm cs ≡ 0
    → lru_index i best oldest cs ≡ best
unfolding lru_index
lru_index-no_warm i best oldest [] h = refl
lru_index-no_warm i best oldest (c ∷ cs) h = elim (Bool-cases (is_warm c)) [
  | inl e ↦ absurd (omega (arith, h, ap unit_if e))
  | inr e ↦ rw e (lru_index-no_warm (suc i) best oldest cs (omega (arith, h)))
]

-- A pool without a warm container evicts its first container, whatever that is doing.
pub evict_without_warm :
    (now : ℕ) (c : Container) (cs : List Container) (p : KubernetesPodPool)
    → p.containers ≡ c ∷ cs
    → count is_warm p.containers ≡ 0
    → evict now p ≡ (remove_pod c.id p, true)
unfolding evict evict_from
evict_without_warm now c cs p h k =
    rw (h, lru_index-no_warm 0 0 now (c ∷ cs) (ap (count is_warm) (sym h) ∙ k))

pub below_size :
    (p : KubernetesPodPool)
    → suc (length p.containers) ≡ p.config.max_size
    → leb p.config.max_size (length p.containers) ≡ false
below_size p h = ground (arith, h)

-- Two calls of `CreateNew` whose tests both come before either adds its pod: from one below
-- MaxSize the pool ends one above it, if the cluster makes both pods.
pub create_overshoots :
    (name name' ip ip' : String) (now : ℕ) (p : KubernetesPodPool)
    → suc (length p.containers) ≡ p.config.max_size
    → let p1 = (create_begin now p).0.0 in
      let p2 = (create_begin now p1).0.0 in
      let p3 = (create_end (some (name, ip)) now p2).0 in
      let p4 = (create_end (some (name', ip')) now p3).0 in
      length p4.containers ≡ suc p.config.max_size
unfolding create_begin create_end
create_overshoots name name' ip ip' now p h =
    rw (below_size p h, below_size p h)
      (omega (
        arith,
        h,
        length-append p.containers (pod_of name ip now ∷ []),
        length-append (p.containers ++ pod_of name ip now ∷ []) (pod_of name' ip' now ∷ []),
      ))
