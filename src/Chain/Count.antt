-- ===== src/Chain/Count.antt =====
-- How many clusters a chain on the card has at most.
use mega65fs.Base.{
  ℕ, zero, suc, ◌≤◌, ◌<◌, ◌≡◌, ◌==◌, ◌∷◌, ◌^◌, refl, false, inl, inr, List, [], arith, length,
  Bool-cases, u32,
}
use mega65fs.Card.{Card}
use mega65fs.Store.Pool.{is_free, IsDistinct, Below, pigeonhole}
use mega65fs.Chain.Disk.{InArea}

pub u32_small : (n : ℕ) → n < 2 ^ 32 → u32 n ≡ n
u32_small n h = omega arith

-- The first n clusters of a chain.
first_clusters : (ℕ → ℕ) → ℕ → List ℕ
first_clusters chain zero = []
first_clusters chain (suc n) = chain n ∷ first_clusters chain n

module _ {R : Type 0} (g : Card R) (chain : ℕ → ℕ) (count : ℕ) (area : InArea g chain count) where
  cluster_absent :
      (n k : ℕ) → n ≤ k → k < count → is_free (chain k) (first_clusters chain n) ≡ false
  unfolding first_clusters
  cluster_absent zero k le lt = refl
  cluster_absent (suc n) k le lt = elim (Bool-cases (chain k == chain n)) [
    | inl w ↦
        let e = area.distinct k n lt (omega (arith, le, lt)) (ground (arith, w)) in
        absurd (omega (arith, e, le))
    | inr w ↦ rw w (cluster_absent n k (omega (arith, le)) lt)
  ]

  clusters-IsDistinct : (n : ℕ) → n ≤ count → IsDistinct (first_clusters chain n)
  unfolding first_clusters
  clusters-IsDistinct zero le = tt
  clusters-IsDistinct (suc n) le = (
    cluster_absent n n (omega arith) (omega (arith, le)),
    clusters-IsDistinct n (omega (arith, le)),
  )

  clusters-Below : (n : ℕ) → n ≤ count → Below 0xffffff8 (first_clusters chain n)
  unfolding first_clusters
  clusters-Below zero le = tt
  clusters-Below (suc n) le =
      (ground (arith, area.live n (omega (arith, le))), clusters-Below n (omega (arith, le)))

  length-first_clusters : (n : ℕ) → length (first_clusters chain n) ≡ n
  unfolding first_clusters
  length-first_clusters zero = refl
  length-first_clusters (suc n) = omega (arith, length-first_clusters n)

  -- A chain has no more clusters than there are cluster numbers.
  pub count_lem : count ≤ 0xffffff8
  count_lem = omega (
    arith,
    length-first_clusters count,
    pigeonhole 0xffffff8 (first_clusters chain count) (clusters-IsDistinct count (omega arith))
        (clusters-Below count (omega arith)),
  )
