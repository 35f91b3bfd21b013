-- ===== src/Chain/Walks.antt =====
-- count_cluster_chain and the walk of m65ftp_pwrite of src/m65ftp_lib.c against the list of a
-- chain's clusters.
use mega65fs.Base.{
  min, no_cluster, ℕ, zero, suc, ◌+◌, ◌<◌, ◌≡◌, refl, true, false, some, List, [], ◌∷◌, arith,
  length,
}
use mega65fs.Card.{Card, Library}
use mega65fs.Chain.{count_from, count_cluster_chain, walk_chain}

-- While P holds of the card, its file allocation table is `next`, and following a chain keeps P.
pub record Follows {R : Type 0} (lib : Library R) (P : Card R → Type 0) (next : ℕ → ℕ)
    : Type 0 where
  pub chained_cluster :
      (k : ℕ) (c : Card R)
      → P c
      → ((lib.chained_cluster k c).0 ≡ next k) × P (lib.chained_cluster k c).1

-- Behind cluster k the chain goes on with these clusters, and ends there.
abbrev pub IsChain : (ℕ → ℕ) → ℕ → List ℕ → Type 0
IsChain next k [] = no_cluster (next k) ≡ true
IsChain next k (m ∷ ms) = (next k ≡ m) × (no_cluster m ≡ false) × IsChain next m ms

-- The cluster n steps behind k, or the last one.
abbrev pub step_along : ℕ → List ℕ → ℕ → ℕ
step_along k ms zero = k
step_along k [] (suc n) = k
step_along k (m ∷ ms) (suc n) = step_along m ms n

module _ {R : Type 0} ⦃lib : Library R⦄ (P : Card R → Type 0) (next : ℕ → ℕ)
    (follows : Follows lib P next) where
  count_from_lem :
      (fuel k count : ℕ) (ms : List ℕ) (c : Card R)
      → length ms < fuel
      → IsChain next k ms
      → P c
      → (c' : Card R) × (count_from fuel k count c
          ≡ some ((count + length ms, step_along k ms (length ms)), c'))
        × P c'
  unfolding count_from
  count_from_lem zero k count ms c lt chain p = absurd (omega arith)
  count_from_lem (suc fuel) k count [] c lt end p =
      let (e, p') = follows.chained_cluster k c p in
      let z : count + 0 ≡ count = omega arith in rw (e, end, z) (_, refl, p')
  count_from_lem (suc fuel) k count (m ∷ ms) c lt (n, more, chain) p =
      let (e, p') = follows.chained_cluster k c p in
      let z : count + suc (length ms) ≡ count + 1 + length ms = omega arith in
      rw (e, n, more, z)
        (count_from_lem fuel m (count + 1) ms (lib.chained_cluster k c).1 (omega arith) chain p')

  -- With fuel for each cluster of the chain, the count is the number of its clusters, and the
  -- cluster that comes with it is the last one.
  pub count_cluster_chain_lem :
      (fuel first : ℕ) (ms : List ℕ) (c : Card R)
      → length ms < fuel
      → IsChain next first ms
      → P c
      → (c' : Card R) × (count_cluster_chain fuel first c
          ≡ some ((1 + length ms, step_along first ms (length ms)), c'))
        × P c'
  unfolding count_cluster_chain
  count_cluster_chain_lem fuel first ms c lt chain p = count_from_lem fuel first 1 ms c lt chain p

  -- A walk of n steps along a chain ends n clusters behind the first, or at the last cluster where
  -- the chain is shorter, and counts the steps made.
  pub walk_chain_lem :
      (n k len : ℕ) (ms : List ℕ) (c : Card R)
      → IsChain next k ms
      → P c
      → (c' : Card R) × (walk_chain n k len c
          ≡ some ((step_along k ms n, len + min n (length ms)), c'))
        × P c'
  unfolding walk_chain
  walk_chain_lem zero k len ms c chain p =
      let z : len + min 0 (length ms) ≡ len = omega arith in rw z (c, refl, p)
  walk_chain_lem (suc n) k len [] c end p =
      let (e, p') = follows.chained_cluster k c p in
      let z : len + min (suc n) 0 ≡ len = omega arith in rw (e, end, z) (_, refl, p')
  walk_chain_lem (suc n) k len (m ∷ ms) c (e', more, chain) p =
      let (e, p') = follows.chained_cluster k c p in
      let z : len + min (suc n) (suc (length ms)) ≡ len + 1 + min n (length ms) = omega arith in
      rw (e, e', more, z) (walk_chain_lem n m (len + 1) ms (lib.chained_cluster k c).1 chain p')
