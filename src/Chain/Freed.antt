-- ===== src/Chain/Freed.antt =====
-- The loop of src/m65ftp_lib.c that frees a cluster chain, against the list of its clusters.
use mega65fs.Base.{
  ℕ, zero, suc, ◌≤◌, ◌≡◌, ◌≢◌, refl, ◌∙◌, Bool, true, false, some, List, [], ◌∷◌, ◌||◌, arith, ◌==◌,
  if◌then◌else◌, length, no_cluster,
}
use mega65fs.Card.{Card, Library}
use mega65fs.Chain.{free_chain}
use mega65fs.Chain.Disk.{Disk, Kept}
use mega65fs.Flush.Block.{Links}

-- From k the table leads through the clusters `ks`, and ends there.
abbrev pub Runs : (ℕ → ℕ) → ℕ → List ℕ → Type 0
Runs table k [] = no_cluster k ≡ true
Runs table k (m ∷ ms) = (k ≡ m) × (no_cluster m ≡ false) × Runs table (table m) ms

abbrev pub has : ℕ → List ℕ → Bool
has k [] = false
has k (m ∷ ms) = k == m || has k ms

abbrev pub Distinct : List ℕ → Type 0
Distinct [] = Unit
Distinct (m ∷ ms) = (has m ms ≡ false) × Distinct ms

-- A chain is the same in a table that agrees on its clusters.
pub Runs-frame :
    (table table' : ℕ → ℕ) (k : ℕ) (ks : List ℕ)
    → ((j : ℕ) → has j ks ≡ true → table' j ≡ table j)
    → Runs table k ks
    → Runs table' k ks
Runs-frame table table' k [] same end = end
Runs-frame table table' k (m ∷ ms) same (e, live, rest) =
    let q : table' m ≡ table m = same m (ground arith) in
    (e, live, rw q (Runs-frame table table' (table m) ms (λ j h. same j (ground (arith, h))) rest))

-- While P holds: what freeing a cluster and setting its entry do to a cluster in use.
pub record Frees {R : Type 0} (lib : Library R) (P : Card R → Type 0) (fat : Card R → ℕ → ℕ)
    (sector : Card R → ℕ → List ℕ) : Type 0 where
  pub deallocate_cluster :
      (k : ℕ) (c : Card R)
      → no_cluster k ≡ false
      → fat c k ≢ 0
      → P c
      → Links P fat sector k 0 c (lib.deallocate_cluster k c)
  pub set_fat_cluster_ptr :
      (k v : ℕ) (c : Card R)
      → no_cluster k ≡ false
      → fat c k ≢ 0
      → P c
      → Links P fat sector k v c (lib.set_fat_cluster_ptr k v c)
  pub execute_write_queue : (c : Card R) → P c → Kept P fat sector c (lib.execute_write_queue c)

module _ {R : Type 0} ⦃lib : Library R⦄ (P : Card R → Type 0) (fat : Card R → ℕ → ℕ)
    (sector : Card R → ℕ → List ℕ) (g : Card R) (disk : Disk lib P fat sector g)
    (frees : Frees lib P fat sector) where
  -- With fuel for each cluster of a chain of distinct clusters in use, the loop ends, and exactly
  -- the clusters of the chain are free then; no sector of the data area changes.
  pub free_chain-Runs :
      (fuel k : ℕ) (ks : List ℕ) (c : Card R)
      → length ks ≤ fuel
      → Runs (fat c) k ks
      → Distinct ks
      → ((j : ℕ) → has j ks ≡ true → fat c j ≢ 0)
      → P c
      → (c' : Card R) × (free_chain fuel k c ≡ some (tt, c'))
        × P c'
        × ((j : ℕ) → fat c' j ≡ (if has j ks then 0 else fat c j))
        × ((m : ℕ) → sector c' m ≡ sector c m)
  unfolding free_chain
  free_chain-Runs zero k [] c le end d used ok = (c, rw end refl, ok, (λ j. refl), (λ m. refl))
  free_chain-Runs (suc fuel) k [] c le end d used ok =
      (c, rw end refl, ok, (λ j. refl), (λ m. refl))
  free_chain-Runs zero k (m ∷ ms) c le runs d used ok = absurd (omega arith)
  free_chain-Runs (suc fuel) k (m ∷ ms) c le (e, live, runs) (out, d) used ok =
      let (next, kept) = disk.chained_cluster m c ok in
      let c1 = (lib.chained_cluster m c).1 in
      let l =
        frees.deallocate_cluster m c1 live
          (λ z. used m (ground arith) (ground (arith, z, kept.table m))) kept.ok in
      let c2 = lib.deallocate_cluster m c1 in
      let unfreed : (j : ℕ) → has j ms ≡ true → fat c2 j ≢ 0 =
        λ j h z. used j (ground (arith, h)) (ground (arith, l.table j, kept.table j, out, h, z)) in
      let step : free_chain (suc fuel) k c ≡ free_chain fuel (fat c m) c2 =
        rw (e, live, next) refl in
      let (c', run, ok', t, s) =
        free_chain-Runs fuel (fat c m) ms c2 (omega arith)
          (Runs-frame (fat c) (fat c2) (fat c m) ms
            (λ j h. ground (arith, l.table j, kept.table j, out, h)) runs)
          d (λ j h. unfreed j h) l.ok in
      (
        c',
        step ∙ run,
        ok',
        (λ j. ground (arith, t j, l.table j, kept.table j, out)),
        (λ n. s n ∙ l.sectors n ∙ kept.sectors n),
      )
