-- ===== src/Truncate/Allocated.antt =====
-- The new block of clusters of a file that m65ftp_ftruncate of src/m65ftp_lib.c makes longer.
use mega65fs.Base.{
  Option, none, ℕ, zero, suc, ◌+◌, ◌-◌, ◌≤◌, ◌<◌, ◌≡◌, ap, ◌∙◌, true, false, some, arith, ◌==◌,
  List, Option,
}
use mega65fs.Card.{Card, Library}
use mega65fs.Store.{end_of_chain}
use mega65fs.Flush.{chain_block}
use mega65fs.Flush.Block.{Allocator, chained, chain_block_lem}
use mega65fs.Truncate.{allocate_block}

-- While P holds: allocating a free cluster succeeds, and so does linking to a cluster from the end
-- of a chain.
pub record Grants {R : Type 0} (lib : Library R) (P : Card R → Type 0) (fat : Card R → ℕ → ℕ)
    : Type 0 where
  pub allocate_cluster :
      (k : ℕ) (c : Card R) → 2 ≤ k → fat c k ≡ 0 → P c → (lib.allocate_cluster k c).0 ≡ true
  pub chain_cluster :
      (k m : ℕ) (c : Card R)
      → fat c k ≡ end_of_chain
      → m < end_of_chain
      → P c
      → (lib.chain_cluster k m c).0 ≡ true

module _ {R : Type 0} ⦃lib : Library R⦄ (P : Card R → Type 0) (fat : Card R → ℕ → ℕ)
    (sector : Card R → ℕ → List ℕ) (g : Card R) (alloc : Allocator lib P fat sector g)
    (grants : Grants lib P fat) where
  -- Where no call fails, the loop is that of flush_write_buffer.
  allocate_block-chain_block :
      (n start i total : ℕ) (c c' : Card R)
      → total ≡ suc i + n
      → 2 ≤ start
      → start + i + n < end_of_chain
      → fat c (start + i) ≡ end_of_chain
      → ((k : ℕ) → start + i < k → k ≤ start + i + n → fat c k ≡ 0)
      → P c
      → chain_block n start (suc i) c ≡ some (tt, c')
      → allocate_block n start (suc i) c ≡ some ((true, total), c')
  unfolding allocate_block chain_block
  allocate_block-chain_block zero start i total c c' sum low high end free ok run =
      let z : suc i ≡ total = omega (arith, sum) in
      rw z (
        ap
          (λ (o : Option (Unit {0} × Card R)). elim o [
            | none ↦ none
            | some (_, d) ↦ some ((true, total), d)
          ])
          run)
  allocate_block-chain_block (suc n) start i total c c' sum low high end free ok run =
      let a = start + i in
      let z : start + suc i - 1 ≡ a = omega arith in
      let y : suc i + 1 ≡ suc (suc i) = omega arith in
      let fresh = free (start + suc i) (omega arith) (omega arith) in
      let c1 = (lib.allocate_cluster (start + suc i) c).1 in
      let l1 = alloc.allocate_cluster (start + suc i) c (omega arith) fresh ok in
      let end' : fat c1 a ≡ end_of_chain = ground (arith, l1.table a, end) in
      let c2 = (lib.chain_cluster a (start + suc i) c1).1 in
      let l2 = alloc.chain_cluster a (start + suc i) c1 end' (omega arith) l1.ok in
      let g1 = grants.allocate_cluster (start + suc i) c (omega arith) fresh ok in
      let g2 = grants.chain_cluster a (start + suc i) c1 end' (omega arith) l1.ok in
      let q : (suc i == 0) ≡ false = ground arith in
      rw (z, y, g1, q, g2)
        (allocate_block-chain_block n start (suc i) total c2 c' (omega (arith, sum)) low
          (omega arith) (ground (arith, l2.table (start + suc i), l1.table (start + suc i)))
          (λ k lo hi. ground (arith, l2.table k, l1.table k, free k)) l2.ok (rw (z, y) at run))

  -- A block of n + 1 free clusters becomes one chain.
  pub allocate_block_lem :
      (n start : ℕ) (c : Card R)
      → 2 ≤ start
      → start + n < end_of_chain
      → ((k : ℕ) → start ≤ k → k ≤ start + n → fat c k ≡ 0)
      → P c
      → (c' : Card R) × (allocate_block (suc n) start 0 c ≡ some ((true, suc n), c'))
        × P c'
        × ((k : ℕ) → fat c' k ≡ chained (fat c) start n k)
        × ((m : ℕ) → sector c' m ≡ sector c m)
  unfolding allocate_block
  allocate_block_lem n start c low high free ok =
      let z : start + 0 ≡ start = omega arith in
      let c1 = (lib.allocate_cluster start c).1 in
      let fresh = free start (omega arith) (omega arith) in
      let l1 = alloc.allocate_cluster start c low fresh ok in
      let end : fat c1 (start + 0) ≡ end_of_chain = ground (arith, l1.table (start + 0)) in
      let others : (k : ℕ) → start + 0 < k → k ≤ start + 0 + n → fat c1 k ≡ 0 =
        λ k lo hi. ground (arith, l1.table k, free k) in
      let g1 = grants.allocate_cluster start c low fresh ok in
      let (c', run, ok', t, s) =
        chain_block_lem P fat sector g alloc n start 0 c1 low (omega arith) end others l1.ok in
      let e =
        allocate_block-chain_block n start 0 (suc n) c1 c' (omega arith) low (omega arith) end
          others l1.ok run in
      (c', rw (z, g1) e, ok', (λ k. ground (arith, t k, l1.table k)), (λ m. s m ∙ l1.sectors m))
