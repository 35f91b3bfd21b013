-- ===== src/Flush/Block.antt =====
-- The block of clusters that flush_write_buffer of src/m65ftp_lib.c allocates and chains.
use mega65fs.Base.{
  ℕ, zero, suc, ◌+◌, ◌-◌, ◌*◌, ◌^◌, ◌≤◌, ◌<◌, ◌≡◌, refl, false, some, List, ◌&&◌, arith, ◌==◌, leb,
  ltb, if◌then◌else◌, no_cluster, ap, ◌∙◌,
}
use mega65fs.Card.{Card, Library}
use mega65fs.Store.{end_of_chain}
use mega65fs.Chain.{first_data_sector}
use mega65fs.Chain.Disk.{Kept, InArea}
use mega65fs.Flush.{chain_block}

-- n clusters from `start` on are free ones of the data area, whose sectors have numbers of 32 bits.
pub record IsFree {R : Type 0} (g : Card R) (table : ℕ → ℕ) (start n : ℕ) : Type 0 where
  pub low : 2 ≤ start
  pub high : first_data_sector g + (start - 2 + n) * g.sectors_per_cluster ≤ 2 ^ 32
  pub live : start + n ≤ end_of_chain
  pub free : (k : ℕ) → start ≤ k → k < start + n → table k ≡ 0

module _ {R : Type 0} (P : Card R → Type 0) (fat : Card R → ℕ → ℕ)
    (sector : Card R → ℕ → List ℕ) where
  -- The entry of cluster k in the table becomes v, and no sector of the data area changes.
  pub record Links (k v : ℕ) (c c' : Card R) : Type 0 where
    pub ok : P c'
    pub table : (n : ℕ) → fat c' n ≡ (if n == k then v else fat c n)
    pub sectors : (m : ℕ) → sector c' m ≡ sector c m

-- While P holds: what the library's calls on the table do, and its write queue.
pub record Allocator {R : Type 0} (lib : Library R) (P : Card R → Type 0) (fat : Card R → ℕ → ℕ)
    (sector : Card R → ℕ → List ℕ) (g : Card R) : Type 0 where
  pub find_contiguous_clusters :
      (n : ℕ) (c : Card R) → P c → Kept P fat sector c (lib.find_contiguous_clusters n c).1
  pub found :
      (n : ℕ) (c : Card R)
      → P c
      → no_cluster (lib.find_contiguous_clusters n c).0 ≡ false
      → IsFree g (fat c) (lib.find_contiguous_clusters n c).0 n
  pub allocate_cluster :
      (k : ℕ) (c : Card R)
      → 2 ≤ k
      → fat c k ≡ 0
      → P c
      → Links P fat sector k end_of_chain c (lib.allocate_cluster k c).1
  pub chain_cluster :
      (k m : ℕ) (c : Card R)
      → fat c k ≡ end_of_chain
      → m < end_of_chain
      → P c
      → Links P fat sector k m c (lib.chain_cluster k m c).1
  pub execute_write_queue : (c : Card R) → P c → Kept P fat sector c (lib.execute_write_queue c)

-- The table in which clusters a to a + n are one chain.
abbrev pub chained : (ℕ → ℕ) → ℕ → ℕ → ℕ → ℕ
chained table a n k =
    if leb a k && ltb k (a + n) then k + 1 else (if k == a + n then end_of_chain else table k)

-- The numbers of the clusters of a block.
abbrev pub block : ℕ → ℕ → ℕ
block start i = start + i

pub IsFree-InArea :
    {R : Type 0} (g : Card R) (table : ℕ → ℕ) (start n : ℕ)
    → IsFree g table start n
    → InArea g (block start) n
IsFree-InArea g table start n f = record {
  low = λ i h. omega (arith, f.low);
  high = λ i h. within i h;
  live = λ i h. ground (arith, f.live);
  distinct = λ i j hi hj e. omega (arith, e);
}
  where
    within :
        (i : ℕ) → i < n → first_data_sector g + (start + i - 1) * g.sectors_per_cluster ≤ 2 ^ 32
    within i h =
        let d = n - suc i in
        let e : start - 2 + n ≡ start + i - 1 + d = omega (arith, f.low) in
        omega (arith, f.high, ap (λ (t : ℕ). t * g.sectors_per_cluster) e)

module _ {R : Type 0} ⦃lib : Library R⦄ (P : Card R → Type 0) (fat : Card R → ℕ → ℕ)
    (sector : Card R → ℕ → List ℕ) (g : Card R) (alloc : Allocator lib P fat sector g) where
  -- Behind cluster start + i the next n clusters are free; it is the end of the chain so far.
  pub chain_block_lem :
      (n start i : ℕ) (c : Card R)
      → 2 ≤ start
      → start + i + n < end_of_chain
      → fat c (start + i) ≡ end_of_chain
      → ((k : ℕ) → start + i < k → k ≤ start + i + n → fat c k ≡ 0)
      → P c
      → (c' : Card R) × (chain_block n start (suc i) c ≡ some (tt, c'))
        × P c'
        × ((k : ℕ) → fat c' k ≡ chained (fat c) (start + i) n k)
        × ((m : ℕ) → sector c' m ≡ sector c m)
  unfolding chain_block
  chain_block_lem zero start i c low high end free ok =
      (c, refl, ok, (λ k. ground (arith, end)), (λ m. refl))
  chain_block_lem (suc n) start i c low high end free ok =
      let a = start + i in
      let z : start + suc i - 1 ≡ a = omega arith in
      let c1 = (lib.allocate_cluster (start + suc i) c).1 in
      let l1 =
        alloc.allocate_cluster (start + suc i) c (omega arith)
          (free (start + suc i) (omega arith) (omega arith)) ok in
      let c2 = (lib.chain_cluster a (start + suc i) c1).1 in
      let l2 =
        alloc.chain_cluster a (start + suc i) c1 (ground (arith, l1.table a, end)) (omega arith)
          l1.ok in
      let y : suc i + 1 ≡ suc (suc i) = omega arith in
      let (c', e, ok', t, s) =
        chain_block_lem n start (suc i) c2 low (omega arith)
          (ground (arith, l2.table (start + suc i), l1.table (start + suc i)))
          (λ k lo hi. ground (arith, l2.table k, l1.table k, free k)) l2.ok in
      rw (z, y)
        (
          c',
          e,
          ok',
          (λ k. ground (arith, t k, l2.table k, l1.table k)),
          (λ m. s m ∙ l2.sectors m ∙ l1.sectors m),
        )
