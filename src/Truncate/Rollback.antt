-- ===== src/Truncate/Rollback.antt =====
-- The growth of a file in m65ftp_ftruncate of src/m65ftp_lib.c where a cluster cannot be allocated.
use mega65fs.Base.{
  Holds, no_cluster, ℕ, zero, suc, ◌+◌, ◌-◌, ◌≤◌, ◌<◌, ◌≡◌, refl, subst, ◌∙◌, Bool, false, inl, inr,
  Option, none, some, ◌&&◌, arith, ◌==◌, leb, ltb, if◌then◌else◌, Bool-cases, ◌>>=◌,
}
use mega65fs.Card.{Card, Library}
use mega65fs.Store.{FileInfo}
use mega65fs.Truncate.{allocate_block, free_block, grow_chain}

-- While P holds, `fat` is the file allocation table: what the library's calls do to it.
pub record Table {R : Type 0} (lib : Library R) (P : Card R → Type 0) (fat : Card R → ℕ → ℕ)
    : Type 0 where
  pub find_contiguous_clusters :
      (n : ℕ) (c : Card R)
      → P c
      → P (lib.find_contiguous_clusters n c).1
        × ((k : ℕ) → fat (lib.find_contiguous_clusters n c).1 k ≡ fat c k)
  -- The clusters that are found are free.
  pub free :
      (n : ℕ) (c : Card R) (k : ℕ)
      → P c
      → no_cluster (lib.find_contiguous_clusters n c).0 ≡ false
      → (lib.find_contiguous_clusters n c).0 ≤ k
      → k < (lib.find_contiguous_clusters n c).0 + n
      → fat c k ≡ 0
  pub allocate_cluster :
      (n : ℕ) (c : Card R)
      → P c
      → P (lib.allocate_cluster n c).1
        × ((k : ℕ)
            → fat (lib.allocate_cluster n c).1 k ≡ (
                if k == n && (lib.allocate_cluster n c).0
                then fat (lib.allocate_cluster n c).1 n
                else fat c k))
  pub chain_cluster :
      (n m : ℕ) (c : Card R)
      → P c
      → P (lib.chain_cluster n m c).1
        × ((k : ℕ)
            → fat (lib.chain_cluster n m c).1 k
              ≡ (if k == n then fat (lib.chain_cluster n m c).1 n else fat c k))
  pub deallocate_cluster :
      (n : ℕ) (c : Card R)
      → P c
      → P (lib.deallocate_cluster n c)
        × ((k : ℕ) → fat (lib.deallocate_cluster n c) k ≡ (if k == n then 0 else fat c k))

Holds-mono :
    {S A : Type 0} {Q Q' : A → S → Type 0}
    → ((a : A) (s : S) → Q a s → Q' a s)
    → (r : Option (A × S)) → Holds Q r
    → Holds Q' r
Holds-mono f none h = tt
Holds-mono f (some (a, s)) h = f a s h

module _ {R : Type 0} ⦃lib : Library R⦄ (P : Card R → Type 0) (fat : Card R → ℕ → ℕ)
    (table : Table lib P fat) where
  -- Outside the clusters from start to start + j - 1 the tables are the same.
  abbrev SameOutside : ℕ → ℕ → Card R → Card R → Type 0
  SameOutside start j c c' =
      (k : ℕ) → (leb start k && ltb k (start + j)) ≡ false → fat c' k ≡ fat c k

  abbrev Allocated : ℕ → ℕ → ℕ → Card R → Bool × ℕ → Card R → Type 0
  Allocated n start i c x c' = (i ≤ x.1) × (x.1 ≤ i + n) × P c' × SameOutside start x.1 c c'

  Allocated-step :
      (n start i : ℕ) (c c1 : Card R) (x : Bool × ℕ) (c' : Card R)
      → ((k : ℕ) → (leb start k && ltb k (start + (i + 1))) ≡ false → fat c1 k ≡ fat c k)
      → Allocated n start (i + 1) c1 x c'
      → Allocated (suc n) start i c x c'
  Allocated-step n start i c c1 x c' f (l, u, p, g) =
      (omega arith, omega arith, p, (λ k h. g k h ∙ f k (ground (arith, h, l))))

  allocate_block-Allocated :
      (n start i : ℕ) (c : Card R)
      → P c
      → Holds (Allocated n start i c) (allocate_block n start i c)
  unfolding allocate_block
  allocate_block-Allocated zero start i c p = (omega arith, omega arith, p, (λ k h. refl))
  allocate_block-Allocated (suc n) start i c p =
      let (p1, f1) = table.allocate_cluster (start + i) c p in
      let c1 = (lib.allocate_cluster (start + i) c).1 in
      let (p2, f2) = table.chain_cluster (start + i - 1) (start + i) c1 p1 in
      let c2 = (lib.chain_cluster (start + i - 1) (start + i) c1).1 in
      elim (Bool-cases (lib.allocate_cluster (start + i) c).0) [
        | inr w ↦ rw w (omega arith, omega arith, p1, (λ k h. ground (arith, f1 k, h, w)))
        | inl w ↦ elim (Bool-cases (i == 0)) [
          | inl z ↦
              rw (w, z)
                (Holds-mono
                  (λ x c'. Allocated-step n start i c c1 x c' (λ k h. ground (arith, f1 k, h)))
                  (allocate_block n start (i + 1) c1)
                  (allocate_block-Allocated n start (i + 1) c1 p1))
          | inr z ↦ elim (Bool-cases (lib.chain_cluster (start + i - 1) (start + i) c1).0) [
            | inl v ↦
                rw (w, z, v)
                  (Holds-mono
                    (λ x c'.
                      Allocated-step n start i c c2 x c' (λ k h. ground (arith, f2 k, f1 k, h, z)))
                    (allocate_block n start (i + 1) c2)
                    (allocate_block-Allocated n start (i + 1) c2 p2))
            | inr v ↦
                rw (w, z, v)
                  (omega arith, omega arith, p2, (λ k h. ground (arith, f2 k, f1 k, h, z)))
          ]
        ]
      ]

  free_block_lem :
      (n start i : ℕ) (c : Card R)
      → P c
      → (c' : Card R) × (free_block n start i c ≡ some (tt, c'))
        × P c'
        × ((k : ℕ) → fat c' k ≡ (if leb (start + i) k && ltb k (start + i + n) then 0 else fat c k))
  unfolding free_block
  free_block_lem zero start i c p = (c, refl, p, (λ k. ground arith))
  free_block_lem (suc n) start i c p =
      let (p1, f1) = table.deallocate_cluster (start + i) c p in
      let (c', e, p', f) =
        free_block_lem n start (i + 1) (lib.deallocate_cluster (start + i) c) p1 in
      (c', e, p', (λ k. ground (arith, f k, f1 k)))

  -- The path of grow_chain that takes the clusters back.
  grow_chain-free_block :
      (fuel : ℕ) (fi : FileInfo) (needed n : ℕ) (c : Card R) (j : ℕ) (c2 c3 : Card R)
      → no_cluster (lib.find_contiguous_clusters needed c).0 ≡ false
      → allocate_block needed
          (lib.find_contiguous_clusters needed c).0
          0
          (lib.find_contiguous_clusters needed c).1
        ≡ some ((false, j), c2)
      → free_block j (lib.find_contiguous_clusters needed c).0 0 c2 ≡ some (tt, c3)
      → grow_chain fuel fi needed n c ≡ some (none, c3)
  unfolding grow_chain
  grow_chain-free_block fuel fi needed n c j c2 c3 found stopped freed_all =
      rw (found, ◌>>=◌, stopped, freed_all) refl

  -- grow_chain on a card whose library is a Table: where the clusters that it needs are found but
  -- not all of them can be allocated and chained, it reports that and leaves the table as it was.
  pub grow_chain-allocate_block :
      (fuel : ℕ) (fi : FileInfo) (needed n : ℕ) (c : Card R) (j : ℕ) (c2 : Card R)
      → P c
      → no_cluster (lib.find_contiguous_clusters needed c).0 ≡ false
      → allocate_block needed
          (lib.find_contiguous_clusters needed c).0
          0
          (lib.find_contiguous_clusters needed c).1
        ≡ some ((false, j), c2)
      → (c3 : Card R) × (grow_chain fuel fi needed n c ≡ some (none, c3))
        × ((k : ℕ) → fat c3 k ≡ fat c k)
  grow_chain-allocate_block fuel fi needed n c j c2 p found stopped =
      let start = (lib.find_contiguous_clusters needed c).0 in
      let c1 = (lib.find_contiguous_clusters needed c).1 in
      let (p1, f1) = table.find_contiguous_clusters needed c p in
      let (l, u, p2, g) =
        subst (Holds (Allocated needed start 0 c1)) stopped
          (allocate_block-Allocated needed start 0 c1 p1) in
      let (c3, freed_all, p3, f) = free_block_lem j start 0 c2 p2 in
      (
        c3,
        grow_chain-free_block fuel fi needed n c j c2 c3 found stopped freed_all,
        (λ k. ground (arith, f k, g k, f1 k, table.free needed c k p found)),
      )
