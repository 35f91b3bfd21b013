-- ===== src/Truncate/Grown.antt =====
-- The growth of a file in m65ftp_ftruncate of src/m65ftp_lib.c where nothing fails.
use mega65fs.Base.{
  ◌>>◌, ℕ, suc, ◌+◌, ◌-◌, ◌*◌, ◌/◌, ◌%◌, ◌^◌, ◌≤◌, ◌<◌, ◌≡◌, ◌≢◌, refl, ap, sym, ◌∙◌, true, false,
  some, List, ◌∷◌, arith, if◌then◌else◌, length, get_or, ◌>>=◌, no_cluster, u32,
}
use mega65fs.Card.{Card, Library}
use mega65fs.Store.{FileInfo}
use mega65fs.Chain.{cluster_size, sector_number, free_chain}
use mega65fs.Chain.Disk.{Disk, Linked}
use mega65fs.Chain.Walks.{step_along}
use mega65fs.Chain.Freed.{has, Runs-frame, Frees, free_chain-Runs}
use mega65fs.Chain.Split.{Runs-IsChain}
use mega65fs.Flush.{at_most}
use mega65fs.Flush.Block.{Allocator, IsFree, IsFree-InArea, chained, block}
use mega65fs.Read.Places.{byte_on_card}
use mega65fs.Write.Bytes.{place_back, index_lem}
use mega65fs.Truncate.{allocate_block, copy_chain, grow_chain}
use mega65fs.Truncate.Allocated.{Grants, allocate_block_lem}
use mega65fs.Truncate.Copied.{copy_chain_lem}
use mega65fs.Truncate.FileChain.{
  FileChain, IsChain-Linked, has-step_along, shorter_area, sectors_apart,
}

module _ {R : Type 0} (P : Card R → Type 0) (fat : Card R → ℕ → ℕ) (sector : Card R → ℕ → List ℕ)
    (g : Card R) where
  -- The bytes of the file in clusters m and xs are in a block of `needed` clusters from `start` on,
  -- which were free and are one chain; the clusters m and xs are free; the table is otherwise the
  -- same, and so are the sectors outside the block.
  pub record Grown (size needed start m : ℕ) (xs : List ℕ) (c c' : Card R) : Type 0 where
    pub ok : P c'
    pub was_free : IsFree g (fat c) start needed
    pub table :
        (k : ℕ) → fat c' k ≡ (if has k (m ∷ xs) then 0 else chained (fat c) start (needed - 1) k)
    pub bytes :
        (x : ℕ)
        → x < size
        → byte_on_card g (sector c') (block start) x ≡ byte_on_card g (sector c) (step_along m xs) x
    pub others :
        (k : ℕ)
        → ((j s : ℕ) → j < needed → s < g.sectors_per_cluster → k ≢ sector_number g (start + j) s)
        → sector c' k ≡ sector c k

-- A cluster in use is none of the free ones.
outside :
    {R : Type 0} (g : Card R) (table : ℕ → ℕ) (start needed k : ℕ)
    → IsFree g table start needed
    → 0 < needed
    → table k ≢ 0
    → chained table start (needed - 1) k ≡ table k
outside g table start needed k free at_least used = ground (arith, free.free k, used)

module _ {R : Type 0} ⦃lib : Library R⦄ (P : Card R → Type 0) (fat : Card R → ℕ → ℕ)
    (sector : Card R → ℕ → List ℕ) (g : Card R) (disk : Disk lib P fat sector g)
    (frees : Frees lib P fat sector) where
  -- The copy into a block that is one chain already, and the end of the old chain.
  relocate_lem :
      (fuel size needed start m : ℕ) (xs : List ℕ) (c c2 : Card R)
      → IsFree g (fat c) start needed
      → FileChain g (fat c) size m xs
      → suc (length xs) < needed
      → suc (length xs) ≤ fuel
      → P c2
      → ((k : ℕ) → fat c2 k ≡ chained (fat c) start (needed - 1) k)
      → ((k : ℕ) → sector c2 k ≡ sector c k)
      → (c3 : Card R) × (c4 : Card R) × (copy_chain (size + 1) m (start + 0) size c2
          ≡ some (true, c3))
        × (free_chain fuel m c3 ≡ some (tt, c4))
        × Grown P fat sector g size needed start m xs c c4
  relocate_lem fuel size needed start m xs c c2 free file more enough ok2 t2 s2 =
      let count = suc (length xs) in
      let (_, _, r) = file.runs in
      let kept : (k : ℕ) → has k (m ∷ xs) ≡ true → fat c2 k ≡ fat c k =
        λ k h. t2 k ∙ outside g (fat c) start needed k free (omega arith) (file.used k h) in
      let linked : Linked (fat c2) (step_along m xs) count = λ i h.
        kept (step_along m xs i) (has-step_along m xs i (omega arith))
        ∙ IsChain-Linked (fat c) m xs (Runs-IsChain (fat c) m xs r) i h in
      let whole : count - 0 ≡ count = omega arith in
      let (c3, run3, copy) =
        copy_chain_lem P fat sector g disk (step_along m xs) start count file.area
          (shorter_area g (block start) needed count (omega arith)
            (IsFree-InArea g (fat c) start needed free))
          (λ i j s t hi hj hs ht.
            sectors_apart g (fat c) size start needed m xs i j s t file free more hi hj hs ht)
          (size + 1) 0 size c2 (omega arith) (omega arith)
          (omega (arith, file.fits, ap (λ (t : ℕ). t * cluster_size g) whole)) linked ok2 in
      let kept3 : (k : ℕ) → has k (m ∷ xs) ≡ true → fat c3 k ≡ fat c k =
        λ k h. copy.table k ∙ kept k h in
      let (c4, run4, ok4, t4, s4) =
        free_chain-Runs P fat sector g disk frees fuel m (m ∷ xs) c3 enough
          (Runs-frame (fat c) (fat c3) m (m ∷ xs) kept3 file.runs) file.distinct
          (λ k h z. file.used k h (sym (kept3 k h) ∙ z)) copy.ok in
      (
        c3,
        c4,
        run3,
        run4,
        record {
          ok = ok4;
          was_free = free;
          table = λ k. t4 k ∙ ap (λ (v : ℕ). if has k (m ∷ xs) then 0 else v) (copy.table k ∙ t2 k);
          bytes = λ x h.
              let i = x / cluster_size g in
              let s = x % cluster_size g / 512 in
              let (hs, e, _) = place_back x g.sectors_per_cluster disk.some_sectors in
              let hi = index_lem g count disk.some_sectors x (omega (arith, file.fits, h)) in
              let y : i - 0 ≡ i = omega arith in
              ap (λ (l : List ℕ). get_or l (x % cluster_size g % 512) 0)
                (s4 (sector_number g (start + i) s)
                  ∙ copy.copied i s (omega arith) hi hs
                      (omega (arith, e, h, ap (λ (t : ℕ). t * g.sectors_per_cluster) y))
                  ∙ s2 (sector_number g (step_along m xs i) s));
          others = λ k h. s4 k ∙ copy.others k (λ j s lo hj hs. h j s (omega arith) hs) ∙ s2 k;
        },
      )

module _ {R : Type 0} ⦃lib : Library R⦄ (P : Card R → Type 0) (fat : Card R → ℕ → ℕ)
    (sector : Card R → ℕ → List ℕ) (g : Card R) (disk : Disk lib P fat sector g)
    (alloc : Allocator lib P fat sector g) (grants : Grants lib P fat)
    (frees : Frees lib P fat sector) (fi : FileInfo) where
  -- The run of grow_chain, from the runs of its parts.
  grow_eq :
      (fuel needed n m : ℕ) (c c2 c3 c4 : Card R)
      → fi.first_cluster ≡ m
      → 0 < needed
      → fi.file_size ≤ n
      → n < 2 ^ 32
      → (let (start, c1) = lib.find_contiguous_clusters needed c in
          no_cluster start ≡ false
          → allocate_block (suc (needed - 1)) start 0 c1 ≡ some ((true, suc (needed - 1)), c2)
          → copy_chain (fi.file_size + 1) m (start + 0) fi.file_size c2 ≡ some (true, c3)
          → free_chain fuel m c3 ≡ some (tt, c4)
          → grow_chain fuel fi needed n c ≡ some (some start, c4))
  unfolding grow_chain
  grow_eq fuel needed n m c c2 c3 c4 first at_least le small found allocated copied freed =
      let start = (lib.find_contiguous_clusters needed c).0 in
      let z : start + 0 ≡ start = omega arith in
      let y : suc (needed - 1) ≡ needed = omega arith in
      let x : at_most (u32 n) fi.file_size ≡ fi.file_size = ground (arith, le, small) in
      rw (found, ◌>>=◌, rw y at allocated, x, first, rw z at copied, ◌>>◌, first, freed) refl

  -- Where a block is found for more clusters than the file has.
  pub grow_chain-Grown :
      (fuel needed n m : ℕ) (xs : List ℕ) (c : Card R)
      → P c
      → fi.first_cluster ≡ m
      → FileChain g (fat c) fi.file_size m xs
      → fi.file_size ≤ n
      → n < 2 ^ 32
      → suc (length xs) < needed
      → suc (length xs) ≤ fuel
      → no_cluster (lib.find_contiguous_clusters needed c).0 ≡ false
      → (c' : Card R) × (grow_chain fuel fi needed n c
          ≡ some (some (lib.find_contiguous_clusters needed c).0, c'))
        × Grown P fat sector g fi.file_size needed
            (lib.find_contiguous_clusters needed c).0
            m
            xs
            c
            c'
  grow_chain-Grown fuel needed n m xs c ok first file le small more enough found =
      let (start, c1) = lib.find_contiguous_clusters needed c in
      let free = alloc.found needed c ok found in
      let k1 = alloc.find_contiguous_clusters needed c ok in
      let (c2, run2, ok2, t2, s2) =
        allocate_block_lem P fat sector g alloc grants (needed - 1) start c1 free.low
          (omega (arith, free.live)) (λ k lo hi. k1.table k ∙ free.free k lo (omega arith)) k1.ok in
      let (c3, c4, run3, run4, grown) =
        relocate_lem P fat sector g disk frees fuel fi.file_size needed start m xs c c2 free file
          more enough ok2 (λ k. ground (arith, t2 k, k1.table k)) (λ k. s2 k ∙ k1.sectors k) in
      (
        c4,
        grow_eq fuel needed n m c c2 c3 c4 first (omega arith) le small found run2 run3 run4,
        grown,
      )
