-- ===== src/Truncate/Longer.antt =====
-- m65ftp_ftruncate of src/m65ftp_lib.c as a whole, on a file on the card that needs more clusters for
-- its new length and gets them.
use mega65fs.Base.{
  ℕ, zero, suc, ◌+◌, ◌-◌, ◌%◌, ◌^◌, ◌≤◌, ◌<◌, ◌≡◌, refl, ap, sym, ◌∙◌, true, false, some, List, ◌∷◌,
  arith, ◌==◌, ltb, if◌then◌else◌, length, get_or, ◌>>=◌, no_cluster, pos,
}
use native.Mathlib.Nat.{div-lt_iff_lt-mul}
use mega65fs.Card.{Card, Library}
use mega65fs.Store.{FileInfo}
use mega65fs.Chain.{cluster_size, count_cluster_chain}
use mega65fs.Chain.Disk.{Disk, Kept, Kept-refl}
use mega65fs.Chain.Walks.{step_along, count_cluster_chain_lem}
use mega65fs.Chain.Freed.{Runs-frame, Frees}
use mega65fs.Chain.Split.{Runs-IsChain}
use mega65fs.Entry.{set_entry_first_cluster}
use mega65fs.Flush.{has_entry}
use mega65fs.Flush.Block.{Allocator}
use mega65fs.Flush.Flushed.{bytes_in_clusters, clusters_of, EntryInUse}
use mega65fs.Read.Places.{sector_at}
use mega65fs.Truncate.{grow_chain, finish_truncate, truncate_direct}
use mega65fs.Truncate.Allocated.{Grants}
use mega65fs.Truncate.FileChain.{FileChain}
use mega65fs.Truncate.Grown.{Grown, grow_chain-Grown}
use mega65fs.Truncate.Shorter.{resized, needed_lem, needed_of, needed_clusters_lem, some_size}
use mega65fs.Truncate.Shrink.{follows}
use mega65fs.Truncate.Moved.{moved, Longer, finish-Grown}

module _ {R : Type 0} (P : Card R → Type 0) (fat : Card R → ℕ → ℕ) (sector : Card R → ℕ → List ℕ)
    (g : Card R) where
  FileChain-frame :
      (c c1 : Card R) (size m : ℕ) (xs : List ℕ)
      → Kept P fat sector c c1
      → FileChain g (fat c) size m xs
      → FileChain g (fat c1) size m xs
  FileChain-frame c c1 size m xs kept file = record {
    runs = Runs-frame (fat c) (fat c1) m (m ∷ xs) (λ j h. kept.table j) file.runs;
    distinct = file.distinct;
    used = λ j h z. file.used j h (sym (kept.table j) ∙ z);
    area = file.area;
    fits = file.fits;
  }

  -- Steps before that leave the card alone.
  Grown-frame :
      (size needed start m : ℕ) (xs : List ℕ) (c c1 c2 : Card R)
      → Kept P fat sector c c1
      → Grown P fat sector g size needed start m xs c1 c2
      → Grown P fat sector g size needed start m xs c c2
  Grown-frame size needed start m xs c c1 c2 kept grown = record {
    ok = grown.ok;
    was_free = record {
      low = grown.was_free.low;
      high = grown.was_free.high;
      live = grown.was_free.live;
      free = λ k lo hi. sym (kept.table k) ∙ grown.was_free.free k lo hi;
    };
    table = λ k. ground (arith, grown.table k, kept.table k);
    bytes = λ x h.
        grown.bytes x h
        ∙ ap (λ (b : List ℕ). get_or b (x % cluster_size g % 512) 0)
            (kept.sectors (sector_at g (sector c1) (step_along m xs) x));
    others = λ k h. grown.others k h ∙ kept.sectors k;
  }

module _ {R : Type 0} ⦃lib : Library R⦄ (P : Card R → Type 0) (fat : Card R → ℕ → ℕ)
    (sector : Card R → ℕ → List ℕ) (g : Card R) (disk : Disk lib P fat sector g)
    (alloc : Allocator lib P fat sector g) (grants : Grants lib P fat)
    (frees : Frees lib P fat sector) (fi : FileInfo) where
  truncate_direct-grow :
      (fuel n current last start : ℕ) (c c1 c2 : Card R)
      → 0 < cluster_size c
      → 0 < needed_of P fat sector g disk frees fi n c
      → current < needed_of P fat sector g disk frees fi n c
      → no_cluster fi.first_cluster ≡ false
      → count_cluster_chain fuel fi.first_cluster c ≡ some ((current, last), c1)
      → grow_chain fuel fi (needed_of P fat sector g disk frees fi n c) n c1 ≡ some (some start, c2)
      → truncate_direct fuel fi n c
        ≡ finish_truncate (if has_entry fi then set_entry_first_cluster fi start else fi) start n c2
  unfolding truncate_direct
  truncate_direct-grow fuel n current last start c c1 c2 size pos_needed lt live counted grown =
      let y : (needed_of P fat sector g disk frees fi n c == 0) ≡ false = ground arith in
      let x : ltb current (needed_of P fat sector g disk frees fi n c) ≡ true = ground arith in
      rw
        (
          ◌>>=◌,
          needed_clusters_lem P fat sector g disk frees fi n c size,
          y,
          live,
          counted,
          x,
          grown,
        )
        refl

  grown_needs :
      (n m : ℕ) (xs : List ℕ) (c : Card R)
      → P c
      → n < 2 ^ 32
      → suc (length xs) < clusters_of g n
      → needed_of P fat sector g disk frees fi n c ≡ clusters_of g n
  grown_needs zero m xs c ok small more =
      let spc = disk.some_sectors in
      absurd (
        grind (
          arith,
          more,
          div-lt_iff_lt-mul {k = cluster_size g} {x = 0 + cluster_size g - 1} {y = 1}
              (omega (arith, spc)),
        ))
  grown_needs (suc n) m xs c ok small more =
      needed_lem P fat sector g disk frees fi (suc n) (clusters_of g (suc n)) c (omega arith) small
        refl ok

  -- A file whose clusters are m and xs, which are distinct ones in use in the data area and hold its
  -- size, on a card where allocating, linking and freeing succeed, and where its directory entry, if
  -- it has a known place, is in a used cluster: where a length of 32 bits, not less than the size,
  -- takes more clusters, and a block of that many is found on any card with the table and sectors of
  -- this one, truncating the file to it succeeds with fuel for the clusters. The block was free and
  -- is one chain, it holds the bytes of the file, the old clusters are free, the entry has the
  -- block's first cluster and the new length, and the table and the sectors are otherwise the same.
  pub truncate_direct-Longer :
      (fuel n m : ℕ) (xs : List ℕ) (c : Card R)
      → P c
      → n < 2 ^ 32
      → fi.file_size ≤ n
      → suc (length xs) < clusters_of g n
      → fi.first_cluster ≡ m
      → FileChain g (fat c) fi.file_size m xs
      → length xs < fuel
      → (has_entry fi ≡ true → EntryInUse g (fat c) fi)
      → ((c1 : Card R)
          → Kept P fat sector c c1
          → no_cluster (lib.find_contiguous_clusters (clusters_of g n) c1).0 ≡ false)
      → (start : ℕ) × (c' : Card R) × (truncate_direct fuel fi n c
          ≡ some ((pos 0, resized (moved fi start) n), c'))
        × Longer P fat sector g fi n start m xs c c'
  truncate_direct-Longer fuel n m xs c ok small le more first file enough used found =
      let (_, live, r) = file.runs in
      let (c1, counted, k1) =
        count_cluster_chain_lem (Kept P fat sector c) (fat c) (follows P fat sector g disk frees c)
          fuel m xs c enough (Runs-IsChain (fat c) m xs r) (Kept-refl c ok) in
      let start = (lib.find_contiguous_clusters (clusters_of g n) c1).0 in
      let (c2, run, grown) =
        grow_chain-Grown P fat sector g disk alloc grants frees fi fuel (clusters_of g n) n m xs c1
          k1.ok first (FileChain-frame P fat sector g c c1 fi.file_size m xs k1 file) le small more
          (omega (arith, enough)) (found c1 k1) in
      let e = grown_needs n m xs c ok small more in
      let (c3, finished, longer) =
        finish-Grown P fat sector g disk frees fi n start m xs c c2 small used
          (Grown-frame P fat sector g fi.file_size (clusters_of g n) start m xs c c1 c2 k1 grown)
          (omega (arith, le, bytes_in_clusters n g.sectors_per_cluster disk.some_sectors)) in
      (
        start,
        c3,
        truncate_direct-grow fuel n (1 + length xs) (step_along m xs (length xs)) start c c1 c2
              (some_size P fat sector g disk frees fi c ok) (omega (arith, e, more))
              (omega (arith, e, more)) (rw first live) (rw first counted) (rw e run)
            ∙ finished,
        longer,
      )
