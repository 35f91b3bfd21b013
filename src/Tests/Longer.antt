-- ===== src/Tests/Longer.antt =====
-- A truncation of the file of the sample card, in clusters 5 and 7, to four clusters.
use mega65fs.Base.{
  ℕ, zero, suc, ◌≡◌, refl, true, false, some, [], ◌∷◌, arith, pos, no_cluster, ◌&&◌, ltb, ◌<◌, ◌≤◌,
  is_end, ◌+◌, ◌-◌, ◌*◌, ◌^◌,
}
use mega65fs.Card.{Card}
use mega65fs.Chain.{first_data_sector}
use mega65fs.Chain.Disk.{Kept, Kept-refl, InArea}
use mega65fs.Chain.Walks.{step_along}
use mega65fs.Chain.Freed.{Frees}
use mega65fs.Flush.Flushed.{EntryInUse}
use mega65fs.Truncate.{truncate_direct}
use mega65fs.Truncate.Allocated.{Grants}
use mega65fs.Truncate.FileChain.{FileChain}
use mega65fs.Truncate.Shorter.{resized}
use mega65fs.Truncate.Moved.{moved, Longer}
use mega65fs.Truncate.Longer.{truncate_direct-Longer}
use mega65fs.Sample.{Medium, medium, blank_card, free_run}
use mega65fs.Tests.Disk.{Formatted, table_of, sectors_of, blank-Formatted, a_direct}
use mega65fs.Tests.Flushed.{near, near-Disk, near-Allocator, near-Links, nine_or_none}

near-Grants : Grants near Formatted table_of
near-Grants = record {
  allocate_cluster = λ k c low free p. refl;
  chain_cluster = λ k m c end live p. refl;
}

near-Frees : Frees near Formatted table_of sectors_of
near-Frees = record {
  deallocate_cluster = λ k c live used p. near-Links k 0 c p;
  set_fat_cluster_ptr = λ k v c live used p. near-Links k v c p;
  execute_write_queue = λ c p. Kept-refl c p;
}

two_low : (i : ℕ) → i < 2 → 2 ≤ step_along 5 (7 ∷ []) i
two_low zero h = omega arith
two_low (suc zero) h = omega arith
two_low (suc (suc i)) h = omega arith

two_high :
    (i : ℕ)
    → i < 2
    → first_data_sector blank_card + (step_along 5 (7 ∷ []) i - 1) * blank_card.sectors_per_cluster
      ≤ 2 ^ 32
two_high zero h = omega arith
two_high (suc zero) h = omega arith
two_high (suc (suc i)) h = omega arith

two_live : (i : ℕ) → i < 2 → is_end (step_along 5 (7 ∷ []) i) ≡ false
two_live zero h = refl
two_live (suc zero) h = refl
two_live (suc (suc i)) h = refl

two_distinct : (i j : ℕ) → i < 2 → j < 2 → step_along 5 (7 ∷ []) i ≡ step_along 5 (7 ∷ []) j → i ≡ j
two_distinct zero zero h k e = refl
two_distinct zero (suc zero) h k e = absurd (omega (arith, e))
two_distinct zero (suc (suc j)) h k e = absurd (omega arith)
two_distinct (suc zero) zero h k e = absurd (omega (arith, e))
two_distinct (suc (suc i)) zero h k e = absurd (omega arith)
two_distinct (suc i) (suc j) h k e = omega arith

both_clusters : InArea blank_card (step_along 5 (7 ∷ [])) 2
both_clusters = record { low = two_low; high = two_high; live = two_live; distinct = two_distinct }

a_direct-FileChain : FileChain blank_card blank_card.rest.fat 600 5 (7 ∷ [])
a_direct-FileChain = record {
  runs = (refl, refl, (refl, refl, refl));
  distinct = (refl, (refl, tt));
  used = λ j h z. ground (arith, h, z);
  area = both_clusters;
  fits = omega arith;
}

a_direct-EntryInUse : EntryInUse blank_card blank_card.rest.fat a_direct
a_direct-EntryInUse = record {
  data_area = omega arith;
  in_use = λ k s low free hs e. ground (arith, low, free, hs, e);
  length_buf = refl;
  within = omega arith;
}

four_found :
    (c : Card Medium)
    → Kept Formatted table_of sectors_of blank_card c
    → no_cluster (nine_or_none (free_run 4 9 c.rest.fat && ltb 4 1000)) ≡ false
four_found c kept =
    let free : free_run 4 9 c.rest.fat ≡ true =
      ground (arith, kept.table 9, kept.table 10, kept.table 11, kept.table 12) in
    rw free refl

truncate_direct-Longer_example :
    (start : ℕ) × (c' : Card Medium) × (truncate_direct ⦃lib = near⦄ 9 a_direct 2000 blank_card
      ≡ some ((pos 0, resized (moved a_direct start) 2000), c'))
    × Longer Formatted table_of sectors_of blank_card a_direct 2000 start 5 (7 ∷ []) blank_card c'
truncate_direct-Longer_example =
    truncate_direct-Longer ⦃lib = near⦄ Formatted table_of sectors_of blank_card near-Disk
      near-Allocator near-Grants near-Frees a_direct 9 2000 5 (7 ∷ []) blank_card blank-Formatted
      (omega arith) (omega arith) (omega arith) refl a_direct-FileChain (omega arith)
      (λ w. a_direct-EntryInUse) four_found
