-- ===== src/Tests/Shorter.antt =====
-- A truncation of the file of the sample card, in clusters 5 and 7, to one cluster.
use mega65fs.Base.{ℕ, ◌≡◌, ◌≢◌, refl, true, some, [], ◌∷◌, ◌&&◌, arith, ◌==◌, if◌then◌else◌, pos}
use mega65fs.Card.{Card}
use mega65fs.Chain.Disk.{Kept-refl}
use mega65fs.Chain.Freed.{Frees, has}
use mega65fs.Flush.{has_entry}
use mega65fs.Entry.{set_entry_file_size}
use mega65fs.Write.Stored.{entry_sector}
use mega65fs.Truncate.{truncate_direct}
use mega65fs.Truncate.Shrink.{Cut}
use mega65fs.Truncate.Shorter.{resized, EntryOnCard, truncate_direct-Cut}
use mega65fs.Sample.{Medium, medium, blank_card}
use mega65fs.Tests.Disk.{Formatted, table_of, sectors_of, medium-Disk, blank-Formatted, a_direct}
use mega65fs.Tests.Flushed.{near-Links}

medium-Frees : Frees medium Formatted table_of sectors_of
medium-Frees = record {
  deallocate_cluster = λ k c live used p. near-Links k 0 c p;
  set_fat_cluster_ptr = λ k v c live used p. near-Links k v c p;
  execute_write_queue = λ c p. Kept-refl c p;
}

in_use : (j : ℕ) → has j (5 ∷ 7 ∷ []) ≡ true → blank_card.rest.fat j ≢ 0
in_use j h z = ground (arith, h, z)

a_direct-EntryOnCard : EntryOnCard blank_card a_direct
a_direct-EntryOnCard = record { data_area = omega arith; length_buf = refl }

truncate_direct-Cut_example :
    (c' : Card Medium) × (truncate_direct 9 a_direct 100 blank_card
      ≡ some ((pos 0, resized a_direct 100), c'))
    × Cut Formatted table_of 5 [] (7 ∷ []) blank_card c'
    × ((k : ℕ)
        → sectors_of c' k ≡ (
            if has_entry a_direct && k == entry_sector blank_card a_direct
            then (set_entry_file_size a_direct 100).dir_sector_buf
            else sectors_of blank_card k))
truncate_direct-Cut_example =
    truncate_direct-Cut Formatted table_of sectors_of blank_card medium-Disk medium-Frees a_direct 9
      100 5 [] (7 ∷ []) blank_card blank-Formatted (omega arith) (omega arith) refl refl
      (refl, refl, (refl, refl, refl)) (refl, (refl, tt)) in_use (omega arith)
      (λ w. a_direct-EntryOnCard)
