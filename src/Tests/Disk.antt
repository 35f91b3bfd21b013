-- ===== src/Tests/Disk.antt =====
-- Direct reads and writes of the file of the sample card, in clusters 5 and 7.
use mega65fs.Base.{
  ◌<◌, get_or, none, Option, u32, min, ltb, ◌+◌, ◌%◌, ◌≢◌, ◌⊎◌, ◌∷◌, [], inr, some, pos, ℕ, zero,
  suc, ◌+◌, ◌≡◌, ◌≢◌, refl, true, inl, inr, ◌⊎◌, some, List, [], ◌∷◌, arith, ◌==◌, ltb,
  if◌then◌else◌, length, Bool-cases, replicate, ◌%◌, pos, ◌≤◌, ◌*◌, divide,
}
use mega65fs.Card.{Card}
use mega65fs.Card.Laws.{SameGeometry, SameGeometry-refl}
use mega65fs.Store.{FileInfo, blank}
use mega65fs.Chain.{sector_number}
use mega65fs.Chain.Disk.{Disk, Kept, Kept-refl, InArea, Linked}
use mega65fs.Entry.{set_entry_file_size}
use mega65fs.Read.{pread_direct, read_loop, seek}
use mega65fs.Read.Contents.{InPlace, pread_direct_lem}
use mega65fs.Read.Places.{contents, sector_at}
use mega65fs.Write.{
  pwrite_direct, locate, write_loop, write_step, next_cluster, old_sector, record_write,
}
use mega65fs.Write.Bytes.{Stands}
use mega65fs.Write.Stored.{kept_position, EntryApart}
use mega65fs.Write.Direct.{Stored, pwrite_direct_lem}
use mega65fs.Write.Resume.{locate-pread_direct}
use mega65fs.Write.Readback.{Disk-OnCard, pread_direct-pwrite_direct}
use mega65fs.Sample.{Medium, medium, blank_card}

abbrev two_clusters : ℕ → ℕ
two_clusters i = if i == 0 then 5 else 7

abbrev pub table_of : Card Medium → ℕ → ℕ
table_of c = c.rest.fat

abbrev pub sectors_of : Card Medium → ℕ → List ℕ
sectors_of c = c.rest.sectors

-- A card like the sample one, whose sectors have 512 bytes.
pub record Formatted (c : Card Medium) : Type 0 where
  pub geometry : SameGeometry blank_card c
  pub whole : (m : ℕ) → length (c.rest.sectors m) ≡ 512

pub medium-Disk : Disk medium Formatted table_of sectors_of blank_card
medium-Disk = record {
  geometry = λ c p. p.geometry;
  some_sectors = omega arith;
  length_sector = λ c m p. p.whole m;
  read_sector = λ m c low p. (refl, Kept-refl c p);
  write_sector = λ m b c low l p. (
    refl,
    record {
      ok = record { geometry = same_rest p.geometry; whole = λ n. written m n b c l p };
      table = λ k. refl;
      sectors = λ n. refl;
    },
  );
  chained_cluster = λ k c p. (refl, Kept-refl c p);
  get_next_cluster = λ k c p. (refl, Kept-refl c p);
}
  where
    same_rest :
        {c : Card Medium} {r : Medium}
        → SameGeometry blank_card c
        → SameGeometry blank_card (record c { rest = r })
    same_rest p = record {
      partition_start = p.partition_start;
      reserved_sectors = p.reserved_sectors;
      sectors_per_fat = p.sectors_per_fat;
      sectors_per_cluster = p.sectors_per_cluster;
    }

    written :
        (m n : ℕ) (b : List ℕ) (c : Card Medium)
        → length b ≡ 512
        → Formatted c
        → length (if n == m then b else c.rest.sectors n) ≡ 512
    written m n b c l p = elim (Bool-cases (n == m)) [ inl w ↦ rw w l | inr w ↦ rw w (p.whole n) ]

pub blank-Formatted : Formatted blank_card
blank-Formatted = record { geometry = SameGeometry-refl blank_card; whole = λ m. refl }

two_clusters-InArea : InArea blank_card two_clusters 2
two_clusters-InArea = record {
  low = λ i h. ground arith;
  high = λ i h. ground arith;
  live = λ i h. ground arith;
  distinct = λ i j hi hj e. ground (arith, e);
}

two_clusters-Linked : Linked blank_card.rest.fat two_clusters 2
two_clusters-Linked zero h = refl
two_clusters-Linked (suc i) h = absurd (omega arith)

abbrev pub a_direct : FileInfo
a_direct = record blank {
  first_cluster = 5;
  current_cluster = 5;
  file_size = 600;
  is_writable = true;
  dir_sector = pos 40;
  dir_sector_offset = pos 32;
  dir_sector_buf = replicate 512 0;
  in_use = true;
}

a_direct-EntryApart : EntryApart blank_card two_clusters 2 a_direct
a_direct-EntryApart = record {
  data_area = omega arith;
  apart = λ (i, s, hi, hs, e). absurd (ground (arith, e));
  length_buf = refl;
}

abbrev SameDisk : Card Medium → Type 0
SameDisk = Kept Formatted table_of sectors_of blank_card

pread_direct_lem_example :
    (fi' : FileInfo) × (c' : Card Medium) × (pread_direct a_direct 700 0 blank_card
      ≡ some (
        (
          (
            pos (min 700 600),
            contents blank_card blank_card.rest.sectors two_clusters 0 (min 700 600),
          ),
          fi',
        ),
        c',
      ))
    × ((fi' ≡ a_direct) ⊎ InPlace blank_card two_clusters fi')
    × SameDisk c'
pread_direct_lem_example =
    pread_direct_lem SameDisk blank_card blank_card.rest.sectors two_clusters 2
      (Disk-OnCard Formatted table_of sectors_of blank_card medium-Disk two_clusters 2
        two_clusters-InArea blank_card blank-Formatted two_clusters-Linked)
      a_direct 700 0 blank_card (Kept-refl blank_card blank-Formatted) refl (omega arith)
      (omega arith) (inr (record { cluster = refl; index = omega arith }))

abbrev four_bytes : List ℕ
four_bytes = 1 ∷ 2 ∷ 3 ∷ 4 ∷ []

pwrite_direct_lem_example :
    (fi' : FileInfo) × (c' : Card Medium) × (pwrite_direct a_direct four_bytes 510 blank_card
      ≡ some ((pos (length four_bytes), fi'), c'))
    × Stored Formatted table_of sectors_of blank_card two_clusters 2 a_direct 510 four_bytes
        blank_card c'
    × (fi'.first_cluster ≡ 5)
    × (fi'.file_size
        ≡ (if ltb 600 (510 + length four_bytes) then u32 (510 + length four_bytes) else 600))
    × (fi'.last_offset ≡ 510 + length four_bytes)
    × ((fi'.last_offset % 512 ≢ 0)
        ⊎ ((i : ℕ) × Stands blank_card two_clusters 2 (kept_position fi') i))
pwrite_direct_lem_example =
    pwrite_direct_lem Formatted table_of sectors_of blank_card medium-Disk two_clusters 2
      two_clusters-InArea a_direct four_bytes 510 blank_card blank-Formatted two_clusters-Linked
      refl (omega arith) (omega arith) (inl refl) (λ h. a_direct-EntryApart)

pread_direct-pwrite_direct_example :
    (fi' : FileInfo) × (c' : Card Medium) × (fi'' : FileInfo) × (c'' : Card Medium) × (pwrite_direct
        a_direct four_bytes 510 blank_card
      ≡ some ((pos (length four_bytes), fi'), c'))
    × (pread_direct fi' (length four_bytes) 510 c'
        ≡ some (((pos (length four_bytes), four_bytes), fi''), c''))
pread_direct-pwrite_direct_example =
    pread_direct-pwrite_direct Formatted table_of sectors_of blank_card medium-Disk two_clusters 2
      two_clusters-InArea a_direct four_bytes 510 blank_card blank-Formatted two_clusters-Linked
      refl (omega arith) (omega arith) (omega arith) (omega arith) (inl refl)
      (λ h. a_direct-EntryApart)

-- 520 bytes are read, and then one byte is written where the read ended: it goes to the first
-- cluster, where the byte with the number 8 is overwritten, and not to the second.
abbrev read_write : Option (ℕ × ℕ)
read_write = elim (pread_direct (record a_direct { write_cluster = 5 }) 520 0 blank_card) [
  | none ↦ none
  | some ((answer, fi), c) ↦ elim (pwrite_direct fi (9 ∷ []) 520 c) [
    | none ↦ none
    | some (_, c') ↦ some (get_or (c'.rest.sectors 2091) 8 0, get_or (c'.rest.sectors 2093) 8 0)
  ]
]

read_write_runs : read_write ≡ some (9, 0)
unfolding pread_direct pwrite_direct read_loop seek locate write_loop write_step next_cluster
    old_sector record_write set_entry_file_size divide
read_write_runs = refl

-- Two writes of two bytes, one behind the other: the second goes to the sector behind its own.
abbrev write_write : Option (ℕ × ℕ)
write_write = elim (pwrite_direct a_direct (1 ∷ 2 ∷ []) 0 blank_card) [
  | none ↦ none
  | some ((answer, fi), c) ↦ elim (pwrite_direct fi (9 ∷ []) 2 c) [
    | none ↦ none
    | some (_, c') ↦ some (get_or (c'.rest.sectors 2091) 2 0, get_or (c'.rest.sectors 2093) 2 0)
  ]
]

write_write_runs : write_write ≡ some (0, 9)
unfolding pwrite_direct locate write_loop write_step next_cluster old_sector record_write
    set_entry_file_size divide
write_write_runs = refl

abbrev a_writable : FileInfo
a_writable = record a_direct { write_cluster = 5 }

locate-pread_direct_example :
    (fi' : FileInfo) × (c' : Card Medium) × (pread_direct a_writable 520 0 blank_card
      ≡ some (((pos 520, contents blank_card blank_card.rest.sectors two_clusters 0 520), fi'), c'))
    × (fi'.last_offset ≡ 520)
    × (locate fi' 520 c'
        ≡ some (
          record { cluster = 5; sector_in_cluster = 0; total_written = 0; current_offset = 520 },
          c',
        ))
    × (512 ≤ 520
        → 520 < 2 * 512
        → sector_number blank_card 5 0
          ≢ sector_at blank_card blank_card.rest.sectors two_clusters 520)
locate-pread_direct_example =
    locate-pread_direct SameDisk blank_card blank_card.rest.sectors two_clusters 2
      (Disk-OnCard Formatted table_of sectors_of blank_card medium-Disk two_clusters 2
        two_clusters-InArea blank_card blank-Formatted two_clusters-Linked)
      two_clusters-InArea a_writable 520 0 blank_card (Kept-refl blank_card blank-Formatted) refl
      (omega arith) refl refl (omega arith) (inr (record { cluster = refl; index = omega arith }))
      (omega arith)
