-- ===== src/Tests/Flushed.antt =====
-- A new file of 600 bytes on the sample card: its flush, and reads before and after it.
use mega65fs.Base.{
  ℕ, ◌≡◌, refl, Bool, true, false, some, List, ◌&&◌, arith, ltb, replicate, length, pos, ℤ,
  no_cluster,
}
use mega65fs.Card.{Card, Library}
use mega65fs.Card.Laws.{SameGeometry, KeepsGeometry}
use mega65fs.Store.{FileInfo, Store, blank, end_of_chain}
use mega65fs.Chain.Disk.{Disk, Kept-refl}
use mega65fs.Buffer.{pread_buffered}
use mega65fs.Buffer.Content.{IsBuffered}
use mega65fs.Flush.{flush_write_buffer}
use mega65fs.Flush.Block.{Allocator, IsFree, Links}
use mega65fs.Flush.Flushed.{EntryInUse, Flushed, flushed}
use mega65fs.Flush.Whole.{flush_write_buffer-Flushed}
use mega65fs.Flush.Reads.{pread_direct-opened, listed, entry_in}
use mega65fs.Write.Stored.{entry_sector}
use mega65fs.Read.{pread_direct, m65ftp_pread}
use mega65fs.Files.{m65ftp_fsync, opened}
use mega65fs.Files.Synced.{m65ftp_pread-m65ftp_fsync}
use mega65fs.Sample.{Medium, medium, blank_card, fresh_store, a_file, free_run, store_at, with_fat}
use mega65fs.Tests.Disk.{Formatted, table_of, sectors_of, medium-Disk, blank-Formatted}
use mega65fs.Tests.Grow.{free_run-free}

-- The cluster that a search answers with.
abbrev pub nine_or_none : Bool → ℕ
nine_or_none true = 9
nine_or_none false = 0

-- The sample card, but blocks of less than a thousand clusters are looked for, at cluster 9.
instance abbrev pub near : Library Medium
near = record medium {
  find_contiguous_clusters = λ n c. (nine_or_none (free_run n 9 c.rest.fat && ltb n 1000), c);
}

abbrev as_before : (c : Card Medium) (r : Medium) → SameGeometry c (record c { rest = r })
as_before c r = record {
  partition_start = refl;
  reserved_sectors = refl;
  sectors_per_fat = refl;
  sectors_per_cluster = refl;
}

near-KeepsGeometry : KeepsGeometry near
near-KeepsGeometry = record {
  write_sector = λ n b c. as_before c _;
  read_sector = λ n b c. as_before c c.rest;
  find_contiguous_clusters = λ n c. as_before c c.rest;
  get_next_cluster = λ n c. as_before c c.rest;
  chained_cluster = λ n c. as_before c c.rest;
  find_free_cluster = λ n c. as_before c c.rest;
  allocate_cluster = λ n c. as_before c _;
  chain_cluster = λ n m c. as_before c _;
}

pub near-Disk : Disk near Formatted table_of sectors_of blank_card
near-Disk = record {
  geometry = medium-Disk.geometry;
  some_sectors = medium-Disk.some_sectors;
  length_sector = medium-Disk.length_sector;
  read_sector = medium-Disk.read_sector;
  write_sector = medium-Disk.write_sector;
  chained_cluster = medium-Disk.chained_cluster;
  get_next_cluster = medium-Disk.get_next_cluster;
}

near_found :
    (b : Bool) (n : ℕ) (fat : ℕ → ℕ)
    → (free_run n 9 fat && ltb n 1000) ≡ b
    → no_cluster (nine_or_none b) ≡ false
    → IsFree blank_card fat (nine_or_none b) n
near_found false n fat e found = absurd (ground (arith, found))
near_found true n fat e found = record {
  low = omega arith;
  high = ground (arith, e);
  live = ground (arith, e);
  free = λ k lo hi. free_run-free n 9 fat k (ground (arith, e)) lo hi;
}

pub near-Links :
    (k v : ℕ) (c : Card Medium)
    → Formatted c
    → Links Formatted table_of sectors_of k v c (with_fat c (store_at c.rest.fat k v))
near-Links k v c p = record {
  ok = record {
    geometry = record {
      partition_start = p.geometry.partition_start;
      reserved_sectors = p.geometry.reserved_sectors;
      sectors_per_fat = p.geometry.sectors_per_fat;
      sectors_per_cluster = p.geometry.sectors_per_cluster;
    };
    whole = p.whole;
  };
  table = λ n. refl;
  sectors = λ m. refl;
}

pub near-Allocator : Allocator near Formatted table_of sectors_of blank_card
near-Allocator = record {
  find_contiguous_clusters = λ n c p. Kept-refl c p;
  found = λ n c p e. near_found (free_run n 9 c.rest.fat && ltb n 1000) n c.rest.fat refl e;
  allocate_cluster = λ k c lo free p. near-Links k end_of_chain c p;
  chain_cluster = λ k m c end live p. near-Links k m c p;
  execute_write_queue = λ c p. Kept-refl c p;
}

abbrev six_hundred : FileInfo
six_hundred = record blank {
  file_size = 600;
  is_writable = true;
  buffered = true;
  write_buf = some (replicate 600 7);
  write_buf_cap = 600;
  dir_sector = pos 40;
  dir_sector_offset = pos 32;
  dir_sector_buf = replicate 512 0;
  in_use = true;
}

six_hundred-IsBuffered : IsBuffered six_hundred
six_hundred-IsBuffered = record { cap = refl; limit = omega arith }

six_hundred-EntryInUse : EntryInUse blank_card blank_card.rest.fat six_hundred
six_hundred-EntryInUse = record {
  data_area = omega arith;
  in_use = λ k s low free hs e. ground (arith, low, free, hs, e);
  length_buf = refl;
  within = omega arith;
}

flush_write_buffer-Flushed_example :
    (c' : Card Medium) × (flush_write_buffer ⦃lib = near⦄ six_hundred blank_card
      ≡ some ((true, flushed six_hundred 9), c'))
    × Flushed Formatted table_of sectors_of blank_card six_hundred 9 blank_card c'
flush_write_buffer-Flushed_example =
    flush_write_buffer-Flushed ⦃lib = near⦄ Formatted table_of sectors_of blank_card near-Disk
      near-Allocator near-KeepsGeometry six_hundred blank_card blank-Formatted
      six_hundred-IsBuffered (omega arith) (omega arith) (λ w. six_hundred-EntryInUse) refl

pread_direct-opened_example :
    (c' : Card Medium) × (fi' : FileInfo) × (flush_write_buffer ⦃lib = near⦄ six_hundred blank_card
      ≡ some ((true, fi'), c'))
    × (r' : FileInfo) × (c2 : Card Medium) × (pread_direct ⦃lib = near⦄
          (opened
            (listed a_file
              (entry_in six_hundred (sectors_of c' (entry_sector blank_card six_hundred))))
            blank)
          20
          510
          c'
        ≡ some (
          (
            (pos (length (pread_buffered six_hundred 20 510)), pread_buffered six_hundred 20 510),
            r',
          ),
          c2,
        ))
pread_direct-opened_example =
    pread_direct-opened ⦃lib = near⦄ Formatted table_of sectors_of blank_card near-Disk
      near-Allocator near-KeepsGeometry six_hundred a_file blank 20 510 blank_card blank-Formatted
      six_hundred-IsBuffered (omega arith) (omega arith) refl six_hundred-EntryInUse refl

abbrev new_open : Store Medium
new_open = record fresh_store { file_count = 1; files = λ i. six_hundred }

m65ftp_pread-m65ftp_fsync_example :
    (a : ℤ × List ℕ) × (s' : Store Medium) × (s2 : Store Medium) × (m65ftp_pread ⦃lib = near⦄
        (pos 0)
        20
        510
        new_open
      ≡ some (a, new_open))
    × (m65ftp_fsync ⦃lib = near⦄ (pos 0) new_open ≡ some (pos 0, s'))
    × (m65ftp_pread ⦃lib = near⦄ (pos 0) 20 510 s' ≡ some (a, s2))
    × ((s'.files 0).buffered ≡ false)
m65ftp_pread-m65ftp_fsync_example =
    m65ftp_pread-m65ftp_fsync ⦃lib = near⦄ Formatted table_of sectors_of blank_card near-Disk
      near-Allocator near-KeepsGeometry 0 20 510 new_open refl refl blank-Formatted
      six_hundred-IsBuffered (omega arith) (omega arith) (λ w. six_hundred-EntryInUse) refl
