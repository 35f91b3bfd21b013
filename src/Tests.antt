-- ===== src/Tests.antt =====
-- Runs of the model on the sample card, and each theorem at a concrete input.
mod Disk
mod Flushed
mod Grow
mod Runs
mod Caches
mod Stamps
mod Shorter
mod Longer
use mega65fs.Base.{
  is_end, min, Returns, no_cluster, ℕ, zero, suc, ◌+◌, ◌-◌, ◌≤◌, ◌<◌, ◌≡◌, refl, true, false, not,
  inl, inr, ◌⊎◌, Option, none, some, List, [], ◌∷◌, ◌||◌, ◌&&◌, arith, ◌==◌, leb, ltb,
  if◌then◌else◌, length, get_or, set, str_eq, drop, replicate, ◌*◌, ℤ, pos, ap, ◌∙◌, subst, sym,
  splice, Bool, minus_one,
}
use mega65fs.Card.{Card}
use mega65fs.Card.Laws.{SameGeometry, SameGeometry-refl, KeepsGeometry, FindsData}
use mega65fs.Store.{FileInfo, Store, blank, is_open}
use mega65fs.Store.Pool.{IsPool}
use mega65fs.Entry.{set_entry_first_cluster, set_entry_file_size}
use mega65fs.Entry.Fields.{
  entry_cluster, entry_size, entry_cluster-set, set_entry_first_cluster_outside, entry_size-set,
  set_entry_file_size_outside,
}
use mega65fs.Chain.{first_data_sector, count_cluster_chain, walk_chain}
use mega65fs.Chain.Walks.{Follows, step_along, count_cluster_chain_lem, walk_chain_lem}
use mega65fs.Flush.{flush_clusters, flush_write_buffer}
use mega65fs.Flush.Sectors.{file_sectors, sector_count, write_all, flush_clusters-write_all}
use mega65fs.Flush.Returns.{flush_write_buffer-Returns}
use mega65fs.Path.{root_dir, split_path}
use mega65fs.Path.Split.{split_path-append}
use mega65fs.Files.{m65ftp_open, new_file, created, m65ftp_close}
use mega65fs.Files.Descriptors.{new_file-IsPool, m65ftp_close-IsPool, Refused, Granted}
use mega65fs.Buffer.{pread_buffered}
use mega65fs.Buffer.Content.{IsBuffered, byte_at}
use mega65fs.Buffer.Refines.{pread_buffered_lem, pwrite_buffered-Written, pread-pwrite, Written}
use mega65fs.Write.{pwrite_buffered, pwrite_direct, m65ftp_pwrite}
use mega65fs.Write.Returns.{IsCount, pwrite_direct-IsCount}
use mega65fs.Write.Answers.{m65ftp_pwrite-IsCount}
use mega65fs.Truncate.{truncate_buffered}
use mega65fs.Truncate.Buffered.{truncate_buffered-Resized, truncate_twice-pread, Resized}
use mega65fs.Read.{m65ftp_pread, pread_direct}
use mega65fs.Read.Returns.{m65ftp_pread-IsAnswer, IsAnswer}
use mega65fs.Mbr.{Partition, m65ftp_mbrinfo}
use mega65fs.Mbr.Table.{m65ftp_mbrinfo-info_of, AreBytes}
use mega65fs.Dirs.{m65ftp_mkdir, m65ftp_rmdir}
use mega65fs.Dirs.Restore.{mkdir, dir_of, run_call-current_dir, rmdir}
use mega65fs.Cache.{
  DirectoryEntry, DirCache, no_listing, get_cache_slot, find_cached, find_listing, stat_from_cache,
  drop_listing,
}
use mega65fs.Cache.Slots.{
  get_cache_slot_lem, get_cache_slot-NoneBefore, NoneBefore, time_at, find_listing-drop_listing,
  find_listing-drop_other, stale_listing,
}
use mega65fs.Cache.Lookup.{stat_from_cache-root, stat_from_cache-append}
use mega65fs.Fs.{space, emit_entries}
use mega65fs.Fs.Handlers.{space_lem, collect, numbered, emit_entries-collect}
use mega65fs.Sample.{Medium, medium, fresh_store, blank_card, first_run, a_file}

abbrev result_of : {A S : Type 0} → Option (A × S) → Option A
result_of none = none
result_of (some (a, s)) = some a

open_runs : result_of (m65ftp_open 5 (b'/' ∷ b'A' ∷ []) fresh_store) ≡ some (pos 0)
unfolding m65ftp_open str_eq
open_runs = refl

same_rest : (c : Card Medium) (r : Medium) → SameGeometry c (record c { rest = r })
same_rest c r = record {
  partition_start = refl;
  reserved_sectors = refl;
  sectors_per_fat = refl;
  sectors_per_cluster = refl;
}

medium-KeepsGeometry : KeepsGeometry medium
medium-KeepsGeometry = record {
  write_sector = λ n b c. same_rest c _;
  read_sector = λ n b c. same_rest c c.rest;
  find_contiguous_clusters = λ n c. same_rest c c.rest;
  get_next_cluster = λ n c. same_rest c c.rest;
  chained_cluster = λ n c. same_rest c c.rest;
  find_free_cluster = λ n c. same_rest c c.rest;
  allocate_cluster = λ n c. same_rest c _;
  chain_cluster = λ n m c. same_rest c _;
}

-- A run is found at the first cluster or behind it, or not at all.
first_run_low :
    (k n start : ℕ) (fat : ℕ → ℕ)
    → 2 ≤ start
    → (no_cluster (first_run k n start fat) || leb 2 (first_run k n start fat)) ≡ true
first_run_low zero n start fat h = refl
first_run_low (suc k) n start fat h = ground (arith, first_run_low k n (start + 1) fat)

medium-FindsData : FindsData medium
medium-FindsData = record { finds = λ n c. first_run_low 32 n 2 c.rest.fat (omega arith) }

-- A buffered file of three bytes.
abbrev a_buffer : FileInfo
a_buffer = record blank {
  file_size = 3;
  is_writable = true;
  buffered = true;
  write_buf = some (7 ∷ 8 ∷ 9 ∷ []);
  write_buf_cap = 3;
  dir_sector = pos 40;
  dir_sector_offset = pos 32;
  dir_sector_buf = replicate 512 0;
  in_use = true;
}

a_buffer-IsBuffered : IsBuffered a_buffer
a_buffer-IsBuffered = record { cap = refl; limit = omega arith }

fresh-IsPool : IsPool fresh_store
fresh-IsPool = record {
  bounded = omega arith;
  distinct = tt;
  below = tt;
  exact = λ fd h. absurd (omega arith);
}

abbrev one_open : Store Medium
one_open = record fresh_store { file_count = 1; files = λ i. a_buffer }

one_open-IsPool : IsPool one_open
one_open-IsPool = record { bounded = omega arith; distinct = tt; below = tt; exact = λ fd h. refl }

new_file-IsPool_example :
    (r : ℤ) × (s' : Store Medium) × (new_file (λ c old. created c) fresh_store ≡ some (r, s'))
    × IsPool s'
    × (Refused fresh_store r s' ⊎ Granted (λ c old. created c) fresh_store r s')
new_file-IsPool_example =
    new_file-IsPool (λ c old. created c) (λ c old. refl) fresh_store fresh-IsPool

m65ftp_close-IsPool_example :
    (s' : Store Medium) × (m65ftp_close (pos 0) one_open ≡ some (tt, s'))
    × IsPool s'
    × (s'.free_fds ≡ 0 ∷ [])
    × ((i : ℕ) → is_open s' (pos i) ≡ (not (i == 0) && is_open one_open (pos i)))
m65ftp_close-IsPool_example =
    m65ftp_close-IsPool one_open 0 medium-KeepsGeometry medium-FindsData (omega arith) (omega arith)
      refl one_open-IsPool

flush_write_buffer-Returns_example : Returns (flush_write_buffer a_buffer) blank_card
flush_write_buffer-Returns_example =
    flush_write_buffer-Returns a_buffer blank_card medium-KeepsGeometry medium-FindsData
      (omega arith) (omega arith)

flush_clusters-write_all_example :
    flush_clusters a_buffer 10 4 10 3 blank_card
    ≡ write_all
        (file_sectors a_buffer (first_data_sector blank_card + 8 * 1) 3 (sector_count 3) 0)
        blank_card
flush_clusters-write_all_example =
    flush_clusters-write_all a_buffer blank_card 10 medium-KeepsGeometry (omega arith) (omega arith)
      (omega arith)

pwrite_buffered-Written_example :
    (fi' : FileInfo) × (c' : Card Medium) × (pwrite_buffered a_buffer (1 ∷ 2 ∷ []) 2 blank_card
      ≡ some ((pos 2, fi'), c'))
    × Written a_buffer (1 ∷ 2 ∷ []) 2 fi'
pwrite_buffered-Written_example =
    pwrite_buffered-Written a_buffer (1 ∷ 2 ∷ []) 2 blank_card a_buffer-IsBuffered (omega arith)
      (λ n. refl)

pread-pwrite_example :
    (fi' : FileInfo) × (c' : Card Medium) × (pwrite_buffered a_buffer (1 ∷ 2 ∷ []) 2 blank_card
      ≡ some ((pos 2, fi'), c'))
    × (pread_buffered fi' 2 2 ≡ 1 ∷ 2 ∷ [])
pread-pwrite_example =
    pread-pwrite a_buffer (1 ∷ 2 ∷ []) 2 blank_card a_buffer-IsBuffered (omega arith) (λ n. refl)

truncate_buffered-Resized_example :
    (fi' : FileInfo) × (c' : Card Medium) × (truncate_buffered a_buffer 5 blank_card
      ≡ some ((pos 0, fi'), c'))
    × Resized a_buffer 5 fi'
truncate_buffered-Resized_example =
    truncate_buffered-Resized a_buffer 5 blank_card a_buffer-IsBuffered (omega arith) (omega arith)
      (λ n. refl)

truncate_twice-pread_example :
    (f : FileInfo) × (g : FileInfo) × (c' : Card Medium) × (c'' : Card Medium) × (truncate_buffered
        a_buffer 1 blank_card
      ≡ some ((pos 0, f), c'))
    × (truncate_buffered f 3 c' ≡ some ((pos 0, g), c''))
    × ((i : ℕ)
        → get_or (pread_buffered g 2 1) i 0 ≡ (if ltb i 2 then byte_at a_buffer (1 + i) else 0))
truncate_twice-pread_example =
    truncate_twice-pread a_buffer 1 3 blank_card a_buffer-IsBuffered refl (omega arith)
      (omega arith) (omega arith) (λ n c. refl)

-- The file of 600 bytes on the card, open for reading.
abbrev on_card_open : Store Medium
on_card_open = record one_open {
  files = λ i. record blank { first_cluster = 5; file_size = 600; in_use = true };
}

m65ftp_pread-IsAnswer_example :
    (r : ℤ × List ℕ) × (s' : Store Medium) × (m65ftp_pread (pos 0) 100 550 on_card_open
      ≡ some (r, s'))
    × IsAnswer 100 r
m65ftp_pread-IsAnswer_example =
    m65ftp_pread-IsAnswer (pos 0) 100 550 on_card_open medium-KeepsGeometry (omega arith)

split_path-append_example :
    split_path (b'/' ∷ b'D' ∷ b'/' ∷ b'A' ∷ []) ≡ some (b'/' ∷ b'D' ∷ [], b'A' ∷ [])
split_path-append_example =
    split_path-append (b'/' ∷ b'D' ∷ []) (b'A' ∷ []) refl (omega arith) (omega arith)

entry_cluster-set_example :
    (entry_cluster (set_entry_first_cluster a_buffer 70000) ≡ 70000)
    × (length (set_entry_first_cluster a_buffer 70000).dir_sector_buf ≡ 512)
entry_cluster-set_example = entry_cluster-set a_buffer 70000 (omega arith) (omega arith)

set_entry_first_cluster_outside_example :
    get_or (set_entry_first_cluster a_buffer 70000).dir_sector_buf 60 0
    ≡ get_or (replicate 512 0) 60 0
set_entry_first_cluster_outside_example =
    set_entry_first_cluster_outside a_buffer 70000 60 (inr (omega arith)) (inr (omega arith))

entry_size-set_example :
    (entry_size (set_entry_file_size a_buffer 70000) ≡ 70000)
    × (length (set_entry_file_size a_buffer 70000).dir_sector_buf ≡ 512)
entry_size-set_example = entry_size-set a_buffer 70000 (omega arith) (omega arith)

set_entry_file_size_outside_example :
    (get_or (set_entry_file_size a_buffer 70000).dir_sector_buf 58 0
      ≡ get_or (replicate 512 0) 58 0)
    × (entry_cluster (set_entry_file_size a_buffer 70000) ≡ entry_cluster a_buffer)
set_entry_file_size_outside_example =
    set_entry_file_size_outside a_buffer 70000 58 (inl (omega arith))

-- A boot record with one partition of type 12, from sector 2048 on, of 65536 sectors.
abbrev boot_record : List ℕ
boot_record =
    splice 510 (85 ∷ 170 ∷ [])
      (splice 450 (12 ∷ 0 ∷ 0 ∷ 0 ∷ 0 ∷ 8 ∷ 0 ∷ 0 ∷ 0 ∷ 0 ∷ 1 ∷ 0 ∷ []) (replicate 512 0))

abbrev partitioned : Store Medium
partitioned = record fresh_store {
  card = record blank_card { rest = record (blank_card.rest) { sectors = λ n. boot_record } };
}

all_bytes : List ℕ → Bool
all_bytes [] = true
all_bytes (x ∷ xs) = ltb x 256 && all_bytes xs

all_bytes-AreBytes : (xs : List ℕ) → all_bytes xs ≡ true → AreBytes xs
unfolding all_bytes
all_bytes-AreBytes [] h i = omega arith
all_bytes-AreBytes (x ∷ xs) h zero = ground (arith, h)
all_bytes-AreBytes (x ∷ xs) h (suc i) = all_bytes-AreBytes xs (ground (arith, h)) i

boot_record-AreBytes : AreBytes boot_record
unfolding all_bytes
boot_record-AreBytes = all_bytes-AreBytes boot_record refl

abbrev no_partition : Partition
no_partition = record { start_sector = 0; sector_count = 0; type = 0 }

m65ftp_mbrinfo-info_of_example :
    m65ftp_mbrinfo partitioned
    ≡ some (
      (
        pos 1,
        record { start_sector = 2048; sector_count = 65536; type = 12 }
            ∷ no_partition
            ∷ no_partition
            ∷ no_partition
            ∷ [],
      ),
      partitioned,
    )
m65ftp_mbrinfo-info_of_example = m65ftp_mbrinfo-info_of partitioned (λ mbr e.
    subst AreBytes (ap (λ (o : Option (List ℕ)). elim o [ none ↦ [] | some b ↦ b ]) e)
      boot_record-AreBytes)

-- A file stands where a directory is to be removed.
abbrev in_home : Store Medium
in_home = record one_open {
  card = record blank_card {
    current_dir = b'/' ∷ b'H' ∷ [];
    rest = record (blank_card.rest) { unread = a_file ∷ [] };
  };
}

run_call-current_dir_example : dir_of in_home ≡ b'/' ∷ b'H' ∷ []
unfolding m65ftp_rmdir str_eq
run_call-current_dir_example =
    run_call-current_dir (rmdir 5 (b'/' ∷ b'A' ∷ [])) in_home in_home minus_one (omega arith) refl

space_lem_example : (space 1000000 5000).f_bfree * 4096 + 5000 ≤ 1000000
space_lem_example = space_lem 1000000 5000 (omega arith)

m65ftp_pwrite-IsCount_example :
    (r : ℤ) × (s' : Store Medium) × (m65ftp_pwrite (pos 0) (1 ∷ 2 ∷ []) 2 one_open ≡ some (r, s'))
    × IsCount 2 r
m65ftp_pwrite-IsCount_example =
    m65ftp_pwrite-IsCount (pos 0) (1 ∷ 2 ∷ []) 2 one_open medium-KeepsGeometry medium-FindsData
      (omega arith) (omega arith) a_buffer-IsBuffered

pwrite_direct-IsCount_example :
    (r : ℤ) × (fi' : FileInfo) × (c' : Card Medium) × (pwrite_direct
        (record a_buffer { first_cluster = 5; buffered = false })
        (1 ∷ 2 ∷ [])
        700
        blank_card
      ≡ some ((r, fi'), c'))
    × IsCount 2 r
pwrite_direct-IsCount_example =
    pwrite_direct-IsCount (record a_buffer { first_cluster = 5; buffered = false }) (1 ∷ 2 ∷ []) 700
      blank_card medium-KeepsGeometry (omega arith)
