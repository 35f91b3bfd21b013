-- ===== src/Flush.antt =====
-- src/m65ftp_lib.c: flush_write_buffer. The write buffer of a descriptor goes to a new contiguous
-- block of clusters, and the directory entry is switched over to it.
-- `start + i` and `cluster + 1` cannot wrap: start is below 0xffffff8 and a file has at most 2^23
-- clusters. Sector numbers may, and `u32` stands where they do.
pub mod Sectors
pub mod Returns
pub mod Block
pub mod Stored
pub mod Flushed
pub mod OnCard
pub mod Whole
pub mod Reads
use mega65fs.Base.{
  ℕ, zero, suc, ◌+◌, ◌-◌, ◌*◌, ◌/◌, divide, is_nonneg, Bool, true, false, ◌&&◌, Option, none, some,
  List, u32, no_cluster, ltb, ◌==◌, if◌then◌else◌, take, drop, replicate, overlay, Prog, pure,
  out_of_fuel, ◌>>=◌, ◌>>◌, call, get, drop_result,
}
use mega65fs.Card.{Card, Library}
use mega65fs.Store.{FileInfo}
use mega65fs.Chain.{cluster_size, sector_number, write_entry}
use mega65fs.Entry.{set_entry_first_cluster, set_entry_file_size}

-- `min(a, b)` as the source writes it.
abbrev pub at_most : ℕ → ℕ → ℕ
at_most a b = if ltb b a then b else a

-- The 512 bytes written for the `copy` bytes of the file at `off`.
unfoldable pub sector_bytes : Option (List ℕ) → ℕ → ℕ → ℕ → List ℕ
sector_bytes none cap off copy = replicate 512 0
sector_bytes (some buf) cap off copy =
    if ltb off cap
    then overlay (take (if ltb cap (off + copy) then cap - off else copy) (drop off buf))
        (replicate 512 0)
    else replicate 512 0

-- The entry lies in a known sector: `fi->dir_sector >= 0 && fi->dir_sector_offset >= 0`.
abbrev pub has_entry : FileInfo → Bool
has_entry fi = is_nonneg fi.dir_sector && is_nonneg fi.dir_sector_offset

module _ {R : Type 0} ⦃lib : Library R⦄ where
  -- Clusters i to i + n - 1 of the block are allocated and chained behind their predecessors.
  unfoldable pub chain_block : ℕ → ℕ → ℕ → Prog (Card R) (Unit {0})
  chain_block zero start i = pure tt
  chain_block (suc n) start i = do
    drop_result (lib.allocate_cluster (start + i))
    drop_result (lib.chain_cluster (start + i - 1) (start + i))
    chain_block n start (i + 1)

  -- The `for` loop over the n sectors left of a cluster; `none` if a write fails.
  unfoldable pub flush_cluster : FileInfo → ℕ → ℕ → ℕ → ℕ → ℕ → Prog (Card R) (Option ℕ)
  unfolding sector_bytes
  flush_cluster fi start cluster zero sec remaining = pure (some remaining)
  flush_cluster fi start cluster (suc n) sec remaining =
      if remaining == 0 then pure (some remaining) else do
        c ← get
        let off = (cluster - start) * cluster_size c + sec * 512
        let copy = at_most 512 remaining
        written ← call (
            lib.write_sector (sector_number c cluster sec)
              (sector_bytes fi.write_buf fi.write_buf_cap off copy))
        if written then flush_cluster fi start cluster n (sec + 1) (remaining - copy) else pure none

  -- The `while` loop over the clusters; `false` if a write fails.
  unfoldable pub flush_clusters : FileInfo → ℕ → ℕ → ℕ → ℕ → Prog (Card R) Bool
  flush_clusters fi start zero cluster remaining = out_of_fuel
  flush_clusters fi start (suc fuel) cluster remaining = if remaining == 0 then pure true else do
    c ← get
    left ← flush_cluster fi start cluster c.sectors_per_cluster 0 remaining
    elim left [
      | none ↦ pure false
      | some remaining' ↦ flush_clusters fi start fuel (cluster + 1) remaining'
    ]

  -- An empty file has no cluster.
  unfoldable pub flush_empty : FileInfo → Prog (Card R) (Bool × FileInfo)
  flush_empty fi =
      let entry = set_entry_file_size (set_entry_first_cluster fi 0) 0 in
      let fi' = if has_entry fi then entry else fi in
      do
        if has_entry fi then write_entry entry else pure tt
        pure (
          true,
          record fi' { write_buf = none; write_buf_cap = 0; buffered = false; first_cluster = 0 },
        )

  -- The data is on the card: persist the new first cluster and size.
  unfoldable pub flush_entry : FileInfo → ℕ → Prog (Card R) (Bool × FileInfo)
  flush_entry fi start =
      let entry = set_entry_file_size (set_entry_first_cluster fi start) fi.file_size in
      let fi' = if has_entry fi then entry else fi in
      do
        if has_entry fi then write_entry entry else pure tt
        pure (
          true,
          record fi' {
            first_cluster = start;
            write_cluster = start;
            sector_in_cluster = 0;
            last_offset = 0;
            current_cluster = start;
            current_cluster_idx = 0;
            write_buf = none;
            write_buf_cap = 0;
            buffered = false;
          },
        )

  -- Whether it succeeded, and the descriptor afterwards.
  unfoldable pub flush_write_buffer : FileInfo → Prog (Card R) (Bool × FileInfo)
  flush_write_buffer fi = if fi.file_size == 0 then flush_empty fi else do
    c ← get
    needed ← divide (u32 (fi.file_size + cluster_size c - 1)) (cluster_size c)
    start ← call (lib.find_contiguous_clusters needed)
    if no_cluster start then pure (false, fi) else do
      drop_result (lib.allocate_cluster start)
      chain_block (needed - 1) start 1
      written ← flush_clusters fi start (fi.file_size + 1) start fi.file_size
      if written then flush_entry fi start else pure (false, fi)
