-- ===== src/Write.antt =====
-- src/m65ftp_lib.c: m65ftp_pwrite. `buf` is the list of the bytes to write.
pub mod Returns
pub mod Extended
pub mod Answers
pub mod Rounds
pub mod Bytes
pub mod Effect
pub mod Contents
pub mod Stored
pub mod Direct
pub mod Readback
pub mod Resume
use mega65fs.Base.{
  ℕ, zero, suc, ◌+◌, ◌-◌, ◌*◌, ◌/◌, ◌%◌, divide, ℤ, pos, minus_one, to_nat, Bool, true, false, not,
  ◌&&◌, ◌||◌, Option, none, some, List, u32, no_cluster, ltb, leb, ◌==◌, if◌then◌else◌, length,
  take, drop, splice, replicate, Prog, pure, out_of_fuel, ◌>>=◌, ◌>>◌, call, get, drop_result,
}
use mega65fs.Card.{Card, Library}
use mega65fs.Store.{FileInfo, Store, buffer_limit, put_file, on_card, is_open}
use mega65fs.Chain.{cluster_size, sector_number, walk_chain, write_entry}
use mega65fs.Flush.{at_most, has_entry, flush_write_buffer, chain_block}
use mega65fs.Path.{is_empty}
use mega65fs.Entry.{set_entry_file_size}
use mega65fs.Buffer.{new_capacity, grow, store_bytes}

-- The variables of the write loop.
pub record Position : Type 0 where
  pub cluster : ℕ
  pub sector_in_cluster : ℕ
  pub total_written : ℕ
  pub current_offset : ℕ

-- `while (batch_power <= try_batch) batch_power <<= 1;` try_batch is at most 64, so that eight
-- rounds suffice.
unfoldable pub batch_power : ℕ → ℕ → ℕ → ℕ
batch_power zero try_batch power = power
batch_power (suc fuel) try_batch power =
    let more = batch_power fuel try_batch (power * 2) in if leb power try_batch then more else power

-- The first batch size that is tried.
unfoldable pub first_batch : ℕ → ℕ
unfolding batch_power
first_batch remaining_clusters =
    let half = batch_power 8 (at_most 64 remaining_clusters) 1 / 2 in if ltb half 2 then 2 else half

module _ {R : Type 0} ⦃lib : Library R⦄ where
  -- `while (try_batch >= 2) { ... }`: the last answer, and the batch size it was for.
  unfoldable pub find_batch : ℕ → ℕ → ℕ → Prog (Card R) (ℕ × ℕ)
  find_batch zero try_batch batch_start = out_of_fuel
  find_batch (suc fuel) try_batch batch_start =
      if ltb try_batch 2 then pure (batch_start, try_batch) else do
        start ← call (lib.find_contiguous_clusters try_batch)
        if no_cluster start then find_batch fuel (try_batch / 2) start else pure (start, try_batch)

  -- The chain ends at `cluster`: allocate a batch, or else one cluster. `none` when the card is
  -- full.
  unfoldable pub extend_chain : ℕ → ℕ → Prog (Card R) (Option ℕ)
  unfolding find_batch first_batch chain_block
  extend_chain cluster remaining = do
    c ← get
    clusters ← divide (remaining + cluster_size c - 1) (cluster_size c)
    (batch_start, try_batch) ← find_batch 8 (first_batch (u32 (u32 clusters + 1))) 0
    if no_cluster batch_start
        then (do
          next ← call (lib.find_free_cluster cluster)
          if no_cluster next then pure none else do
            drop_result (lib.allocate_cluster next)
            drop_result (lib.chain_cluster cluster next)
            pure (some next))
        else (do
          drop_result (lib.allocate_cluster batch_start)
          drop_result (lib.chain_cluster cluster batch_start)
          chain_block (try_batch - 1) batch_start 1
          pure (some batch_start))

  -- `if (sector_in_cluster >= sectors_per_cluster) { ... }`
  unfoldable pub next_cluster : Position → ℕ → Prog (Card R) (Option Position)
  next_cluster p remaining = do
    c ← get
    if ltb p.sector_in_cluster c.sectors_per_cluster then pure (some p) else do
      next ← call (lib.chained_cluster p.cluster)
      next ← (if no_cluster next then extend_chain p.cluster remaining else pure (some next))
      elim next [
        | none ↦ pure none
        | some next ↦ pure (some (record p { cluster = next; sector_in_cluster = 0 }))
      ]

  -- The old contents of the sector, read if it is written in part; `none` if that fails. The
  -- contents of a sector that is written whole do not matter.
  unfoldable pub old_sector : ℕ → ℕ → ℕ → Prog (Card R) (Option (List ℕ))
  old_sector sector offset_in_sector n =
      if ltb n 512 || not (offset_in_sector == 0)
      then call (lib.read_sector sector true)
      else pure (some (replicate 512 0))

  -- One round: whether the loop goes on, and the position.
  unfoldable pub write_step : List ℕ → Position → Prog (Card R) (Bool × Position)
  write_step rest p = do
    found ← next_cluster p (length rest)
    elim found [
      | none ↦ pure (false, p)
      | some p ↦ do
        c ← get
        let sector = sector_number c p.cluster p.sector_in_cluster
        let offset_in_sector = p.current_offset % 512
        let n = at_most (512 - offset_in_sector) (length rest)
        old ← old_sector sector offset_in_sector n
        elim old [
          | none ↦ pure (false, p)
          | some old ↦ do
            written ← call (lib.write_sector sector (splice offset_in_sector (take n rest) old))
            if written
                then pure (
                  true,
                  record p {
                    sector_in_cluster = p.sector_in_cluster + 1;
                    total_written = p.total_written + n;
                    current_offset = p.current_offset + n;
                  },
                )
                else pure (false, p)
        ]
    ]

  -- The `while` loop: `none` for the `return -1`, taken where nothing has been written.
  unfoldable pub write_loop : ℕ → List ℕ → Position → Prog (Card R) (Option Position)
  write_loop zero rest p = out_of_fuel
  write_loop (suc fuel) rest p = if is_empty rest then pure (some p) else do
    (goes_on, q) ← write_step rest p
    if goes_on
        then write_loop fuel (drop (q.total_written - p.total_written) rest) q
        else pure (if ltb 0 q.total_written then some q else none)

  -- The starting cluster and sector.
  unfoldable pub locate : FileInfo → ℕ → Prog (Card R) Position
  unfolding walk_chain
  locate fi offset =
      if offset == fi.last_offset && ltb 0 fi.last_offset && not (fi.write_cluster == 0)
      then pure (record {
        cluster = fi.write_cluster;
        sector_in_cluster = fi.sector_in_cluster;
        total_written = 0;
        current_offset = offset;
      })
      else (do
        c ← get
        quotient ← divide offset (cluster_size c)
        let cluster_index = u32 quotient
        (cluster, chain_len) ← walk_chain cluster_index fi.first_cluster 0
        c' ← get
        pure (record {
          cluster = cluster;
          sector_in_cluster =
              if ltb chain_len cluster_index
              then c'.sectors_per_cluster
              else offset % cluster_size c / 512;
          total_written = 0;
          current_offset = offset;
        }))

  -- After the loop: the position is kept, the size grows, the entry is written.
  unfoldable pub record_write : FileInfo → ℕ → Position → Prog (Card R) (ℤ × FileInfo)
  record_write fi offset p =
      let fi = record fi {
        write_cluster = p.cluster;
        sector_in_cluster = p.sector_in_cluster;
        last_offset = p.current_offset;
        file_size =
            if ltb fi.file_size (offset + p.total_written)
            then u32 (offset + p.total_written)
            else fi.file_size;
      } in
      let fi = if has_entry fi then set_entry_file_size fi fi.file_size else fi in
      do if has_entry fi then write_entry fi else pure tt; pure (pos p.total_written, fi)

  unfoldable pub pwrite_direct : FileInfo → List ℕ → ℕ → Prog (Card R) (ℤ × FileInfo)
  pwrite_direct fi buf offset = if is_empty buf then pure (pos 0, fi) else do
    start ← locate fi offset
    ended ← write_loop (length buf + 1) buf start
    elim ended [ none ↦ pure (minus_one, fi) | some p ↦ record_write fi offset p ]

  -- The branch for a buffered file. `none` from `new_capacity` means a loop that does not end.
  unfoldable pub pwrite_buffered : FileInfo → List ℕ → ℕ → Prog (Card R) (ℤ × FileInfo)
  unfolding new_capacity grow store_bytes
  pwrite_buffered fi buf offset =
      if leb (offset + length buf) fi.write_buf_cap
      then pure (pos (length buf), store_bytes fi buf offset)
      else elim (new_capacity fi.write_buf_cap (offset + length buf)) [
        | none ↦ out_of_fuel
        | some new_cap ↦ do
          done ← call (lib.realloc new_cap)
          if done
              then pure (pos (length buf), store_bytes (grow fi new_cap) buf offset)
              else pure (minus_one, fi)
      ]

  -- What `m65ftp_pwrite` does with an open writable descriptor.
  unfoldable pub pwrite_file : FileInfo → List ℕ → ℕ → Prog (Card R) (ℤ × FileInfo)
  pwrite_file fi buf offset =
      if not fi.buffered
      then pwrite_direct fi buf offset
      else (if is_empty buf
          then pure (pos 0, fi)
          else (if ltb buffer_limit (offset + length buf)
              then (do
                (flushed, fi) ← flush_write_buffer fi
                if flushed then pwrite_direct fi buf offset else pure (minus_one, fi))
              else pwrite_buffered fi buf offset))

  unfoldable pub m65ftp_pwrite : ℤ → List ℕ → ℕ → Prog (Store R) ℤ
  m65ftp_pwrite fd buf offset = do
    s ← get
    if not (s.initialized && is_open s fd && (s.files (to_nat fd)).is_writable)
        then pure minus_one
        else (do
          (result, fi) ← on_card (pwrite_file (s.files (to_nat fd)) buf offset)
          put_file (to_nat fd) fi
          pure result)
