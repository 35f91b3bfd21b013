-- ===== src/Truncate.antt =====
-- src/m65ftp_lib.c: m65ftp_ftruncate.
pub mod Buffered
pub mod Rollback
pub mod Shrink
pub mod Shorter
pub mod Allocated
pub mod ClusterCopy
pub mod Copied
pub mod FileChain
pub mod Grown
pub mod Moved
pub mod Longer
use mega65fs.Base.{
  ℕ, zero, suc, ◌+◌, ◌-◌, divide, ℤ, pos, negsuc, minus_one, to_nat, Bool, true, false, not, ◌&&◌,
  Option, none, some, u32, no_cluster, ltb, leb, ◌==◌, if◌then◌else◌, Prog, pure, out_of_fuel,
  ◌>>=◌, ◌>>◌, call, run, get,
}
use mega65fs.Card.{Card, Library}
use mega65fs.Store.{FileInfo, Store, end_of_chain, put_file, on_card, is_open}
use mega65fs.Chain.{
  cluster_size, sector_number, count_cluster_chain, walk_chain, free_chain, write_entry,
}
use mega65fs.Flush.{at_most, has_entry}
use mega65fs.Entry.{set_entry_first_cluster, set_entry_file_size}
use mega65fs.Buffer.{new_capacity, grow}

-- Every position is that of the start of the file.
abbrev pub rewound : FileInfo → ℕ → ℕ → FileInfo
rewound fi first length = record fi {
  first_cluster = first;
  file_size = length;
  write_cluster = first;
  sector_in_cluster = 0;
  last_offset = 0;
  current_cluster = first;
  current_cluster_idx = 0;
}

module _ {R : Type 0} ⦃lib : Library R⦄ where
  -- Buffered, to length 0.
  unfoldable pub truncate_buffered_zero : FileInfo → Prog (Card R) (ℤ × FileInfo)
  truncate_buffered_zero fi =
      let cleared = record (rewound fi 0 0) { write_buf = none; write_buf_cap = 0 } in
      if has_entry fi
      then (let entry = set_entry_file_size (set_entry_first_cluster cleared 0) 0 in
          do write_entry entry; run lib.execute_write_queue; pure (pos 0, entry))
      else pure (pos 0, cleared)

  -- Buffered, to another length. The size is set before `realloc` is tried.
  unfoldable pub truncate_buffered : FileInfo → ℕ → Prog (Card R) (ℤ × FileInfo)
  truncate_buffered fi length =
      if length == 0
      then truncate_buffered_zero fi
      else (let sized = record fi { file_size = u32 length } in
          if leb length fi.write_buf_cap
          then pure (pos 0, sized)
          else elim (new_capacity fi.write_buf_cap length) [
            | none ↦ out_of_fuel
            | some new_cap ↦ do
              done ← call (lib.realloc new_cap)
              if done then pure (pos 0, grow sized new_cap) else pure (minus_one, sized)
          ])

  -- On the card, to length 0.
  unfoldable pub truncate_zero : ℕ → FileInfo → Prog (Card R) (ℤ × FileInfo)
  truncate_zero fuel fi = do
    free_chain fuel fi.first_cluster
    let entry = if has_entry fi then set_entry_file_size (set_entry_first_cluster fi 0) 0 else fi
    if has_entry fi then (do write_entry entry; run lib.execute_write_queue) else pure tt
    pure (pos 0, rewound entry 0 0)

  -- Clusters i to i + n - 1 of the new block: whether all went well, and how many are marked used.
  unfoldable pub allocate_block : ℕ → ℕ → ℕ → Prog (Card R) (Bool × ℕ)
  allocate_block zero start i = pure (true, i)
  allocate_block (suc n) start i = do
    allocated ← call (lib.allocate_cluster (start + i))
    if not allocated then pure (false, i) else do
      chained ← (if i == 0 then pure true else call (lib.chain_cluster (start + i - 1) (start + i)))
      if not chained then pure (false, i + 1) else allocate_block n start (i + 1)

  -- `deallocate_cluster(start + i)` for i up to i + n - 1.
  unfoldable pub free_block : ℕ → ℕ → ℕ → Prog (Card R) (Unit {0})
  free_block zero start i = pure tt
  free_block (suc n) start i = do
    run (lib.deallocate_cluster (start + i))
    free_block n start (i + 1)

  -- The n sectors left of one cluster: the bytes left, or `none` if a read or a write fails.
  unfoldable pub copy_cluster : ℕ → ℕ → ℕ → ℕ → ℕ → Prog (Card R) (Option ℕ)
  copy_cluster zero old new sec remaining = pure (some remaining)
  copy_cluster (suc n) old new sec remaining = if remaining == 0 then pure (some remaining) else do
    c ← get
    buffer ← call (lib.read_sector (sector_number c old sec) true)
    elim buffer [
      | none ↦ pure none
      | some buffer ↦ do
        written ← call (lib.write_sector (sector_number c new sec) buffer)
        if written
            then copy_cluster n old new (sec + 1) (remaining - at_most 512 remaining)
            else pure none
    ]

  unfoldable pub copy_chain : ℕ → ℕ → ℕ → ℕ → Prog (Card R) Bool
  copy_chain zero old new remaining = out_of_fuel
  copy_chain (suc fuel) old new remaining = if remaining == 0 then pure true else do
    c ← get
    left ← copy_cluster c.sectors_per_cluster old new 0 remaining
    elim left [
      | none ↦ pure false
      | some left ↦ if left == 0 then pure true else do
        next_old ← call (lib.chained_cluster old)
        if no_cluster next_old then pure true else copy_chain fuel next_old (new + 1) left
    ]

  -- The longer file gets a new contiguous block: its first cluster, or `none` if the old file is
  -- left as it was.
  unfoldable pub grow_chain : ℕ → FileInfo → ℕ → ℕ → Prog (Card R) (Option ℕ)
  grow_chain fuel fi needed length = do
    start ← call (lib.find_contiguous_clusters needed)
    if no_cluster start then pure none else do
      (grown, allocated_count) ← allocate_block needed start 0
      if not grown then (do free_block allocated_count start 0; pure none) else (do
        let copy_size = at_most (u32 length) fi.file_size
        copied ← copy_chain (copy_size + 1) fi.first_cluster start copy_size
        if copied
            then (do free_chain fuel fi.first_cluster; pure (some start))
            else (do free_block needed start 0; pure none))

  -- Everything behind the new last cluster is freed.
  unfoldable pub shrink_chain : ℕ → ℕ → ℕ → Prog (Card R) (Unit {0})
  shrink_chain fuel first needed = do
    (cluster, _) ← walk_chain (needed - 1) first 0
    free_start ← call (lib.chained_cluster cluster)
    free_chain fuel free_start
    run (lib.set_fat_cluster_ptr cluster end_of_chain)

  -- The new size, and the first cluster if it changed, go to the entry and to the descriptor.
  unfoldable pub finish_truncate : FileInfo → ℕ → ℕ → Prog (Card R) (ℤ × FileInfo)
  finish_truncate fi first length =
      let entry = if has_entry fi then set_entry_file_size fi (u32 length) else fi in
      do
        if has_entry fi then (do write_entry entry; run lib.execute_write_queue) else pure tt
        pure (pos 0, rewound entry first (u32 length))

  -- `(length == 0) ? 0 : ...`
  unfoldable pub needed_clusters : ℕ → Prog (Card R) ℕ
  needed_clusters length = if length == 0 then pure 0 else do
    c ← get
    quotient ← divide (length + cluster_size c - 1) (cluster_size c)
    pure (u32 quotient)

  unfoldable pub truncate_direct : ℕ → FileInfo → ℕ → Prog (Card R) (ℤ × FileInfo)
  truncate_direct fuel fi length = do
    needed ← needed_clusters length
    if needed == 0
        then truncate_zero fuel fi
        else (if no_cluster fi.first_cluster then pure (minus_one, fi) else do
          (current_count, last) ← count_cluster_chain fuel fi.first_cluster
          if ltb current_count needed
              then (do
                start ← grow_chain fuel fi needed length
                elim start [
                  | none ↦ pure (minus_one, fi)
                  | some start ↦
                      finish_truncate
                        (if has_entry fi then set_entry_first_cluster fi start else fi) start length
                ])
              else (do
                if ltb needed current_count
                    then shrink_chain fuel fi.first_cluster needed
                    else pure tt
                finish_truncate fi fi.first_cluster length))

  unfoldable pub m65ftp_ftruncate : ℕ → ℤ → ℤ → Prog (Store R) ℤ
  m65ftp_ftruncate fuel fd length = do
    s ← get
    if not (s.initialized && is_open s fd && (s.files (to_nat fd)).is_writable)
        then pure minus_one
        else elim length [
          | negsuc n ↦ pure minus_one
          | pos n ↦ do
            let fi = s.files (to_nat fd)
            (result, fi) ←
                on_card (if fi.buffered then truncate_buffered fi n else truncate_direct fuel fi n)
            put_file (to_nat fd) fi
            pure result
        ]
