-- ===== src/Read.antt =====
-- src/m65ftp_lib.c: m65ftp_pread. The result comes with the bytes stored in `buf`.
pub mod Returns
pub mod Places
pub mod Contents
use mega65fs.Base.{
  ℕ, zero, suc, ◌+◌, ◌-◌, ◌/◌, ◌%◌, divide, ℤ, pos, minus_one, to_nat, true, not, ◌&&◌, ◌||◌, none,
  some, List, [], ◌++◌, is_end, leb, ◌==◌, if◌then◌else◌, length, take, drop, Prog, pure,
  out_of_fuel, ◌>>=◌, ◌>>◌, call, get,
}
use mega65fs.Card.{Card, Library}
use mega65fs.Store.{FileInfo, Store, put_file, on_card, is_open}
use mega65fs.Chain.{cluster_size, sector_number}
use mega65fs.Flush.{at_most}
use mega65fs.Path.{is_empty}
use mega65fs.Buffer.{clip, pread_buffered}

pub record Cursor : Type 0 where
  pub cluster : ℕ
  pub cluster_index : ℕ
  pub bytes : List ℕ
  pub remaining : ℕ
  pub current_offset : ℕ

-- How the loop ended.
pub data Ended : Type 0 where
  reached : Cursor → Ended
  failed : Cursor → Ended

abbrev pub cursor_of : Ended → Cursor
cursor_of (reached p) = p
cursor_of (failed p) = p

abbrev pub read_result : Ended → ℤ × List ℕ
read_result (reached p) = (pos (length p.bytes), p.bytes)
read_result (failed p) =
    if is_empty p.bytes then (minus_one, p.bytes) else (pos (length p.bytes), p.bytes)

module _ {R : Type 0} ⦃lib : Library R⦄ where
  -- `while (cluster_index < target_cluster_index) { ... }`, n rounds at most.
  unfoldable pub seek : ℕ → ℕ → ℕ → Prog (Card R) (ℕ × ℕ)
  seek zero cluster cluster_index = pure (cluster, cluster_index)
  seek (suc n) cluster cluster_index = do
    next ← call (lib.get_next_cluster cluster)
    if is_end next then pure (next, cluster_index + 1) else seek n next (cluster_index + 1)

  -- The cast of the quotient keeps it: the offset lies before the end of a file below 4 GB.
  unfoldable pub read_loop : ℕ → Cursor → Prog (Card R) Ended
  read_loop zero p = out_of_fuel
  read_loop (suc fuel) p = if p.remaining == 0 || is_end p.cluster then pure (reached p) else do
    c ← get
    target ← divide p.current_offset (cluster_size c)
    (cluster, cluster_index) ← seek (target - p.cluster_index) p.cluster p.cluster_index
    let here = record p { cluster = cluster; cluster_index = cluster_index }
    if is_end cluster then pure (reached here) else do
      let offset_in_cluster = p.current_offset % cluster_size c
      let offset_in_sector = offset_in_cluster % 512
      let n = at_most (512 - offset_in_sector) p.remaining
      c ← get
      sector ← call (lib.read_sector (sector_number c cluster (offset_in_cluster / 512)) true)
      elim sector [
        | none ↦ pure (failed here)
        | some data' ↦ read_loop fuel (record here {
          bytes = p.bytes ++ take n (drop offset_in_sector data');
          remaining = p.remaining - n;
          current_offset = p.current_offset + n;
        })
      ]

  -- The branch for a file on the card, and the descriptor afterwards.
  unfoldable pub pread_direct : FileInfo → ℕ → ℕ → Prog (Card R) ((ℤ × List ℕ) × FileInfo)
  pread_direct fi count offset =
      if count == 0 || fi.first_cluster == 0 || leb fi.file_size offset
      then pure ((pos 0, []), fi)
      else (let n = clip fi.file_size count offset in
          let continues = offset == fi.last_offset in
          do
            ended ← read_loop (n + 1) (record {
              cluster = if continues then fi.current_cluster else fi.first_cluster;
              cluster_index = if continues then fi.current_cluster_idx else 0;
              bytes = [];
              remaining = n;
              current_offset = offset;
            })
            let p = cursor_of ended
            pure (
              read_result ended,
              record fi {
                current_cluster = p.cluster;
                current_cluster_idx = p.cluster_index;
                last_offset = p.current_offset;
              },
            ))

  unfoldable pub m65ftp_pread : ℤ → ℕ → ℕ → Prog (Store R) (ℤ × List ℕ)
  m65ftp_pread fd count offset = do
    s ← get
    if not (s.initialized && is_open s fd) then pure (minus_one, []) else do
      let fi = s.files (to_nat fd)
      if fi.buffered
          then (let bytes = pread_buffered fi count offset in pure (pos (length bytes), bytes))
          else (do
            (result, fi) ← on_card (pread_direct fi count offset)
            put_file (to_nat fd) fi
            pure result)
