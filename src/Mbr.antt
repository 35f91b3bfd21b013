-- ===== src/Mbr.antt =====
-- src/m65ftp_lib.c: m65ftp_mbrinfo, which reads the partition table of the master boot record.
pub mod Table
use mega65fs.Base.{
  ℕ, zero, suc, ◌+◌, ◌*◌, ℤ, pos, minus_one, Bool, true, false, not, ◌&&◌, Option, none, some, List,
  [], ◌∷◌, bit_or, ltb, ◌==◌, if◌then◌else◌, get_or, Prog, pure, ◌>>=◌, ◌>>◌, call, get, ◌^◌,
}
use mega65fs.Card.{Card, Library}
use mega65fs.Store.{Store, on_card}

pub record Partition : Type 0 where
  pub start_sector : ℕ
  pub sector_count : ℕ
  pub type : ℕ

-- Four bytes at o, the lowest first.
unfoldable pub read_le32 : List ℕ → ℕ → ℕ
read_le32 mbr o =
    bit_or
      (bit_or (bit_or (get_or mbr o 0) (get_or mbr (o + 1) 0 * 2 ^ 8))
        (get_or mbr (o + 2) 0 * 2 ^ 16))
      (get_or mbr (o + 3) 0 * 2 ^ 24)

unfoldable pub partition_at : List ℕ → ℕ → Partition
unfolding read_le32
partition_at mbr i =
    let base = 0x1be + i * 16 in
    record {
      start_sector = read_le32 mbr (base + 8);
      sector_count = read_le32 mbr (base + 12);
      type = get_or mbr (base + 4) 0;
    }

-- The table from entry i on, n entries, and how many of them are in use.
unfoldable pub read_table : List ℕ → ℕ → ℕ → List Partition × ℕ
unfolding partition_at
read_table mbr zero i = ([], 0)
read_table mbr (suc n) i =
    let p = partition_at mbr i in
    let (rest, count) = read_table mbr n (i + 1) in
    (p ∷ rest, if not (p.type == 0) && ltb 0 p.sector_count then count + 1 else count)

-- The signature 0x55 0xAA.
abbrev pub is_signed : List ℕ → Bool
is_signed mbr = get_or mbr 510 0 == 0x55 && get_or mbr 511 0 == 0xaa

module _ {R : Type 0} ⦃lib : Library R⦄ where
  -- The result, and the four partitions where it is not -1.
  unfoldable pub m65ftp_mbrinfo : Prog (Store R) (ℤ × List Partition)
  unfolding read_table
  m65ftp_mbrinfo = do
    s ← get
    if not s.initialized then pure (minus_one, []) else do
      sector ← on_card (call (lib.read_sector 0 false))
      elim sector [
        | none ↦ pure (minus_one, [])
        | some mbr ↦
            if not (is_signed mbr)
            then pure (minus_one, [])
            else (let (partitions, count) = read_table mbr 4 0 in pure (pos count, partitions))
      ]
