-- ===== src/Mbr/Table.antt =====
-- The partition table that m65ftp_mbrinfo of src/m65ftp_lib.c reads, against the layout of a master
-- boot record: four entries of 16 bytes from byte 446 on, with the type at 4, the first sector at 8
-- and the number of sectors at 12 of each, and the bytes 85 and 170 at the end.
use mega65fs.Base.{
  ℕ, suc, ◌+◌, ◌*◌, ◌^◌, ◌<◌, ◌≡◌, refl, ap, ◌∙◌, false, not, inl, inr, some, none, List, [], ◌∷◌,
  ◌&&◌, ◌==◌, ltb, if◌then◌else◌, get_or, arith, Bool-cases, Option, ℤ, pos, minus_one,
  bit_or-above, Option-cases,
}
use mega65fs.Card.{Library}
use mega65fs.Store.{Store}
use mega65fs.Entry.Fields.{le32}
use mega65fs.Mbr.{Partition, read_le32, partition_at, read_table, m65ftp_mbrinfo, is_signed}

-- Every byte is one.
abbrev pub AreBytes : List ℕ → Type 0
AreBytes b = (i : ℕ) → get_or b i 0 < 256

-- Entry i of the table.
abbrev pub entry_of : List ℕ → ℕ → Partition
entry_of mbr i = record {
  start_sector = le32 mbr (446 + 16 * i + 8);
  sector_count = le32 mbr (446 + 16 * i + 12);
  type = get_or mbr (446 + 16 * i + 4) 0;
}

-- One for an entry that has a type and a sector.
abbrev pub one_if_used : Partition → ℕ
one_if_used p = if p.type == 0 then 0 else (if p.sector_count == 0 then 0 else 1)

-- What the sector tells: the number of entries in use, and the four of them.
abbrev pub table_of : List ℕ → ℤ × List Partition
table_of mbr = (
  pos (
      one_if_used (entry_of mbr 0)
      + one_if_used (entry_of mbr 1)
      + one_if_used (entry_of mbr 2)
      + one_if_used (entry_of mbr 3)),
  entry_of mbr 0 ∷ entry_of mbr 1 ∷ entry_of mbr 2 ∷ entry_of mbr 3 ∷ [],
)

-- What a read of sector 0 leads to.
abbrev pub info_of : Option (List ℕ) → ℤ × List Partition
info_of none = (minus_one, [])
info_of (some mbr) =
    if get_or mbr 510 0 == 85 && get_or mbr 511 0 == 170 then table_of mbr else (minus_one, [])

read_le32_lem : (mbr : List ℕ) (o : ℕ) → AreBytes mbr → read_le32 mbr o ≡ le32 mbr o
unfolding read_le32
read_le32_lem mbr o bytes =
    let a = get_or mbr o 0 in
    let b = get_or mbr (o + 1) 0 in
    let c = get_or mbr (o + 2) 0 in
    let la = bytes o in
    let lb = bytes (o + 1) in
    let lc = bytes (o + 2) in
    let e1 = bit_or-above 8 a b (omega (arith, la)) in
    let e2 = bit_or-above 16 (a + b * 2 ^ 8) c (omega (arith, la, lb)) in
    let e3 =
      bit_or-above 24 (a + b * 2 ^ 8 + c * 2 ^ 16) (get_or mbr (o + 3) 0)
        (omega (arith, la, lb, lc)) in
    rw (e1, e2, e3) (omega arith)

partition_lem : (mbr : List ℕ) (i : ℕ) → AreBytes mbr → partition_at mbr i ≡ entry_of mbr i
unfolding partition_at
partition_lem mbr i bytes =
    let z : i * 16 ≡ 16 * i = omega arith in
    rw (z, read_le32_lem mbr (446 + 16 * i + 8) bytes, read_le32_lem mbr (446 + 16 * i + 12) bytes)
      refl

counted :
    (p : Partition) (n : ℕ)
    → (if not (p.type == 0) && ltb 0 p.sector_count then n + 1 else n) ≡ one_if_used p + n
counted p n = ground arith

table_step :
    (mbr : List ℕ) (n i : ℕ)
    → AreBytes mbr
    → read_table mbr (suc n) i ≡ (
      entry_of mbr i ∷ (read_table mbr n (i + 1)).0,
      one_if_used (entry_of mbr i) + (read_table mbr n (i + 1)).1,
    )
unfolding read_table
table_step mbr n i bytes =
    let rest = read_table mbr n (i + 1) in
    ap
      (λ (p : Partition).
        (p ∷ rest.0, if not (p.type == 0) && ltb 0 p.sector_count then rest.1 + 1 else rest.1))
      (partition_lem mbr i bytes)
    ∙ ap (λ (k : ℕ). (entry_of mbr i ∷ rest.0, k)) (counted (entry_of mbr i) rest.1)

table_end : (mbr : List ℕ) (i : ℕ) → read_table mbr 0 i ≡ ([], 0)
unfolding read_table
table_end mbr i = refl

sum_lem : (a b c d : ℕ) → a + (b + (c + (d + 0))) ≡ a + b + c + d
sum_lem a b c d = omega arith

read_table_lem :
    (mbr : List ℕ)
    → AreBytes mbr
    → (pos (read_table mbr 4 0).1, (read_table mbr 4 0).0) ≡ table_of mbr
read_table_lem mbr bytes =
    rw
      (
        table_step mbr 3 0 bytes,
        table_step mbr 2 1 bytes,
        table_step mbr 1 2 bytes,
        table_step mbr 0 3 bytes,
        table_end mbr 4,
      )
      (ap
        (λ (k : ℕ). (pos k, entry_of mbr 0 ∷ entry_of mbr 1 ∷ entry_of mbr 2 ∷ entry_of mbr 3 ∷ []))
        (sum_lem (one_if_used (entry_of mbr 0)) (one_if_used (entry_of mbr 1))
          (one_if_used (entry_of mbr 2)) (one_if_used (entry_of mbr 3))))

module _ {R : Type 0} ⦃lib : Library R⦄ where
  -- Where the connection is up and what is read of sector 0 is bytes: the answer is what the sector
  -- tells as a master boot record. Without a connection, where the read fails, or where the sector
  -- does not end in 85 and 170, it is -1 and no partition; else it is the number of entries with a
  -- type and a sector, and the four entries.
  pub m65ftp_mbrinfo-info_of :
      (s : Store R)
      → ((mbr : List ℕ) → (lib.read_sector 0 false s.card).0 ≡ some mbr → AreBytes mbr)
      → m65ftp_mbrinfo s
        ≡ some (
          if s.initialized then info_of (lib.read_sector 0 false s.card).0 else (minus_one, []),
          if s.initialized then record s { card = (lib.read_sector 0 false s.card).1 } else s,
        )
  unfolding m65ftp_mbrinfo
  m65ftp_mbrinfo-info_of s bytes = elim (Bool-cases s.initialized) [
    | inr w ↦ rw w refl
    | inl w ↦ elim (Option-cases (lib.read_sector 0 false s.card).0) [
      | inl q ↦ rw (w, q) refl
      | inr (mbr, q) ↦ elim (Bool-cases (is_signed mbr)) [
        | inr z ↦ rw (w, q, z) refl
        | inl z ↦ rw (w, q, z, read_table_lem mbr (bytes mbr q)) refl
      ]
    ]
  ]
