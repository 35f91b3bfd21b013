-- ===== src/Entry/Fields.antt =====
-- The fields of a directory entry as a reader decodes them, after src/m65ftp_lib.c has set them.
use mega65fs.Base.{
  inl, ◌∙◌, ℕ, ◌+◌, ◌*◌, ◌/◌, ◌%◌, ◌^◌, ◌≤◌, ◌<◌, ◌≡◌, ◌⊎◌, to_nat, List, arith, get_or, length,
  length-set, get_or-set, set, ◌∙◌,
}
use mega65fs.Store.{FileInfo}
use mega65fs.Entry.{
  pack_dir_entry_le16, pack_dir_entry_le32, set_entry_first_cluster, set_entry_file_size,
}

abbrev pub le16 : List ℕ → ℕ → ℕ
le16 b o = get_or b o 0 + 2 ^ 8 * get_or b (o + 1) 0

abbrev pub le32 : List ℕ → ℕ → ℕ
le32 b o =
    get_or b o 0
    + 2 ^ 8 * get_or b (o + 1) 0
    + 2 ^ 16 * get_or b (o + 2) 0
    + 2 ^ 24 * get_or b (o + 3) 0

-- The fields of the entry of a descriptor, as a FAT32 reader decodes them.
abbrev pub entry_cluster : FileInfo → ℕ
entry_cluster fi =
    let o = to_nat fi.dir_sector_offset in
    2 ^ 16 * le16 fi.dir_sector_buf (o + 0x14) + le16 fi.dir_sector_buf (o + 0x1a)

abbrev pub entry_size : FileInfo → ℕ
entry_size fi = le32 fi.dir_sector_buf (to_nat fi.dir_sector_offset + 0x1c)

-- The entry lies within the cached sector.
abbrev pub HasEntry : FileInfo → Type 0
HasEntry fi = to_nat fi.dir_sector_offset + 32 ≤ length fi.dir_sector_buf

module _ (b : List ℕ) (o v : ℕ) where
  pub length-pack16 : length (pack_dir_entry_le16 b o v) ≡ length b
  unfolding pack_dir_entry_le16
  length-pack16 = omega (arith, length-set {0}, length-set b o (v % 256))

  pub length-pack32 : length (pack_dir_entry_le32 b o v) ≡ length b
  unfolding pack_dir_entry_le32
  length-pack32 = omega (arith, length-set {0})

  -- A byte outside the field keeps its value.
  pub pack16_outside :
      (i : ℕ) → (i < o) ⊎ (o + 2 ≤ i) → get_or (pack_dir_entry_le16 b o v) i 0 ≡ get_or b i 0
  unfolding pack_dir_entry_le16
  pack16_outside i h = ground (
    arith,
    get_or-set (set b o (v % 256)) (o + 1) i (v / 2 ^ 8 % 256) 0,
    get_or-set b o i (v % 256) 0,
  )

  pub pack32_outside :
      (i : ℕ) → (i < o) ⊎ (o + 4 ≤ i) → get_or (pack_dir_entry_le32 b o v) i 0 ≡ get_or b i 0
  unfolding pack_dir_entry_le32
  pack32_outside i h = grind (arith, get_or-set)

  pub le16-pack16 : v < 2 ^ 16 → o + 2 ≤ length b → le16 (pack_dir_entry_le16 b o v) o ≡ v
  unfolding pack_dir_entry_le16
  le16-pack16 h l = grind (arith, get_or-set, length-set)

  pack32_byte0 : o + 4 ≤ length b → get_or (pack_dir_entry_le32 b o v) o 0 ≡ v % 256
  unfolding pack_dir_entry_le32
  pack32_byte0 l = grind (arith, get_or-set, length-set)

  pack32_byte1 : o + 4 ≤ length b → get_or (pack_dir_entry_le32 b o v) (o + 1) 0 ≡ v / 2 ^ 8 % 256
  unfolding pack_dir_entry_le32
  pack32_byte1 l = grind (arith, get_or-set, length-set)

  pack32_byte2 : o + 4 ≤ length b → get_or (pack_dir_entry_le32 b o v) (o + 2) 0 ≡ v / 2 ^ 16 % 256
  unfolding pack_dir_entry_le32
  pack32_byte2 l = grind (arith, get_or-set, length-set)

  pack32_byte3 : o + 4 ≤ length b → get_or (pack_dir_entry_le32 b o v) (o + 3) 0 ≡ v / 2 ^ 24 % 256
  unfolding pack_dir_entry_le32
  pack32_byte3 l = grind (arith, get_or-set, length-set)

  pub le32-pack32 : v < 2 ^ 32 → o + 4 ≤ length b → le32 (pack_dir_entry_le32 b o v) o ≡ v
  le32-pack32 h l = omega (arith, pack32_byte0 l, pack32_byte1 l, pack32_byte2 l, pack32_byte3 l)

module _ (fi : FileInfo) (v : ℕ) where
  abbrev base : ℕ
  base = to_nat fi.dir_sector_offset

  -- For a value of 32 bits and an entry that lies within the cached sector: the first cluster that
  -- is set is read back from the two halves of its field, and the sector keeps its length.
  pub entry_cluster-set :
      v < 2 ^ 32
      → HasEntry fi
      → (entry_cluster (set_entry_first_cluster fi v) ≡ v)
        × (length (set_entry_first_cluster fi v).dir_sector_buf ≡ length fi.dir_sector_buf)
  unfolding set_entry_first_cluster
  entry_cluster-set small has =
      let b = pack_dir_entry_le16 fi.dir_sector_buf (base + 0x1a) (v % 2 ^ 16) in
      let hi = v / 2 ^ 16 % 2 ^ 16 in
      let len = length-pack16 fi.dir_sector_buf (base + 0x1a) (v % 2 ^ 16) in
      (
        omega (
          arith,
          le16-pack16 b (base + 0x14) hi (omega arith) (omega (arith, len)),
          le16-pack16 fi.dir_sector_buf (base + 0x1a) (v % 2 ^ 16) (omega arith) (omega arith),
          pack16_outside b (base + 0x14) hi (base + 0x1a) (omega arith),
          pack16_outside b (base + 0x14) hi (base + 0x1a + 1) (omega arith),
        ),
        omega (arith, length-pack16 b (base + 0x14) hi, len),
      )

  -- Setting the first cluster changes no byte outside the two halves of its field.
  pub set_entry_first_cluster_outside :
      (i : ℕ)
      → (i < base + 0x14) ⊎ (base + 0x16 ≤ i)
      → (i < base + 0x1a) ⊎ (base + 0x1c ≤ i)
      → get_or (set_entry_first_cluster fi v).dir_sector_buf i 0 ≡ get_or fi.dir_sector_buf i 0
  unfolding set_entry_first_cluster
  set_entry_first_cluster_outside i h k =
      let b = pack_dir_entry_le16 fi.dir_sector_buf (base + 0x1a) (v % 2 ^ 16) in
      pack16_outside b (base + 0x14) (v / 2 ^ 16 % 2 ^ 16) i (omega arith)
      ∙ pack16_outside fi.dir_sector_buf (base + 0x1a) (v % 2 ^ 16) i (omega arith)

  -- For a value of 32 bits and an entry that lies within the cached sector: the size that is set
  -- is read back, and the sector keeps its length.
  pub entry_size-set :
      v < 2 ^ 32
      → HasEntry fi
      → (entry_size (set_entry_file_size fi v) ≡ v)
        × (length (set_entry_file_size fi v).dir_sector_buf ≡ length fi.dir_sector_buf)
  unfolding set_entry_file_size
  entry_size-set small has = (
    le32-pack32 fi.dir_sector_buf (base + 0x1c) v small (omega arith),
    length-pack32 fi.dir_sector_buf (base + 0x1c) v,
  )

  -- Setting the size changes no byte outside its field, so the first cluster stays.
  pub set_entry_file_size_outside :
      (i : ℕ)
      → (i < base + 0x1c) ⊎ (base + 0x20 ≤ i)
      → (get_or (set_entry_file_size fi v).dir_sector_buf i 0 ≡ get_or fi.dir_sector_buf i 0)
        × (entry_cluster (set_entry_file_size fi v) ≡ entry_cluster fi)
  unfolding set_entry_file_size
  set_entry_file_size_outside i h =
      let keep = λ (j : ℕ) (l : j < base + 0x1c).
        pack32_outside fi.dir_sector_buf (base + 0x1c) v j (inl l) in
      (
        pack32_outside fi.dir_sector_buf (base + 0x1c) v i (omega arith),
        omega (
          arith,
          keep (base + 0x14) (omega arith),
          keep (base + 0x14 + 1) (omega arith),
          keep (base + 0x1a) (omega arith),
          keep (base + 0x1a + 1) (omega arith),
        ),
      )
