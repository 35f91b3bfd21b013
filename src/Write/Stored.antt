-- ===== src/Write/Stored.antt =====
-- A direct write as a whole: m65ftp_pwrite of src/m65ftp_lib.c on a file whose clusters reach behind
-- the last byte written.
use mega65fs.Base.{
  add_int32, to_nat, u32, pos, no_cluster, u32, add_int32, ℕ, zero, suc, ◌+◌, ◌≤◌, ◌<◌, ◌≡◌, refl,
  ap, ◌∙◌, Bool, true, false, not, inl, inr, ◌⊎◌, some, List, ◌&&◌, arith, ◌==◌, ltb, if◌then◌else◌,
  length, Bool-cases, ◌*◌, ◌/◌, ◌%◌, ◌>>=◌, pos, divide_lem,
}
use mega65fs.Card.{Card, Library}
use mega65fs.Chain.Count.{u32_small, count_lem}
use mega65fs.Store.{FileInfo}
use mega65fs.Chain.{first_data_sector, cluster_size, walk_chain}
use mega65fs.Chain.Disk.{Kept-refl, Kept-trans, Disk, Kept, InArea, Linked}
use mega65fs.Entry.{set_entry_file_size}
use mega65fs.Entry.Fields.{length-pack32}
use mega65fs.Flush.{has_entry}
use mega65fs.Write.{Position, locate, record_write}
use mega65fs.Write.Bytes.{Stands, Inside, place_back, index_lem}

-- The position that the descriptor keeps, and whether a write goes on there.
abbrev pub kept_position : FileInfo → Position
kept_position fi = record {
  cluster = fi.write_cluster;
  sector_in_cluster = fi.sector_in_cluster;
  total_written = 0;
  current_offset = fi.last_offset;
}

abbrev pub resumes : FileInfo → ℕ → Bool
resumes fi offset = offset == fi.last_offset && ltb 0 fi.last_offset && not (fi.write_cluster == 0)

-- What the descriptor keeps of a write that ended at p.
abbrev pub after_write : FileInfo → ℕ → Position → FileInfo
after_write fi offset p = record fi {
  write_cluster = p.cluster;
  sector_in_cluster = p.sector_in_cluster;
  last_offset = p.current_offset;
  file_size =
      if ltb fi.file_size (offset + p.total_written)
      then u32 (offset + p.total_written)
      else fi.file_size;
}

module _ {R : Type 0} (g : Card R) where
  -- The sector of the directory entry.
  abbrev pub entry_sector : FileInfo → ℕ
  entry_sector fi = add_int32 g.partition_start fi.dir_sector

module _ {R : Type 0} (g : Card R) (chain : ℕ → ℕ) (count : ℕ) where
  -- The entry's sector is one of the data area outside the file, and its copy has 512 bytes.
  pub record EntryApart (fi : FileInfo) : Type 0 where
    pub data_area : first_data_sector g ≤ entry_sector g fi
    pub apart : ¬ (Inside g chain count (entry_sector g fi))
    pub length_buf : length fi.dir_sector_buf ≡ 512

module _ {R : Type 0} (P : Card R → Type 0) (fat : Card R → ℕ → ℕ) (sector : Card R → ℕ → List ℕ)
    (g : Card R) where
  -- Between the two cards the bytes of the file are the same, and the table; the entry's sector may
  -- differ.
  pub record EntryWritten (fi : FileInfo) (c c' : Card R) : Type 0 where
    pub ok : P c'
    pub table : (k : ℕ) → fat c' k ≡ fat c k
    pub others :
        (m : ℕ) → (sector c' m ≡ sector c m) ⊎ ((m ≡ entry_sector g fi) × (has_entry fi ≡ true))

module _ {R : Type 0} ⦃lib : Library R⦄ (P : Card R → Type 0) (fat : Card R → ℕ → ℕ)
    (sector : Card R → ℕ → List ℕ) (g : Card R) (disk : Disk lib P fat sector g) (chain : ℕ → ℕ)
    (count : ℕ) (area : InArea g chain count) where
  walk_lem :
      (n i len : ℕ) (c : Card R)
      → i + n < count
      → Linked (fat c) chain count
      → P c
      → (c' : Card R) × (walk_chain n (chain i) len c ≡ some ((chain (i + n), len + n), c'))
        × Kept P fat sector c c'
  unfolding walk_chain
  walk_lem zero i len c h linked ok =
      let z : i + 0 ≡ i = omega arith in
      let y : len + 0 ≡ len = omega arith in rw (z, y) (c, refl, Kept-refl c ok)
  walk_lem (suc n) i len c h linked ok =
      let (e, k) = disk.chained_cluster (chain i) c ok in
      let c1 = (lib.chained_cluster (chain i) c).1 in
      let e' = e ∙ linked i (omega (arith, h)) in
      let live = area.live (suc i) (omega (arith, h)) in
      let low = area.low (suc i) (omega (arith, h)) in
      let z : i + suc n ≡ suc i + n = omega arith in
      let y : len + suc n ≡ len + 1 + n = omega arith in
      let w : no_cluster (chain (suc i)) ≡ false = ground (arith, live, low) in
      let linked1 : Linked (fat c1) chain count = λ j l. k.table (chain j) ∙ linked j l in
      let (c2, e2, k2) = walk_lem n (suc i) (len + 1) c1 (omega (arith, h)) linked1 k.ok in
      rw (◌>>=◌, e', w, z, y) (c2, e2, Kept-trans k k2)

  -- Where a write starts.
  pub locate_lem :
      (fi : FileInfo) (offset : ℕ) (c : Card R)
      → fi.first_cluster ≡ chain 0
      → offset < count * cluster_size g
      → (resumes fi offset ≡ false) ⊎ ((i : ℕ) × Stands g chain count (kept_position fi) i)
      → Linked (fat c) chain count
      → P c
      → (p : Position) × (i : ℕ) × (c' : Card R) × (locate fi offset c ≡ some (p, c'))
        × (p.current_offset ≡ offset)
        × (p.total_written ≡ 0)
        × Stands g chain count p i
        × Kept P fat sector c c'
  unfolding locate
  locate_lem fi offset c first inside starts linked ok = elim (Bool-cases (resumes fi offset)) [
    | inl w ↦ elim starts [
      | inl w' ↦ absurd (ground (arith, w, w'))
      | inr (i, there) ↦
          let e : offset ≡ fi.last_offset = ground (arith, w) in
          rw w (
            record (kept_position fi) { current_offset = offset },
            i,
            c,
            refl,
            refl,
            refl,
            record {
              cluster = there.cluster;
              index = there.index;
              sector_in_cluster = there.sector_in_cluster;
              offset = ap (λ (k : ℕ). k / 512) e ∙ there.offset;
            },
            Kept-refl c ok,
          )
    ]
    | inr w ↦
        let t = offset / cluster_size g in
        let size : cluster_size c ≡ cluster_size g =
          ap (λ (k : ℕ). k * 512) (disk.geometry c ok).sectors_per_cluster in
        let (hs, off, _) = place_back offset g.sectors_per_cluster disk.some_sectors in
        let (c1, e, k) =
          walk_lem t 0 0 c (omega (arith, index_lem g count disk.some_sectors offset inside)) linked
            ok in
        let some_size : 0 < cluster_size c = omega (arith, size, disk.some_sectors) in
        let d = divide_lem offset (cluster_size c) c some_size in
        let inside_chain = index_lem g count disk.some_sectors offset inside in
        let quot : u32 (offset / cluster_size c) ≡ t =
          ap (λ (k : ℕ). u32 (offset / k)) size
          ∙ u32_small t (omega (arith, inside_chain, count_lem g chain count area)) in
        let rem : offset % cluster_size c / 512 ≡ offset % cluster_size g / 512 =
          ap (λ (k : ℕ). offset % k / 512) size in
        let z : 0 + t ≡ t = omega arith in
        let found : walk_chain (u32 (offset / cluster_size c)) fi.first_cluster 0 c
            ≡ some ((chain t, t), c1) =
          ap (λ (k : ℕ). walk_chain k fi.first_cluster 0 c) quot
          ∙ ap (λ (k : ℕ). walk_chain t k 0 c) first
          ∙ rw z at e in
        let y : ltb t (u32 (offset / cluster_size c)) ≡ false = ground (arith, quot) in
        let p : Position = record {
          cluster = chain t;
          sector_in_cluster = offset % cluster_size g / 512;
          total_written = 0;
          current_offset = offset;
        } in
        (
          p,
          t,
          c1,
          rw (w, ◌>>=◌, d, found, y, rem) refl,
          refl,
          refl,
          record {
            cluster = refl;
            index = index_lem g count disk.some_sectors offset inside;
            sector_in_cluster = omega (arith, hs);
            offset = off;
          },
          k,
        )
  ]

  entry_written :
      (fi : FileInfo) (c : Card R)
      → EntryApart g chain count fi
      → has_entry fi ≡ true
      → P c
      → EntryWritten P fat sector g fi c
          (lib.write_sector (entry_sector g fi) fi.dir_sector_buf c).1
  entry_written fi c apart here ok =
      let (e, wrote) =
        disk.write_sector (entry_sector g fi) fi.dir_sector_buf c apart.data_area apart.length_buf
          ok in
      record {
        ok = wrote.ok;
        table = wrote.table;
        others = λ m. elim (Bool-cases (m == entry_sector g fi)) [
          | inl w ↦ inr (ground (arith, w), here)
          | inr w ↦ inl (rw (wrote.sectors m, w) refl)
        ];
      }

  pub record_write_lem :
      (fi : FileInfo) (offset : ℕ) (p : Position) (c : Card R)
      → (has_entry fi ≡ true → EntryApart g chain count fi)
      → P c
      → (b : List ℕ) × (c' : Card R) × (record_write fi offset p c
          ≡ some
              ((pos p.total_written, record (after_write fi offset p) { dir_sector_buf = b }), c'))
        × EntryWritten P fat sector g fi c c'
  unfolding record_write set_entry_file_size
  record_write_lem fi offset p c apart ok = elim (Bool-cases (has_entry fi)) [
    | inl w ↦
        let a = apart w in
        let fi' : FileInfo =
          set_entry_file_size (after_write fi offset p) (after_write fi offset p).file_size in
        let l : length fi'.dir_sector_buf ≡ 512 =
          length-pack32 fi.dir_sector_buf (to_nat fi.dir_sector_offset + 0x1c) fi'.file_size
          ∙ a.length_buf in
        let start = (disk.geometry c ok).partition_start in
        let k =
          entry_written fi' c (record { data_area = a.data_area; apart = a.apart; length_buf = l })
            w ok in
        (
          fi'.dir_sector_buf,
          (lib.write_sector (entry_sector g fi) fi'.dir_sector_buf c).1,
          rw (w, w, start) refl,
          record { ok = k.ok; table = k.table; others = k.others },
        )
    | inr w ↦ (
      fi.dir_sector_buf,
      c,
      rw (w, w) refl,
      record { ok = ok; table = λ k. refl; others = λ m. inl refl },
    )
  ]
