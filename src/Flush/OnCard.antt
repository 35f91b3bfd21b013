-- ===== src/Flush/OnCard.antt =====
-- flush_write_buffer of src/m65ftp_lib.c: what its parts leave on the card, and the whole.
use mega65fs.Base.{
  ℕ, ◌+◌, ◌-◌, ◌*◌, ◌^◌, ◌<◌, ◌≡◌, refl, ap, ◌∙◌, true, inl, inr, some, List, ◌&&◌, arith, ◌==◌,
  leb, ltb, if◌then◌else◌, Bool-cases, length,
}
use mega65fs.Card.{Card, Library}
use mega65fs.Card.Laws.{KeepsGeometry}
use mega65fs.Store.{FileInfo}
use mega65fs.Chain.{first_data_sector}
use mega65fs.Chain.Disk.{Disk}
use mega65fs.Entry.{set_entry_first_cluster, set_entry_file_size}
use mega65fs.Entry.Fields.{HasEntry, entry_cluster-set, entry_size-set}
use mega65fs.Flush.{has_entry, chain_block, flush_clusters, flush_entry}
use mega65fs.Flush.Sectors.{file_sectors, sector_count, write_all, flush_clusters-write_all}
use mega65fs.Flush.Block.{Allocator, IsFree, chained, chain_block_lem}
use mega65fs.Flush.Stored.{write_all_lem, stored}
use mega65fs.Write.Stored.{entry_sector}
use mega65fs.Flush.Flushed.{clusters_of, EntryInUse, with_entry, flushed, sectors_in_clusters}

module _ {R : Type 0} ⦃lib : Library R⦄ (P : Card R → Type 0) (fat : Card R → ℕ → ℕ)
    (sector : Card R → ℕ → List ℕ) (g : Card R) (disk : Disk lib P fat sector g)
    (alloc : Allocator lib P fat sector g) (keeps : KeepsGeometry lib) (fi : FileInfo) where
  abbrev pub first_of : ℕ → ℕ
  first_of start = first_data_sector g + (start - 2) * g.sectors_per_cluster

  abbrev pub count : ℕ
  count = clusters_of g fi.file_size

  same_first : (c : Card R) → P c → first_data_sector c ≡ first_data_sector g
  same_first c ok =
      let same = disk.geometry c ok in
      rw (same.partition_start, same.reserved_sectors, same.sectors_per_fat) refl

  -- The sectors of the file are written, and nothing else.
  pub data_lem :
      (table : ℕ → ℕ) (start : ℕ) (c : Card R)
      → fi.file_size < 2 ^ 32
      → IsFree g table start count
      → P c
      → (c' : Card R) × (flush_clusters fi start (fi.file_size + 1) start fi.file_size c
          ≡ some (true, c'))
        × P c'
        × ((k : ℕ) → fat c' k ≡ fat c k)
        × ((m : ℕ)
            → sector c' m ≡ (
                if leb (first_of start) m && ltb m (first_of start + sector_count fi.file_size)
                then stored P fat sector g disk fi (first_of start) fi.file_size m
                else sector c m))
  data_lem table start c small free ok =
      let same = disk.geometry c ok in
      let fits = sectors_in_clusters fi.file_size g.sectors_per_cluster disk.some_sectors in
      let (c', e, ok', t, s) =
        write_all_lem P fat sector g disk fi (first_of start) fi.file_size
          (sector_count fi.file_size) 0 c (omega arith) (omega (arith, fits, free.high)) ok in
      (
        c',
        flush_clusters-write_all fi c start keeps (rw same.sectors_per_cluster disk.some_sectors)
              free.low (omega (arith, free.live, small))
            ∙ ap (λ f. write_all (file_sectors fi f fi.file_size (sector_count fi.file_size) 0) c)
                (rw (same_first c ok, same.sectors_per_cluster) refl)
            ∙ e,
        ok',
        t,
        (λ m. ground (arith, s m)),
      )

  within :
      (start : ℕ)
      → length (set_entry_first_cluster fi start).dir_sector_buf ≡ length fi.dir_sector_buf
      → HasEntry fi
      → HasEntry (set_entry_first_cluster fi start)
  unfolding set_entry_first_cluster
  within start l h = omega (arith, l, h)

  length-with_entry :
      (table : ℕ → ℕ) (start : ℕ)
      → EntryInUse g table fi
      → start < 2 ^ 32
      → fi.file_size < 2 ^ 32
      → length (with_entry fi start).dir_sector_buf ≡ 512
  length-with_entry table start used low small =
      let (_, l) = entry_cluster-set fi start low used.within in
      let (_, l') =
        entry_size-set (set_entry_first_cluster fi start) fi.file_size small
          (within start l used.within) in
      l' ∙ l ∙ used.length_buf

  flush_entry_eq :
      (start : ℕ) (c : Card R)
      → has_entry fi ≡ true
      → P c
      → flush_entry fi start c
        ≡ some (
          (true, flushed fi start),
          (lib.write_sector (entry_sector g fi) (with_entry fi start).dir_sector_buf c).1,
        )
  unfolding flush_entry set_entry_first_cluster set_entry_file_size
  flush_entry_eq start c w ok = rw (w, (disk.geometry c ok).partition_start) refl

  -- The entry is written.
  pub entry_lem :
      (table : ℕ → ℕ) (start : ℕ) (c : Card R)
      → (has_entry fi ≡ true → EntryInUse g table fi)
      → start < 2 ^ 32
      → fi.file_size < 2 ^ 32
      → P c
      → (c' : Card R) × (flush_entry fi start c ≡ some ((true, flushed fi start), c'))
        × P c'
        × ((k : ℕ) → fat c' k ≡ fat c k)
        × ((m : ℕ)
            → sector c' m ≡ (
                if has_entry fi && m == entry_sector g fi
                then (with_entry fi start).dir_sector_buf
                else sector c m))
  unfolding flush_entry
  entry_lem table start c used low small ok = elim (Bool-cases (has_entry fi)) [
    | inr w ↦ rw w (c, refl, ok, (λ k. refl), (λ m. refl))
    | inl w ↦
        let u = used w in
        let m = entry_sector g fi in
        let b = (with_entry fi start).dir_sector_buf in
        let (_, wrote) =
          disk.write_sector m b c u.data_area (length-with_entry table start u low small) ok in
        (
          (lib.write_sector m b c).1,
          flush_entry_eq start c w ok,
          wrote.ok,
          wrote.table,
          (λ n. rw w (wrote.sectors n)),
        )
  ]

  -- The block is allocated and chained.
  pub block_lem :
      (start : ℕ) (c : Card R)
      → 0 < count
      → IsFree g (fat c) start count
      → P c
      → (c' : Card R) × (chain_block (count - 1) start 1 (lib.allocate_cluster start c).1
          ≡ some (tt, c'))
        × P c'
        × ((k : ℕ) → fat c' k ≡ chained (fat c) start (count - 1) k)
        × ((m : ℕ) → sector c' m ≡ sector c m)
  block_lem start c some_clusters free ok =
      let l =
        alloc.allocate_cluster start c free.low
          (free.free start (omega arith) (omega (arith, some_clusters))) ok in
      let c1 = (lib.allocate_cluster start c).1 in
      let z : start + 0 ≡ start = omega arith in
      let (c', e, ok', t, s) =
        chain_block_lem P fat sector g alloc (count - 1) start 0 c1 free.low
          (omega (arith, free.live, some_clusters)) (rw z (ground (arith, l.table start)))
          (λ k lo hi. ground (arith, l.table k, free.free k)) l.ok in
      (c', e, ok', (λ k. ground (arith, t k, l.table k)), (λ m. s m ∙ l.sectors m))
