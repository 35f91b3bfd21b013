-- ===== src/Flush/Returns.antt =====
-- The termination of flush_write_buffer of src/m65ftp_lib.c.
use mega65fs.Base.{
  Prog, List, [], ◌∷◌, true, divide_lem, ℕ, zero, suc, ◌+◌, ◌-◌, ◌≤◌, ◌<◌, ◌≡◌, refl, ◌∙◌, inl, inr,
  some, arith, ◌==◌, Bool-cases, ◌*◌, ◌/◌, ◌^◌, ◌>>=◌, Returns, u32, no_cluster,
}
use mega65fs.Card.{Card, Library}
use mega65fs.Card.Laws.{
  SameGeometry, SameGeometry-refl, SameGeometry-trans, KeepsGeometry, FindsData, some_kept,
}
use mega65fs.Store.{FileInfo}
use mega65fs.Chain.{first_data_sector, cluster_size}
use mega65fs.Flush.{
  has_entry, chain_block, flush_clusters, flush_empty, flush_entry, flush_write_buffer,
}
use mega65fs.Flush.Sectors.{file_sectors, sector_count, write_all, flush_clusters-write_all}

-- The program returns, with the geometry of the card as it was.
abbrev pub Keeps : {R A : Type 0} → Prog (Card R) A → Card R → Type 0
Keeps {R} {A} m c = (a : A) × (c' : Card R) × (m c ≡ some (a, c')) × SameGeometry c c'

module _ {R : Type 0} ⦃lib : Library R⦄ where
  pub chain_block-returns :
      (keeps : KeepsGeometry lib) (n start i : ℕ) (c : Card R)
      → (c' : Card R) × (chain_block n start i c ≡ some (tt, c')) × SameGeometry c c'
  unfolding chain_block
  chain_block-returns keeps zero start i c = (c, refl, SameGeometry-refl c)
  chain_block-returns keeps (suc n) start i c =
      let c1 = (lib.allocate_cluster (start + i) c).1 in
      let c2 = (lib.chain_cluster (start + i - 1) (start + i) c1).1 in
      let (c', e, g) = chain_block-returns keeps n start (i + 1) c2 in
      (
        c',
        e,
        SameGeometry-trans (keeps.allocate_cluster (start + i) c)
            (SameGeometry-trans (keeps.chain_cluster (start + i - 1) (start + i) c1) g),
      )

  write_all-Keeps :
      (keeps : KeepsGeometry lib) (ws : List (ℕ × List ℕ)) (c : Card R) → Keeps (write_all ws) c
  unfolding write_all
  write_all-Keeps keeps [] c = (true, c, refl, SameGeometry-refl c)
  write_all-Keeps keeps ((n, b) ∷ ws) c = elim (Bool-cases (lib.write_sector n b c).0) [
    | inl w ↦
        let (r, c', e, g) = write_all-Keeps keeps ws (lib.write_sector n b c).1 in
        rw w (r, c', e, SameGeometry-trans (keeps.write_sector n b c) g)
    | inr w ↦ rw w (_, _, refl, keeps.write_sector n b c)
  ]

  flush_empty-Keeps : KeepsGeometry lib → (fi : FileInfo) (c : Card R) → Keeps (flush_empty fi) c
  unfolding flush_empty
  flush_empty-Keeps keeps fi c = elim (Bool-cases (has_entry fi)) [
    | inl w ↦ rw w (_, _, refl, keeps.write_sector _ _ c)
    | inr w ↦ rw w (_, _, refl, SameGeometry-refl c)
  ]

  flush_entry-Keeps :
      KeepsGeometry lib → (fi : FileInfo) (start : ℕ) (c : Card R) → Keeps (flush_entry fi start) c
  unfolding flush_entry
  flush_entry-Keeps keeps fi start c = elim (Bool-cases (has_entry fi)) [
    | inl w ↦ rw w (_, _, refl, keeps.write_sector _ _ c)
    | inr w ↦ rw w (_, _, refl, SameGeometry-refl c)
  ]

  flush_clusters-Keeps :
      (fi : FileInfo) (c : Card R) (start : ℕ)
      → KeepsGeometry lib
      → 0 < c.sectors_per_cluster
      → 2 ≤ start
      → start + sector_count fi.file_size < 2 ^ 32
      → Keeps (flush_clusters fi start (fi.file_size + 1) start fi.file_size) c
  flush_clusters-Keeps fi c start keeps spc two small =
      let (b, c', e, g) =
        write_all-Keeps keeps
          (file_sectors fi (first_data_sector c + (start - 2) * c.sectors_per_cluster) fi.file_size
            (sector_count fi.file_size) 0)
          c in
      (b, c', flush_clusters-write_all fi c start keeps spc two small ∙ e, g)

  pub flush_write_buffer-Keeps :
      (fi : FileInfo) (c : Card R)
      → KeepsGeometry lib
      → FindsData lib
      → 0 < c.sectors_per_cluster
      → fi.file_size < 2 ^ 32
      → Keeps (flush_write_buffer fi) c
  unfolding flush_write_buffer
  flush_write_buffer-Keeps fi c keeps finds spc small = elim (Bool-cases (fi.file_size == 0)) [
    | inl w ↦ rw w (flush_empty-Keeps keeps fi c)
    | inr w ↦
        let size = fi.file_size in
        let needed = u32 (size + cluster_size c - 1) / cluster_size c in
        let d =
          divide_lem (u32 (size + cluster_size c - 1)) (cluster_size c) c (omega (arith, spc)) in
        let start = (lib.find_contiguous_clusters needed c).0 in
        let c1 = (lib.find_contiguous_clusters needed c).1 in
        let c2 = (lib.allocate_cluster start c1).1 in
        elim (Bool-cases (no_cluster start)) [
          | inl z ↦ rw (w, ◌>>=◌, d, z) (_, _, refl, keeps.find_contiguous_clusters needed c)
          | inr z ↦
              let (c3, e, g) = chain_block-returns keeps (needed - 1) start 1 c2 in
              let same =
                SameGeometry-trans (keeps.find_contiguous_clusters needed c)
                  (SameGeometry-trans (keeps.allocate_cluster start c1) g) in
              let two : 2 ≤ start = ground (arith, finds.finds needed c, z) in
              let low : start < 0xffffff8 = ground (arith, z) in
              let (b, c4, e', g') =
                flush_clusters-Keeps fi c3 start keeps (some_kept same spc) two (omega arith) in
              elim (Bool-cases b) [
                | inr f ↦ rw (w, ◌>>=◌, d, z, e, e', f) (_, _, refl, SameGeometry-trans same g')
                | inl t ↦
                    let (r, c5, e'', g'') = flush_entry-Keeps keeps fi start c4 in
                    rw (w, ◌>>=◌, d, z, e, e', t)
                      (r, c5, e'', SameGeometry-trans same (SameGeometry-trans g' g''))
              ]
        ]
  ]

  -- Writing out a buffer of a file below 4 GB comes to an end, on a card that keeps its geometry,
  -- has sectors in its clusters, and finds its free clusters in the data area.
  pub flush_write_buffer-Returns :
      (fi : FileInfo) (c : Card R)
      → KeepsGeometry lib
      → FindsData lib
      → 0 < c.sectors_per_cluster
      → fi.file_size < 2 ^ 32
      → Returns (flush_write_buffer fi) c
  flush_write_buffer-Returns fi c keeps finds spc small =
      let (r, c', e, g) = flush_write_buffer-Keeps fi c keeps finds spc small in (r, c', e)
