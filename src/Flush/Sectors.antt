-- ===== src/Flush/Sectors.antt =====
-- The data loops of flush_write_buffer of src/m65ftp_lib.c against a plain list of sectors.
use mega65fs.Base.{
  ℕ, zero, suc, ◌+◌, ◌-◌, ◌*◌, ◌/◌, ◌≤◌, ◌<◌, ◌≡◌, refl, sym, Bool, true, false, inl, inr, none,
  some, List, [], ◌∷◌, arith, ◌==◌, if◌then◌else◌, Bool-cases, Prog, pure, ◌>>=◌, call, u32, sub32,
  ◌^◌, ◌≢◌, ap, ◌∙◌,
}
use mega65fs.Card.{Card, Library}
use mega65fs.Card.Laws.{SameGeometry-refl, SameGeometry-trans, SameGeometry, KeepsGeometry}
use mega65fs.Store.{FileInfo}
use mega65fs.Chain.{first_data_sector, sector_number, cluster_size}
use mega65fs.Flush.{at_most, sector_bytes, flush_cluster, flush_clusters}

-- Sectors k to k + n - 1 of the file, for the sector numbers from `first` on.
unfoldable pub file_sectors : FileInfo → ℕ → ℕ → ℕ → ℕ → List (ℕ × List ℕ)
file_sectors fi first size zero k = []
file_sectors fi first size (suc n) k =
    (
      u32 (first + k),
      sector_bytes fi.write_buf fi.write_buf_cap (k * 512) (at_most 512 (size - k * 512)),
    )
    ∷ file_sectors fi first size n (k + 1)

-- How many sectors a size takes.
abbrev pub sector_count : ℕ → ℕ
sector_count size = (size + 511) / 512

module _ {R : Type 0} ⦃lib : Library R⦄ where
  -- The writes in order, up to the first that fails.
  unfoldable pub write_all : List (ℕ × List ℕ) → Prog (Card R) Bool
  write_all [] = pure true
  write_all ((n, b) ∷ rest) = do
    written ← call (lib.write_sector n b)
    if written then write_all rest else pure false

  module _ (fi : FileInfo) (start cluster n sec remaining : ℕ) (c : Card R) where
    flush_cluster_done :
        (remaining == 0) ≡ true
        → flush_cluster fi start cluster (suc n) sec remaining c ≡ some (some remaining, c)
    unfolding flush_cluster
    flush_cluster_done e = rw e

    flush_cluster_step :
        (m : ℕ) (b : List ℕ)
        → (remaining == 0) ≡ false
        → sector_number c cluster sec ≡ m
        → sector_bytes fi.write_buf fi.write_buf_cap
            ((cluster - start) * cluster_size c + sec * 512)
            (at_most 512 remaining)
          ≡ b
        → flush_cluster fi start cluster (suc n) sec remaining c ≡ (
            if (lib.write_sector m b c).0
            then flush_cluster fi start cluster n
                (sec + 1)
                (remaining - at_most 512 remaining)
                (lib.write_sector m b c).1
            else some (none, (lib.write_sector m b c).1))
    unfolding flush_cluster
    flush_cluster_step m b e em eb = elim (Bool-cases (lib.write_sector m b c).0) [
      | inl w ↦ rw (e, em, eb, w)
      | inr w ↦ rw (e, em, eb, w)
    ]

  flush_cluster_end :
      (fi : FileInfo) (start cluster sec remaining : ℕ) (c : Card R)
      → flush_cluster fi start cluster zero sec remaining c ≡ some (some remaining, c)
  unfolding flush_cluster
  flush_cluster_end fi start cluster sec remaining c = refl

  write_all_step :
      (m : ℕ) (b : List ℕ) (rest : List (ℕ × List ℕ)) (c : Card R)
      → write_all ((m, b) ∷ rest) c ≡ (
          if (lib.write_sector m b c).0
          then write_all rest (lib.write_sector m b c).1
          else some (false, (lib.write_sector m b c).1))
  unfolding write_all
  write_all_step m b rest c = elim (Bool-cases (lib.write_sector m b c).0) [
    | inl w ↦ rw w
    | inr w ↦ rw w
  ]

  module _ (keeps : KeepsGeometry lib) (fi : FileInfo) (g : Card R) (t size : ℕ)
      (some_sectors : 0 < g.sectors_per_cluster) (small : t + 2 + sector_count size < 2 ^ 32) where
    abbrev first : ℕ
    first = first_data_sector g + t * g.sectors_per_cluster

    -- The sectors from k on that `remaining` bytes take.
    abbrev rest_of : ℕ → ℕ → List (ℕ × List ℕ)
    rest_of remaining k = file_sectors fi first size (sector_count remaining) k

    -- `remaining` bytes of the file lie behind its first k sectors.
    abbrev At : ℕ → ℕ → Type 0
    At remaining k = remaining ≢ 0 → remaining + k * 512 ≡ size

    same_sector :
        (c : Card R) (j sec k remaining : ℕ)
        → SameGeometry g c
        → remaining ≢ 0
        → At remaining k
        → k ≡ j * g.sectors_per_cluster + sec
        → sector_number c (t + 2 + j) sec ≡ u32 (first + k)
    same_sector c j sec k remaining same ne rest at =
        let le : j ≤ k = grind arith in
        let lt : t + 2 + j < 2 ^ 32 = omega (arith, rest ne) in
        let e : sub32 (t + 2 + j) 2 ≡ t + j = omega arith in
        let f : first_data_sector c ≡ first_data_sector g = ground (arith, same) in
        rw (same.sectors_per_cluster, f, e)
          (ap u32 (
            let q : first_data_sector g + (t + j) * g.sectors_per_cluster + sec ≡ first + k =
              omega (arith, at) in
            q))

    nothing_left : (remaining k : ℕ) → remaining ≡ 0 → rest_of remaining k ≡ []
    unfolding file_sectors
    nothing_left remaining k z = rw z

    one_more :
        (remaining k : ℕ)
        → remaining ≢ 0
        → At remaining k
        → rest_of remaining k
          ≡ (
            u32 (first + k),
            sector_bytes fi.write_buf fi.write_buf_cap (k * 512) (at_most 512 remaining),
          )
            ∷ rest_of (remaining - at_most 512 remaining) (k + 1)
    unfolding file_sectors
    one_more remaining k ne rest =
        let e : at_most 512 (size - k * 512) ≡ at_most 512 remaining = ground (arith, rest ne) in
        let f : sector_count remaining ≡ suc (sector_count (remaining - at_most 512 remaining)) =
          ground arith in
        rw (f, e)

    same_offset :
        (c : Card R) (j sec k : ℕ)
        → SameGeometry g c
        → k ≡ j * g.sectors_per_cluster + sec
        → (t + 2 + j - (t + 2)) * cluster_size c + sec * 512 ≡ k * 512
    same_offset c j sec k same at =
        let e : t + 2 + j - (t + 2) ≡ j = omega arith in
        rw (e, same.sectors_per_cluster, at) (omega arith)

    -- The rest of a cluster and the clusters behind it.
    flush_cluster_all :
        (fuel j n sec k remaining : ℕ) (c : Card R)
        → ((remaining : ℕ) (c : Card R)
            → SameGeometry g c
            → remaining < fuel
            → At remaining ((j + 1) * g.sectors_per_cluster)
            → flush_clusters fi (t + 2) fuel (t + 2 + j + 1) remaining c
              ≡ write_all (rest_of remaining ((j + 1) * g.sectors_per_cluster)) c)
        → SameGeometry g c
        → 0 < fuel
        → remaining ≤ fuel
        → (n ≡ 0 → remaining < fuel)
        → n + sec ≡ g.sectors_per_cluster
        → k ≡ j * g.sectors_per_cluster + sec
        → At remaining k
        → (flush_cluster fi (t + 2) (t + 2 + j) n sec remaining >>= λ left. elim left [
          | none ↦ pure false
          | some remaining' ↦ flush_clusters fi (t + 2) fuel (t + 2 + j + 1) remaining'
        ])
            c
          ≡ write_all (rest_of remaining k) c
    flush_cluster_all fuel j zero sec k remaining c ih same pos_fuel le lt total at rest =
        let e : k ≡ (j + 1) * g.sectors_per_cluster = omega arith in
        rw (flush_cluster_end fi (t + 2) (t + 2 + j) sec remaining c, ◌>>=◌)
          (rw e (ih remaining c same (lt refl) (rw e at rest)))
    flush_cluster_all fuel j (suc n) sec k remaining c ih same pos_fuel le lt total at rest =
        elim (Bool-cases (remaining == 0)) [
          | inl done ↦
              rw (flush_cluster_done fi (t + 2) (t + 2 + j) n sec remaining c done, ◌>>=◌)
                (let z : remaining ≡ 0 = ground arith in
                  ih remaining c same (omega arith) (λ ne. absurd (ne z))
                  ∙ ap (λ xs. write_all xs c)
                      (nothing_left remaining ((j + 1) * g.sectors_per_cluster) z
                        ∙ sym (nothing_left remaining k z)))
          | inr more ↦
              let ne : remaining ≢ 0 = ground arith in
              let b =
                sector_bytes fi.write_buf fi.write_buf_cap (k * 512) (at_most 512 remaining) in
              let left = remaining - at_most 512 remaining in
              let c' = (lib.write_sector (u32 (first + k)) b c).1 in
              rw
                (
                  flush_cluster_step fi (t + 2) (t + 2 + j) n sec remaining c (u32 (first + k)) b
                      more (same_sector c j sec k remaining same ne rest at)
                      (ap
                        (λ o. sector_bytes fi.write_buf fi.write_buf_cap o (at_most 512 remaining))
                        (same_offset c j sec k same at)),
                  ◌>>=◌,
                  one_more remaining k ne rest,
                  write_all_step (u32 (first + k)) b (rest_of left (k + 1)) c,
                )
                (elim (Bool-cases (lib.write_sector (u32 (first + k)) b c).0) [
                  | inr bad ↦ rw bad
                  | inl good ↦ rw good (
                      flush_cluster_all fuel j n (sec + 1) (k + 1) left c' ih
                        (SameGeometry-trans same (keeps.write_sector (u32 (first + k)) b c))
                        pos_fuel (omega arith) (λ z. ground arith) (omega arith) (omega arith)
                        (λ ne'. ground (arith, rest ne)))
                ])
        ]

    flush_clusters_all :
        (fuel j remaining : ℕ) (c : Card R)
        → SameGeometry g c
        → remaining < fuel
        → At remaining (j * g.sectors_per_cluster)
        → flush_clusters fi (t + 2) fuel (t + 2 + j) remaining c
          ≡ write_all (rest_of remaining (j * g.sectors_per_cluster)) c
    unfolding flush_clusters write_all
    flush_clusters_all zero j remaining c same lt rest = absurd (omega arith)
    flush_clusters_all (suc fuel) j remaining c same lt rest = elim (Bool-cases (remaining == 0)) [
      | inl done ↦ rw (done, nothing_left remaining (j * g.sectors_per_cluster) (ground arith))
      | inr more ↦ rw more (
          flush_cluster_all fuel j c.sectors_per_cluster 0 (j * g.sectors_per_cluster) remaining c
            (λ r c' s l a.
              let e : t + 2 + j + 1 ≡ t + 2 + (j + 1) = omega arith in
              rw e (flush_clusters_all fuel (j + 1) r c' s l a))
            same (ground arith) (omega arith) (λ z. absurd (omega arith)) (omega arith)
            (omega arith) rest)
    ]

  -- On a card that keeps its geometry and has sectors in its clusters, for a block that starts at
  -- cluster 2 or later and whose cluster numbers stay below 2^32: the nested loops over clusters
  -- and sectors do what one loop does that writes the sectors of the file in order, at consecutive
  -- sector numbers from that of the block on, up to the first write that fails.
  pub flush_clusters-write_all :
      (fi : FileInfo) (c : Card R) (start : ℕ)
      → KeepsGeometry lib
      → 0 < c.sectors_per_cluster
      → 2 ≤ start
      → start + sector_count fi.file_size < 2 ^ 32
      → flush_clusters fi start (fi.file_size + 1) start fi.file_size c
        ≡ write_all
            (file_sectors fi
              (first_data_sector c + (start - 2) * c.sectors_per_cluster)
              fi.file_size
              (sector_count fi.file_size)
              0)
            c
  flush_clusters-write_all fi c start keeps spc two small =
      let e : start - 2 + 2 ≡ start = omega arith in
      let z : start - 2 + 2 + 0 ≡ start = omega arith in
      let main =
        flush_clusters_all keeps fi c (start - 2) fi.file_size spc (omega arith) (fi.file_size + 1)
          0 fi.file_size c (SameGeometry-refl c) (omega arith) (λ ne. omega arith) in
      let m : 0 * c.sectors_per_cluster ≡ 0 = omega arith in cc (main, e, z, m)
