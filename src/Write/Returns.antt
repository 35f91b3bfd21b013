-- ===== src/Write/Returns.antt =====
-- The termination and the answers of the direct branch of m65ftp_pwrite of src/m65ftp_lib.c.
use mega65fs.Base.{
  no_cluster, divide_lem, ℕ, zero, suc, ◌+◌, ◌-◌, ◌≤◌, ◌<◌, ◌≡◌, refl, Bool, true, false, not, inl,
  inr, ◌⊎◌, Option, none, some, List, [], ◌∷◌, ◌||◌, ◌&&◌, arith, ◌==◌, ltb, if◌then◌else◌, length,
  Bool-cases, take, drop, ◌/◌, ◌%◌, Option-cases, Prog, pure, ◌>>=◌, ◌>>◌, ℤ, pos, minus_one,
  splice, length-drop, add_int32, u32,
}
use mega65fs.Card.{Card, Library}
use mega65fs.Card.Laws.{
  SameGeometry, SameGeometry-refl, SameGeometry-trans, KeepsGeometry, some_kept,
}
use mega65fs.Flush.Returns.{Keeps}
use mega65fs.Store.{FileInfo}
use mega65fs.Chain.{cluster_size, walk_chain, write_entry, sector_number}
use mega65fs.Flush.{at_most, has_entry}
use mega65fs.Write.{
  Position, next_cluster, old_sector, write_step, write_loop, locate, record_write, pwrite_direct,
  set_entry_file_size,
}
use mega65fs.Write.Extended.{Found, next_cluster-Returns}

-- A round that goes on has written something, and no more than is left.
abbrev pub Progress : List ℕ → Position → Bool × Position → Type 0
Progress rest p (goes_on, q) =
    ((goes_on ≡ false) × (q.total_written ≡ p.total_written))
    ⊎ ((goes_on ≡ true)
        × (p.total_written < q.total_written)
        × (q.total_written ≤ p.total_written + length rest))

-- The loop fails, or ends with no more written than was left.
abbrev pub Finished : List ℕ → Position → Option Position → Type 0
Finished rest p none = Unit {0}
Finished rest p (some q) = q.total_written ≤ p.total_written + length rest

Finished-widen :
    (rest rest' : List ℕ) (p p' : Position) (r : Option Position)
    → p.total_written + length rest ≤ p'.total_written + length rest'
    → Finished rest p r
    → Finished rest' p' r
Finished-widen rest rest' p p' none h f = tt
Finished-widen rest rest' p p' (some q) h f = omega (arith, f)

-- What a write answers: -1, or how many of its n bytes it has written.
abbrev pub IsCount : ℕ → ℤ → Type 0
IsCount n r = (r ≡ minus_one) ⊎ ((k : ℕ) × (r ≡ pos k) × (k ≤ n))

module _ {R : Type 0} ⦃lib : Library R⦄ where
  old_sector-Returns :
      KeepsGeometry lib → (sector o n : ℕ) (c : Card R) → Keeps (old_sector sector o n) c
  unfolding old_sector
  old_sector-Returns keeps sector o n c = elim (Bool-cases (ltb n 512 || not (o == 0))) [
    | inl w ↦ rw w (_, _, refl, keeps.read_sector sector true c)
    | inr w ↦ rw w (_, _, refl, SameGeometry-refl c)
  ]

  write_step-Returns :
      KeepsGeometry lib
      → (rest : List ℕ) (p : Position) (c : Card R) → 0 < c.sectors_per_cluster
      → 0 < length rest
      → (r : Bool × Position) × (c' : Card R) × (write_step rest p c ≡ some (r, c'))
        × Progress rest p r
        × SameGeometry c c'
  unfolding write_step
  write_step-Returns keeps rest p c spc some_left =
      let (found, c1, e, t, g) = next_cluster-Returns keeps p (length rest) c spc in
      go found c1 e t g
    where
      go :
          (found : Option Position) (c1 : Card R)
          → next_cluster p (length rest) c ≡ some (found, c1)
          → Found p found
          → SameGeometry c c1
          → (r : Bool × Position) × (c' : Card R) × (write_step rest p c ≡ some (r, c'))
            × Progress rest p r
            × SameGeometry c c'
      go none c1 e t g = rw (◌>>=◌, e) (_, _, refl, inl (refl, refl), g)
      go (some q) c1 e t g =
          let sector = sector_number c1 q.cluster q.sector_in_cluster in
          let o = q.current_offset % 512 in
          let n = at_most (512 - o) (length rest) in
          let (old, c2, e', g') = old_sector-Returns keeps sector o n c1 in
          let same = SameGeometry-trans g g' in
          elim (Option-cases old) [
            | inl y ↦ rw (◌>>=◌, e, e', y) (_, _, refl, inl (refl, t), same)
            | inr (bytes, y) ↦
                let new = splice o (take n rest) bytes in
                let all = SameGeometry-trans same (keeps.write_sector sector new c2) in
                elim (Bool-cases (lib.write_sector sector new c2).0) [
                  | inl w ↦
                      rw (◌>>=◌, e, e', y, w)
                        (_, _, refl, inr (refl, ground (arith, t), ground (arith, t)), all)
                  | inr w ↦ rw (◌>>=◌, e, e', y, w) (_, _, refl, inl (refl, t), all)
                ]
          ]

  write_loop-Returns :
      (keeps : KeepsGeometry lib) (fuel : ℕ) (rest : List ℕ) (p : Position) (c : Card R)
      → 0 < c.sectors_per_cluster
      → length rest < fuel
      → (r : Option Position) × (c' : Card R) × (write_loop fuel rest p c ≡ some (r, c'))
        × Finished rest p r
  unfolding write_loop
  write_loop-Returns keeps zero rest p c spc lt = absurd (omega arith)
  write_loop-Returns keeps (suc fuel) [] p c spc lt = (some p, c, refl, omega arith)
  write_loop-Returns keeps (suc fuel) (b ∷ rest) p c spc lt =
      let ((g, q), c1, e, progress, same) =
        write_step-Returns keeps (b ∷ rest) p c spc (omega arith) in
      elim progress [
        | inl (f, t) ↦ elim (Bool-cases (ltb 0 q.total_written)) [
          | inl w ↦ rw (◌>>=◌, e, f, w) (_, _, refl, omega (arith, t))
          | inr w ↦ rw (◌>>=◌, e, f, w) (_, _, refl, tt)
        ]
        | inr (t, up, le) ↦
            let n = q.total_written - p.total_written in
            let left : q.total_written + length (drop n (b ∷ rest))
                ≤ p.total_written + length (b ∷ rest) =
              omega (arith, le, up, length-drop n (b ∷ rest)) in
            let (r, c2, e', done) =
              write_loop-Returns keeps fuel (drop n (b ∷ rest)) q c1 (some_kept same spc)
                (omega (arith, left, up, lt)) in
            rw (◌>>=◌, e, t)
              (r, c2, e', Finished-widen (drop n (b ∷ rest)) (b ∷ rest) q p r left done)
      ]

  walk_chain-Returns :
      (keeps : KeepsGeometry lib) (n cluster k : ℕ) (c : Card R) → Keeps (walk_chain n cluster k) c
  unfolding walk_chain
  walk_chain-Returns keeps zero cluster k c = (_, _, refl, SameGeometry-refl c)
  walk_chain-Returns keeps (suc n) cluster k c =
      let next = lib.chained_cluster cluster c in
      elim (Bool-cases (no_cluster next.0)) [
        | inl w ↦ rw w (_, _, refl, keeps.chained_cluster cluster c)
        | inr w ↦
            let (r, c', e, g) = walk_chain-Returns keeps n next.0 (k + 1) next.1 in
            rw w (r, c', e, SameGeometry-trans (keeps.chained_cluster cluster c) g)
      ]

  -- The first position has nothing written.
  locate-Returns :
      KeepsGeometry lib
      → (fi : FileInfo) (offset : ℕ) (c : Card R) → 0 < c.sectors_per_cluster
      → (p : Position) × (c' : Card R) × (locate fi offset c ≡ some (p, c'))
        × (p.total_written ≡ 0)
        × SameGeometry c c'
  unfolding locate
  locate-Returns keeps fi offset c spc =
      elim (Bool-cases
        (offset == fi.last_offset && ltb 0 fi.last_offset && not (fi.write_cluster == 0))) [
          | inl w ↦ rw w (_, _, refl, refl, SameGeometry-refl c)
          | inr w ↦
              let d = divide_lem offset (cluster_size c) c (omega (arith, spc)) in
              let ((k, n), c1, e, g) =
                walk_chain-Returns keeps (u32 (offset / cluster_size c)) fi.first_cluster 0 c in
              rw (w, ◌>>=◌, d, e) (_, _, refl, refl, g)
        ]

  -- The entry is written where it is known.
  abbrev saved : FileInfo → ℕ → Prog (Card R) (ℤ × FileInfo)
  saved fi k = do if has_entry fi then write_entry fi else pure tt; pure (pos k, fi)

  saved-Returns :
      (fi : FileInfo) (k : ℕ) (c : Card R)
      → (fi' : FileInfo) × (c' : Card R) × (saved fi k c ≡ some ((pos k, fi'), c'))
  saved-Returns fi k c = elim (Bool-cases (has_entry fi)) [
    | inl w ↦ rw w (
      fi,
      (lib.write_sector (add_int32 c.partition_start fi.dir_sector) fi.dir_sector_buf c).1,
      refl,
    )
    | inr w ↦ rw w (fi, c, refl)
  ]

  record_write-Returns :
      (fi : FileInfo) (offset : ℕ) (p : Position) (c : Card R)
      → (fi' : FileInfo) × (c' : Card R) × (record_write fi offset p c
          ≡ some ((pos p.total_written, fi'), c'))
  unfolding record_write
  record_write-Returns fi offset p c =
      let sized : FileInfo = record fi {
        write_cluster = p.cluster;
        sector_in_cluster = p.sector_in_cluster;
        last_offset = p.current_offset;
        file_size =
            if ltb fi.file_size (offset + p.total_written)
            then u32 (offset + p.total_written)
            else fi.file_size;
      } in
      saved-Returns (if has_entry sized then set_entry_file_size sized sized.file_size else sized)
        p.total_written c

  -- On a card that keeps its geometry and has sectors in its clusters, a direct write returns,
  -- whatever the descriptor and the arguments: it answers -1, or how many bytes, at most as many as
  -- it was given, are written.
  pub pwrite_direct-IsCount :
      (fi : FileInfo) (buf : List ℕ) (offset : ℕ) (c : Card R)
      → KeepsGeometry lib
      → 0 < c.sectors_per_cluster
      → (r : ℤ) × (fi' : FileInfo) × (c' : Card R) × (pwrite_direct fi buf offset c
          ≡ some ((r, fi'), c'))
        × IsCount (length buf) r
  unfolding pwrite_direct
  pwrite_direct-IsCount fi [] offset c keeps spc = (_, _, _, refl, inr (0, refl, omega arith))
  pwrite_direct-IsCount fi (b ∷ buf) offset c keeps spc =
      let (p, c1, e, z, g) = locate-Returns keeps fi offset c spc in
      let (o, c2, e', done) =
        write_loop-Returns keeps (length (b ∷ buf) + 1) (b ∷ buf) p c1 (some_kept g spc)
          (omega arith) in
      go p c1 e z o c2 e' done
    where
      go :
          (p : Position) (c1 : Card R)
          → locate fi offset c ≡ some (p, c1)
          → p.total_written ≡ 0
          → (o : Option Position) (c2 : Card R)
          → write_loop (length (b ∷ buf) + 1) (b ∷ buf) p c1 ≡ some (o, c2)
          → Finished (b ∷ buf) p o
          → (r : ℤ) × (fi' : FileInfo) × (c' : Card R) × (pwrite_direct fi (b ∷ buf) offset c
              ≡ some ((r, fi'), c'))
            × IsCount (length (b ∷ buf)) r
      go p c1 e z none c2 e' done = rw (◌>>=◌, e, e') (_, _, _, refl, inl refl)
      go p c1 e z (some q) c2 e' done =
          let (fi', c3, e'') = record_write-Returns fi offset q c2 in
          rw (◌>>=◌, e, e') (_, _, _, e'', inr (q.total_written, refl, omega (arith, z, done)))
