-- ===== src/Write/Rounds.antt =====
-- What the rounds of the write loop of m65ftp_pwrite, src/m65ftp_lib.c, do to a file on the card.
use mega65fs.Base.{
  no_cluster, splice, length-take, length-drop, length-replicate, get_or-take, get_or-drop, ℕ, ◌+◌,
  ◌-◌, ◌≤◌, ◌<◌, ◌≡◌, refl, true, false, not, inl, inr, some, List, ◌||◌, ◌&&◌, arith, ◌==◌, leb,
  ltb, if◌then◌else◌, length, get_or, Bool-cases, take, drop, replicate, ◌%◌, ◌>>=◌, subst,
}
use mega65fs.Card.{Card, Library}
use mega65fs.Chain.{first_data_sector, sector_number}
use mega65fs.Chain.Disk.{Kept-refl, Disk, Kept}
use mega65fs.Flush.{at_most}
use mega65fs.Write.{Position, next_cluster, old_sector, write_step}

-- The bytes of a file: those of bs from `cur` on, and else those before.
abbrev pub patched : (ℕ → ℕ) → ℕ → List ℕ → ℕ → ℕ
patched old cur bs off =
    if leb cur off && ltb off (cur + length bs) then get_or bs (off - cur) 0 else old off

pub patched-drop :
    (old : ℕ → ℕ) (cur n : ℕ) (bs : List ℕ) (off : ℕ)
    → n ≤ length bs
    → patched (patched old cur (take n bs)) (cur + n) (drop n bs) off ≡ patched old cur bs off
patched-drop old cur n bs off h = ground (
  arith,
  length-take n bs,
  length-drop n bs,
  get_or-take n (off - cur) bs 0,
  get_or-drop n (off - (cur + n)) bs 0,
)

-- The sector that a round writes, how many bytes of `rest` it takes, what it writes, and where it
-- leaves the position.
abbrev pub target : {R : Type 0} → Card R → Position → ℕ
target c q = sector_number c q.cluster q.sector_in_cluster

abbrev pub piece : ℕ → List ℕ → ℕ
piece cur rest = at_most (512 - cur % 512) (length rest)

abbrev pub patch : ℕ → List ℕ → List ℕ → List ℕ
patch cur rest old = splice (cur % 512) (take (piece cur rest) rest) old

abbrev pub moved : Position → List ℕ → Position
moved q rest = record q {
  sector_in_cluster = q.sector_in_cluster + 1;
  total_written = q.total_written + piece q.current_offset rest;
  current_offset = q.current_offset + piece q.current_offset rest;
}

module _ {R : Type 0} ⦃lib : Library R⦄ (P : Card R → Type 0) (fat : Card R → ℕ → ℕ)
    (sector : Card R → ℕ → List ℕ) (g : Card R) (disk : Disk lib P fat sector g) where
  pub next_cluster_stay :
      (p : Position) (n : ℕ) (c : Card R)
      → p.sector_in_cluster < c.sectors_per_cluster
      → next_cluster p n c ≡ some (some p, c)
  unfolding next_cluster
  next_cluster_stay p n c h =
      let w : ltb p.sector_in_cluster c.sectors_per_cluster ≡ true = ground arith in rw w refl

  pub next_cluster_move :
      (p : Position) (n m : ℕ) (c : Card R)
      → c.sectors_per_cluster ≤ p.sector_in_cluster
      → (lib.chained_cluster p.cluster c).0 ≡ m
      → no_cluster m ≡ false
      → next_cluster p n c
        ≡ some (
          some (record p { cluster = m; sector_in_cluster = 0 }),
          (lib.chained_cluster p.cluster c).1,
        )
  unfolding next_cluster
  next_cluster_move p n m c h e live =
      let w : ltb p.sector_in_cluster c.sectors_per_cluster ≡ false = ground arith in
      rw (w, e, live) refl

  -- What a part write keeps is read; a whole sector may hold anything before.
  pub old_sector_lem :
      (m o n : ℕ) (c : Card R)
      → first_data_sector g ≤ m
      → P c
      → (old : List ℕ) × (c' : Card R) × (old_sector m o n c ≡ some (some old, c'))
        × (length old ≡ 512)
        × ((x : ℕ)
            → (if leb 512 n && (o == 0) then 0 else get_or old x 0)
              ≡ (if leb 512 n && (o == 0) then 0 else get_or (sector c m) x 0))
        × Kept P fat sector c c'
  unfolding old_sector
  old_sector_lem m o n c h ok = elim (Bool-cases (ltb n 512 || not (o == 0))) [
    | inl w ↦
        let (e, k) = disk.read_sector m c h ok in
        rw (w, e) (sector c m, _, refl, disk.length_sector c m ok, (λ x. refl), k)
    | inr w ↦
        let z : (leb 512 n && (o == 0)) ≡ true = ground (arith, w) in
        rw (w, z)
          (replicate 512 0, c, refl, length-replicate {A = ℕ} 512 0, (λ x. refl), Kept-refl c ok)
  ]

  -- A round, from what it finds.
  pub write_round :
      (rest : List ℕ) (p q : Position) (old : List ℕ) (c c1 c2 : Card R) (m : ℕ)
      → target c1 q ≡ m
      → next_cluster p (length rest) c ≡ some (some q, c1)
      → old_sector m (q.current_offset % 512) (piece q.current_offset rest) c1 ≡ some (some old, c2)
      → (lib.write_sector m (patch q.current_offset rest old) c2).0 ≡ true
      → write_step rest p c
        ≡ some ((true, moved q rest), (lib.write_sector m (patch q.current_offset rest old) c2).1)
  unfolding write_step
  write_round rest p q old c c1 c2 m em e =
      let b = patch q.current_offset rest old in
      let o = q.current_offset % 512 in
      let n = piece q.current_offset rest in
      subst
        (λ m.
          old_sector m o n c1 ≡ some (some old, c2)
          → (lib.write_sector m b c2).0 ≡ true
          → write_step rest p c ≡ some ((true, moved q rest), (lib.write_sector m b c2).1))
        em (λ e' w. rw (◌>>=◌, e, e', w) refl)
