-- ===== src/Write/Extended.antt =====
-- The termination of the search for the next cluster in m65ftp_pwrite of src/m65ftp_lib.c: the chain
-- goes on there, or it is extended.
use native.Mathlib.Nat.{pow-suc}
use mega65fs.Base.{
  no_cluster, divide_lem, ℕ, zero, suc, ◌+◌, ◌-◌, ◌≤◌, ◌<◌, ◌≡◌, refl, true, inl, inr, Option, none,
  some, arith, ltb, Bool-cases, ◌*◌, ◌/◌, ◌^◌, Option-cases, ◌>>=◌, u32,
}
use mega65fs.Card.{Card, Library}
use mega65fs.Card.Laws.{
  SameGeometry, SameGeometry-refl, SameGeometry-trans, KeepsGeometry, some_kept,
}
use mega65fs.Flush.Returns.{Keeps, chain_block-returns}
use mega65fs.Chain.{cluster_size}
use mega65fs.Flush.{at_most}
use mega65fs.Write.{Position, batch_power, first_batch, find_batch, extend_chain, next_cluster}

batch_power_lem : (fuel try power : ℕ) → batch_power fuel try power ≤ power + 2 * try
unfolding batch_power
batch_power_lem zero try power = omega arith
batch_power_lem (suc fuel) try power = ground (arith, batch_power_up fuel try (power * 2))
  where
    batch_power_up : (fuel try power : ℕ) → power ≤ 2 * try → batch_power fuel try power ≤ 2 * try
    batch_power_up zero try power h = h
    batch_power_up (suc fuel) try power h = ground (arith, batch_power_up fuel try (power * 2))

first_batch_lem : (n : ℕ) → first_batch n ≤ 64
unfolding first_batch
first_batch_lem n = ground (arith, batch_power_lem 8 (at_most 64 n) 1)

-- What a round finds before it writes: no cluster, or a position with nothing more written.
abbrev pub Found : Position → Option Position → Type 0
Found p none = Unit {0}
Found p (some q) = q.total_written ≡ p.total_written

module _ {R : Type 0} ⦃lib : Library R⦄ where
  find_batch-Returns :
      (keeps : KeepsGeometry lib) (fuel try start : ℕ) (c : Card R)
      → try < 2 ^ fuel
      → Keeps (find_batch (suc fuel) try start) c
  unfolding find_batch
  find_batch-Returns keeps zero try start c lt =
      let w : ltb try 2 ≡ true = ground arith in rw w (_, _, refl, SameGeometry-refl c)
  find_batch-Returns keeps (suc fuel) try start c lt = elim (Bool-cases (ltb try 2)) [
    | inl w ↦ rw w (_, _, refl, SameGeometry-refl c)
    | inr w ↦
        let r = lib.find_contiguous_clusters try c in
        let g = keeps.find_contiguous_clusters try c in
        elim (Bool-cases (no_cluster r.0)) [
          | inr z ↦ rw (w, z) (_, _, refl, g)
          | inl z ↦
              let (a, c', e, g') =
                find_batch-Returns keeps fuel (try / 2) r.0 r.1 (omega (arith, pow-suc 2 fuel)) in
              rw (w, z) (a, c', e, SameGeometry-trans g g')
        ]
  ]

  -- A cluster allocated behind another.
  linked_geometry :
      KeepsGeometry lib
      → (cluster next : ℕ) (c : Card R)
      → SameGeometry c (lib.chain_cluster cluster next (lib.allocate_cluster next c).1).1
  linked_geometry keeps cluster next c =
      SameGeometry-trans (keeps.allocate_cluster next c)
        (keeps.chain_cluster cluster next (lib.allocate_cluster next c).1)

  extend_chain-Returns :
      KeepsGeometry lib
      → (cluster remaining : ℕ) (c : Card R) → 0 < cluster_size c
      → Keeps (extend_chain cluster remaining) c
  unfolding extend_chain
  extend_chain-Returns keeps cluster remaining c pos_size =
      let size = cluster_size c in
      let n = u32 (u32 ((remaining + size - 1) / size) + 1) in
      let d = divide_lem (remaining + size - 1) size c pos_size in
      let ((start, batch), c1, e, g) =
        find_batch-Returns keeps 7 (first_batch n) 0 c (omega (arith, first_batch_lem n)) in
      elim (Bool-cases (no_cluster start)) [
        | inr z ↦
            let c2 = (lib.chain_cluster cluster start (lib.allocate_cluster start c1).1).1 in
            let (c3, e', g') = chain_block-returns keeps (batch - 1) start 1 c2 in
            let same =
              SameGeometry-trans g
                (SameGeometry-trans (linked_geometry keeps cluster start c1) g') in
            rw (◌>>=◌, d, e, z, e') (_, _, refl, same)
        | inl z ↦
            let free = lib.find_free_cluster cluster c1 in
            let g' = SameGeometry-trans g (keeps.find_free_cluster cluster c1) in
            elim (Bool-cases (no_cluster free.0)) [
              | inl y ↦ rw (◌>>=◌, d, e, z, y) (_, _, refl, g')
              | inr y ↦
                  rw (◌>>=◌, d, e, z, y)
                    (
                      _,
                      _,
                      refl,
                      SameGeometry-trans g' (linked_geometry keeps cluster free.0 free.1),
                    )
            ]
      ]

  pub next_cluster-Returns :
      KeepsGeometry lib
      → (p : Position) (remaining : ℕ) (c : Card R) → 0 < c.sectors_per_cluster
      → (found : Option Position) × (c' : Card R) × (next_cluster p remaining c ≡ some (found, c'))
        × Found p found
        × SameGeometry c c'
  unfolding next_cluster
  next_cluster-Returns keeps p remaining c spc =
      let next = (lib.chained_cluster p.cluster c).0 in
      let c1 = (lib.chained_cluster p.cluster c).1 in
      let g = keeps.chained_cluster p.cluster c in
      elim (Bool-cases (ltb p.sector_in_cluster c.sectors_per_cluster)) [
        | inl w ↦ rw w (some p, _, refl, refl, SameGeometry-refl c)
        | inr w ↦ elim (Bool-cases (no_cluster next)) [
          | inr z ↦ rw (w, z) (_, _, refl, refl, g)
          | inl z ↦
              let size : 0 < cluster_size c1 = omega (arith, some_kept g spc) in
              let (o, c2, e, g') = extend_chain-Returns keeps p.cluster remaining c1 size in
              let same = SameGeometry-trans g g' in
              elim (Option-cases o) [
                | inl y ↦ rw (w, z, ◌>>=◌, e, y) (_, _, refl, tt, same)
                | inr (n, y) ↦ rw (w, z, ◌>>=◌, e, y) (_, _, refl, refl, same)
              ]
        ]
      ]
