-- ===== src/Write/Effect.antt =====
-- Each round of the write loop of m65ftp_pwrite of src/m65ftp_lib.c changes the bytes it says, and
-- no others.
use mega65fs.Base.{
  ◌-◌, ℕ, ◌+◌, ◌≤◌, ◌<◌, ◌≡◌, ◌≢◌, refl, ap, ◌∙◌, false, inl, inr, List, ◌&&◌, arith, ◌==◌, leb,
  ltb, if◌then◌else◌, length, get_or, Bool-cases, take, ◌*◌, ◌/◌, ◌%◌, some, sym, suc, true,
  length-splice,
}
use mega65fs.Card.{Card, Library}
use mega65fs.Chain.{sector_number, cluster_size, first_data_sector}
use mega65fs.Chain.Disk.{
  Kept-refl, Disk, Wrote, InArea, number_unique, place, Linked, Kept, number_lem, same_numbers,
}
use mega65fs.Read.Places.{sector_at}
use mega65fs.Write.{Position, next_cluster, write_step}
use mega65fs.Write.Rounds.{
  patched, piece, patch, next_cluster_stay, next_cluster_move, target, old_sector_lem, moved,
  write_round,
}
use mega65fs.Write.Bytes.{
  place_back, index_lem, patched_byte, sector_after, away_lem, bytes, Stands, Filled,
}

module _ {R : Type 0} ⦃lib : Library R⦄ (P : Card R → Type 0) (fat : Card R → ℕ → ℕ)
    (sector : Card R → ℕ → List ℕ) (g : Card R) (disk : Disk lib P fat sector g) (chain : ℕ → ℕ)
    (count : ℕ) (area : InArea g chain count) where
  -- One sector written changes the bytes that lie in it.
  sector_effect :
      (i s cur : ℕ) (rest old : List ℕ) (c c' : Card R)
      → i < count
      → s < g.sectors_per_cluster
      → cur / 512 ≡ i * g.sectors_per_cluster + s
      → length old ≡ 512
      → ((x : ℕ)
          → (if leb 512 (piece cur rest) && (cur % 512 == 0) then 0 else get_or old x 0) ≡ (
              if leb 512 (piece cur rest) && (cur % 512 == 0)
              then 0
              else get_or (sector c (sector_number g (chain i) s)) x 0))
      → Wrote P fat sector (sector_number g (chain i) s) (patch cur rest old) c c'
      → (x : ℕ) → x < count * cluster_size g
      → bytes sector g chain c' x
        ≡ patched (bytes sector g chain c) cur (take (piece cur rest) rest) x
  sector_effect i s cur rest old c c' hi hs place_of l same wrote x inside =
      let spc = g.sectors_per_cluster in
      let j = x / cluster_size g in
      let t = x % cluster_size g / 512 in
      let (ht, ex, ox) = place_back x spc disk.some_sectors in
      let hj : j < count = index_lem g count disk.some_sectors x inside in
      elim (Bool-cases (sector_number g (chain j) t == sector_number g (chain i) s)) [
        | inl w ↦
            let (ij, st) =
              number_unique g chain count area j i t s hj hi ht hs (ground (arith, w)) in
            let at : x / 512 ≡ cur / 512 =
              omega (arith, ex, ap (λ (k : ℕ). k * spc) ij, st, place_of) in
            rw (wrote.sectors (sector_number g (chain j) t), w)
              (patched_byte cur x (x % cluster_size g % 512) rest old
                (sector c (sector_number g (chain i) s)) (bytes sector g chain c) at ox l
                (ap (λ (m : ℕ). get_or (sector c m) (x % cluster_size g % 512) 0)
                  (ground (arith, w)))
                (same (x % cluster_size g % 512)))
        | inr w ↦
            let away : (leb cur x && ltb x (cur + length (take (piece cur rest) rest))) ≡ false =
              away_lem cur x rest (λ e.
                let (ji, ts, _) = place x i s spc hs (e ∙ place_of) in
                let same : sector_number g (chain j) t ≡ sector_number g (chain i) s =
                  rw (ji, ts) refl in
                ground (arith, w, same)) in
            rw (wrote.sectors (sector_number g (chain j) t), w, away) refl
      ]

  next_lem :
      (p : Position) (i n : ℕ) (c : Card R)
      → Stands g chain count p i
      → p.current_offset < count * cluster_size g
      → Linked (fat c) chain count
      → P c
      → (s j : ℕ) × (c1 : Card R) × (next_cluster p n c
          ≡ some (some (record p { cluster = chain j; sector_in_cluster = s }), c1))
        × (s < g.sectors_per_cluster)
        × (j < count)
        × (p.current_offset / 512 ≡ j * g.sectors_per_cluster + s)
        × Kept P fat sector c c1
  next_lem p i n c here inside linked ok =
      let spc = g.sectors_per_cluster in
      let same : c.sectors_per_cluster ≡ spc = (disk.geometry c ok).sectors_per_cluster in
      elim (Bool-cases (ltb p.sector_in_cluster spc)) [
        | inl w ↦ (
          p.sector_in_cluster,
          i,
          c,
          rw (sym here.cluster)
              (next_cluster_stay P fat sector g disk p n c (ground (arith, w, same))),
          ground (arith, w),
          here.index,
          here.offset,
          Kept-refl c ok,
        )
        | inr w ↦
            let at_end : p.sector_in_cluster ≡ spc = ground (arith, w, here.sector_in_cluster) in
            let off : p.current_offset / 512 ≡ suc i * spc = omega (arith, here.offset, at_end) in
            let more : suc i < count =
              let (q, _, _) =
                place p.current_offset (suc i) 0 spc disk.some_sectors (omega (arith, off)) in
              rw q at (index_lem g count disk.some_sectors p.current_offset inside) in
            let (e, k) = disk.chained_cluster p.cluster c ok in
            let e' : (lib.chained_cluster p.cluster c).0 ≡ chain (suc i) =
              e ∙ ap (fat c) here.cluster ∙ linked i more in
            (
              0,
              suc i,
              (lib.chained_cluster p.cluster c).1,
              next_cluster_move P fat sector g disk p n (chain (suc i)) c
                  (omega (arith, at_end, same)) e'
                  (ground (arith, area.live (suc i) more, area.low (suc i) more)),
              disk.some_sectors,
              more,
              omega (arith, off),
              k,
            )
      ]

  low_lem :
      (j s : ℕ)
      → j < count
      → s < g.sectors_per_cluster
      → first_data_sector g ≤ sector_number g (chain j) s
  low_lem j s hj hs = omega (arith, number_lem g chain count area j s hj hs)

  round_effect :
      (j s cur : ℕ) (rest old : List ℕ) (c c1 c2 c3 : Card R)
      → j < count
      → s < g.sectors_per_cluster
      → cur / 512 ≡ j * g.sectors_per_cluster + s
      → length old ≡ 512
      → ((x : ℕ)
          → (if leb 512 (piece cur rest) && (cur % 512 == 0) then 0 else get_or old x 0) ≡ (
              if leb 512 (piece cur rest) && (cur % 512 == 0)
              then 0
              else get_or (sector c1 (sector_number g (chain j) s)) x 0))
      → Kept P fat sector c c1
      → Kept P fat sector c1 c2
      → Wrote P fat sector (sector_number g (chain j) s) (patch cur rest old) c2 c3
      → Filled P fat sector g chain count cur (take (piece cur rest) rest) c c3
  round_effect j s cur rest old c c1 c2 c3 hj hs off l same k1 k2 wrote = record {
    ok = wrote.ok;
    table = λ k. wrote.table k ∙ k2.table k ∙ k1.table k;
    bytes_there = λ x h.
        let kept : bytes sector g chain c2 x ≡ bytes sector g chain c x =
          ap (λ (b : List ℕ). get_or b (x % cluster_size g % 512) 0)
            (k2.sectors (sector_at g (sector c) chain x)
              ∙ k1.sectors (sector_at g (sector c) chain x)) in
        sector_effect j s cur rest old c2 c3 hj hs off l
          (λ y. rw (k2.sectors (sector_number g (chain j) s)) (same y)) wrote x h
        ∙ ap
            (λ (b : ℕ).
              if leb cur x && ltb x (cur + length (take (piece cur rest) rest))
              then get_or (take (piece cur rest) rest) (x - cur) 0
              else b)
            kept;
    others = λ m. elim (Bool-cases (m == sector_number g (chain j) s)) [
      | inl w ↦ inr (j, s, hj, hs, ground (arith, w))
      | inr w ↦ inl (rw (wrote.sectors m, w) (k2.sectors m ∙ k1.sectors m))
    ];
  }

  -- A round writes the next bytes, and stands right where it ended at a sector's end.
  pub step_lem :
      (p : Position) (i : ℕ) (rest : List ℕ) (c : Card R)
      → Stands g chain count p i
      → 0 < length rest
      → p.current_offset + length rest ≤ count * cluster_size g
      → Linked (fat c) chain count
      → P c
      → (q : Position) × (j : ℕ) × (c' : Card R) × (write_step rest p c ≡ some ((true, q), c'))
        × (q.current_offset ≡ p.current_offset + piece p.current_offset rest)
        × (q.total_written ≡ p.total_written + piece p.current_offset rest)
        × ((q.current_offset % 512 ≢ 0 → piece p.current_offset rest < length rest)
            → Stands g chain count q j)
        × Filled P fat sector g chain count p.current_offset
            (take (piece p.current_offset rest) rest)
            c
            c'
  step_lem p i rest c here some_rest inside linked ok =
      let cur = p.current_offset in
      let (s, j, c1, e, hs, hj, off, k1) =
        next_lem p i (length rest) c here (omega (arith, inside, some_rest)) linked ok in
      let q : Position = record p { cluster = chain j; sector_in_cluster = s } in
      let m = sector_number g (chain j) s in
      let em : target c1 q ≡ m = same_numbers g c1 (chain j) s (disk.geometry c1 k1.ok) in
      let low = low_lem j s hj hs in
      let (old, c2, eo, l, same, k2) =
        old_sector_lem P fat sector g disk m (cur % 512) (piece cur rest) c1 low k1.ok in
      let b = patch cur rest old in
      let (w, wrote) =
        disk.write_sector m b c2 low
          (length-splice (cur % 512) (take (piece cur rest) rest) old ∙ l) k2.ok in
      (
        moved q rest,
        j,
        (lib.write_sector m b c2).1,
        write_round P fat sector g disk rest p q old c c1 c2 m em e eo w,
        refl,
        refl,
        (λ h. record {
          cluster = refl;
          index = hj;
          sector_in_cluster = omega (arith, hs);
          offset =
              sector_after cur (j * g.sectors_per_cluster + s) rest some_rest off h ∙ omega arith;
        }),
        round_effect j s cur rest old c c1 c2 (lib.write_sector m b c2).1 hj hs off l same k1 k2
            wrote,
      )
