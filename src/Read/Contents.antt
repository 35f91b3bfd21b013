-- ===== src/Read/Contents.antt =====
-- What the direct branch of m65ftp_pread of src/m65ftp_lib.c reads, against the sectors of the file.
use mega65fs.Base.{
  ◌⊎◌, is_end, min, ℕ, zero, suc, ◌+◌, ◌-◌, ◌≤◌, ◌<◌, ◌≡◌, ◌≢◌, refl, ap, sym, ◌∙◌, true, false,
  inl, inr, some, List, [], ◌++◌, ◌||◌, arith, ◌==◌, leb, if◌then◌else◌, length, Bool-cases, take,
  drop, ◌*◌, ◌/◌, ◌%◌, ◌>>=◌, pos,
}
use native.Mathlib.Nat.{div-add-mod', mod-lt, div-lt_iff_lt-mul, le-div_iff_mul-le}
use mathlib.Core.List.{append-nil, append_assoc}
use mega65fs.Card.{Card, Library}
use mega65fs.Store.{FileInfo}
use mega65fs.Chain.{cluster_size, sector_number}
use mega65fs.Flush.{at_most}
use mega65fs.Buffer.{clip}
use mega65fs.Read.{Cursor, reached, seek, read_loop, pread_direct}
use mega65fs.Read.Returns.{read_round, read_end, moved_on}
use mega65fs.Read.Places.{OnCard, sector_at, contents, length-contents, contents-add, one_sector}

module _ {R : Type 0} (g : Card R) (chain : ℕ → ℕ) where
  -- The position that the descriptor keeps is one of the chain.
  pub record InPlace (fi : FileInfo) : Type 0 where
    pub cluster : fi.current_cluster ≡ chain fi.current_cluster_idx
    pub index : fi.current_cluster_idx ≤ fi.last_offset / cluster_size g

module _ {R : Type 0} ⦃lib : Library R⦄ (P : Card R → Type 0) (g : Card R) (disk : ℕ → List ℕ)
    (chain : ℕ → ℕ) (count : ℕ) (on : OnCard lib P g disk chain count) where
  seek_lem :
      (n i : ℕ) (c : Card R)
      → i + n < count
      → P c
      → (c' : Card R) × (seek n (chain i) i c ≡ some ((chain (i + n), i + n), c')) × P c'
  unfolding seek
  seek_lem zero i c h p = let z : i + 0 ≡ i = omega arith in rw z (c, refl, p)
  seek_lem (suc n) i c h p =
      let (e, p') = on.get_next_cluster i c (omega arith) p in
      let z : i + suc n ≡ i + 1 + n = omega arith in
      let y : suc i ≡ i + 1 = omega arith in
      let live = on.clusters (suc i) (omega arith) in
      rw (e, live, z)
        (rw y (seek_lem n (i + 1) (lib.get_next_cluster (chain i) c).1 (omega arith) p'))

  -- The place of a cursor in the file.
  pub record At (p : Cursor) : Type 0 where
    pub cluster : p.cluster ≡ chain p.cluster_index
    pub index : p.cluster_index ≤ p.current_offset / cluster_size g
    pub inside : p.current_offset + p.remaining ≤ count * cluster_size g

  size_pos : 0 < cluster_size g
  size_pos = let h = on.some_sectors in omega (arith, h)

  index_lem : (off : ℕ) → off < count * cluster_size g → off / cluster_size g < count
  index_lem off h =
      grind (arith, div-lt_iff_lt-mul {k = cluster_size g} {x = off} {y = count} size_pos)

  later : (off n : ℕ) → off / cluster_size g ≤ (off + n) / cluster_size g
  later off n = grind (
    arith,
    le-div_iff_mul-le {k = cluster_size g} {x = off / cluster_size g} {y = off + n} size_pos,
    div-add-mod' off (cluster_size g),
  )

  -- The sector that a round reads, wherever the card stands.
  sector_there :
      (c c1 : Card R) (t off : ℕ)
      → P c
      → P c1
      → sector_number c1 (chain t) (off % cluster_size c / 512)
        ≡ sector_number g (chain t) (off % cluster_size g / 512)
  sector_there c c1 t off ok ok1 =
      let size = (on.geometry c ok).sectors_per_cluster in
      let same = on.geometry c1 ok1 in
      rw
        (
          size, same.partition_start, same.reserved_sectors, same.sectors_per_fat,
          same.sectors_per_cluster,
        )
        refl

  sector_lem : (off : ℕ) → off % cluster_size g / 512 < g.sectors_per_cluster
  sector_lem off = omega (arith, mod-lt off {m = cluster_size g} size_pos)

  -- A round copies the contents, wherever the card stands.
  copied :
      (c c1 : Card R) (off n : ℕ)
      → P c
      → P c1
      → off % cluster_size c % 512 + n ≤ 512
      → take n (
          drop
            (off % cluster_size c % 512)
            (disk (sector_number c1 (chain (off / cluster_size g)) (off % cluster_size c / 512))))
        ≡ contents g disk chain off n
  copied c c1 off n ok ok1 h =
      let size : cluster_size c ≡ cluster_size g = rw (on.geometry c ok).sectors_per_cluster refl in
      let same = on.geometry c1 ok1 in
      let sector : sector_number c1 (chain (off / cluster_size g)) (off % cluster_size g / 512)
          ≡ sector_at g disk chain off =
        rw
          (
            same.partition_start, same.reserved_sectors, same.sectors_per_fat,
            same.sectors_per_cluster,
          )
          refl in
      rw (size, sector) (one_sector g disk chain on.some_sectors on.sectors off n (rw size at h))

  joined :
      (off n rem : ℕ) (bs xs : List ℕ)
      → n ≤ rem
      → xs ≡ contents g disk chain off n
      → (bs ++ xs) ++ contents g disk chain (off + n) (rem - n)
        ≡ bs ++ contents g disk chain off rem
  joined off n rem bs xs le e =
      let z : n + (rem - n) ≡ rem = omega arith in
      append_assoc bs xs (contents g disk chain (off + n) (rem - n))
      ∙ ap (◌++◌ bs)
          (rw e (contents-add g disk chain off n (rem - n) ∙ ap (contents g disk chain off) z))

  read_loop_lem :
      (fuel : ℕ) (p : Cursor) (c : Card R)
      → p.remaining < fuel
      → At p
      → P c
      → (q : Cursor) × (c' : Card R) × (read_loop fuel p c ≡ some (reached q, c'))
        × (q.bytes ≡ p.bytes ++ contents g disk chain p.current_offset p.remaining)
        × (q.current_offset ≡ p.current_offset + p.remaining)
        × At q
        × P c'
  read_loop_lem zero p c lt here ok = absurd (omega arith)
  read_loop_lem (suc fuel) p c lt here ok = elim (Bool-cases (p.remaining == 0)) [
    | inl z ↦
        let y : p.remaining ≡ 0 = ground arith in
        (
          p,
          c,
          read_end fuel p c (rw z refl),
          sym (rw y (append-nil p.bytes)),
          omega (arith, y),
          here,
          ok,
        )
    | inr nz ↦
        let off = p.current_offset in
        let t = off / cluster_size g in
        let size : cluster_size c ≡ cluster_size g =
          rw (on.geometry c ok).sectors_per_cluster refl in
        let inside : t < count = index_lem off (ground (arith, here.inside, nz)) in
        let idx = p.cluster_index in
        let live = on.clusters idx (omega (arith, here.index, inside)) in
        let (c1, e, ok1) = seek_lem (t - idx) idx c (omega (arith, here.index, inside)) ok in
        let at_end : idx + (t - idx) ≡ t = omega (arith, here.index) in
        let found : seek (off / cluster_size c - idx) p.cluster idx c ≡ some ((chain t, t), c1) =
          rw (size, here.cluster) (rw at_end at e) in
        let m = sector_number c1 (chain t) (off % cluster_size c / 512) in
        let m_eq = sector_there c c1 t off ok ok1 in
        let sec : off % cluster_size g / 512 < g.sectors_per_cluster = sector_lem off in
        let read : ((lib.read_sector m true c1).0 ≡ some (disk m))
            × P (lib.read_sector m true c1).1 =
          rw m_eq (on.read_sector t (off % cluster_size g / 512) c1 inside sec ok1) in
        let (r, ok2) = read in
        let c2 = (lib.read_sector m true c1).1 in
        let w : (p.remaining == 0 || is_end p.cluster) ≡ false = rw (nz, here.cluster, live) refl in
        let round =
          read_round fuel p c (chain t) t c1 w (omega (arith, size, size_pos)) found
            (on.clusters t inside) (some (disk m)) c2 (ap (λ b. (b, c2)) r) in
        let p' = moved_on fuel p c (chain t) t (disk m) in
        let n = at_most (512 - off % cluster_size c % 512) p.remaining in
        let le : n ≤ p.remaining = ground arith in
        let here' : At p' = record {
          cluster = refl;
          index = later off n;
          inside = omega (arith, here.inside, le);
        } in
        let (q, c3, e', b, moved, there, ok3) =
          read_loop_lem fuel p' c2 (ground (arith, nz, lt)) here' ok2 in
        (
          q,
          c3,
          round ∙ e',
          b ∙ joined off n p.remaining p.bytes _ le (copied c c1 off n ok ok1 (ground arith)),
          omega (arith, moved, le),
          there,
          ok3,
        )
  ]

  -- Where a read starts: at the kept position if it continues there.
  abbrev start : FileInfo → ℕ → ℕ → Cursor
  start fi n offset = record {
    cluster = if offset == fi.last_offset then fi.current_cluster else fi.first_cluster;
    cluster_index = if offset == fi.last_offset then fi.current_cluster_idx else 0;
    bytes = [];
    remaining = n;
    current_offset = offset;
  }

  start-At :
      (fi : FileInfo) (n offset : ℕ)
      → fi.first_cluster ≡ chain 0
      → (offset ≢ fi.last_offset) ⊎ InPlace g chain fi
      → offset + n ≤ count * cluster_size g
      → At (start fi n offset)
  start-At fi n offset first kept inside = elim (Bool-cases (offset == fi.last_offset)) [
    | inl w ↦
        let e : offset ≡ fi.last_offset = ground (arith, w) in
        elim kept [
          | inl away ↦ absurd (away e)
          | inr kept ↦
              rw w (record { cluster = kept.cluster; index = rw e kept.index; inside = inside })
        ]
    | inr w ↦ rw w (record { cluster = first; index = omega arith; inside = inside })
  ]

  -- With where the read ends.
  pub pread_direct_ends :
      (fi : FileInfo) (n offset : ℕ) (c : Card R)
      → P c
      → fi.first_cluster ≡ chain 0
      → fi.first_cluster ≢ 0
      → fi.file_size ≤ count * cluster_size g
      → (offset ≢ fi.last_offset) ⊎ InPlace g chain fi
      → (fi' : FileInfo) × (c' : Card R) × (pread_direct fi n offset c
          ≡ some (
            (
              (
                pos (min n (fi.file_size - offset)),
                contents g disk chain offset (min n (fi.file_size - offset)),
              ),
              fi',
            ),
            c',
          ))
        × ((fi' ≡ fi) ⊎ InPlace g chain fi')
        × (0 < min n (fi.file_size - offset)
            → fi'.last_offset ≡ offset + min n (fi.file_size - offset))
        × P c'
  unfolding pread_direct
  pread_direct_ends fi n offset c ok first nz size kept =
      elim (Bool-cases (n == 0 || fi.first_cluster == 0 || leb fi.file_size offset)) [
        | inl w ↦
            let z : min n (fi.file_size - offset) ≡ 0 = ground (arith, w) in
            rw (w, z) (fi, c, refl, inl refl, (λ h. absurd (omega (arith, h))), ok)
        | inr w ↦
            let m = min n (fi.file_size - offset) in
            let k : clip fi.file_size n offset ≡ m = ground (arith, w) in
            let p = start fi m offset in
            let (q, c', e, b, moved, there, ok') =
              read_loop_lem (m + 1) p c (omega arith)
                (start-At fi m offset first kept (ground (arith, w))) ok in
            let l : length q.bytes ≡ m = ap length b ∙ length-contents g disk chain offset m in
            let fi' : FileInfo = record fi {
              current_cluster = q.cluster;
              current_cluster_idx = q.cluster_index;
              last_offset = q.current_offset;
            } in
            rw (w, k, ◌>>=◌, e, l, b)
              (
                fi',
                c',
                refl,
                inr (record { cluster = there.cluster; index = there.index }),
                (λ h. moved),
                ok',
              )
      ]

  -- A direct read of a file whose clusters on the card are `chain` answers how many of the n bytes
  -- asked for lie before the file's end, and these bytes: those at `offset` in the file's sectors.
  -- That holds where the read does not start at the offset of the last one, and where it does, if
  -- the position kept in the descriptor is one of the chain, at or before that offset. Where the
  -- read changes the descriptor, the position it leaves there is such a one.
  pub pread_direct_lem :
      (fi : FileInfo) (n offset : ℕ) (c : Card R)
      → P c
      → fi.first_cluster ≡ chain 0
      → fi.first_cluster ≢ 0
      → fi.file_size ≤ count * cluster_size g
      → (offset ≢ fi.last_offset) ⊎ InPlace g chain fi
      → (fi' : FileInfo) × (c' : Card R) × (pread_direct fi n offset c
          ≡ some (
            (
              (
                pos (min n (fi.file_size - offset)),
                contents g disk chain offset (min n (fi.file_size - offset)),
              ),
              fi',
            ),
            c',
          ))
        × ((fi' ≡ fi) ⊎ InPlace g chain fi')
        × P c'
  pread_direct_lem fi n offset c ok first nz size kept =
      let (fi', c', e, place, _, ok') = pread_direct_ends fi n offset c ok first nz size kept in
      (fi', c', e, place, ok')
