-- ===== src/Read/Returns.antt =====
-- The termination and the answers of m65ftp_pread of src/m65ftp_lib.c.
use mega65fs.Base.{
  ℕ, zero, suc, ◌+◌, ◌-◌, ◌≤◌, ◌<◌, ◌≡◌, refl, ap, ◌∙◌, true, false, inl, inr, ◌⊎◌, Option, none,
  some, List, [], ◌∷◌, ◌++◌, ◌||◌, ◌&&◌, arith, ◌==◌, leb, ltb, if◌then◌else◌, length, Bool-cases,
  take, drop, replicate, ◌/◌, ◌%◌, Option-cases, ◌>>=◌, ℤ, pos, minus_one, is_end, to_nat,
  length-append, length-take, length-replicate, divide_lem,
}
use mega65fs.Card.{Card, Library}
use mega65fs.Card.Laws.{
  SameGeometry, SameGeometry-refl, SameGeometry-trans, KeepsGeometry, some_kept,
}
use mega65fs.Chain.{cluster_size, sector_number}
use mega65fs.Flush.{at_most}
use mega65fs.Read.{
  Cursor, failed, seek, read_loop, Ended, reached, cursor_of, read_result, pread_direct,
  m65ftp_pread,
}
use mega65fs.Path.{is_empty}
use mega65fs.Store.{on_card, FileInfo, Store, is_open}
use mega65fs.Buffer.{clip, pread_buffered, bytes_of}

module _ {R : Type 0} ⦃lib : Library R⦄ where
  seek-Returns :
      (keeps : KeepsGeometry lib) (n cluster i : ℕ) (c : Card R)
      → (r : ℕ × ℕ) × (c' : Card R) × (seek n cluster i c ≡ some (r, c')) × SameGeometry c c'
  unfolding seek
  seek-Returns keeps zero cluster i c = ((cluster, i), c, refl, SameGeometry-refl c)
  seek-Returns keeps (suc n) cluster i c =
      let next = lib.get_next_cluster cluster c in
      elim (Bool-cases (is_end next.0)) [
        | inl w ↦ rw w (_, _, refl, keeps.get_next_cluster cluster c)
        | inr w ↦
            let (r, c', e, g) = seek-Returns keeps n next.0 (i + 1) next.1 in
            rw w (r, c', e, SameGeometry-trans (keeps.get_next_cluster cluster c) g)
      ]

  module _ (fuel : ℕ) (p : Cursor) (c : Card R) where
    -- Where the round starts to read, and how much.
    abbrev pub at' : ℕ
    at' = p.current_offset % cluster_size c

    abbrev pub step : ℕ
    step = at_most (512 - at' % 512) p.remaining

    abbrev pub moved_on : ℕ → ℕ → List ℕ → Cursor
    moved_on cluster i bytes = record {
      cluster = cluster;
      cluster_index = i;
      bytes = p.bytes ++ take step (drop (at' % 512) bytes);
      remaining = p.remaining - step;
      current_offset = p.current_offset + step;
    }

    -- A round with a cluster under the offset.
    pub read_round :
        (cluster i : ℕ) (c' : Card R)
        → (p.remaining == 0 || is_end p.cluster) ≡ false
        → 0 < cluster_size c
        → seek (p.current_offset / cluster_size c - p.cluster_index) p.cluster p.cluster_index c
          ≡ some ((cluster, i), c')
        → is_end cluster ≡ false
        → (bytes : Option (List ℕ)) (c'' : Card R)
        → lib.read_sector (sector_number c' cluster (at' / 512)) true c' ≡ (bytes, c'')
        → read_loop (suc fuel) p c ≡ elim bytes [
          | none ↦ some (failed (record p { cluster = cluster; cluster_index = i }), c'')
          | some data' ↦ read_loop fuel (moved_on cluster i data') c''
        ]
    unfolding read_loop
    read_round cluster i c' w d e z none c'' q =
        rw (w, ◌>>=◌, divide_lem p.current_offset (cluster_size c) c d, e, z, q)
    read_round cluster i c' w d e z (some b) c'' q =
        rw (w, ◌>>=◌, divide_lem p.current_offset (cluster_size c) c d, e, z, q)

    pub read_end :
        (p.remaining == 0 || is_end p.cluster) ≡ true
        → read_loop (suc fuel) p c ≡ some (reached p, c)
    unfolding read_loop
    read_end w = rw w

    -- The chain ends before the offset.
    read_short :
        (cluster i : ℕ) (c' : Card R)
        → (p.remaining == 0 || is_end p.cluster) ≡ false
        → 0 < cluster_size c
        → seek (p.current_offset / cluster_size c - p.cluster_index) p.cluster p.cluster_index c
          ≡ some ((cluster, i), c')
        → is_end cluster ≡ true
        → read_loop (suc fuel) p c
          ≡ some (reached (record p { cluster = cluster; cluster_index = i }), c')
    unfolding read_loop
    read_short cluster i c' w d e z =
        rw (w, ◌>>=◌, divide_lem p.current_offset (cluster_size c) c d, e, z)

    abbrev pub sum : Cursor → ℕ
    sum p = length p.bytes + p.remaining

    step_lem :
        (p.remaining == 0 || is_end p.cluster) ≡ false
        → (cluster i : ℕ) (bytes : List ℕ)
        → ((moved_on cluster i bytes).remaining < p.remaining)
          × (sum (moved_on cluster i bytes) ≤ sum p)
    step_lem w cluster i bytes = (
      ground (arith, w),
      ground (
        arith,
        w,
        length-append p.bytes (take step (drop (at' % 512) bytes)),
        length-take step (drop (at' % 512) bytes),
      ),
    )

  read_loop-Returns :
      (keeps : KeepsGeometry lib) (fuel : ℕ) (p : Cursor) (c : Card R)
      → 0 < c.sectors_per_cluster
      → p.remaining < fuel
      → (r : Ended) × (c' : Card R) × (read_loop fuel p c ≡ some (r, c'))
        × (sum fuel p c (cursor_of r) ≤ sum fuel p c p)
  read_loop-Returns keeps zero p c spc lt = absurd (omega arith)
  read_loop-Returns keeps (suc fuel) p c spc lt =
      elim (Bool-cases (p.remaining == 0 || is_end p.cluster)) [
        | inl w ↦ (reached p, c, read_end fuel p c w, omega arith)
        | inr w ↦
            let d : 0 < cluster_size c = omega (arith, spc) in
            let ((k, i), c', e, g) =
              seek-Returns keeps (p.current_offset / cluster_size c - p.cluster_index) p.cluster
                p.cluster_index c in
            elim (Bool-cases (is_end k)) [
              | inl z ↦ (_, _, read_short fuel p c k i c' w d e z, omega arith)
              | inr z ↦
                  let r = lib.read_sector (sector_number c' k (at' fuel p c / 512)) true c' in
                  elim (Option-cases r.0) [
                    | inl q ↦ (
                      _,
                      _,
                      read_round fuel p c k i c' w d e z none r.1 (ap (λ b. (b, r.1)) q),
                      omega arith,
                    )
                    | inr (bs, q) ↦
                        let p' = moved_on fuel p c k i bs in
                        let (less, bound) = step_lem fuel p c w k i bs in
                        let same =
                          SameGeometry-trans g
                            (keeps.read_sector (sector_number c' k (at' fuel p c / 512)) true c') in
                        let (ended, c'', e', le) =
                          read_loop-Returns keeps fuel p' r.1 (some_kept same spc) (omega arith) in
                        (
                          ended,
                          c'',
                          read_round fuel p c k i c' w d e z (some bs) r.1 (ap (λ b. (b, r.1)) q)
                              ∙ e',
                          omega arith,
                        )
                  ]
            ]
      ]

-- What a read answers, with the bytes it stores: the number of the bytes, at most as many as asked
-- for, or -1 and none.
abbrev pub IsAnswer : ℕ → ℤ × List ℕ → Type 0
IsAnswer count (result, bytes) =
    (length bytes ≤ count) × (((result ≡ minus_one) × (bytes ≡ [])) ⊎ (result ≡ pos (length bytes)))

read_result_lem :
    (count : ℕ) (r : Ended) → length (cursor_of r).bytes ≤ count → IsAnswer count (read_result r)
read_result_lem count (reached p) l = (l, inr refl)
read_result_lem count (failed p) l = go p.bytes l
  where
    go :
        (bs : List ℕ)
        → length bs ≤ count
        → IsAnswer count (if is_empty bs then (minus_one, bs) else (pos (length bs), bs))
    go [] l = (l, inl (refl, refl))
    go (b ∷ bs) l = (l, inr refl)

pread_buffered-length :
    (fi : FileInfo) (count offset : ℕ) → length (pread_buffered fi count offset) ≤ count
unfolding pread_buffered
pread_buffered-length fi count offset =
    (let n = clip fi.file_size count offset in
      let f = if ltb fi.write_buf_cap (offset + n) then fi.write_buf_cap - offset else n in
      let t = take f (drop offset (bytes_of fi.write_buf)) in
      ground (
        arith,
        length-append t (replicate (n - f) 0),
        length-take f (drop offset (bytes_of fi.write_buf)),
        length-replicate {A = ℕ} (n - f) 0,
        length-replicate {A = ℕ} n 0,
      ))

module _ {R : Type 0} ⦃lib : Library R⦄ where
  pread_direct-IsAnswer :
      (keeps : KeepsGeometry lib) (fi : FileInfo) (count offset : ℕ) (c : Card R)
      → 0 < c.sectors_per_cluster
      → (r : ℤ × List ℕ) × (fi' : FileInfo) × (c' : Card R) × (pread_direct fi count offset c
          ≡ some ((r, fi'), c'))
        × IsAnswer count r
  unfolding pread_direct
  pread_direct-IsAnswer keeps fi count offset c spc =
      elim (Bool-cases (count == 0 || fi.first_cluster == 0 || leb fi.file_size offset)) [
        | inl w ↦ rw w (_, _, _, refl, (omega arith, inr refl))
        | inr w ↦
            let n = clip fi.file_size count offset in
            let p : Cursor = record {
              cluster = if offset == fi.last_offset then fi.current_cluster else fi.first_cluster;
              cluster_index = if offset == fi.last_offset then fi.current_cluster_idx else 0;
              bytes = [];
              remaining = n;
              current_offset = offset;
            } in
            let (r, c', e, le) = read_loop-Returns keeps (n + 1) p c spc (omega arith) in
            rw (w, ◌>>=◌, e) (_, _, _, refl, read_result_lem count r (ground arith))
      ]

  -- On a card that keeps its geometry and has sectors in its clusters, a read returns, whatever the
  -- descriptor and the arguments: it stores at most as many bytes as asked for, and answers their
  -- number, or -1 and stores none.
  pub m65ftp_pread-IsAnswer :
      (fd : ℤ) (count offset : ℕ) (s : Store R)
      → KeepsGeometry lib
      → 0 < s.card.sectors_per_cluster
      → (r : ℤ × List ℕ) × (s' : Store R) × (m65ftp_pread fd count offset s ≡ some (r, s'))
        × IsAnswer count r
  unfolding m65ftp_pread
  m65ftp_pread-IsAnswer fd count offset s keeps spc =
      elim (Bool-cases (s.initialized && is_open s fd)) [
        | inr w ↦ rw w ((minus_one, []), _, refl, (omega arith, inl (refl, refl)))
        | inl w ↦ elim (Bool-cases (s.files (to_nat fd)).buffered) [
          | inl b ↦ rw (w, b) (_, _, refl, (pread_buffered-length _ count offset, inr refl))
          | inr b ↦
              let (r, fi', c', e, a) =
                pread_direct-IsAnswer keeps (record (s.files (to_nat fd)) { buffered = false })
                  count offset s.card spc in
              rw (w, b, if◌then◌else◌, ◌>>=◌, on_card, e) (r, _, refl, a)
        ]
      ]
