-- ===== src/Write/Answers.antt =====
-- The termination and the answers of m65ftp_pwrite of src/m65ftp_lib.c, on every branch.
use mega65fs.Base.{
  ℕ, ◌+◌, ◌≤◌, ◌<◌, ◌≡◌, refl, not, inl, inr, some, List, ◌&&◌, arith, leb, ltb, if◌then◌else◌,
  length, Bool-cases, ◌^◌, Prog, pure, ◌>>=◌, ℤ, pos, minus_one, to_nat,
}
use mega65fs.Card.{Card, Library}
use mega65fs.Card.Laws.{KeepsGeometry, FindsData, some_kept}
use mega65fs.Store.{FileInfo, Store, is_open, buffer_limit, on_card}
use mega65fs.Path.{is_empty}
use mega65fs.Flush.{flush_write_buffer}
use mega65fs.Flush.Returns.{flush_write_buffer-Keeps}
use mega65fs.Buffer.Content.{IsBuffered}
use mega65fs.Buffer.Refines.{new_capacity_lem}
use mega65fs.Write.{pwrite_direct, pwrite_buffered, pwrite_file, m65ftp_pwrite}
use mega65fs.Write.Returns.{IsCount, pwrite_direct-IsCount}

module _ {R : Type 0} ⦃lib : Library R⦄ where
  -- The program answers with a count for n bytes, and a descriptor.
  abbrev pub Counts : Prog (Card R) (ℤ × FileInfo) → ℕ → Card R → Type 0
  Counts m n c =
      (r : ℤ) × (fi' : FileInfo) × (c' : Card R) × (m c ≡ some ((r, fi'), c')) × IsCount n r

  pwrite_buffered-Counts :
      (fi : FileInfo) (buf : List ℕ) (offset : ℕ) (c : Card R)
      → IsBuffered fi
      → offset + length buf ≤ buffer_limit
      → Counts (pwrite_buffered fi buf offset) (length buf) c
  unfolding pwrite_buffered
  pwrite_buffered-Counts fi buf offset c v le =
      elim (Bool-cases (leb (offset + length buf) fi.write_buf_cap)) [
        | inl fits ↦ rw fits (_, _, _, refl, inr (length buf, refl, omega arith))
        | inr short ↦
            let (n, e, old, lim, enough) =
              new_capacity_lem fi (offset + length buf) v (ground arith) (omega arith) in
            elim (Bool-cases (lib.realloc n c).0) [
              | inl w ↦ rw (short, e, w) (_, _, _, refl, inr (length buf, refl, omega arith))
              | inr w ↦ rw (short, e, w) (_, _, _, refl, inl refl)
            ]
      ]

  pwrite_flushed-Counts :
      (fi : FileInfo) (buf : List ℕ) (offset : ℕ) (c : Card R)
      → KeepsGeometry lib
      → FindsData lib
      → 0 < c.sectors_per_cluster
      → fi.file_size < 2 ^ 32
      → Counts
          (flush_write_buffer fi >>= λ (flushed, fi).
            if flushed then pwrite_direct fi buf offset else pure (minus_one, fi))
          (length buf)
          c
  pwrite_flushed-Counts fi buf offset c keeps finds spc small =
      let ((b, fi'), c', e, g) = flush_write_buffer-Keeps fi c keeps finds spc small in
      elim (Bool-cases b) [
        | inl w ↦ rw (◌>>=◌, e, w) (pwrite_direct-IsCount fi' buf offset c' keeps (some_kept g spc))
        | inr w ↦ rw (◌>>=◌, e, w) (_, _, _, refl, inl refl)
      ]

  pwrite_file-Counts :
      (fi : FileInfo) (buf : List ℕ) (offset : ℕ) (c : Card R)
      → KeepsGeometry lib
      → FindsData lib
      → 0 < c.sectors_per_cluster
      → fi.file_size < 2 ^ 32
      → IsBuffered fi
      → Counts (pwrite_file fi buf offset) (length buf) c
  unfolding pwrite_file
  pwrite_file-Counts fi buf offset c keeps finds spc small v = elim (Bool-cases (not fi.buffered)) [
    | inl w ↦ rw w (pwrite_direct-IsCount fi buf offset c keeps spc)
    | inr w ↦ elim (Bool-cases (is_empty buf)) [
      | inl y ↦ rw (w, y) (pos 0, fi, c, refl, inr (0, refl, omega arith))
      | inr y ↦ elim (Bool-cases (ltb buffer_limit (offset + length buf))) [
        | inl z ↦ rw (w, y, z) (pwrite_flushed-Counts fi buf offset c keeps finds spc small)
        | inr z ↦ rw (w, y, z) (pwrite_buffered-Counts fi buf offset c v (ground (arith, z)))
      ]
    ]
  ]

  -- On a card that keeps its geometry, has sectors in its clusters and finds its free clusters in
  -- the data area, for a descriptor below 4 GB with a well-formed write buffer: a write returns, and
  -- answers -1 or how many bytes, at most as many as it was given, are written.
  pub m65ftp_pwrite-IsCount :
      (fd : ℤ) (buf : List ℕ) (offset : ℕ) (s : Store R)
      → KeepsGeometry lib
      → FindsData lib
      → 0 < s.card.sectors_per_cluster
      → (s.files (to_nat fd)).file_size < 2 ^ 32
      → IsBuffered (s.files (to_nat fd))
      → (r : ℤ) × (s' : Store R) × (m65ftp_pwrite fd buf offset s ≡ some (r, s'))
        × IsCount (length buf) r
  unfolding m65ftp_pwrite
  m65ftp_pwrite-IsCount fd buf offset s keeps finds spc small v =
      elim (Bool-cases (s.initialized && is_open s fd && (s.files (to_nat fd)).is_writable)) [
        | inr w ↦ rw w (_, _, refl, inl refl)
        | inl w ↦
            let (r, fi', c', e, k) =
              pwrite_file-Counts (s.files (to_nat fd)) buf offset s.card keeps finds spc small v in
            rw (w, ◌>>=◌, on_card, e) (r, _, refl, k)
      ]
