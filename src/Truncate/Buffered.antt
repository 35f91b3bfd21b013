-- ===== src/Truncate/Buffered.antt =====
-- The branch of m65ftp_ftruncate of src/m65ftp_lib.c for a buffered file.
use mega65fs.Base.{
  ℕ, u32, ◌+◌, ◌-◌, ◌^◌, ◌<◌, ◌≡◌, refl, pos, true, false, inl, inr, some, arith, leb, ◌==◌, get_or,
  Bool-cases, if◌then◌else◌, ltb,
}
use mega65fs.Card.{Card, Library}
use mega65fs.Store.{FileInfo}
use mega65fs.Buffer.{grow, pread_buffered}
use mega65fs.Buffer.Content.{byte_at, IsBuffered}
use mega65fs.Buffer.Refines.{new_capacity_lem, grow-IsBuffered, byte-grow, pread_buffered_lem}
use mega65fs.Truncate.{truncate_buffered}

-- The file after a truncation to n bytes: nothing but the size has changed.
pub record Resized (fi : FileInfo) (n : ℕ) (fi' : FileInfo) : Type 0 where
  pub buffered : IsBuffered fi'
  pub size : fi'.file_size ≡ n
  pub bytes : (i : ℕ) → byte_at fi' i ≡ byte_at fi i

module _ {R : Type 0} ⦃lib : Library R⦄ where
  -- For a well-formed write buffer, a length from 1 to 2^32 - 1 and a `realloc` that succeeds:
  -- truncating the buffered file answers 0, sets the size, leaves a well-formed buffer, and
  -- changes no byte that the buffer stands for, neither those behind the new end.
  pub truncate_buffered-Resized :
      (fi : FileInfo) (n : ℕ) (c : Card R)
      → IsBuffered fi
      → 0 < n
      → n < 2 ^ 32
      → ((m : ℕ) → (lib.realloc m c).0 ≡ true)
      → (fi' : FileInfo) × (c' : Card R) × (truncate_buffered fi n c ≡ some ((pos 0, fi'), c'))
        × Resized fi n fi'
  unfolding truncate_buffered grow
  truncate_buffered-Resized fi n c v p small mem =
      let sized = record fi { file_size = u32 n } in
      let v' : IsBuffered sized = record { cap = v.cap; limit = v.limit } in
      let nz : (n == 0) ≡ false = ground arith in
      let e : u32 n ≡ n = omega arith in
      elim (Bool-cases (leb n fi.write_buf_cap)) [
        | inl fits ↦
            (sized, c, rw (nz, fits), record { buffered = v'; size = e; bytes = λ i. refl })
        | inr short ↦
            let (cap', r, old, lim, enough) =
              new_capacity_lem fi n v (ground arith) (omega arith) in
            (
              grow sized cap',
              (lib.realloc cap' c).1,
              rw (nz, short, r, mem cap'),
              record {
                buffered = grow-IsBuffered sized v' cap' old lim;
                size = e;
                bytes = λ i. byte-grow sized v' cap' i;
              },
            )
      ]

  -- For a buffered file of m bytes with a well-formed buffer, 0 < n < m < 2^32 and a `realloc`
  -- that succeeds: truncating to n and then to m bytes succeeds, and a read of the bytes from n on
  -- gives the old bytes, not zeros.
  pub truncate_twice-pread :
      (fi : FileInfo) (n m : ℕ) (c : Card R)
      → IsBuffered fi
      → fi.file_size ≡ m
      → 0 < n
      → n < m
      → m < 2 ^ 32
      → ((m : ℕ) (c : Card R) → (lib.realloc m c).0 ≡ true)
      → (f : FileInfo) × (g : FileInfo) × (c' : Card R) × (c'' : Card R) × (truncate_buffered fi n c
          ≡ some ((pos 0, f), c'))
        × (truncate_buffered f m c' ≡ some ((pos 0, g), c''))
        × ((i : ℕ)
            → get_or (pread_buffered g (m - n) n) i 0
              ≡ (if ltb i (m - n) then byte_at fi (n + i) else 0))
  truncate_twice-pread fi n m c v s p lt small mem =
      let (f, c', e, r) = truncate_buffered-Resized fi n c v p (omega arith) (λ k. mem k c) in
      let (g, c'', e', r') =
        truncate_buffered-Resized f m c' r.buffered (omega arith) small (λ k. mem k c') in
      (
        f,
        g,
        c',
        c'',
        e,
        e',
        λ i. ground (
          arith,
          (pread_buffered_lem g (m - n) n i r'.buffered).1,
          r'.size,
          r'.bytes (n + i),
          r.bytes (n + i),
        ),
      )
