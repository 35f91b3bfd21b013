-- ===== src/Buffer/Content.antt =====
-- A buffered descriptor of src/m65ftp_lib.c as a file: a size, and a byte at every offset.
use mega65fs.Base.{
  ℕ, zero, suc, ◌+◌, ◌-◌, ◌*◌, ◌^◌, ◌≤◌, ◌<◌, ◌≡◌, refl, ap, ◌⊎◌, some, List, ◌++◌, arith, ltb,
  if◌then◌else◌, length, take, drop, replicate, get_or, Bool-cases, min, length-append, length-take,
  length-drop, length-replicate, get_or-append, get_or-drop, get_or-take, get_or-replicate,
  get_or_end, inl, inr,
}
use native.Mathlib.Nat.{pow-suc}
use mega65fs.Store.{FileInfo, buffer_limit}
use mega65fs.Buffer.{bytes_of, clip, pread_buffered, double_until}

-- Bytes that the buffer does not hold are zero.
abbrev pub byte_at : FileInfo → ℕ → ℕ
byte_at fi i = get_or (bytes_of fi.write_buf) i 0

pub record IsBuffered (fi : FileInfo) : Type 0 where
  pub cap : length (bytes_of fi.write_buf) ≡ fi.write_buf_cap
  pub limit : fi.write_buf_cap ≤ buffer_limit

-- n bytes from `offset` on, of which the first f are in the buffer.
abbrev window : List ℕ → ℕ → ℕ → ℕ → List ℕ
window b offset n f = take f (drop offset b) ++ replicate (n - f) 0

module _ (b : List ℕ) (offset n f : ℕ) where
  length-window : f ≤ n → offset + f ≤ length b → length (window b offset n f) ≡ n
  length-window le fits = omega (
    arith,
    length-append (take f (drop offset b)) (replicate (n - f) 0),
    length-take f (drop offset b),
    length-drop offset b,
    length-replicate {A = ℕ} (n - f) 0,
  )

  get_or-window :
      (i : ℕ)
      → f ≤ n
      → offset + f ≤ length b
      → i < n
      → (n ≡ f) ⊎ (length b ≤ offset + f)
      → get_or (window b offset n f) i 0 ≡ get_or b (offset + i) 0
  get_or-window i le fits h full = ground (
    arith,
    get_or-append (take f (drop offset b)) (replicate (n - f) 0) i 0,
    length-take f (drop offset b),
    length-drop offset b,
    get_or-take f i (drop offset b) 0,
    get_or-drop offset i b 0,
    get_or-replicate {A = ℕ} (n - f) (i - length (take f (drop offset b))) 0,
    get_or_end b (offset + i) 0,
  )

module _ (fi : FileInfo) (v : IsBuffered fi) where
  pub length-pread :
      (count offset : ℕ)
      → length (pread_buffered fi count offset) ≡ min count (fi.file_size - offset)
  unfolding pread_buffered
  length-pread count offset =
      let n = clip fi.file_size count offset in
      let f = if ltb fi.write_buf_cap (offset + n) then fi.write_buf_cap - offset else n in
      ground (
        arith,
        v.cap,
        length-window (bytes_of fi.write_buf) offset n f,
        length-replicate {A = ℕ} n 0,
      )

  pub byte-pread :
      (count offset i : ℕ)
      → i < min count (fi.file_size - offset)
      → get_or (pread_buffered fi count offset) i 0 ≡ byte_at fi (offset + i)
  unfolding pread_buffered
  byte-pread count offset i h =
      let n = clip fi.file_size count offset in
      let f = if ltb fi.write_buf_cap (offset + n) then fi.write_buf_cap - offset else n in
      ground (
        arith,
        v.cap,
        get_or-window (bytes_of fi.write_buf) offset n f i,
        get_or-replicate {A = ℕ} n i 0,
        get_or_end (bytes_of fi.write_buf) (offset + i) 0,
      )

-- `new_cap` doubles up to the first capacity that holds `end`.
pub double_until_lem :
    (fuel end size : ℕ)
    → 0 < size
    → end ≤ size * 2 ^ fuel
    → (n : ℕ) × (double_until fuel end size ≡ some n)
      × (end ≤ n)
      × (size ≤ n)
      × ((n ≡ size) ⊎ (n < 2 * end))
unfolding double_until
double_until_lem zero end size h e = (size, ground arith, omega arith, omega arith, inl refl)
double_until_lem (suc fuel) end size h e = elim (Bool-cases (ltb size end)) [
  | inr enough ↦ (size, rw enough, ground arith, omega arith, inl refl)
  | inl short ↦
      let p : 2 ^ suc fuel ≡ 2 * 2 ^ fuel = omega (arith, pow-suc 2 fuel) in
      let (n, r, a, b, c) =
        double_until_lem fuel end (size * 2) (omega arith)
          (omega (arith, ap (λ (t : ℕ). size * t) p)) in
      (n, rw short r, a, omega arith, inr (ground (arith, c)))
]
