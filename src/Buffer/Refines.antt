-- ===== src/Buffer/Refines.antt =====
-- Buffered reads and writes of src/m65ftp_lib.c against the file that the buffer stands for.
use mega65fs.Base.{
  ltb→lt, ℕ, ◌+◌, ◌-◌, ◌≤◌, ◌<◌, ◌≡◌, ap, ◌∙◌, pos, true, ◌&&◌, inl, inr, some, List, arith, ltb,
  leb, ◌==◌, if◌then◌else◌, length, replicate, get_or, Bool-cases, get_or_ext, length-append,
  length-splice, length-replicate, get_or-append, get_or-splice, get_or-replicate, get_or_end, ◌^◌,
  min,
}
use mega65fs.Card.{Card, Library}
use mega65fs.Store.{FileInfo, buffer_limit}
use mega65fs.Buffer.{bytes_of, pread_buffered, new_capacity, grow, store_bytes}
use mega65fs.Buffer.Content.{byte_at, IsBuffered, length-pread, byte-pread, double_until_lem}
use mega65fs.Write.{pwrite_buffered}

-- The capacity asked for: at least the old one, at most the limit, and enough for `end` if the
-- limit allows.
pub new_capacity_lem :
    (fi : FileInfo) (end : ℕ)
    → IsBuffered fi
    → fi.write_buf_cap < end
    → end < 2 ^ 63
    → (n : ℕ) × (new_capacity fi.write_buf_cap end ≡ some n)
      × (fi.write_buf_cap ≤ n)
      × (n ≤ buffer_limit)
      × (end ≤ buffer_limit → end ≤ n)
unfolding new_capacity
new_capacity_lem fi end v lt le =
    let start : ℕ = if fi.write_buf_cap == 0 then 4096 else fi.write_buf_cap in
    let p : 0 < start = ground arith in
    let (n, r, a, b, c) = double_until_lem 64 end start p (omega arith) in
    (
      if ltb buffer_limit n then buffer_limit else n,
      rw (r, new_capacity),
      ground (arith, v.limit),
      ground arith,
      λ h. ground arith,
    )

module _ (fi : FileInfo) (v : IsBuffered fi) where
  pub grow-IsBuffered : (n : ℕ) → fi.write_buf_cap ≤ n → n ≤ buffer_limit → IsBuffered (grow fi n)
  unfolding grow
  grow-IsBuffered n le lim = record {
    cap = omega (
      arith,
      v.cap,
      length-append (bytes_of fi.write_buf) (replicate (n - fi.write_buf_cap) 0),
      length-replicate {A = ℕ} (n - fi.write_buf_cap) 0,
    );
    limit = lim;
  }

  pub byte-grow : (n i : ℕ) → byte_at (grow fi n) i ≡ byte_at fi i
  unfolding grow
  byte-grow n i = ground (
    arith,
    get_or-append (bytes_of fi.write_buf) (replicate (n - fi.write_buf_cap) 0) i 0,
    get_or-replicate {A = ℕ} (n - fi.write_buf_cap) (i - length (bytes_of fi.write_buf)) 0,
    get_or_end (bytes_of fi.write_buf) i 0,
  )

  store-IsBuffered : (buf : List ℕ) (offset : ℕ) → IsBuffered (store_bytes fi buf offset)
  unfolding store_bytes
  store-IsBuffered buf offset = record {
    cap = length-splice offset buf (bytes_of fi.write_buf) ∙ v.cap;
    limit = v.limit;
  }

  byte-store :
      (buf : List ℕ) (offset i : ℕ)
      → offset + length buf ≤ fi.write_buf_cap
      → byte_at (store_bytes fi buf offset) i ≡ (
          if leb offset i && ltb i (offset + length buf)
          then get_or buf (i - offset) 0
          else byte_at fi i)
  unfolding store_bytes
  byte-store buf offset i le =
      get_or-splice offset buf (bytes_of fi.write_buf) i 0 (omega (arith, v.cap))

-- The file after a write of `buf` at `offset`.
pub record Written (fi : FileInfo) (buf : List ℕ) (offset : ℕ) (fi' : FileInfo) : Type 0 where
  pub buffered : IsBuffered fi'
  pub size :
      fi'.file_size
      ≡ (if ltb fi.file_size (offset + length buf) then offset + length buf else fi.file_size)
  pub bytes :
      (i : ℕ)
      → byte_at fi' i ≡ (
          if leb offset i && ltb i (offset + length buf)
          then get_or buf (i - offset) 0
          else byte_at fi i)

store-Written :
    (fi : FileInfo) (buf : List ℕ) (offset : ℕ)
    → IsBuffered fi
    → offset + length buf ≤ fi.write_buf_cap
    → Written fi buf offset (store_bytes fi buf offset)
unfolding store_bytes
store-Written fi buf offset v le = record {
  buffered = store-IsBuffered fi v buf offset;
  size = ground (arith, v.limit);
  bytes = λ i. byte-store fi v buf offset i le;
}

grow_store-Written :
    (fi : FileInfo) (buf : List ℕ) (offset n : ℕ)
    → IsBuffered fi
    → fi.write_buf_cap ≤ n
    → offset + length buf ≤ n
    → n ≤ buffer_limit
    → Written fi buf offset (store_bytes (grow fi n) buf offset)
unfolding store_bytes grow
grow_store-Written fi buf offset n v le fits lim = record {
  buffered = store-IsBuffered (grow fi n) (grow-IsBuffered fi v n le lim) buf offset;
  size = ground arith;
  bytes = λ i.
      byte-store (grow fi n) (grow-IsBuffered fi v n le lim) buf offset i fits
      ∙ ap
          (λ (t : ℕ).
            if leb offset i && ltb i (offset + length buf) then get_or buf (i - offset) 0 else t)
          (byte-grow fi v n i);
}

pread-Written :
    (fi fi' : FileInfo) (buf : List ℕ) (offset : ℕ)
    → Written fi buf offset fi'
    → pread_buffered fi' (length buf) offset ≡ buf
pread-Written fi fi' buf offset w =
    get_or_ext (pread_buffered fi' (length buf) offset) buf 0
      (ground (arith, length-pread fi' w.buffered (length buf) offset, w.size))
      (λ i h. ground (
        arith,
        byte-pread fi' w.buffered (length buf) offset i,
        w.size,
        w.bytes (offset + i),
        length-pread fi' w.buffered (length buf) offset,
      ))

-- For a well-formed write buffer: a buffered read stores as many bytes as are asked for and lie
-- before the end of the file, and at each of those places the byte that the file has there, which
-- is 0 behind the buffer.
pub pread_buffered_lem :
    (fi : FileInfo) (count offset i : ℕ)
    → IsBuffered fi
    → (length (pread_buffered fi count offset) ≡ min count (fi.file_size - offset))
      × (get_or (pread_buffered fi count offset) i 0
          ≡ (if ltb i (min count (fi.file_size - offset)) then byte_at fi (offset + i) else 0))
pread_buffered_lem fi count offset i v = (
  length-pread fi v count offset,
  elim (Bool-cases (ltb i (min count (fi.file_size - offset)))) [
    | inl h ↦ rw h (byte-pread fi v count offset i (ltb→lt i _ h))
    | inr h ↦ rw h (
        get_or_end (pread_buffered fi count offset) i 0
          (ground (arith, length-pread fi v count offset)))
  ],
)

module _ {R : Type 0} ⦃lib : Library R⦄ where
  -- For a well-formed write buffer, a write that ends within the buffer limit and a `realloc` that
  -- succeeds: the write answers its length, leaves a well-formed buffer, grows the size to the end
  -- of the write where that is larger, and changes exactly the bytes written.
  pub pwrite_buffered-Written :
      (fi : FileInfo) (buf : List ℕ) (offset : ℕ) (c : Card R)
      → IsBuffered fi
      → offset + length buf ≤ buffer_limit
      → ((n : ℕ) → (lib.realloc n c).0 ≡ true)
      → (fi' : FileInfo) × (c' : Card R) × (pwrite_buffered fi buf offset c
          ≡ some ((pos (length buf), fi'), c'))
        × Written fi buf offset fi'
  unfolding pwrite_buffered
  pwrite_buffered-Written fi buf offset c v le mem =
      elim (Bool-cases (leb (offset + length buf) fi.write_buf_cap)) [
        | inl fits ↦
            (store_bytes fi buf offset, c, rw fits, store-Written fi buf offset v (ground arith))
        | inr short ↦
            let (n, e, old, lim, enough) =
              new_capacity_lem fi (offset + length buf) v (ground arith) (omega arith) in
            (
              store_bytes (grow fi n) buf offset,
              (lib.realloc n c).1,
              rw (short, e, mem n),
              grow_store-Written fi buf offset n v old (enough le) lim,
            )
      ]

  -- For a well-formed write buffer, a write that ends within the buffer limit and a `realloc` that
  -- succeeds: the write answers its length, and a read of as many bytes at the same offset gives
  -- back the bytes written.
  pub pread-pwrite :
      (fi : FileInfo) (buf : List ℕ) (offset : ℕ) (c : Card R)
      → IsBuffered fi
      → offset + length buf ≤ buffer_limit
      → ((n : ℕ) → (lib.realloc n c).0 ≡ true)
      → (fi' : FileInfo) × (c' : Card R) × (pwrite_buffered fi buf offset c
          ≡ some ((pos (length buf), fi'), c'))
        × (pread_buffered fi' (length buf) offset ≡ buf)
  pread-pwrite fi buf offset c v le mem =
      let (fi', c', e, w) = pwrite_buffered-Written fi buf offset c v le mem in
      (fi', c', e, pread-Written fi fi' buf offset w)
