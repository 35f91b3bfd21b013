-- ===== src/Buffer.antt =====
-- src/m65ftp_lib.c, the buffered branches of m65ftp_pread, m65ftp_pwrite and m65ftp_ftruncate:
-- a new file whose bytes are still in host memory. Offsets and sizes (off_t, size_t) are far below
-- 2^63 and stay plain numbers; `file_size` is 32 bits wide.
pub mod Content
pub mod Refines
use mega65fs.Base.{
  ℕ, zero, suc, ◌+◌, ◌-◌, ◌*◌, Option, none, some, List, [], ◌++◌, u32, ltb, leb, ◌==◌,
  if◌then◌else◌, length, take, drop, replicate, splice,
}
use mega65fs.Store.{FileInfo, buffer_limit}

abbrev pub bytes_of : Option (List ℕ) → List ℕ
bytes_of none = []
bytes_of (some b) = b

-- `if (offset + count > file_size) count = file_size - offset;`
abbrev pub clip : ℕ → ℕ → ℕ → ℕ
clip file_size count offset = if ltb file_size (offset + count) then file_size - offset else count

-- The bytes that a buffered read stores; their number is the result.
unfoldable pub pread_buffered : FileInfo → ℕ → ℕ → List ℕ
pread_buffered fi count offset =
    if count == 0
    then []
    else (if leb fi.file_size offset
        then []
        else (let n = clip fi.file_size count offset in
            let avail = fi.write_buf_cap in
            let from_buf = if ltb avail (offset + n) then avail - offset else n in
            if ltb offset avail
            then take from_buf (drop offset (bytes_of fi.write_buf)) ++ replicate (n - from_buf) 0
            else replicate n 0))

-- `while (new_cap < end) new_cap *= 2;`, `none` if it does not end within the fuel.
unfoldable pub double_until : ℕ → ℕ → ℕ → Option ℕ
double_until zero end new_cap = if ltb new_cap end then none else some new_cap
double_until (suc fuel) end new_cap =
    let more = double_until fuel end (new_cap * 2) in if ltb new_cap end then more else some new_cap

-- The capacity asked for: it starts from 4096, and a size is below 2^64.
unfoldable pub new_capacity : ℕ → ℕ → Option ℕ
unfolding double_until
new_capacity cap end = elim (double_until 64 end (if cap == 0 then 4096 else cap)) [
  | none ↦ none
  | some new_cap ↦ some (if ltb buffer_limit new_cap then buffer_limit else new_cap)
]

-- `realloc` to new_cap bytes, and `memset` of the new ones.
unfoldable pub grow : FileInfo → ℕ → FileInfo
grow fi new_cap = record fi {
  write_buf = some (bytes_of fi.write_buf ++ replicate (new_cap - fi.write_buf_cap) 0);
  write_buf_cap = new_cap;
}

-- `memcpy(write_buf + offset, buf, count)`, and the new size.
unfoldable pub store_bytes : FileInfo → List ℕ → ℕ → FileInfo
store_bytes fi buf offset = record fi {
  write_buf = some (splice offset buf (bytes_of fi.write_buf));
  file_size =
      if ltb fi.file_size (offset + length buf) then u32 (offset + length buf) else fi.file_size;
}
