-- ===== src/Fs.antt =====
-- The FUSE callbacks of src/mega65fs.c. A callback returns 0 or a negated error number.
pub mod Handlers
pub mod Listing
pub mod Invalidated
use mega65fs.Base.{
  ℕ, zero, suc, ◌+◌, ◌-◌, ◌*◌, ◌/◌, bit_and, ℤ, pos, negsuc, minus_one, is_nonneg, to_nat, Bool,
  true, false, not, ◌&&◌, ◌||◌, Option, none, some, List, [], ◌∷◌, ltb, leb, ◌==◌, if◌then◌else◌,
  length, get_or, str_eq, Prog, pure, ◌>>=◌, ◌>>◌, call, get, put,
}
use mega65fs.Card.{Card, Library}
use mega65fs.Store.{Store, on_card}
use mega65fs.Path.{is_empty, root_dir}
use mega65fs.Files.{
  m65ftp_open, m65ftp_create, m65ftp_open_writable, m65ftp_close, m65ftp_fsync, m65ftp_sync,
}
use mega65fs.Read.{m65ftp_pread}
use mega65fs.Write.{m65ftp_pwrite}
use mega65fs.Truncate.{m65ftp_ftruncate}
use mega65fs.Meta.{Stat, Stamp, m65ftp_stat, m65ftp_utimens}
use mega65fs.Dirs.{m65ftp_mkdir, m65ftp_rmdir, m65ftp_unlink, m65ftp_rename}
use mega65fs.Mbr.{Partition, m65ftp_mbrinfo}
use mega65fs.Session.{m65ftp_init, m65ftp_finish}
use mega65fs.Cache.{
  DirectoryEntry, DirCache, Driver, max_path, no_listing, stat_from_cache, on_store, clock,
  invalidate_cache_parent, refresh_cache_if_expired,
}

-- `-e` for an error number e.
abbrev pub error : ℕ → ℤ
error e = negsuc (e - 1)

abbrev pub enoent : ℤ
enoent = error 2

abbrev pub eio : ℤ
eio = error 5

abbrev pub eisdir : ℤ
eisdir = error 21

abbrev pub einval : ℤ
einval = error 22

abbrev pub enametoolong : ℤ
enametoolong = error 36

abbrev pub enotempty : ℤ
enotempty = error 39

-- The fields of `struct stat` that are set.
pub record StatBuf : Type 0 where
  pub st_mode : ℕ
  pub st_nlink : ℕ
  pub st_size : ℕ
  pub st_blocks : ℕ
  pub st_atim : ℕ
  pub st_mtim : ℕ
  pub st_ctim : ℕ

abbrev pub zero_stat : StatBuf
zero_stat = record {
  st_mode = 0;
  st_nlink = 0;
  st_size = 0;
  st_blocks = 0;
  st_atim = 0;
  st_mtim = 0;
  st_ctim = 0;
}

-- `S_IFDIR | DIR_MODE` and `S_IFREG | FILE_MODE`
abbrev pub dir_mode : ℕ
dir_mode = 0x41ed

abbrev pub file_mode : ℕ
file_mode = 0x81a4

unfoldable pub stat_buf : Stat → StatBuf
stat_buf st = record {
  st_mode = if st.is_dir then dir_mode else file_mode;
  st_nlink = if st.is_dir then 2 else 1;
  st_size = if st.is_dir then 4096 else st.size;
  st_blocks = if st.is_dir then 8 else (st.size + 512 - 1) / 512;
  st_atim = st.mtime;
  st_mtim = st.mtime;
  st_ctim = st.mtime;
}

-- What readdir passes on for a cached entry.
unfoldable pub entry_stat : DirectoryEntry → StatBuf
entry_stat e = record zero_stat {
  st_mode = if e.is_dir then dir_mode else file_mode;
  st_nlink = if e.is_dir then 2 else 1;
  st_size = e.size;
  st_blocks = (e.size + 512 - 1) / 512;
  st_mtim = e.mtime;
}

-- `filler`: name, attributes and next offset; whether the buffer is full, and the buffer.
abbrev pub Filler : Type 0 → Type 0
Filler B = List ℕ → StatBuf → ℕ → B → Bool × B

-- The loop of `fs_readdir` over the entries, at position `pos'`.
unfoldable pub emit_entries : {B : Type 0} → Filler B → ℕ → List DirectoryEntry → ℕ → B → B
emit_entries filler offset [] pos' buf = buf
emit_entries filler offset (e ∷ entries) pos' buf = elim e.valid [
  | false ↦ emit_entries filler offset entries pos' buf
  | true ↦ elim (leb offset pos') [
    | false ↦ emit_entries filler offset entries (pos' + 1) buf
    | true ↦
        let (full, buf') = filler e.name (entry_stat e) (pos' + 1) buf in
        elim full [ true ↦ buf' | false ↦ emit_entries filler offset entries (pos' + 1) buf' ]
  ]
]

-- The fields of `struct statvfs` that are set.
pub record Statvfs : Type 0 where
  pub f_frsize : ℕ
  pub f_bsize : ℕ
  pub f_blocks : ℕ
  pub f_bfree : ℕ
  pub f_bavail : ℕ
  pub f_files : ℕ
  pub f_ffree : ℕ
  pub f_namemax : ℕ

unfoldable pub entries_size : List DirectoryEntry → ℕ
entries_size [] = 0
entries_size (e ∷ entries) = (if e.valid then e.size else 0) + entries_size entries

unfoldable pub used_bytes : List DirCache → ℕ
unfolding entries_size
used_bytes [] = 0
used_bytes (slot ∷ slots) = (if slot.valid then entries_size slot.entries else 0) + used_bytes slots

unfoldable pub space : ℕ → ℕ → Statvfs
space total_bytes used =
    let total_blocks = total_bytes / 4096 in
    let used_blocks = (used + 4096 - 1) / 4096 in
    let free_blocks = if ltb used_blocks total_blocks then total_blocks - used_blocks else 0 in
    record {
      f_frsize = 4096;
      f_bsize = 4096;
      f_blocks = total_blocks;
      f_bfree = free_blocks;
      f_bavail = free_blocks;
      f_files = 65535;
      f_ffree = 60000;
      f_namemax = 255;
    }

abbrev pub fallback_total_bytes : ℕ
fallback_total_bytes = 13782993408

-- `STATFS` takes the first partition's size where the table could be read and is not empty.
abbrev pub total_bytes_of : ℤ × List Partition → ℕ
total_bytes_of (pos (suc n), p ∷ rest) = p.sector_count * 512
total_bytes_of _ = fallback_total_bytes

-- `strlen(path) >= MAX_PATH`
abbrev pub too_long : List ℕ → Bool
too_long path = leb max_path (length path)

-- 0 for 0, and another error for any other result.
abbrev pub zero_or : ℤ → ℤ → ℤ
zero_or (pos zero) e = pos 0
zero_or (pos (suc n)) e = e
zero_or (negsuc n) e = e

-- A count, or an error for a negative one.
abbrev pub count_or : ℤ → ℤ → ℤ
count_or (pos n) e = pos n
count_or (negsuc n) e = e

module _ {R : Type 0} ⦃lib : Library R⦄ where
  unfoldable pub fs_init : Prog (Driver R) (Unit {0})
  fs_init = do _ ← on_store m65ftp_init; pure tt

  unfoldable pub fs_destroy : Prog (Driver R) (Unit {0})
  fs_destroy = on_store m65ftp_finish

  unfoldable pub fs_getattr : ℕ → List ℕ → Prog (Driver R) (ℤ × StatBuf)
  unfolding stat_buf stat_from_cache
  fs_getattr fuel path =
      if too_long path
      then pure (enametoolong, zero_stat)
      else (if str_eq path root_dir
          then (do
            now ← clock
            pure (pos 0, stat_buf (record { size = 0; is_dir = true; mtime = now })))
          else (do
            now ← clock
            d ← get
            elim (stat_from_cache path now d.slots) [
              | some st ↦ pure (pos 0, stat_buf st)
              | none ↦ do
                found ← on_store (m65ftp_stat fuel path)
                elim found [ none ↦ pure (enoent, zero_stat) | some st ↦ pure (pos 0, stat_buf st) ]
            ]))

  unfoldable pub fs_readdir : {B : Type 0} → ℕ → List ℕ → Filler B → ℕ → B → Prog (Driver R) (ℤ × B)
  unfolding emit_entries refresh_cache_if_expired
  fs_readdir fuel path filler offset buf =
      if too_long path
      then pure (enametoolong, buf)
      else (let dot = record zero_stat { st_mode = dir_mode; st_nlink = 2 } in
          let buf = if leb offset 0 then (filler (b'.' ∷ []) dot 1 buf).1 else buf in
          let buf = if leb offset 1 then (filler (b'.' ∷ b'.' ∷ []) dot 2 buf).1 else buf in
          do
            i ← refresh_cache_if_expired fuel path
            d ← get
            pure (pos 0, emit_entries filler offset (get_or d.slots i no_listing).entries 2 buf))

  -- The descriptor goes to `fi->fh`.
  unfoldable pub fs_open : ℕ → List ℕ → ℕ → Prog (Driver R) (ℤ × ℕ)
  fs_open fuel path flags = if too_long path then pure (enametoolong, 0) else do
    let acc = bit_and flags 3
    fd ←
        on_store
          (if acc == 1 || acc == 2 then m65ftp_open_writable fuel path else m65ftp_open fuel path)
    if is_nonneg fd then pure (pos 0, to_nat fd) else pure (enoent, 0)

  unfoldable pub fs_create : List ℕ → Prog (Driver R) (ℤ × ℕ)
  unfolding invalidate_cache_parent
  fs_create path = if too_long path then pure (enametoolong, 0) else do
    fd ← on_store (m65ftp_create path)
    if not (is_nonneg fd)
        then pure (eio, 0)
        else do invalidate_cache_parent path; pure (pos 0, to_nat fd)

  unfoldable pub fs_write : ℕ → List ℕ → ℕ → Prog (Driver R) ℤ
  fs_write fh buf offset = do
    res ← on_store (m65ftp_pwrite (pos fh) buf offset)
    pure (count_or res eio)

  unfoldable pub fs_read : ℕ → ℕ → ℕ → Prog (Driver R) (ℤ × List ℕ)
  fs_read fh size offset = do
    (res, bytes) ← on_store (m65ftp_pread (pos fh) size offset)
    pure (count_or res eio, bytes)

  unfoldable pub fs_release : ℕ → Prog (Driver R) ℤ
  fs_release fh = do on_store (m65ftp_close (pos fh)); pure (pos 0)

  unfoldable pub fs_flush : ℕ → Prog (Driver R) ℤ
  fs_flush fh = do res ← on_store (m65ftp_fsync (pos fh)); pure (zero_or res eio)

  unfoldable pub fs_fsync : ℕ → Prog (Driver R) ℤ
  fs_fsync fh = do res ← on_store (m65ftp_fsync (pos fh)); pure (zero_or res eio)

  unfoldable pub fs_fsyncdir : Prog (Driver R) ℤ
  fs_fsyncdir = do res ← on_store m65ftp_sync; pure (zero_or res eio)

  unfoldable pub fs_access : ℕ → List ℕ → Prog (Driver R) ℤ
  fs_access fuel path = if too_long path then pure enametoolong else do
    found ← on_store (m65ftp_stat fuel path)
    elim found [ none ↦ pure enoent | some st ↦ pure (pos 0) ]

  unfoldable pub fs_truncate : ℕ → ℕ → ℤ → Prog (Driver R) ℤ
  fs_truncate fuel fh length = do
    res ← on_store (m65ftp_ftruncate fuel (pos fh) length)
    pure (zero_or res eio)

  unfoldable pub fs_utimens : List ℕ → Option (Stamp × Stamp) → Prog (Driver R) ℤ
  fs_utimens path tv =
      if too_long path
      then pure enametoolong
      else do res ← on_store (m65ftp_utimens path tv); pure (zero_or res enoent)

  -- A call that changes a directory: -e if it fails, and else the parent's listing is dropped.
  unfoldable pub then_invalidate : List ℕ → ℤ → Prog (Store R) ℤ → Prog (Driver R) ℤ
  unfolding invalidate_cache_parent
  then_invalidate path e call' = do
    res ← on_store call'
    elim (zero_or res e) [
      | negsuc n ↦ pure (negsuc n)
      | pos n ↦ do invalidate_cache_parent path; pure (pos 0)
    ]

  unfoldable pub fs_mkdir : List ℕ → Prog (Driver R) ℤ
  unfolding then_invalidate
  fs_mkdir path =
      if too_long path then pure enametoolong else then_invalidate path eio (m65ftp_mkdir path)

  unfoldable pub fs_rmdir : ℕ → List ℕ → Prog (Driver R) ℤ
  unfolding then_invalidate
  fs_rmdir fuel path =
      if too_long path
      then pure enametoolong
      else then_invalidate path enotempty (m65ftp_rmdir fuel path)

  unfoldable pub fs_unlink : List ℕ → Prog (Driver R) ℤ
  unfolding then_invalidate
  fs_unlink path =
      if too_long path then pure enametoolong else then_invalidate path eisdir (m65ftp_unlink path)

  unfoldable pub fs_rename : List ℕ → List ℕ → ℕ → Prog (Driver R) ℤ
  unfolding then_invalidate invalidate_cache_parent
  fs_rename from to flags =
      if not (flags == 0)
      then pure einval
      else (if str_eq from to
          then pure (pos 0)
          else (if too_long from || too_long to then pure enametoolong else (do
            res ← then_invalidate from eio (m65ftp_rename from to)
            if is_nonneg res then (do invalidate_cache_parent to; pure res) else pure res)))

  unfoldable pub fs_statfs : Prog (Driver R) Statvfs
  unfolding space used_bytes
  fs_statfs = do
    parts ← on_store m65ftp_mbrinfo
    d ← get
    pure (space (total_bytes_of parts) (used_bytes d.slots))
