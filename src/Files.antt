-- ===== src/Files.antt =====
-- src/m65ftp_lib.c: m65ftp_open, m65ftp_create, m65ftp_open_writable, m65ftp_close, m65ftp_fsync
-- and m65ftp_sync. A descriptor is an integer, -1 on failure.
pub mod Descriptors
pub mod Finalise
pub mod Synced
use mega65fs.Base.{
  ℕ, ◌+◌, ℤ, pos, minus_one, to_nat, to_int32, Bool, true, false, not, ◌&&◌, none, some, List, ◌∷◌,
  u32, ltb, if◌then◌else◌, length, replicate, Prog, pure, ◌>>=◌, ◌>>◌, call, run, get, put,
  drop_result,
}
use mega65fs.Card.{Card, Library, Dirent}
use mega65fs.Store.{FileInfo, Store, max_files, file_at, put_file, on_card, is_open, alloc_fd}
use mega65fs.Path.{is_empty, split_path, set_current_dir, find_entry}
use mega65fs.Chain.{write_entry}
use mega65fs.Flush.{has_entry, flush_write_buffer}
use mega65fs.Entry.{set_entry_file_size}

-- The slot of a file opened for reading. `dir_sector_offset` keeps what the slot had.
abbrev pub opened : Dirent → FileInfo → FileInfo
opened e old = record old {
  first_cluster = u32 e.d_ino;
  file_size = u32 e.d_filelen;
  current_cluster = u32 e.d_ino;
  current_cluster_idx = 0;
  last_offset = 0;
  is_writable = false;
  buffered = false;
  write_buf = none;
  write_buf_cap = 0;
  dir_sector_buf = replicate 512 0;
  dir_sector = minus_one;
  write_cluster = 0;
  sector_in_cluster = 0;
  in_use = true;
}

module _ {R : Type 0} where
  -- The slot of a new file. `dir_sector` of the library is unsigned, that of the slot an int.
  abbrev pub created : Card R → FileInfo
  created c = record {
    first_cluster = 0;
    file_size = 0;
    current_cluster = 0;
    current_cluster_idx = 0;
    last_offset = 0;
    is_writable = true;
    buffered = true;
    write_buf = none;
    write_buf_cap = 0;
    dir_sector = to_int32 c.dir_sector;
    dir_sector_offset = c.dir_sector_offset;
    dir_sector_buf = c.dir_sector_buffer;
    write_cluster = 0;
    sector_in_cluster = 0;
    in_use = true;
  }

  abbrev pub opened_writable : Card R → Dirent → FileInfo
  opened_writable c e = record {
    first_cluster = u32 e.d_ino;
    file_size = u32 e.d_filelen;
    current_cluster = u32 e.d_ino;
    current_cluster_idx = 0;
    last_offset = 0;
    is_writable = true;
    buffered = false;
    write_buf = none;
    write_buf_cap = 0;
    dir_sector = to_int32 c.dir_sector;
    dir_sector_offset = c.dir_sector_offset;
    dir_sector_buf = c.dir_sector_buffer;
    write_cluster = u32 e.d_ino;
    sector_in_cluster = 0;
    in_use = true;
  }

  -- A new descriptor whose slot is computed from the state and the slot's old contents.
  unfoldable pub new_file : (Card R → FileInfo → FileInfo) → Prog (Store R) ℤ
  unfolding alloc_fd
  new_file slot = do
    fd ← alloc_fd
    elim fd [
      | none ↦ pure minus_one
      | some fd ↦ do s ← get; put_file fd (slot s.card (s.files fd)); pure (pos fd)
    ]

module _ {R : Type 0} ⦃lib : Library R⦄ where
  -- What `open` and `open_writable` share: they differ in `show_errmsg` and in the slot.
  unfoldable pub open_entry :
      ℕ → Bool → (Dirent → Card R → FileInfo → FileInfo) → List ℕ → Prog (Store R) ℤ
  unfolding new_file split_path find_entry
  open_entry fuel show_errmsg slot path = do
    s ← get
    if not s.initialized then pure minus_one else elim (split_path path) [
      | none ↦ pure minus_one
      | some (dir_path, file_name) ↦ do
        found ← on_card (call (lib.fat_opendir dir_path show_errmsg))
        if not found then pure minus_one else do
          entry ← on_card (find_entry fuel file_name)
          elim entry [ none ↦ pure minus_one | some e ↦ new_file (slot e) ]
    ]

  unfoldable pub m65ftp_open : ℕ → List ℕ → Prog (Store R) ℤ
  unfolding open_entry
  m65ftp_open fuel = open_entry fuel false (λ e c old. opened e old)

  unfoldable pub m65ftp_open_writable : ℕ → List ℕ → Prog (Store R) ℤ
  unfolding open_entry
  m65ftp_open_writable fuel = open_entry fuel true (λ e c old. opened_writable c e)

  -- In the new file's directory: drop an old file of that name, make the entry, take a slot.
  unfoldable pub create_in : List ℕ → List ℕ → Prog (Store R) ℤ
  unfolding new_file
  create_in dir_path file_name = do
    found ← on_card (call (lib.fat_opendir dir_path true))
    if not found then pure minus_one else do
      old ← on_card (call (lib.find_file_in_curdir file_name))
      elim old [
        | none ↦ pure tt
        | some e ↦
            on_card (do
              run (lib.delete_file_or_dir file_name)
              drop_result (lib.fat_opendir dir_path true))
      ]
      made ← on_card (call (lib.create_direntry_with_attrib file_name 0x20))
      if not made then pure minus_one else do
        s ← get
        on_card (
            drop_result (
              lib.write_sector (u32 (s.card.partition_start + s.card.dir_sector))
                s.card.dir_sector_buffer))
        new_file (λ c old. created c)

  -- Every return restores `current_dir`.
  unfoldable pub m65ftp_create : List ℕ → Prog (Store R) ℤ
  unfolding create_in split_path
  m65ftp_create path = do
    s ← get
    if not s.initialized then pure minus_one else elim (split_path path) [
      | none ↦ pure minus_one
      | some (dir_path, file_name) ↦ if is_empty file_name then pure minus_one else do
        let saved_dir = s.card.current_dir
        on_card (set_current_dir dir_path)
        fd ← create_in dir_path file_name
        on_card (set_current_dir saved_dir)
        pure fd
    ]

  -- What `close` writes for a writable descriptor.
  unfoldable pub finalise : FileInfo → Prog (Card R) FileInfo
  finalise fi = do
    (_, fi) ← (if fi.buffered then flush_write_buffer fi else pure (true, fi))
    let entry = if has_entry fi then set_entry_file_size fi fi.file_size else fi
    if has_entry fi then write_entry entry else pure tt
    run lib.execute_write_queue
    pure entry

  unfoldable pub m65ftp_close : ℤ → Prog (Store R) (Unit {0})
  m65ftp_close fd = do
    s ← get
    if not (is_open s fd) then pure tt else do
      let n = to_nat fd
      fi ← (if (s.files n).is_writable then on_card (finalise (s.files n)) else file_at n)
      put_file n
          (record fi { write_buf = none; write_buf_cap = 0; first_cluster = 0; in_use = false })
      s ← get
      put (record s {
        free_fds = if ltb (length s.free_fds) max_files then n ∷ s.free_fds else s.free_fds;
      })

  unfoldable pub m65ftp_fsync : ℤ → Prog (Store R) ℤ
  m65ftp_fsync fd = do
    s ← get
    if not (s.initialized && is_open s fd) then pure minus_one else do
      let n = to_nat fd
      let fi = s.files n
      (flushed, fi) ←
          (if fi.is_writable && fi.buffered
            then on_card (flush_write_buffer fi)
            else pure (true, fi))
      put_file n fi
      if not flushed then pure minus_one else do on_card (run lib.execute_write_queue); pure (pos 0)

  unfoldable pub m65ftp_sync : Prog (Store R) ℤ
  m65ftp_sync = do
    s ← get
    if not s.initialized
        then pure minus_one
        else do on_card (run lib.execute_write_queue); pure (pos 0)
