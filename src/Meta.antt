-- ===== src/Meta.antt =====
-- src/m65ftp_lib.c: m65ftp_stat, m65ftp_readdir and m65ftp_utimens.
pub mod Words
pub mod Stamps
pub mod Utimens
use mega65fs.Base.{
  ℕ, zero, suc, ◌+◌, ◌-◌, ◌*◌, ◌/◌, ◌%◌, ◌^◌, bit_and, bit_or, ℤ, pos, minus_one, to_nat, Bool,
  true, false, not, ◌||◌, Option, none, some, List, u32, ◌==◌, if◌then◌else◌, set, str_eq, Prog,
  pure, out_of_fuel, ◌>>=◌, ◌>>◌, call, run, get, put,
}
use mega65fs.Card.{Card, Library, Dirent, Tm}
use mega65fs.Store.{Store, on_card}
use mega65fs.Path.{is_empty, root_dir, split_path, shown_name, set_current_dir, find_entry}

-- `(d_attr & FAT_ATTR_DIRECTORY) ? 1 : 0`
abbrev pub is_directory : Dirent → Bool
is_directory e = not (bit_and e.d_attr 0x10 == 0)

-- What `m65ftp_stat` stores on success.
pub record Stat : Type 0 where
  pub size : ℕ
  pub is_dir : Bool
  pub mtime : ℕ

-- One entry of a listing, as the callback receives it.
pub record Listed : Type 0 where
  pub name : List ℕ
  pub file_size : ℕ
  pub is_dir : Bool
  pub mtime : ℕ

-- `tv_nsec` of a time stamp: UTIME_OMIT, UTIME_NOW, or neither with the seconds.
pub data Stamp : Type 0 where
  omit : Stamp
  now : Stamp
  seconds : ℕ → Stamp

-- The FAT words for a time and a date: `uint16_t`, so that higher bits are dropped.
unfoldable pub time_word : Tm → ℕ
time_word tm = bit_or (bit_or (tm.tm_hour * 2 ^ 11) (tm.tm_min * 2 ^ 5)) (tm.tm_sec / 2) % 2 ^ 16

unfoldable pub date_word : Tm → ℕ
date_word tm =
    bit_or (bit_or ((tm.tm_year + 2 ^ 32 - 80) * 2 ^ 9) ((tm.tm_mon + 1) * 2 ^ 5)) tm.tm_mday
    % 2 ^ 16

-- The two bytes of a word, low byte first.
abbrev pub put_word : List ℕ → ℕ → ℕ → List ℕ
put_word buf o w = set (set buf o (w % 256)) (o + 1) (w / 2 ^ 8 % 256)

-- The stamp's seconds, or none for UTIME_OMIT.
abbrev pub resolve : ℕ → Stamp → Option ℕ
resolve t omit = none
resolve t now = some t
resolve t (seconds n) = some n

abbrev pub stamps : ℕ → Option (Stamp × Stamp) → Option ℕ × Option ℕ
stamps t none = (some t, some t)
stamps t (some (access, modification)) = (resolve t access, resolve t modification)

abbrev pub broken_down : (ℕ → Option Tm) → Option ℕ → Option Tm
broken_down localtime none = none
broken_down localtime (some t) = localtime t

-- Write time and date, and access date, in the entry of the library's directory sector.
abbrev pub stamp_write : Option Tm → ℕ → List ℕ → List ℕ
stamp_write none o buf = buf
stamp_write (some tm) o buf =
    put_word (put_word buf (o + 0x16) (time_word tm)) (o + 0x18) (date_word tm)

abbrev pub stamp_access : Option Tm → ℕ → List ℕ → List ℕ
stamp_access none o buf = buf
stamp_access (some tm) o buf = put_word buf (o + 0x12) (date_word tm)

module _ {R : Type 0} ⦃lib : Library R⦄ where
  unfoldable pub m65ftp_stat : ℕ → List ℕ → Prog (Store R) (Option Stat)
  unfolding split_path find_entry
  m65ftp_stat fuel path = do
    s ← get
    if not s.initialized
        then pure none
        else (if str_eq path root_dir
            then (do
              t ← on_card (call lib.time)
              pure (some (record { size = 0; is_dir = true; mtime = t })))
            else elim (split_path path) [
              | none ↦ pure none
              | some (dir_path, file_name) ↦ do
                found ← on_card (call (lib.fat_opendir dir_path false))
                if not found then pure none else do
                  entry ← on_card (find_entry fuel file_name)
                  elim entry [
                    | none ↦ pure none
                    | some e ↦ pure (
                        some (record {
                          size = u32 e.d_filelen;
                          is_dir = is_directory e;
                          mtime = lib.mktime e.d_mtime;
                        }))
                  ]
            ])

  -- The loop of `m65ftp_readdir`. The callback is a function on the state that it keeps, and says
  -- whether to stop.
  unfoldable pub list_entries : {A : Type 0} → ℕ → (Listed → A → Bool × A) → A → Prog (Card R) A
  list_entries zero cb ctx = out_of_fuel
  list_entries (suc fuel) cb ctx = do
    entry ← call lib.fat_readdir
    elim entry [
      | none ↦ pure ctx
      | some e ↦
          let skip = list_entries fuel cb ctx in
          if is_empty e.d_name then skip else do
            let (stop, ctx') =
                cb
                  (record {
                    name = shown_name e;
                    file_size = u32 e.d_filelen;
                    is_dir = is_directory e;
                    mtime = lib.mktime e.d_mtime;
                  })
                  ctx
            if stop then pure ctx' else list_entries fuel cb ctx'
    ]

  -- Whether the directory was listed, and the callback's state.
  unfoldable pub m65ftp_readdir :
      {A : Type 0} → ℕ → List ℕ → (Listed → A → Bool × A) → A → Prog (Store R) (Bool × A)
  unfolding list_entries
  m65ftp_readdir fuel path cb ctx = do
    s ← get
    if not s.initialized then pure (false, ctx) else do
      found ← on_card (call (lib.fat_opendir path false))
      if not found
          then pure (false, ctx)
          else do ctx' ← on_card (list_entries fuel cb ctx); pure (true, ctx')

  -- With `current_dir` set: find the entry, stamp it, write its sector.
  unfoldable pub utimens_in : List ℕ → Option ℕ → Option ℕ → Prog (Card R) Bool
  utimens_in file_name atime mtime = do
    entry ← call (lib.find_file_in_curdir file_name)
    elim entry [
      | none ↦ pure false
      | some e ↦ do
        c ← get
        let o = to_nat c.dir_sector_offset
        let buf = stamp_write (broken_down lib.localtime mtime) o c.dir_sector_buffer
        let buf = stamp_access (broken_down lib.localtime atime) o buf
        put (record c { dir_sector_buffer = buf })
        written ← call (lib.write_sector (u32 (c.partition_start + c.dir_sector)) buf)
        if written then run lib.execute_write_queue else pure tt
        pure written
    ]

  -- `tv` is `none` for a null pointer, and holds the access stamp and the modification stamp.
  unfoldable pub m65ftp_utimens : List ℕ → Option (Stamp × Stamp) → Prog (Store R) ℤ
  unfolding split_path utimens_in
  m65ftp_utimens path tv = do
    s ← get
    if not s.initialized || is_empty path || str_eq path root_dir
        then pure minus_one
        else elim (split_path path) [
          | none ↦ pure minus_one
          | some (dir_path, file_name) ↦ if is_empty file_name then pure minus_one else do
            t ← on_card (call lib.time)
            let (atime, mtime) = stamps t tv
            s ← get
            let saved_dir = s.card.current_dir
            on_card (set_current_dir dir_path)
            done ← on_card (utimens_in file_name atime mtime)
            on_card (set_current_dir saved_dir)
            pure (if done then pos 0 else minus_one)
        ]
