-- ===== src/Store.antt =====
-- The state of src/m65ftp_lib.c: the descriptors `s_files`, the stack of free descriptors, and the
-- library's state behind them. One call runs at a time, since each holds `s_mutex` throughout.
pub mod Pool
use mega65fs.Base.{
  ℕ, ◌+◌, ℤ, pos, is_nonneg, to_nat, Bool, false, ◌&&◌, Option, none, some, List, [], ◌∷◌, ltb, leb,
  ◌==◌, if◌then◌else◌, Prog, ◌*◌,
}
use mega65fs.Card.{Card}

pub record FileInfo : Type 0 where
  pub first_cluster : ℕ
  pub file_size : ℕ
  pub current_cluster : ℕ
  pub current_cluster_idx : ℕ
  pub last_offset : ℕ
  pub is_writable : Bool
  pub dir_sector : ℤ
  pub dir_sector_offset : ℤ
  pub dir_sector_buf : List ℕ
  pub buffered : Bool
  pub write_buf : Option (List ℕ)
  pub write_buf_cap : ℕ
  pub write_cluster : ℕ
  pub sector_in_cluster : ℕ
  pub in_use : Bool

pub record Store (R : Type 0) : Type 0 where
  pub initialized : Bool
  pub file_count : ℕ
  pub files : ℕ → FileInfo
  -- `s_free_fds`, its top first; `s_free_count` is its length.
  pub free_fds : List ℕ
  pub card : Card R

abbrev pub max_files : ℕ
max_files = 4096

abbrev pub buffer_limit : ℕ
buffer_limit = 64 * 1024 * 1024

abbrev pub end_of_chain : ℕ
end_of_chain = 0xffffff8

abbrev pub path_max : ℕ
path_max = 1024

abbrev pub name_max : ℕ
name_max = 256

-- A zeroed `s_files` entry.
abbrev pub blank : FileInfo
blank = record {
  first_cluster = 0;
  file_size = 0;
  current_cluster = 0;
  current_cluster_idx = 0;
  last_offset = 0;
  is_writable = false;
  dir_sector = pos 0;
  dir_sector_offset = pos 0;
  dir_sector_buf = [];
  buffered = false;
  write_buf = none;
  write_buf_cap = 0;
  write_cluster = 0;
  sector_in_cluster = 0;
  in_use = false;
}

abbrev pub update : (ℕ → FileInfo) → ℕ → FileInfo → ℕ → FileInfo
update files fd fi i = if i == fd then fi else files i

module _ {R : Type 0} where
  abbrev pub file_at : ℕ → Prog (Store R) FileInfo
  file_at fd s = some (s.files fd, s)

  abbrev pub put_file : ℕ → FileInfo → Prog (Store R) (Unit {0})
  put_file fd fi s = some (tt, record s { files = update s.files fd fi })

  -- A program over the library's state, run on that of the store.
  abbrev pub on_card : {A : Type 0} → Prog (Card R) A → Prog (Store R) A
  on_card m s = elim (m s.card) [ none ↦ none | some (a, c) ↦ some (a, record s { card = c }) ]

  -- `fd < 0 || fd >= s_file_count || !s_files[fd].in_use` is false.
  abbrev pub is_open : Store R → ℤ → Bool
  is_open s fd = is_nonneg fd && ltb (to_nat fd) s.file_count && (s.files (to_nat fd)).in_use

  unfoldable pub alloc_fd : Prog (Store R) (Option ℕ)
  alloc_fd s = elim s.free_fds [
    | fd ∷ fds ↦ some (some fd, record s { free_fds = fds })
    | [] ↦
        if leb max_files s.file_count
        then some (none, s)
        else some (some s.file_count, record s { file_count = s.file_count + 1 })
  ]
