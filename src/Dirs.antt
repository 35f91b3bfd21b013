-- ===== src/Dirs.antt =====
-- src/m65ftp_lib.c: m65ftp_mkdir, m65ftp_rmdir, m65ftp_unlink and m65ftp_rename. Each points the
-- library's `current_dir` at the parent directory, calls the library, and restores it on every
-- return.
pub mod Restore
pub mod Empty
use mega65fs.Base.{
  ℕ, zero, suc, ◌-◌, ℤ, pos, minus_one, Bool, true, false, not, ◌&&◌, ◌||◌, Option, none, some,
  List, [], ◌∷◌, ◌++◌, ◌==◌, if◌then◌else◌, take, str_eq, Prog, pure, out_of_fuel, ◌>>=◌, ◌>>◌,
  call, run, get,
}
use mega65fs.Card.{Card, Library, Dirent}
use mega65fs.Store.{Store, path_max, on_card}
use mega65fs.Path.{is_empty, slash, root_dir, split_path, shown_name, set_current_dir}
use mega65fs.Meta.{is_directory}

-- `ret ? -1 : 0` for a call of the library that answers `true` where it returns 0.
abbrev pub zero_or_minus_one : Bool → ℤ
zero_or_minus_one true = pos 0
zero_or_minus_one false = minus_one

-- `snprintf(full_path, sizeof(full_path), "%s/%s", dir_path, dir_name)`, without a second slash
-- behind the root.
abbrev pub join_path : List ℕ → List ℕ → List ℕ
join_path dir_path name =
    take (path_max - 1)
      (if str_eq dir_path root_dir then slash ∷ name else (dir_path ++ (slash ∷ name)))

-- "." and "..", which every directory but the root holds.
abbrev pub is_dot : List ℕ → Bool
is_dot name = str_eq name (b'.' ∷ []) || str_eq name (b'.' ∷ b'.' ∷ [])

module _ {R : Type 0} ⦃lib : Library R⦄ where
  -- A path's checks and its parts. The body starts where `current_dir` is saved.
  unfoldable pub with_parts :
      (List ℕ → Bool) → (List ℕ → List ℕ → Prog (Card R) ℤ) → List ℕ → Prog (Store R) ℤ
  unfolding split_path
  with_parts refused body path = do
    s ← get
    if not s.initialized || is_empty path || refused path
        then pure minus_one
        else elim (split_path path) [
          | none ↦ pure minus_one
          | some (dir_path, name) ↦
              if is_empty name then pure minus_one else on_card (body dir_path name)
        ]

  -- An error return behind the first move of `current_dir`.
  abbrev pub back_out : List ℕ → Prog (Card R) ℤ
  back_out saved_dir = do set_current_dir saved_dir; pure minus_one

  unfoldable pub mkdir_in : List ℕ → List ℕ → Prog (Card R) ℤ
  mkdir_in dir_path dir_name = do
    c ← get
    let saved_dir = c.current_dir
    set_current_dir dir_path
    made ← call (lib.create_dir dir_name)
    set_current_dir saved_dir
    pure (zero_or_minus_one made)

  unfoldable pub m65ftp_mkdir : List ℕ → Prog (Store R) ℤ
  unfolding with_parts mkdir_in
  m65ftp_mkdir = with_parts (λ path. false) mkdir_in

  -- The listing loop of `rmdir`: whether only "." and ".." are there.
  unfoldable pub only_dots : ℕ → Prog (Card R) Bool
  only_dots zero = out_of_fuel
  only_dots (suc fuel) = do
    entry ← call lib.fat_readdir
    elim entry [
      | none ↦ pure true
      | some e ↦
          let rest = only_dots fuel in
          if is_empty e.d_name || is_dot (shown_name e) then rest else pure false
    ]

  -- The directory `dir_name` is there, is a directory and is empty: delete it.
  unfoldable pub rmdir_in : ℕ → List ℕ → List ℕ → Prog (Card R) ℤ
  unfolding only_dots
  rmdir_in fuel dir_path dir_name = do
    c ← get
    let saved_dir = c.current_dir
    set_current_dir dir_path
    found ← call (lib.fat_opendir dir_path false)
    if not found then back_out saved_dir else do
      entry ← call (lib.find_file_in_curdir dir_name)
      elim entry [
        | none ↦ back_out saved_dir
        | some e ↦ if not (is_directory e) then back_out saved_dir else do
          let full_path = join_path dir_path dir_name
          set_current_dir full_path
          entered ← call (lib.fat_opendir full_path false)
          if not entered then back_out saved_dir else do
            empty ← only_dots fuel
            if not empty then back_out saved_dir else do
              set_current_dir dir_path
              deleted ← call (lib.delete_single_file dir_name)
              set_current_dir saved_dir
              pure (zero_or_minus_one deleted)
      ]

  unfoldable pub m65ftp_rmdir : ℕ → List ℕ → Prog (Store R) ℤ
  unfolding with_parts rmdir_in
  m65ftp_rmdir fuel = with_parts (λ path. str_eq path root_dir) (rmdir_in fuel)

  -- The file `file_name` is there and is no directory: delete it.
  unfoldable pub unlink_in : List ℕ → List ℕ → Prog (Card R) ℤ
  unlink_in dir_path file_name = do
    c ← get
    let saved_dir = c.current_dir
    set_current_dir dir_path
    found ← call (lib.fat_opendir dir_path false)
    if not found then back_out saved_dir else do
      entry ← call (lib.find_file_in_curdir file_name)
      elim entry [
        | none ↦ back_out saved_dir
        | some e ↦ if is_directory e then back_out saved_dir else do
          deleted ← call (lib.delete_single_file file_name)
          set_current_dir saved_dir
          pure (zero_or_minus_one deleted)
      ]

  unfoldable pub m65ftp_unlink : List ℕ → Prog (Store R) ℤ
  unfolding with_parts unlink_in
  m65ftp_unlink = with_parts (λ path. false) unlink_in

  unfoldable pub m65ftp_rename : List ℕ → List ℕ → Prog (Store R) ℤ
  unfolding split_path
  m65ftp_rename oldpath newpath = do
    s ← get
    if not s.initialized || is_empty oldpath || is_empty newpath
        then pure minus_one
        else elim (split_path oldpath) [
          | none ↦ pure minus_one
          | some (old_dir, old_name) ↦ elim (split_path newpath) [
            | none ↦ pure minus_one
            | some (new_dir, new_name) ↦
                if is_empty old_name || is_empty new_name || not (str_eq old_dir new_dir)
                then pure minus_one
                else (do
                  let saved_dir = s.card.current_dir
                  on_card (set_current_dir old_dir)
                  done ← on_card (call (lib.rename_file_or_dir old_name new_name))
                  on_card (set_current_dir saved_dir)
                  pure (zero_or_minus_one done))
          ]
        ]
