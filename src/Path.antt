-- ===== src/Path.antt =====
-- How src/m65ftp_lib.c splits a path into directory and name (the same lines in every function
-- that takes a path), and the names in a listing. A C string is the list of its bytes before the
-- NUL; `strncpy` into a buffer of n bytes, with the last one cleared, keeps n - 1 of them.
pub mod Split
use mega65fs.Base.{
  ℕ, zero, suc, ◌-◌, Bool, true, false, not, Option, none, some, List, [], ◌∷◌, ◌==◌, if◌then◌else◌,
  take, str_eq, Prog, pure, out_of_fuel, ◌>>=◌, ◌>>◌, call, get, put,
}
use mega65fs.Card.{Card, Library, Dirent}
use mega65fs.Store.{path_max, name_max}

abbrev pub slash : ℕ
slash = b'/'

abbrev pub root_dir : List ℕ
root_dir = slash ∷ []

abbrev pub is_empty {ℓ} : {A : Type ℓ} → List A → Bool
is_empty [] = true
is_empty (x ∷ xs) = false

-- `strrchr(path, '/')`: what stands before the last slash and behind it.
unfoldable pub last_slash : List ℕ → Option (List ℕ × List ℕ)
last_slash [] = none
last_slash (c ∷ path) = elim (last_slash path) [
  | some (before, after) ↦ some (c ∷ before, after)
  | none ↦ if c == slash then some ([], path) else none
]

-- Directory and name, as copied into `dir_path` and `file_name`.
unfoldable pub split_path : List ℕ → Option (List ℕ × List ℕ)
unfolding last_slash
split_path path = elim (last_slash (take (path_max - 1) path)) [
  | none ↦ none
  | some (before, after) ↦
      some (if is_empty before then root_dir else before, take (name_max - 1) after)
]

-- The name that a listing shows: the long one where there is one.
abbrev pub shown_name : Dirent → List ℕ
shown_name e = if is_empty e.d_longname then e.d_name else e.d_longname

module _ {R : Type 0} where
  -- `strncpy(current_dir, dir, sizeof(current_dir) - 1)`
  abbrev pub set_current_dir : List ℕ → Prog (Card R) (Unit {0})
  set_current_dir dir c = some (tt, record c { current_dir = take (path_max - 1) dir })

module _ {R : Type 0} ⦃lib : Library R⦄ where
  -- The `fat_readdir` loop that looks for a name.
  unfoldable pub find_entry : ℕ → List ℕ → Prog (Card R) (Option Dirent)
  find_entry zero name = out_of_fuel
  find_entry (suc fuel) name = do
    entry ← call lib.fat_readdir
    elim entry [
      | none ↦ pure none
      | some e ↦
          let rest = find_entry fuel name in
          if is_empty e.d_name
          then rest
          else (if str_eq (shown_name e) name then pure (some e) else rest)
    ]
