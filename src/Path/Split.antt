-- ===== src/Path/Split.antt =====
-- The splitting of a path in src/m65ftp_lib.c against the joining of its parts.
use mega65fs.Base.{
  ℕ, zero, suc, ◌≤◌, ◌≡◌, refl, ap, Bool, false, none, some, List, [], ◌∷◌, ◌++◌, ◌||◌, arith, ◌==◌,
  if◌then◌else◌, length, take, ◌⊎◌, inl, inr, Bool-cases,
}
use mega65fs.Path.{slash, root_dir, is_empty, last_slash, split_path}

-- The text holds a slash.
abbrev pub has_slash : List ℕ → Bool
has_slash [] = false
has_slash (c ∷ p) = (c == slash) || has_slash p

pub take_all : (n : ℕ) (xs : List ℕ) → length xs ≤ n → take n xs ≡ xs
take_all zero [] h = refl
take_all zero (x ∷ xs) h = absurd (omega arith)
take_all (suc n) [] h = refl
take_all (suc n) (x ∷ xs) h = ap (◌∷◌ x) (take_all n xs (omega arith))

-- No slash in a name: the split finds the one before it.
last_slash-none : (name : List ℕ) → has_slash name ≡ false → last_slash name ≡ none
unfolding last_slash
last_slash-none [] h = refl
last_slash-none (c ∷ name) h = ground (arith, last_slash-none name)

pub last_slash-append :
    (dir name : List ℕ)
    → has_slash name ≡ false
    → last_slash (dir ++ (slash ∷ name)) ≡ some (dir, name)
unfolding last_slash
last_slash-append [] name h = rw (last_slash-none name h)
last_slash-append (c ∷ dir) name h = rw (last_slash-append dir name h)

-- Where a path has no slash, none is found; else the last one is, and no slash comes behind it.
pub last_slash-cases :
    (path : List ℕ)
    → ((has_slash path ≡ false) × (last_slash path ≡ none))
      ⊎ ((before : List ℕ) × (after : List ℕ) × (path ≡ before ++ (slash ∷ after))
          × (has_slash after ≡ false)
          × (last_slash path ≡ some (before, after)))
unfolding last_slash
last_slash-cases [] = inl (refl, refl)
last_slash-cases (c ∷ path) = elim (last_slash-cases path) [
  | inr (before, after, p, h, e) ↦ inr (c ∷ before, after, ap (◌∷◌ c) p, h, rw e refl)
  | inl (h, e) ↦ elim (Bool-cases (c == slash)) [
    | inl w ↦ inr ([], path, ap (λ x. x ∷ path) (ground (arith, w)), h, rw (e, w) refl)
    | inr w ↦ inl (rw (w, h) refl, rw (e, w) refl)
  ]
]

-- The path of an entry in a directory; the root is the only directory that ends in a slash.
abbrev pub path_of : List ℕ → List ℕ → List ℕ
path_of dir name = dir ++ (slash ∷ name)

-- A path of at most 1023 bytes, made of a directory, a slash and a name of at most 255 bytes
-- without a slash, splits into that directory, or "/" where it is empty, and that name.
pub split_path-append :
    (dir name : List ℕ)
    → has_slash name ≡ false
    → length name ≤ 255
    → length (path_of dir name) ≤ 1023
    → split_path (path_of dir name) ≡ some (if is_empty dir then root_dir else dir, name)
unfolding split_path
split_path-append dir name h n p = rw (
  split_path,
  take_all 1023 (path_of dir name) p,
  last_slash-append dir name h,
  take_all 255 name n,
)
