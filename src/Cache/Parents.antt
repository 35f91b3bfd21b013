-- ===== src/Cache/Parents.antt =====
-- split_parent of src/mega65fs.c against the splitting of a path in src/m65ftp_lib.c.
use mega65fs.Base.{
  ℕ, ◌-◌, ◌<◌, ◌≡◌, ◌++◌, ◌∷◌, refl, inl, inr, ◌⊎◌, none, some, List, [], arith, length, take,
  false, if◌then◌else◌,
}
use mega65fs.Path.{split_path, is_empty, root_dir, slash}
use mega65fs.Path.Split.{take_all, has_slash, last_slash-cases}
use mega65fs.Store.{name_max}
use mega65fs.Cache.{split_parent, max_path}

-- A path that the callbacks let through and that has no slash is split by neither layer. Any other
-- one is a text, a slash and a name without a slash: both layers then answer the text as the
-- directory, or "/" where it is empty. The lower layer answers the first 255 bytes of the name; the
-- cache answers the whole name, but the empty name where the directory is the root.
pub split_parent-split_path :
    (path : List ℕ)
    → length path < max_path
    → ((has_slash path ≡ false) × (split_path path ≡ none) × (split_parent max_path path ≡ none))
      ⊎ ((before : List ℕ) × (after : List ℕ) × (path ≡ before ++ (slash ∷ after))
          × (has_slash after ≡ false)
          × (split_path path
              ≡ some (if is_empty before then root_dir else before, take (name_max - 1) after))
          × (split_parent max_path path
              ≡ some (if is_empty before then (root_dir, []) else (before, after))))
unfolding split_path split_parent
split_parent-split_path path h =
    let whole : take 511 path ≡ path = take_all 511 path (omega (arith, h)) in
    let whole' : take 1023 path ≡ path = take_all 1023 path (omega (arith, h)) in
    elim (last_slash-cases path) [
      | inl (n, e) ↦ inl (n, rw (split_path, whole', e) refl, rw (split_parent, whole, e) refl)
      | inr (before, after, p, n, e) ↦
          inr
            (before, after, p, n, rw (split_path, whole', e) refl, rw (split_parent, whole, e) refl)
    ]
