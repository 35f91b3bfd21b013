-- ===== src/Dirs/Empty.antt =====
-- m65ftp_rmdir of src/m65ftp_lib.c against the listing of the directory.
use mega65fs.Base.{
  minus_one, ◌>>=◌, not, take, ℕ, zero, suc, ◌<◌, ◌≡◌, refl, ap, ◌∙◌, Bool, true, false, not, inl,
  inr, Option, none, some, List, [], ◌∷◌, ◌||◌, ◌&&◌, arith, length, Bool-cases, str_eq, take,
  Option-cases, ◌>>=◌, minus_one,
}
use mega65fs.Card.{Card, Library, Dirent}
use mega65fs.Store.{Store, on_card}
use mega65fs.Path.{split_path, is_empty, root_dir, shown_name}
use mega65fs.Meta.{is_directory}
use mega65fs.Dirs.{with_parts, only_dots, is_dot, join_path, rmdir_in, m65ftp_rmdir}

-- The entry that is read next, and those behind it.
abbrev pub first_of : List Dirent → Option Dirent
first_of [] = none
first_of (e ∷ es) = some e

abbrev pub others_of : List Dirent → List Dirent
others_of [] = []
others_of (e ∷ es) = es

-- While P holds: a path that can be opened as a directory has that listing, which is read entry by
-- entry, and looking around keeps P.
pub record Browses {R : Type 0} (lib : Library R) (P : Card R → Type 0)
    (unread : Card R → List Dirent) (listing : List ℕ → List Dirent) : Type 0 where
  pub fat_opendir :
      (path : List ℕ) (b : Bool) (c : Card R)
      → P c
      → P (lib.fat_opendir path b c).1
        × ((lib.fat_opendir path b c).0 ≡ true → unread (lib.fat_opendir path b c).1 ≡ listing path)
  pub fat_readdir :
      (c : Card R)
      → P c
      → ((lib.fat_readdir c).0 ≡ first_of (unread c))
        × (unread (lib.fat_readdir c).1 ≡ others_of (unread c))
        × P (lib.fat_readdir c).1
  pub find_file_in_curdir :
      (name : List ℕ) (c : Card R) → P c → P (lib.find_file_in_curdir name c).1
  pub current_dir : (path : List ℕ) (c : Card R) → P c → P (record c { current_dir = path })

-- Each entry is "." or "..", or has no name.
abbrev pub all_dots : List Dirent → Bool
all_dots [] = true
all_dots (e ∷ es) = (is_empty e.d_name || is_dot (shown_name e)) && all_dots es

module _ {R : Type 0} ⦃lib : Library R⦄ (P : Card R → Type 0) (unread : Card R → List Dirent)
    (listing : List ℕ → List Dirent) (browses : Browses lib P unread listing) where
  only_dots_lem :
      (fuel : ℕ) (es : List Dirent) (c : Card R)
      → length es < fuel
      → unread c ≡ es
      → P c
      → (c' : Card R) × (only_dots fuel c ≡ some (all_dots es, c')) × P c'
  unfolding only_dots
  only_dots_lem zero es c lt u p = absurd (omega arith)
  only_dots_lem (suc fuel) [] c lt u p =
      let (e, u', p') = browses.fat_readdir c p in
      let e' : (lib.fat_readdir c).0 ≡ none = e ∙ ap first_of u in
      rw e' ((lib.fat_readdir c).1, refl, p')
  only_dots_lem (suc fuel) (x ∷ es) c lt u p =
      let (e, u', p') = browses.fat_readdir c p in
      let e' : (lib.fat_readdir c).0 ≡ some x = e ∙ ap first_of u in
      elim (Bool-cases (is_empty x.d_name || is_dot (shown_name x))) [
        | inl w ↦
            rw (e', w)
              (only_dots_lem fuel es (lib.fat_readdir c).1 (omega (arith, lt)) (u' ∙ ap others_of u)
                p')
        | inr w ↦ rw (e', w) ((lib.fat_readdir c).1, refl, p')
      ]

  rmdir_in_lem :
      (fuel : ℕ) (dir name : List ℕ) (c : Card R)
      → all_dots (listing (join_path dir name)) ≡ false
      → length (listing (join_path dir name)) < fuel
      → P c
      → (c' : Card R) × (rmdir_in fuel dir name c ≡ some (minus_one, c')) × P c'
  unfolding rmdir_in
  rmdir_in_lem fuel dir name c full lt p =
      let c0 : Card R = record c { current_dir = take 1023 dir } in
      let (p1, _) = browses.fat_opendir dir false c0 (browses.current_dir (take 1023 dir) c p) in
      let c1 = (lib.fat_opendir dir false c0).1 in
      let p2 = browses.find_file_in_curdir name c1 p1 in
      let c2 = (lib.find_file_in_curdir name c1).1 in
      let path = join_path dir name in
      let c3 : Card R = record c2 { current_dir = take 1023 path } in
      let (p4, u) =
        browses.fat_opendir path false c3 (browses.current_dir (take 1023 path) c2 p2) in
      let c4 = (lib.fat_opendir path false c3).1 in
      let back : (c' : Card R) → P c' → P (record c' { current_dir = take 1023 c.current_dir }) =
        λ c' p'. browses.current_dir (take 1023 c.current_dir) c' p' in
      elim (Bool-cases (lib.fat_opendir dir false c0).0) [
        | inr w ↦ rw w (_, refl, back c1 p1)
        | inl w ↦ elim (Option-cases (lib.find_file_in_curdir name c1).0) [
          | inl e ↦ rw (w, e) (_, refl, back c2 p2)
          | inr (x, e) ↦ elim (Bool-cases (is_directory x)) [
            | inr v ↦ rw (w, e, v) (_, refl, back c2 p2)
            | inl v ↦ elim (Bool-cases (lib.fat_opendir path false c3).0) [
              | inr t ↦ rw (w, e, v, t) (_, refl, back c4 p4)
              | inl t ↦
                  let (c5, e5, p5) = only_dots_lem fuel (listing path) c4 lt (u t) p4 in
                  rw (w, e, v, t, ◌>>=◌, e5, full) (_, refl, back c5 p5)
            ]
          ]
        ]
      ]

  -- A directory whose listing has an entry besides "." and ".." is not removed: m65ftp_rmdir answers
  -- -1, and descriptors and card are as before.
  pub m65ftp_rmdir-listing :
      (fuel : ℕ) (path dir name : List ℕ) (s : Store R)
      → split_path path ≡ some (dir, name)
      → all_dots (listing (join_path dir name)) ≡ false
      → length (listing (join_path dir name)) < fuel
      → P s.card
      → (c' : Card R) × (m65ftp_rmdir fuel path s ≡ some (minus_one, record s { card = c' })) × P c'
  unfolding m65ftp_rmdir with_parts
  m65ftp_rmdir-listing fuel path dir name s e full lt p =
      elim (Bool-cases (not s.initialized || is_empty path || str_eq path root_dir)) [
        | inl w ↦ rw w (s.card, refl, p)
        | inr w ↦ elim (Bool-cases (is_empty name)) [
          | inl z ↦ rw (w, e, z) (s.card, refl, p)
          | inr z ↦
              let (c2, e2, p2) = rmdir_in_lem fuel dir name s.card full lt p in
              rw (w, e, z, on_card, e2) (c2, refl, p2)
        ]
      ]
