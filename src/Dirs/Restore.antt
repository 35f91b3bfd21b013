-- ===== src/Dirs/Restore.antt =====
-- The library's `current_dir` after the operations of src/m65ftp_lib.c that move it.
use mega65fs.Base.{
  refl, true, Holds, inl, inr, ℕ, ◌≤◌, ◌≡◌, Bool, false, not, inl, inr, some, List, ◌||◌, arith,
  length, Bool-cases, str_eq, take, Option-cases, Prog, pure, call, ◌>>=◌, ◌>>◌, ℤ,
}
use mega65fs.Card.{Card, Library}
use mega65fs.Store.{Store, on_card}
use mega65fs.Path.{split_path, set_current_dir}
use mega65fs.Meta.{is_directory}
use mega65fs.Path.Split.{take_all}
use mega65fs.Dirs.{
  with_parts, mkdir_in, rmdir_in, unlink_in, only_dots, join_path, zero_or_minus_one, m65ftp_mkdir,
  m65ftp_rmdir, m65ftp_unlink, m65ftp_rename, is_empty, root_dir,
}

-- The calls that change a directory.
pub data DirCall : Type 0 where
  mkdir : List ℕ → DirCall
  rmdir : ℕ → List ℕ → DirCall
  unlink : List ℕ → DirCall
  rename : List ℕ → List ℕ → DirCall

module _ {R : Type 0} ⦃lib : Library R⦄ where
  -- What stands in `current_dir`.
  abbrev pub dir_of : Store R → List ℕ
  dir_of s = s.card.current_dir

  -- Where the program returns, the directory is the one that was current before.
  abbrev Restores : Prog (Card R) ℤ → Card R → Type 0
  Restores m c = Holds (λ r c'. c'.current_dir ≡ take 1023 c.current_dir) (m c)

  mkdir_in-Restores : (dir name : List ℕ) (c : Card R) → Restores (mkdir_in dir name) c
  unfolding mkdir_in
  mkdir_in-Restores dir name c = refl

  unlink_in-Restores : (dir name : List ℕ) (c : Card R) → Restores (unlink_in dir name) c
  unfolding unlink_in
  unlink_in-Restores dir name c =
      let (found, c1) = lib.fat_opendir dir false (record c { current_dir = take 1023 dir }) in
      elim (Bool-cases found) [
        | inr w ↦ rw w refl
        | inl w ↦ elim (Option-cases (lib.find_file_in_curdir name c1).0) [
          | inl e ↦ rw (w, e) refl
          | inr (x, e) ↦ elim (Bool-cases (is_directory x)) [
            | inl v ↦ rw (w, e, v) refl
            | inr v ↦ rw (w, e, v) refl
          ]
        ]
      ]

  rmdir_in-Restores :
      (fuel : ℕ) (dir name : List ℕ) (c : Card R) → Restores (rmdir_in fuel dir name) c
  unfolding rmdir_in
  rmdir_in-Restores fuel dir name c =
      let path = join_path dir name in
      let (found, c1) = lib.fat_opendir dir false (record c { current_dir = take 1023 dir }) in
      let c2 = (lib.find_file_in_curdir name c1).1 in
      let (entered, c3) = lib.fat_opendir path false (record c2 { current_dir = take 1023 path }) in
      elim (Bool-cases found) [
        | inr w ↦ rw w refl
        | inl w ↦ elim (Option-cases (lib.find_file_in_curdir name c1).0) [
          | inl e ↦ rw (w, e) refl
          | inr (x, e) ↦ elim (Bool-cases (is_directory x)) [
            | inr v ↦ rw (w, e, v) refl
            | inl v ↦ elim (Bool-cases entered) [
              | inr t ↦ rw (w, e, v, t) refl
              | inl t ↦ elim (Option-cases (only_dots fuel c3)) [
                | inl n ↦ rw (w, e, v, t, Holds, ◌>>=◌, n) tt
                | inr ((true, c4), n) ↦ rw (w, e, v, t, ◌>>=◌, n) refl
                | inr ((false, c4), n) ↦ rw (w, e, v, t, ◌>>=◌, n) refl
              ]
            ]
          ]
        ]
      ]

  with_parts-current_dir :
      (refused : List ℕ → Bool) (body : List ℕ → List ℕ → Prog (Card R) ℤ) (path : List ℕ)
      (s s' : Store R) (r : ℤ)
      → length (dir_of s) ≤ 1023
      → ((dir name : List ℕ) → Restores (body dir name) s.card)
      → with_parts refused body path s ≡ some (r, s')
      → dir_of s' ≡ dir_of s
  unfolding with_parts
  with_parts-current_dir refused body path s s' r l back e =
      elim (Bool-cases (not s.initialized || is_empty path || refused path)) [
        | inl w ↦ ground (arith, rw w at e)
        | inr w ↦ elim (Option-cases (split_path path)) [
          | inl q ↦ ground (arith, rw (w, q) at e)
          | inr ((d, n), q) ↦ elim (Bool-cases (is_empty n)) [
            | inl z ↦ ground (arith, rw (w, q, z) at e)
            | inr z ↦ elim (Option-cases (body d n s.card)) [
              | inl k ↦ ground (arith, rw (w, q, z, on_card, k) at e)
              | inr ((a, c), k) ↦
                  let there : c.current_dir ≡ take 1023 s.card.current_dir = rw k at (back d n) in
                  ground (
                    arith,
                    rw (w, q, z, on_card, k) at e,
                    there,
                    take_all 1023 s.card.current_dir l,
                  )
            ]
          ]
        ]
      ]

  -- A body between the two moves of `current_dir`.
  moved :
      (dir : List ℕ) (body : Prog (Card R) Bool) (s s' : Store R) (r : ℤ)
      → length (dir_of s) ≤ 1023
      → (do
        on_card (set_current_dir dir)
        done ← on_card body
        on_card (set_current_dir (dir_of s))
        pure (zero_or_minus_one done))
          s
        ≡ some (r, s')
      → dir_of s' ≡ dir_of s
  moved dir body s s' r l e =
      elim (Option-cases (body (record (s.card) { current_dir = take 1023 dir }))) [
        | inl q ↦ ground (arith, rw (q, ◌>>◌, ◌>>=◌) at e)
        | inr ((b, c), q) ↦
            ground (arith, rw (q, ◌>>◌, ◌>>=◌) at e, take_all 1023 s.card.current_dir l)
      ]

  pub m65ftp_rename-current_dir :
      (oldpath newpath : List ℕ) (s s' : Store R) (r : ℤ)
      → length (dir_of s) ≤ 1023
      → m65ftp_rename oldpath newpath s ≡ some (r, s')
      → dir_of s' ≡ dir_of s
  unfolding m65ftp_rename
  m65ftp_rename-current_dir oldpath newpath s s' r l e =
      elim (Bool-cases (not s.initialized || is_empty oldpath || is_empty newpath)) [
        | inl w ↦ ground (arith, rw w at e)
        | inr w ↦ elim (Option-cases (split_path oldpath)) [
          | inl q ↦ ground (arith, rw (w, q) at e)
          | inr ((d, n), q) ↦ elim (Option-cases (split_path newpath)) [
            | inl q' ↦ ground (arith, rw (w, q, q') at e)
            | inr ((d', n'), q') ↦
                elim (Bool-cases (is_empty n || is_empty n' || not (str_eq d d'))) [
                  | inl z ↦ ground (arith, rw (w, q, q', z) at e)
                  | inr z ↦
                      moved d (call (lib.rename_file_or_dir n n')) s s' r l (rw (w, q, q', z) at e)
                ]
          ]
        ]
      ]

  abbrev pub run_call : DirCall → Prog (Store R) ℤ
  run_call (mkdir path) = m65ftp_mkdir path
  run_call (rmdir fuel path) = m65ftp_rmdir fuel path
  run_call (unlink path) = m65ftp_unlink path
  run_call (rename a b) = m65ftp_rename a b

  -- Where the library's current directory has at most 1023 bytes: mkdir, rmdir, unlink and rename
  -- leave it as it was, on every path that returns, errors included.
  pub run_call-current_dir :
      (d : DirCall) (s s' : Store R) (r : ℤ)
      → length (dir_of s) ≤ 1023
      → run_call d s ≡ some (r, s')
      → dir_of s' ≡ dir_of s
  unfolding m65ftp_mkdir m65ftp_rmdir m65ftp_unlink
  run_call-current_dir (mkdir path) s s' r l =
      with_parts-current_dir (λ path. false) mkdir_in path s s' r l
        (λ dir name. mkdir_in-Restores dir name s.card)
  run_call-current_dir (rmdir fuel path) s s' r l =
      with_parts-current_dir (λ path. str_eq path root_dir) (rmdir_in fuel) path s s' r l
        (λ dir name. rmdir_in-Restores fuel dir name s.card)
  run_call-current_dir (unlink path) s s' r l =
      with_parts-current_dir (λ path. false) unlink_in path s s' r l
        (λ dir name. unlink_in-Restores dir name s.card)
  run_call-current_dir (rename a b) s s' r l = m65ftp_rename-current_dir a b s s' r l
