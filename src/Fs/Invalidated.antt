-- ===== src/Fs/Invalidated.antt =====
-- The callbacks of src/mega65fs.c that change a directory, and the cached listings.
use mega65fs.Base.{
  zero, suc, ℕ, ◌≤◌, ◌≡◌, refl, true, false, inl, inr, some, none, List, [], ◌∷◌, ◌++◌, ◌||◌, not,
  arith, Holds, ℤ, pos, negsuc, is_nonneg, Prog, Option-cases, Bool-cases, str_eq, ◌==◌,
  if◌then◌else◌, Bool, subst, ◌∙◌, ◌>>=◌, sym, str_eq_iff, suc, ap, pure,
}
use mega65fs.Card.{Library}
use mega65fs.Store.{Store}
use mega65fs.Path.{split_path}
use mega65fs.Cache.{DirCache, Driver, on_store, drop_listing, find_listing, invalidate_cache_parent}
use mega65fs.Cache.Slots.{holders, holders-none, find_listing-drop_other}
use mega65fs.Cache.Parents.{split_parent-split_path}
use mega65fs.Fs.{
  too_long, then_invalidate, fs_create, fs_mkdir, fs_rmdir, fs_unlink, fs_rename, m65ftp_create,
  m65ftp_rename, eio, m65ftp_mkdir, enametoolong, m65ftp_rmdir, m65ftp_unlink, is_empty,
}
use mega65fs.Main.{Request, Reply, fs_oper, create, mkdir, rmdir, unlink, rename, result, status}

-- The directory that a path stands in.
abbrev pub parent_of : List ℕ → List (List ℕ)
parent_of path = elim (split_path path) [ none ↦ [] | some (dir, _) ↦ dir ∷ [] ]

-- The directories that a request changes if it succeeds.
abbrev pub changed : {B : Type 0} → Request B → List (List ℕ)
changed (create path) = parent_of path
changed (mkdir path) = parent_of path
changed (rmdir path) = parent_of path
changed (unlink path) = parent_of path
changed (rename from to flags) = if str_eq from to then [] else parent_of from ++ parent_of to
changed _ = []

abbrev pub among : List ℕ → List (List ℕ) → Bool
among dir [] = false
among dir (p ∷ ps) = str_eq p dir || among dir ps

-- The cache after the listings of the directories are dropped one after the other.
abbrev drop_all : List (List ℕ) → List DirCache → List DirCache
drop_all [] slots = slots
drop_all (p ∷ ps) slots = drop_all ps (drop_listing p slots)

drop_all-append :
    (ps qs : List (List ℕ)) (slots : List DirCache)
    → drop_all (ps ++ qs) slots ≡ drop_all qs (drop_all ps slots)
drop_all-append [] qs slots = refl
drop_all-append (p ∷ ps) qs slots = drop_all-append ps qs (drop_listing p slots)

holders-drop :
    (dir p : List ℕ) (slots : List DirCache)
    → holders dir (drop_listing p slots) ≤ holders dir slots
unfolding drop_listing
holders-drop dir p [] = omega arith
holders-drop dir p (s ∷ ss) = ground (arith, holders-drop dir p ss)

holders-drop_same :
    (dir : List ℕ) (slots : List DirCache)
    → holders dir slots ≤ 1
    → holders dir (drop_listing dir slots) ≡ 0
unfolding drop_listing
holders-drop_same dir [] h = refl
holders-drop_same dir (s ∷ ss) h = ground (arith, holders-drop_same dir ss)

holders-drop_all :
    (dir : List ℕ) (ps : List (List ℕ)) (slots : List DirCache)
    → holders dir slots ≡ 0
    → holders dir (drop_all ps slots) ≡ 0
holders-drop_all dir [] slots h = h
holders-drop_all dir (p ∷ ps) slots h =
    let l = holders-drop dir p slots in
    holders-drop_all dir ps (drop_listing p slots) (omega (arith, l, h))

dropped_among :
    (dir : List ℕ) (ps : List (List ℕ)) (slots : List DirCache)
    → among dir ps ≡ true
    → holders dir slots ≤ 1
    → holders dir (drop_all ps slots) ≡ 0
dropped_among dir [] slots a h = absurd (ground (arith, a))
dropped_among dir (p ∷ ps) slots a h = elim (Bool-cases (str_eq p dir)) [
  | inl w ↦ holders-drop_all dir ps (drop_listing p slots) (
      subst (λ q. holders dir (drop_listing q slots) ≡ 0) (sym ((str_eq_iff p dir).0 w))
        (holders-drop_same dir slots h))
  | inr w ↦
      let l = holders-drop dir p slots in
      dropped_among dir ps (drop_listing p slots) (ground (arith, a, w)) (omega (arith, l, h))
]

find_listing-drop_all :
    (now : ℕ) (other : List ℕ) (ps : List (List ℕ)) (slots : List DirCache)
    → among other ps ≡ false
    → find_listing now other (drop_all ps slots) ≡ find_listing now other slots
find_listing-drop_all now other [] slots h = refl
find_listing-drop_all now other (p ∷ ps) slots h =
    find_listing-drop_all now other ps (drop_listing p slots) (ground (arith, h))
    ∙ find_listing-drop_other now p other slots (λ e. ground (arith, h, (str_eq_iff p other).1 e))

module _ {R : Type 0} where
  invalidate_lem :
      (path : List ℕ) (d : Driver R)
      → too_long path ≡ false
      → invalidate_cache_parent path d
        ≡ some (tt, record d { slots = drop_all (parent_of path) d.slots })
  unfolding invalidate_cache_parent split_path
  invalidate_lem path d short = elim (split_parent-split_path path (ground (arith, short))) [
    | inl (n, e, e') ↦ rw (e, e') refl
    | inr (before, after, p, n, e, e') ↦ elim (Bool-cases (is_empty before)) [
      | inl w ↦ rw (e, e', w) refl
      | inr w ↦ rw (e, e', w) refl
    ]
  ]

  -- What holds of the cache after a request that changes the directories `ps`.
  abbrev Drops : List (List ℕ) → Driver R → ℤ → Driver R → Type 0
  Drops ps d r d' = is_nonneg r ≡ true → d'.slots ≡ drop_all ps d.slots

module _ {R : Type 0} ⦃lib : Library R⦄ where
  then_invalidate-Drops :
      (path : List ℕ) (n : ℕ) (call' : Prog (Store R) ℤ) (d : Driver R)
      → too_long path ≡ false
      → Holds (Drops (parent_of path) d) (then_invalidate path (negsuc n) call' d)
  unfolding then_invalidate
  then_invalidate-Drops path n call' d short = elim (Option-cases (call' d.store)) [
    | inl e ↦ rw (Holds, ◌>>=◌, on_store, e) tt
    | inr ((negsuc k, s), e) ↦ rw (◌>>=◌, on_store, e) (λ h. absurd (ground (arith, h)))
    | inr ((pos (suc k), s), e) ↦ rw (◌>>=◌, on_store, e) (λ h. absurd (ground (arith, h)))
    | inr ((pos zero, s), e) ↦
        rw (◌>>=◌, on_store, e, invalidate_lem path (record d { store = s }) short) (λ h. refl)
  ]

  fs_create-Drops :
      (path : List ℕ) (d : Driver R)
      → Holds (λ r d'. Drops (parent_of path) d r.0 d') (fs_create path d)
  unfolding fs_create
  fs_create-Drops path d = elim (Bool-cases (too_long path)) [
    | inl w ↦ rw w (λ h. absurd (ground (arith, h)))
    | inr short ↦ elim (Option-cases (m65ftp_create path d.store)) [
      | inl e ↦ rw (short, Holds, ◌>>=◌, on_store, e) tt
      | inr ((negsuc k, s), e) ↦ rw (short, ◌>>=◌, on_store, e) (λ h. absurd (ground (arith, h)))
      | inr ((pos k, s), e) ↦
          rw (short, ◌>>=◌, on_store, e, invalidate_lem path (record d { store = s }) short)
            (λ h. refl)
    ]
  ]

  fs_rename-Drops :
      (from to : List ℕ) (flags : ℕ) (d : Driver R)
      → str_eq from to ≡ false
      → Holds (Drops (parent_of from ++ parent_of to) d) (fs_rename from to flags d)
  unfolding fs_rename
  fs_rename-Drops from to flags d differ = elim (Bool-cases (not (flags == 0))) [
    | inl w ↦ rw w (λ h. absurd (ground (arith, h)))
    | inr plain ↦ elim (Bool-cases (too_long from || too_long to)) [
      | inl w ↦ rw (plain, differ, w) (λ h. absurd (ground (arith, h)))
      | inr short ↦
          let moved =
            then_invalidate-Drops from 4 (m65ftp_rename from to) d (ground (arith, short)) in
          elim (Option-cases (then_invalidate from eio (m65ftp_rename from to) d)) [
            | inl e ↦ rw (plain, differ, short, Holds, ◌>>=◌, e) tt
            | inr ((negsuc k, d1), e) ↦
                rw (plain, differ, short, ◌>>=◌, e) (λ h. absurd (ground (arith, h)))
            | inr ((pos k, d1), e) ↦
                let first : d1.slots ≡ drop_all (parent_of from) d.slots = (rw e at moved) refl in
                rw (plain, differ, short, ◌>>=◌, e, invalidate_lem to d1 (ground (arith, short)))
                  (λ h.
                    ap (drop_all (parent_of to)) first
                    ∙ sym (drop_all-append (parent_of from) (parent_of to) d.slots))
          ]
    ]
  ]

  checked-Drops :
      (path : List ℕ) (n : ℕ) (call' : Prog (Store R) ℤ) (d : Driver R)
      → Holds
          (Drops (parent_of path) d)
          ((if too_long path then pure enametoolong else then_invalidate path (negsuc n) call') d)
  checked-Drops path n call' d = elim (Bool-cases (too_long path)) [
    | inl w ↦ rw w (λ h. absurd (ground (arith, h)))
    | inr w ↦ rw w (then_invalidate-Drops path n call' d w)
  ]

  -- A callback whose reply is a number.
  Holds-result :
      (B : Type 0) (Q : ℤ → Driver R → Type 0) (m : Prog (Driver R) ℤ) (d : Driver R)
      → Holds Q (m d)
      → Holds (λ reply d'. Q (status {B = B} reply) d') ((m >>= λ r. pure (result r)) d)
  Holds-result B Q m d h = elim (Option-cases (m d)) [
    | inl e ↦ rw (Holds, ◌>>=◌, e) tt
    | inr ((r, d'), e) ↦ rw (Holds, ◌>>=◌, e) (rw e at h)
  ]

module _ {R : Type 0} ⦃lib : Library R⦄ {B : Type 0} where
  fs_oper-Drops :
      (fuel : ℕ) (request : Request B) (d : Driver R) (dir : List ℕ)
      → among dir (changed request) ≡ true
      → Holds (λ reply d'. Drops (changed request) d (status reply) d') (fs_oper fuel request d)
  unfolding fs_oper fs_mkdir fs_rmdir fs_unlink
  fs_oper-Drops fuel (create path) d dir h =
      let run = fs_create-Drops path d in
      elim (Option-cases (fs_create path d)) [
        | inl e ↦ rw (Holds, ◌>>=◌, e) tt
        | inr ((r, d'), e) ↦ rw (Holds, ◌>>=◌, e) (rw e at run)
      ]
  fs_oper-Drops fuel (mkdir path) d dir h =
      Holds-result B (Drops (parent_of path) d) (fs_mkdir path) d
        (checked-Drops path 4 (m65ftp_mkdir path) d)
  fs_oper-Drops fuel (rmdir path) d dir h =
      Holds-result B (Drops (parent_of path) d) (fs_rmdir fuel path) d
        (checked-Drops path 38 (m65ftp_rmdir fuel path) d)
  fs_oper-Drops fuel (unlink path) d dir h =
      Holds-result B (Drops (parent_of path) d) (fs_unlink path) d
        (checked-Drops path 20 (m65ftp_unlink path) d)
  fs_oper-Drops fuel (rename from to flags) d dir h = elim (Bool-cases (str_eq from to)) [
    | inl w ↦ absurd (ground (arith, h, w))
    | inr w ↦
        Holds-result B (Drops (changed {B = B} (rename from to flags)) d) (fs_rename from to flags)
          d (rw w (fs_rename-Drops from to flags d w))
  ]
  fs_oper-Drops fuel _ d dir h = absurd (ground (arith, h))

  -- A create, mkdir, rmdir, unlink or rename that succeeds, where one of the directories that it
  -- changes has at most one listing in the cache: a lookup finds no listing of that directory
  -- afterwards, and it finds what it found before for any directory that the request does not
  -- change. A rename of a path to itself changes no directory.
  pub fs_oper-find_listing :
      (fuel now : ℕ) (request : Request B) (d d' : Driver R) (reply : Reply B) (dir other : List ℕ)
      → fs_oper fuel request d ≡ some (reply, d')
      → is_nonneg (status reply) ≡ true
      → among dir (changed request) ≡ true
      → among other (changed request) ≡ false
      → holders dir d.slots ≤ 1
      → (find_listing now dir d'.slots ≡ none)
        × (find_listing now other d'.slots ≡ find_listing now other d.slots)
  fs_oper-find_listing fuel now request d d' reply dir other run ok here there one =
      let ps = changed request in
      let post = rw run at (fs_oper-Drops fuel request d dir here) in
      let slots : d'.slots ≡ drop_all ps d.slots = post ok in
      (
        ap (find_listing now dir) slots
            ∙ holders-none now dir (drop_all ps d.slots) (dropped_among dir ps d.slots here one),
        ap (find_listing now other) slots ∙ find_listing-drop_all now other ps d.slots there,
      )
