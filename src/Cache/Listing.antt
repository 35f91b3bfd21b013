-- ===== src/Cache/Listing.antt =====
-- What the cache of src/mega65fs.c takes from a directory listing of m65ftp_readdir.
use mathlib.Core.List.{append-nil, append_assoc}
use mega65fs.Base.{
  ℕ, zero, suc, ◌-◌, ◌<◌, ◌≡◌, refl, ap, sym, ◌∙◌, true, false, inl, inr, Option, none, some, List,
  [], ◌∷◌, ◌++◌, ◌||◌, arith, leb, if◌then◌else◌, Bool-cases, length, take, u32, length-append,
  ◌>>=◌,
}
use mega65fs.Card.{Card, Library, Dirent}
use mega65fs.Store.{on_card}
use mega65fs.Path.{is_empty, shown_name}
use mega65fs.Meta.{is_directory, list_entries, m65ftp_readdir}
use mega65fs.Dirs.{is_dot}
use mega65fs.Dirs.Empty.{Browses, first_of, others_of}
use mega65fs.Cache.{
  DirectoryEntry, DirCache, Driver, max_entries, max_path, entry_name_max, no_listing,
  fill_dir_cache, fetch_listing,
}

module _ {R : Type 0} (lib : Library R) where
  -- A directory entry as the cache keeps it.
  abbrev pub entry_of : Dirent → DirectoryEntry
  entry_of e = record {
    name = take (entry_name_max - 1) (shown_name e);
    size = u32 e.d_filelen;
    is_dir = is_directory e;
    mtime = lib.mktime e.d_mtime;
    valid = true;
  }

  -- The entries of a directory that have a name and are neither "." nor "..".
  abbrev pub entries_of : List Dirent → List DirectoryEntry
  entries_of [] = []
  entries_of (e ∷ es) =
      if is_empty e.d_name || is_dot (shown_name e)
      then entries_of es
      else entry_of e ∷ entries_of es

-- One more entry in a listing that is not full.
one_more :
    (kept rest : List DirectoryEntry) (e : DirectoryEntry)
    → leb max_entries (length kept) ≡ false
    → (kept ++ e ∷ []) ++ take (max_entries - length (kept ++ e ∷ [])) rest
      ≡ kept ++ take (max_entries - length kept) (e ∷ rest)
one_more kept rest e h =
    let l = length-append kept (e ∷ []) in
    let z : max_entries - length kept ≡ suc (max_entries - length (kept ++ e ∷ [])) =
      ground (arith, h, l) in
    rw z (append_assoc kept (e ∷ []) (take (max_entries - length (kept ++ e ∷ [])) rest))

take_nil : (n : ℕ) → take {A = DirectoryEntry} n [] ≡ []
take_nil zero = refl
take_nil (suc n) = refl

none_more :
    (kept rest : List DirectoryEntry)
    → leb max_entries (length kept) ≡ true
    → kept ≡ kept ++ take (max_entries - length kept) rest
none_more kept rest h =
    let z : max_entries - length kept ≡ 0 = ground (arith, h) in rw z (sym (append-nil kept))

-- Two answers with one slot but for its entries.
same_slot :
    {A : Type 0} (slot : DirCache) (es es' : List DirectoryEntry) (a : A)
    → es ≡ es'
    → ◌≡◌ {A = Option (DirCache × A)}
        (some (record slot { entries = es }, a))
        (some (record slot { entries = es' }, a))
same_slot slot es es' a e = rw e refl

module _ {R : Type 0} ⦃lib : Library R⦄ (P : Card R → Type 0) (unread : Card R → List Dirent)
    (listing : List ℕ → List Dirent) (browses : Browses lib P unread listing) where
  pub list_entries_lem :
      (fuel : ℕ) (es : List Dirent) (slot : DirCache) (c : Card R)
      → length es < fuel
      → unread c ≡ es
      → P c
      → (c' : Card R) × (list_entries fuel fill_dir_cache slot c
          ≡ some (
            record slot {
              entries =
                  slot.entries ++ take (max_entries - length slot.entries) (entries_of lib es);
            },
            c',
          ))
        × P c'
  unfolding list_entries fill_dir_cache
  list_entries_lem zero es slot c lt u p = absurd (omega arith)
  list_entries_lem (suc fuel) [] slot c lt u p =
      let (e, u', p') = browses.fat_readdir c p in
      let e' : (lib.fat_readdir c).0 ≡ none = e ∙ ap first_of u in
      rw e' (
        (lib.fat_readdir c).1,
        same_slot slot _ _ (lib.fat_readdir c).1 (
            sym (
              ap (◌++◌ (slot.entries)) (take_nil (max_entries - length slot.entries))
              ∙ append-nil slot.entries)),
        p',
      )
  list_entries_lem (suc fuel) (x ∷ es) slot c lt u p =
      let (e, u', p') = browses.fat_readdir c p in
      let e' : (lib.fat_readdir c).0 ≡ some x = e ∙ ap first_of u in
      let u2 : unread (lib.fat_readdir c).1 ≡ es = u' ∙ ap others_of u in
      elim (Bool-cases (is_empty x.d_name)) [
        | inl w ↦
            rw (e', w)
              (list_entries_lem fuel es slot (lib.fat_readdir c).1 (omega (arith, lt)) u2 p')
        | inr w ↦ elim (Bool-cases (is_dot (shown_name x))) [
          | inl v ↦
              rw (e', w, v)
                (list_entries_lem fuel es slot (lib.fat_readdir c).1 (omega (arith, lt)) u2 p')
          | inr v ↦ elim (Bool-cases (leb max_entries (length slot.entries))) [
            | inl full ↦
                rw (e', w, v, full)
                  (
                    (lib.fat_readdir c).1,
                    same_slot slot _ _ (lib.fat_readdir c).1
                        (none_more slot.entries (entry_of lib x ∷ entries_of lib es) full),
                    p',
                  )
            | inr more ↦
                let slot' : DirCache = record slot {
                  entries = slot.entries ++ entry_of lib x ∷ [];
                } in
                let (c', run, p2) =
                  list_entries_lem fuel es slot' (lib.fat_readdir c).1 (omega (arith, lt)) u2 p' in
                rw (e', w, v, more)
                  (
                    c',
                    run
                        ∙ same_slot slot _ _ c'
                            (one_more slot.entries (entries_of lib es) (entry_of lib x) more),
                    p2,
                  )
          ]
        ]
      ]

  -- A path that can be opened is listed into an empty slot.
  pub fetch_lem :
      (fuel : ℕ) (path : List ℕ) (d : Driver R)
      → d.store.initialized ≡ true
      → (lib.fat_opendir path false d.store.card).0 ≡ true
      → length (listing path) < fuel
      → P d.store.card
      → (c' : Card R) × (fetch_listing fuel path d
          ≡ some (
            record no_listing {
              path = take (max_path - 1) path;
              entries = take max_entries (entries_of lib (listing path));
            },
            record d { store = record (d.store) { card = c' } },
          ))
        × P c'
  unfolding fetch_listing m65ftp_readdir
  fetch_lem fuel path d init opens lt p =
      let (p1, u) = browses.fat_opendir path false d.store.card p in
      let slot : DirCache = record no_listing { path = take (max_path - 1) path } in
      let (c', run, p') =
        list_entries_lem fuel (listing path) slot (lib.fat_opendir path false d.store.card).1 lt
          (u opens) p1 in
      (c', rw (init, opens, ◌>>=◌, on_card, run) refl, p')
