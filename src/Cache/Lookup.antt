-- ===== src/Cache/Lookup.antt =====
-- Lookups in the directory cache: stat_from_cache of src/mega65fs.c.
use mega65fs.Base.{
  ltb, ℕ, ltb, ◌&&◌, ◌+◌, ◌++◌, ◌≤◌, ◌≡◌, ◌≢◌, refl, ◌∙◌, true, false, inl, inr, Option, none, some,
  List, [], ◌∷◌, arith, if◌then◌else◌, length, Bool-cases, Option-cases, str_eq_iff, subst, ap,
  str_eq,
}
use mega65fs.Path.{slash, root_dir, is_empty}
use mega65fs.Path.Split.{has_slash, take_all, last_slash-append, path_of}
use mega65fs.Meta.{Stat}
use mega65fs.Cache.{
  DirectoryEntry, DirCache, holds, split_parent, find_cached, find_listing, stat_from_cache,
}

-- Every entry of every listing has a name.
abbrev pub EntriesNamed : List DirectoryEntry → Type 0
EntriesNamed [] = Unit {0}
EntriesNamed (e ∷ es) = (e.name ≢ []) × EntriesNamed es

abbrev pub SlotsNamed : List DirCache → Type 0
SlotsNamed [] = Unit {0}
SlotsNamed (s ∷ ss) = EntriesNamed s.entries × SlotsNamed ss

-- What `split_parent` makes of the parts of a path.
abbrev pub parent_and_name : List ℕ → List ℕ → List ℕ × List ℕ
parent_and_name dir name = if is_empty dir then (root_dir, []) else (dir, name)

pub split_parent-append :
    (dir name : List ℕ)
    → has_slash name ≡ false
    → length (path_of dir name) ≤ 511
    → split_parent 512 (path_of dir name) ≡ some (parent_and_name dir name)
unfolding split_parent
split_parent-append dir name h p =
    rw (split_parent, take_all 511 (path_of dir name) p, last_slash-append dir name h)

no_entry : (es : List DirectoryEntry) → EntriesNamed es → find_cached [] es ≡ none
unfolding find_cached
no_entry [] h = refl
no_entry (e ∷ es) h = ground (arith, str_eq_iff e.name [], no_entry es h.1)

listing_named :
    (now : ℕ) (dir : List ℕ) (slots : List DirCache) (es : List DirectoryEntry)
    → SlotsNamed slots
    → find_listing now dir slots ≡ some es
    → EntriesNamed es
unfolding find_listing
listing_named now dir [] es h e = cc
listing_named now dir (s ∷ ss) es (n, ns) e = elim (Bool-cases (holds dir s)) [
  | inl t ↦ subst EntriesNamed (same t) n
  | inr f ↦ listing_named now dir ss es ns (rest f)
]
  where
    same : holds dir s ≡ true → s.entries ≡ es
    same t = ground (arith, e, t)

    rest : holds dir s ≡ false → find_listing now dir ss ≡ some es
    rest f = ground (arith, e, f)

-- For a name of at most 510 bytes without a slash, and a cache whose entries all have names: a
-- file of the root directory is never found in the cache, whatever listings it holds.
pub stat_from_cache-root :
    (name : List ℕ) (now : ℕ) (slots : List DirCache)
    → has_slash name ≡ false
    → length name ≤ 510
    → SlotsNamed slots
    → stat_from_cache (slash ∷ name) now slots ≡ none
unfolding stat_from_cache split_parent
stat_from_cache-root name now slots h l named =
    rw (split_parent-append [] name h (omega arith)) answer
  where
    answer :
        ◌≡◌ {A = Option Stat}
          (elim (find_listing now root_dir slots) [ none ↦ none | some es ↦ find_cached [] es ])
          none
    answer = elim (Option-cases (find_listing now root_dir slots)) [
      | inl e ↦ rw e
      | inr (es, e) ↦ (rw e) ∙ no_entry es (listing_named now root_dir slots es named e)
    ]

-- What the lookup of a name makes of a listing, if there is one.
abbrev looked_up : List ℕ → Option (List DirectoryEntry) → Option Stat
looked_up name none = none
looked_up name (some es) = find_cached name es

-- The lookup of a path in a directory that is not the root.
in_listing :
    (dir name : List ℕ) (now : ℕ) (slots : List DirCache) (o : Option (List DirectoryEntry))
    → dir ≢ []
    → has_slash name ≡ false
    → length (path_of dir name) ≤ 511
    → find_listing now dir slots ≡ o
    → stat_from_cache (path_of dir name) now slots ≡ looked_up name o
unfolding stat_from_cache
in_listing dir name now slots o ne h l e =
    rw (stat_from_cache, split_parent-append dir name h l) (at_dir dir o ne e)
  where
    at_dir :
        (dir : List ℕ) (o : Option (List DirectoryEntry))
        → dir ≢ []
        → find_listing now dir slots ≡ o
        → ◌≡◌ {A = Option Stat}
            (elim (find_listing now (parent_and_name dir name).0 slots) [
              | none ↦ none
              | some es ↦ find_cached (parent_and_name dir name).1 es
            ])
            (looked_up name o)
    at_dir [] o n e = absurd (n refl)
    at_dir (c ∷ d) none n e = rw e
    at_dir (c ∷ d) (some es) n e = rw e

-- No slot is a valid listing of the directory.
abbrev pub NoListing : List ℕ → List DirCache → Type 0
NoListing dir [] = Unit {0}
NoListing dir (s ∷ ss) = (s.valid ≡ true → s.path ≢ dir) × NoListing dir ss

-- No valid entry has the name.
abbrev pub NoEntry : List ℕ → List DirectoryEntry → Type 0
NoEntry name [] = Unit {0}
NoEntry name (e ∷ es) = (e.valid ≡ true → e.name ≢ name) × NoEntry name es

find_listing-at :
    (now : ℕ) (dir : List ℕ) (front back : List DirCache) (s : DirCache)
    → NoListing dir front
    → s.valid ≡ true
    → s.path ≡ dir
    → find_listing now dir (front ++ (s ∷ back))
      ≡ (if ltb now (s.last_updated + 5) then some s.entries else none)
unfolding find_listing
find_listing-at now dir [] back s h v p = ground (arith, v, (str_eq_iff s.path dir).1 p)
find_listing-at now dir (f ∷ front) back s (h, hs) v p = elim (Bool-cases (holds dir f)) [
  | inl w ↦
      let t : f.valid ≡ true = ground (arith, w) in
      absurd (h t ((str_eq_iff f.path dir).0 (ground (arith, w))))
  | inr w ↦ rw w (find_listing-at now dir front back s hs v p)
]

find_cached-at :
    (name : List ℕ) (pre post : List DirectoryEntry) (e : DirectoryEntry)
    → NoEntry name pre
    → e.valid ≡ true
    → e.name ≡ name
    → find_cached name (pre ++ (e ∷ post))
      ≡ some (record { size = e.size; is_dir = e.is_dir; mtime = e.mtime })
unfolding find_cached
find_cached-at name [] post e h v n = ground (arith, v, (str_eq_iff e.name name).1 n)
find_cached-at name (f ∷ pre) post e (h, hs) v n =
    elim (Bool-cases (f.valid && str_eq f.name name)) [
      | inl w ↦
          let t : f.valid ≡ true = ground (arith, w) in
          absurd (h t ((str_eq_iff f.name name).0 (ground (arith, w))))
      | inr w ↦ rw w (find_cached-at name pre post e hs v n)
    ]

-- For a directory that is not the root, a name without a slash and a path of at most 511 bytes, where
-- the cache has a valid listing of the directory, the first one is that of `s`, and `e` is the first
-- valid entry of that name in it: while the listing is less than five seconds old, the lookup of the
-- path answers the size, the kind and the time of `e`; later it finds nothing.
pub stat_from_cache-append :
    (dir name : List ℕ) (now : ℕ) (front back : List DirCache) (s : DirCache)
    (pre post : List DirectoryEntry) (e : DirectoryEntry)
    → dir ≢ []
    → has_slash name ≡ false
    → length (path_of dir name) ≤ 511
    → NoListing dir front
    → s.valid ≡ true
    → s.path ≡ dir
    → s.entries ≡ pre ++ (e ∷ post)
    → NoEntry name pre
    → e.valid ≡ true
    → e.name ≡ name
    → stat_from_cache (path_of dir name) now (front ++ (s ∷ back)) ≡ (
        if ltb now (s.last_updated + 5)
        then some (record { size = e.size; is_dir = e.is_dir; mtime = e.mtime })
        else none)
stat_from_cache-append dir name now front back s pre post e ne h l nf v p es nn ev en =
    let found = find_listing-at now dir front back s nf v p in
    let slots = front ++ (s ∷ back) in
    elim (Bool-cases (ltb now (s.last_updated + 5))) [
      | inl w ↦ rw w (
          in_listing dir name now slots (some s.entries) ne h l (rw w at found)
          ∙ ap (find_cached name) es
          ∙ find_cached-at name pre post e nn ev en)
      | inr w ↦ rw w (in_listing dir name now slots none ne h l (rw w at found))
    ]
