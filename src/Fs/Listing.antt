-- ===== src/Fs/Listing.antt =====
-- fs_readdir of src/mega65fs.c against the directory on the card.
use mega65fs.Base.{
  ℕ, zero, suc, ◌+◌, ◌-◌, ◌≤◌, ◌<◌, ◌≡◌, refl, ap, ◌∙◌, true, false, inl, inr, some, List, [], ◌∷◌,
  ◌&&◌, arith, ltb, Bool-cases, length, take, set, get_or, get_or-set, pos, ◌>>=◌,
}
use mega65fs.Card.{Card, Library, Dirent}
use mega65fs.Dirs.Empty.{Browses}
use mega65fs.Cache.{
  DirCache, Driver, holds, cache_ttl, max_path, max_entries, no_listing, get_cache_slot, on_store,
  clock, refresh_cache_if_expired,
}
use mega65fs.Cache.Slots.{get_cache_slot_lem}
use mega65fs.Cache.Listing.{entries_of, fetch_lem}
use mega65fs.Fs.{fs_readdir, emit_entries, too_long}
use mega65fs.Fs.Handlers.{collect, numbered, emit_entries-collect}

-- Every listing of `path` is five seconds old or older.
abbrev pub Expired : ℕ → List ℕ → List DirCache → Type 0
Expired now path [] = Unit
Expired now path (s ∷ ss) =
    (holds path s ≡ true → s.last_updated + cache_ttl ≤ now) × Expired now path ss

holds-Expired :
    (now : ℕ) (path : List ℕ) (slots : List DirCache) (i : ℕ)
    → Expired now path slots
    → (holds path (get_or slots i no_listing)
        && ltb (now - (get_or slots i no_listing).last_updated) cache_ttl)
      ≡ false
holds-Expired now path [] i e = refl
holds-Expired now path (s ∷ ss) zero (e, es) = elim (Bool-cases (holds path s)) [
  | inr w ↦ rw w refl
  | inl w ↦ rw w (ground (arith, e w))
]
holds-Expired now path (s ∷ ss) (suc i) (e, es) = holds-Expired now path ss i es

module _ {R : Type 0} ⦃lib : Library R⦄ (P : Card R → Type 0) (unread : Card R → List Dirent)
    (listing : List ℕ → List Dirent) (browses : Browses lib P unread listing)
    (time : (c : Card R) → P c → P (lib.time c).1) where
  -- The listing that a refresh at `now` puts into the cache.
  abbrev fresh : ℕ → List ℕ → DirCache
  fresh now path = record {
    path = take (max_path - 1) path;
    entries = take max_entries (entries_of lib (listing path));
    last_updated = now;
    valid = true;
  }

  refresh_lem :
      (fuel : ℕ) (path : List ℕ) (d : Driver R)
      → d.store.initialized ≡ true
      → ((c : Card R) → P c → (lib.fat_opendir path false c).0 ≡ true)
      → length (listing path) < fuel
      → P d.store.card
      → 0 < length d.slots
      → Expired (lib.time d.store.card).0 path d.slots
      → (i : ℕ) × (c' : Card R) × (refresh_cache_if_expired fuel path d
          ≡ some (
            i,
            record d {
              slots = set d.slots i (fresh (lib.time d.store.card).0 path);
              store = record (d.store) { card = c' };
            },
          ))
        × (i < length d.slots)
        × P c'
  unfolding refresh_cache_if_expired
  refresh_lem fuel path d init opens lt p some_slots old =
      let c = d.store.card in
      let now = (lib.time c).0 in
      let p1 = time c p in
      let c1 = (lib.time c).1 in
      let t = (lib.time c1).0 in
      let p2 = time c1 p1 in
      let c2 = (lib.time c1).1 in
      let p3 = time c2 p2 in
      let c3 = (lib.time c2).1 in
      let i = get_cache_slot (lib.time c2).0 path d.slots in
      let (c', run, p') =
        fetch_lem P unread listing browses fuel path
          (record d { store = record (d.store) { card = c3 } }) init (opens c3 p3) lt p3 in
      let w = holds-Expired now path d.slots (get_cache_slot t path d.slots) old in
      (
        i,
        c',
        rw (w, ◌>>=◌, clock, on_store, run) refl,
        get_cache_slot_lem (lib.time c2).0 path d.slots some_slots,
        p',
      )

  -- With the connection up, a path of less than 512 bytes that can be opened as a directory, fuel
  -- for its listing, and every cached listing of the path five seconds old or older: a readdir from
  -- offset 0 into a buffer that never fills up answers 0 and passes on ".", "..", and then the first
  -- 512 of the entries that the directory on the card has and that have a name and are neither "."
  -- nor "..", in order, each with the offset that follows it.
  pub fs_readdir-listing :
      (fuel : ℕ) (path : List ℕ) (d : Driver R)
      → too_long path ≡ false
      → d.store.initialized ≡ true
      → ((c : Card R) → P c → (lib.fat_opendir path false c).0 ≡ true)
      → length (listing path) < fuel
      → P d.store.card
      → 0 < length d.slots
      → Expired (lib.time d.store.card).0 path d.slots
      → (d' : Driver R) × (fs_readdir fuel path collect 0 [] d
          ≡ some (
            (
              pos 0,
              (b'.' ∷ [], 1)
                  ∷ (b'.' ∷ b'.' ∷ [], 2)
                  ∷ numbered 2 (take max_entries (entries_of lib (listing path))),
            ),
            d',
          ))
  unfolding fs_readdir
  fs_readdir-listing fuel path d short init opens lt p some_slots old =
      let (i, c', run, inside, p') = refresh_lem fuel path d init opens lt p some_slots old in
      let now = (lib.time d.store.card).0 in
      let slots = set d.slots i (fresh now path) in
      let entries = take max_entries (entries_of lib (listing path)) in
      let there : get_or slots i no_listing ≡ fresh now path =
        ground (arith, get_or-set d.slots i i (fresh now path) no_listing, inside) in
      let dots = (b'.' ∷ [], 1) ∷ (b'.' ∷ b'.' ∷ [], 2) ∷ [] in
      let out = emit_entries-collect 0 2 entries dots in
      (
        record d { slots = slots; store = record (d.store) { card = c' } },
        rw (short, ◌>>=◌, run)
            (ap
              (λ (names : List (List ℕ × ℕ)). some (
                (pos 0, names),
                record d { slots = slots; store = record (d.store) { card = c' } },
              ))
              (ap (λ (s : DirCache). emit_entries collect 0 s.entries 2 dots) there ∙ out)),
      )
