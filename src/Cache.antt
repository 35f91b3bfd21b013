-- ===== src/Cache.antt =====
-- The directory cache of src/mega65fs.c: sixteen listings, keyed by path, each trusted for five
-- seconds. Times are seconds since the epoch.
pub mod Slots
pub mod Lookup
pub mod Parents
pub mod Listing
use mega65fs.Base.{
  ℕ, zero, suc, ◌+◌, ◌-◌, ◌<◌, Bool, true, false, not, ◌&&◌, ◌||◌, Option, none, some, List, [],
  ◌∷◌, ◌++◌, ltb, leb, ◌==◌, if◌then◌else◌, length, take, set, get_or, str_eq, Prog, pure, ◌>>=◌,
  ◌>>◌, call, get, put,
}
use mega65fs.Card.{Card, Library}
use mega65fs.Store.{Store, on_card}
use mega65fs.Path.{is_empty, root_dir, last_slash}
use mega65fs.Dirs.{is_dot}
use mega65fs.Meta.{Stat, Listed, m65ftp_readdir}

abbrev pub max_entries : ℕ
max_entries = 512

abbrev pub max_path : ℕ
max_path = 512

abbrev pub entry_name_max : ℕ
entry_name_max = 256

abbrev pub max_cached_dirs : ℕ
max_cached_dirs = 16

abbrev pub cache_ttl : ℕ
cache_ttl = 5

pub record DirectoryEntry : Type 0 where
  pub name : List ℕ
  pub size : ℕ
  pub is_dir : Bool
  pub mtime : ℕ
  pub valid : Bool

-- `entry_count` is the length of `entries`.
pub record DirCache : Type 0 where
  pub path : List ℕ
  pub entries : List DirectoryEntry
  pub last_updated : ℕ
  pub valid : Bool

-- A zeroed slot.
abbrev pub no_listing : DirCache
no_listing = record { path = []; entries = []; last_updated = 0; valid = false }

-- The state of the driver: the slots, and that of src/m65ftp_lib.c.
pub record Driver (R : Type 0) : Type 0 where
  pub slots : List DirCache
  pub store : Store R

-- The slot is valid and holds the listing of `path`.
abbrev pub holds : List ℕ → DirCache → Bool
holds path slot = slot.valid && str_eq slot.path path

-- The loop of `get_cache_slot` from slot i on.
unfoldable pub scan_slots : List ℕ → List DirCache → ℕ → ℕ → ℕ → ℕ
scan_slots path [] i oldest_idx oldest_time = oldest_idx
scan_slots path (slot ∷ slots) i oldest_idx oldest_time =
    let older = ltb slot.last_updated oldest_time in
    let rest =
      scan_slots path slots (i + 1) (if older then i else oldest_idx)
        (if older then slot.last_updated else oldest_time) in
    if holds path slot || not slot.valid then i else rest

-- The index of the slot for `path`, at time t.
unfoldable pub get_cache_slot : ℕ → List ℕ → List DirCache → ℕ
unfolding scan_slots
get_cache_slot t path slots = scan_slots path slots 0 0 (t + 1)

-- The callback that collects a listing: whether to stop, and the slot.
unfoldable pub fill_dir_cache : Listed → DirCache → Bool × DirCache
fill_dir_cache e slot =
    if is_dot e.name
    then (false, slot)
    else (if leb max_entries (length slot.entries) then (true, slot) else (
      false,
      record slot {
        entries =
            slot.entries
            ++ record {
              name = take (entry_name_max - 1) e.name;
              size = e.file_size;
              is_dir = e.is_dir;
              mtime = e.mtime;
              valid = true;
            }
              ∷ [];
      },
    ))

-- Parent directory, and the text that the returned pointer shows: in the root the pointer is to
-- the byte that the truncation has just cleared.
unfoldable pub split_parent : ℕ → List ℕ → Option (List ℕ × List ℕ)
unfolding last_slash
split_parent dir_size path = elim (last_slash (take (dir_size - 1) path)) [
  | none ↦ none
  | some (before, after) ↦ some (if is_empty before then (root_dir, []) else (before, after))
]

-- The entry of that name in a listing.
unfoldable pub find_cached : List ℕ → List DirectoryEntry → Option Stat
find_cached name [] = none
find_cached name (e ∷ entries) =
    if e.valid && str_eq e.name name
    then some (record { size = e.size; is_dir = e.is_dir; mtime = e.mtime })
    else find_cached name entries

-- The first slot that holds `dir_path`, if it is young enough.
unfoldable pub find_listing : ℕ → List ℕ → List DirCache → Option (List DirectoryEntry)
find_listing now dir_path [] = none
find_listing now dir_path (slot ∷ slots) =
    if holds dir_path slot
    then (if leb cache_ttl (now - slot.last_updated) then none else some slot.entries)
    else find_listing now dir_path slots

unfoldable pub stat_from_cache : List ℕ → ℕ → List DirCache → Option Stat
stat_from_cache path now slots = elim (split_parent max_path path) [
  | none ↦ none
  | some (dir_path, file_name) ↦ elim (find_listing now dir_path slots) [
    | none ↦ none
    | some entries ↦ find_cached file_name entries
  ]
]

-- `valid = false` in the first slot that holds `parent`.
unfoldable pub drop_listing : List ℕ → List DirCache → List DirCache
drop_listing parent [] = []
drop_listing parent (slot ∷ slots) =
    if holds parent slot
    then record slot { valid = false } ∷ slots
    else slot ∷ drop_listing parent slots

module _ {R : Type 0} where
  abbrev pub on_store : {A : Type 0} → Prog (Store R) A → Prog (Driver R) A
  on_store m d = elim (m d.store) [ none ↦ none | some (a, s) ↦ some (a, record d { store = s }) ]

  unfoldable pub invalidate_cache_parent : List ℕ → Prog (Driver R) (Unit {0})
  unfolding split_parent drop_listing
  invalidate_cache_parent path d = elim (split_parent max_path path) [
    | none ↦ some (tt, d)
    | some (parent, _) ↦ some (tt, record d { slots = drop_listing parent d.slots })
  ]

module _ {R : Type 0} ⦃lib : Library R⦄ where
  -- `time(NULL)`
  abbrev pub clock : Prog (Driver R) ℕ
  clock = on_store (on_card (call lib.time))

  -- The listing of `path`, read from the card into an empty slot.
  unfoldable pub fetch_listing : ℕ → List ℕ → Prog (Driver R) DirCache
  unfolding fill_dir_cache
  fetch_listing fuel path = do
    (_, slot) ← on_store (
        m65ftp_readdir fuel path fill_dir_cache
          (record no_listing { path = take (max_path - 1) path }))
    pure slot

  -- The index of the slot with the listing of `path`, read anew where it is missing or too old.
  unfoldable pub refresh_cache_if_expired : ℕ → List ℕ → Prog (Driver R) ℕ
  unfolding get_cache_slot fetch_listing
  refresh_cache_if_expired fuel path = do
    now ← clock
    t ← clock
    d ← get
    let i = get_cache_slot t path d.slots
    let slot = get_or d.slots i no_listing
    if holds path slot && ltb (now - slot.last_updated) cache_ttl then pure i else do
      t ← clock
      d ← get
      let i = get_cache_slot t path d.slots
      slot ← fetch_listing fuel path
      d ← get
      put (record d { slots = set d.slots i (record slot { last_updated = now; valid = true }) })
      pure i
