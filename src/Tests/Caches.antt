-- ===== src/Tests/Caches.antt =====
-- The theorems on the directory cache of src/mega65fs.c at concrete inputs.
use mega65fs.Base.{ℕ, ◌≡◌, refl, true, false, none, some, List, [], ◌∷◌, arith, set, str_eq}
use mega65fs.Path.{root_dir}
use mega65fs.Cache.{
  DirectoryEntry, DirCache, no_listing, get_cache_slot, find_listing, stat_from_cache, drop_listing,
}
use mega65fs.Cache.Slots.{get_cache_slot-NoneBefore, NoneBefore, time_at, stale_listing}
use mega65fs.Cache.Lookup.{stat_from_cache-root, stat_from_cache-append}
use mega65fs.Sample.{medium}

-- A listing with one file, and a table of two slots.
abbrev an_entry : DirectoryEntry
an_entry = record { name = b'A' ∷ []; size = 600; is_dir = false; mtime = 0; valid = true }

abbrev listing_of : List ℕ → ℕ → DirCache
listing_of path t = record { path = path; entries = an_entry ∷ []; last_updated = t; valid = true }

abbrev two_slots : List DirCache
two_slots = listing_of (b'/' ∷ b'D' ∷ []) 8 ∷ listing_of root_dir 7 ∷ []

get_cache_slot-NoneBefore_example :
    NoneBefore (time_at two_slots (get_cache_slot 9 (b'/' ∷ b'E' ∷ []) two_slots)) two_slots
unfolding str_eq
get_cache_slot-NoneBefore_example =
    get_cache_slot-NoneBefore 9 (b'/' ∷ b'E' ∷ []) two_slots (omega arith)
      (refl, refl, omega arith, (refl, refl, omega arith, tt))

stale_listing_example :
    find_listing 9 root_dir (
      drop_listing root_dir (
        set
          (no_listing ∷ two_slots)
          (get_cache_slot 9 root_dir (no_listing ∷ two_slots))
          (listing_of root_dir 9)))
    ≡ find_listing 9 root_dir two_slots
unfolding str_eq
stale_listing_example =
    stale_listing 9 9 root_dir no_listing (listing_of root_dir 9) two_slots refl refl

stat_from_cache-root_example : stat_from_cache (b'/' ∷ b'A' ∷ []) 9 two_slots ≡ none
stat_from_cache-root_example =
    stat_from_cache-root (b'A' ∷ []) 9 two_slots refl (omega arith)
      (((λ e. cc), tt), (((λ e. cc), tt), tt))

-- An entry that is not valid, of the same name, and a slot for another directory in front.
abbrev dead_entry : DirectoryEntry
dead_entry = record an_entry { size = 1; valid = false }

abbrev in_second : DirCache
in_second = record {
  path = b'/' ∷ b'D' ∷ [];
  entries = dead_entry ∷ an_entry ∷ [];
  last_updated = 5;
  valid = true;
}

stat_from_cache-append_example :
    stat_from_cache (b'/' ∷ b'D' ∷ b'/' ∷ b'A' ∷ []) 9 (listing_of root_dir 7 ∷ in_second ∷ [])
    ≡ some (record { size = 600; is_dir = false; mtime = 0 })
stat_from_cache-append_example =
    stat_from_cache-append (b'/' ∷ b'D' ∷ []) (b'A' ∷ []) 9 (listing_of root_dir 7 ∷ []) []
      in_second (dead_entry ∷ []) [] an_entry (λ e. cc) refl (omega arith) ((λ t. (λ e. cc)), tt)
      refl refl refl ((λ t. absurd (ground (arith, t))), tt) refl refl
