-- ===== src/Cache/Slots.antt =====
-- Which slot `get_cache_slot` of src/mega65fs.c takes, and what an invalidation leaves.
use mega65fs.Base.{
  ℕ, suc, ◌+◌, ◌≤◌, ◌<◌, ◌≡◌, ◌≢◌, refl, sym, subst, ◌∙◌, true, false, inl, inr, ◌⊎◌, none, List,
  [], ◌∷◌, arith, ltb, if◌then◌else◌, length, get_or, set, Bool-cases, str_eq_iff,
}
use mega65fs.Cache.{
  DirCache, holds, scan_slots, get_cache_slot, find_listing, drop_listing, no_listing,
}

-- The scan ends at its candidate or at a slot that it visits.
scan_slots_lem :
    (path : List ℕ) (slots : List DirCache) (i o ot : ℕ)
    → o < i + length slots
    → scan_slots path slots i o ot < i + length slots
unfolding scan_slots
scan_slots_lem path [] i o ot h = h
scan_slots_lem path (s ∷ ss) i o ot h = ground (
  arith,
  scan_slots_lem path ss (i + 1) (if ltb s.last_updated ot then i else o)
      (if ltb s.last_updated ot then s.last_updated else ot),
)

-- In a table that is not empty, the slot chosen for a path is one of the table.
pub get_cache_slot_lem :
    (t : ℕ) (path : List ℕ) (slots : List DirCache)
    → 0 < length slots
    → get_cache_slot t path slots < length slots
unfolding get_cache_slot
get_cache_slot_lem t path slots h =
    omega (arith, scan_slots_lem path slots 0 0 (t + 1) (omega arith))

-- Every slot is valid, updated at t or before, and holds another path.
abbrev pub IsFull : ℕ → List ℕ → List DirCache → Type 0
IsFull t path [] = Unit {0}
IsFull t path (s ∷ ss) =
    (s.valid ≡ true) × (holds path s ≡ false) × (s.last_updated ≤ t) × IsFull t path ss

abbrev pub time_at : List DirCache → ℕ → ℕ
time_at slots i = (get_or slots i no_listing).last_updated

-- No slot was updated before m.
abbrev pub NoneBefore : ℕ → List DirCache → Type 0
NoneBefore m [] = Unit {0}
NoneBefore m (s ∷ ss) = (m ≤ s.last_updated) × NoneBefore m ss

none_before : (m n : ℕ) (slots : List DirCache) → m ≤ n → NoneBefore n slots → NoneBefore m slots
none_before m n [] h b = tt
none_before m n (s ∷ ss) h (b, bs) = (omega arith, none_before m n ss h bs)

-- In a full table the scan keeps its candidate where no slot is older, and else takes the oldest.
scan_full :
    (t : ℕ) (path : List ℕ) (slots : List DirCache) (i o ot : ℕ)
    → IsFull t path slots
    → ((scan_slots path slots i o ot ≡ o) × NoneBefore ot slots)
      ⊎ ((j : ℕ) × (scan_slots path slots i o ot ≡ i + j)
          × (time_at slots j < ot)
          × NoneBefore (time_at slots j) slots)
unfolding scan_slots
scan_full t path [] i o ot h = inl (refl, tt)
scan_full t path (s ∷ ss) i o ot (v, n, l, f) = elim (Bool-cases (ltb s.last_updated ot)) [
  | inl w ↦ elim (scan_full t path ss (i + 1) i s.last_updated f) [
    | inl (e, b) ↦ inr (0, older w ∙ e ∙ omega arith, ground (arith, w), (omega arith, b))
    | inr (j, e, lt, b) ↦
        inr (suc j, older w ∙ e ∙ omega arith, ground (arith, w, lt), (omega (arith, lt), b))
  ]
  | inr w ↦ elim (scan_full t path ss (i + 1) o ot f) [
    | inl (e, b) ↦ inl (newer w ∙ e, (ground (arith, w), b))
    | inr (j, e, lt, b) ↦ inr (suc j, newer w ∙ e ∙ omega arith, lt, (ground (arith, lt, w), b))
  ]
]
  where
    older :
        ltb s.last_updated ot ≡ true
        → scan_slots path (s ∷ ss) i o ot ≡ scan_slots path ss (i + 1) i s.last_updated
    older w = ground (arith, v, n, w)

    newer :
        ltb s.last_updated ot ≡ false
        → scan_slots path (s ∷ ss) i o ot ≡ scan_slots path ss (i + 1) o ot
    newer w = ground (arith, v, n, w)

-- In a table that is not empty, where every slot is valid, updated no later than t and holds
-- another path: no slot was updated before the one that is chosen at time t.
pub get_cache_slot-NoneBefore :
    (t : ℕ) (path : List ℕ) (slots : List DirCache)
    → 0 < length slots
    → IsFull t path slots
    → NoneBefore (time_at slots (get_cache_slot t path slots)) slots
unfolding get_cache_slot
get_cache_slot-NoneBefore t path [] h f = absurd (omega arith)
get_cache_slot-NoneBefore t path (s ∷ ss) h f = elim (scan_full t path (s ∷ ss) 0 0 (t + 1) f) [
  | inl (e, b) ↦ absurd (too_young b)
  | inr (j, e, lt, b) ↦
      subst (λ k. NoneBefore (time_at (s ∷ ss) k) (s ∷ ss)) (sym (e ∙ omega arith)) b
]
  where
    too_young : NoneBefore (t + 1) (s ∷ ss) → ⊥
    too_young (b, bs) = omega (arith, b, f.2)

-- How many slots hold `path`.
abbrev pub holders : List ℕ → List DirCache → ℕ
holders path [] = 0
holders path (s ∷ ss) = (if holds path s then 1 else 0) + holders path ss

pub holders-none :
    (now : ℕ) (path : List ℕ) (slots : List DirCache)
    → holders path slots ≡ 0
    → find_listing now path slots ≡ none
unfolding find_listing
holders-none now path [] h = refl
holders-none now path (s ∷ ss) h = ground (arith, holders-none now path ss)

-- Where at most one slot holds the path: after an invalidation the path has no listing.
pub find_listing-drop_listing :
    (now : ℕ) (path : List ℕ) (slots : List DirCache)
    → holders path slots ≤ 1
    → find_listing now path (drop_listing path slots) ≡ none
unfolding find_listing drop_listing
find_listing-drop_listing now path [] h = refl
find_listing-drop_listing now path (s ∷ ss) h =
    ground (arith, holders-none now path ss, find_listing-drop_listing now path ss)

-- An invalidation of one path changes nothing for the lookup of another.
pub find_listing-drop_other :
    (now : ℕ) (path other : List ℕ) (slots : List DirCache)
    → path ≢ other
    → find_listing now other (drop_listing path slots) ≡ find_listing now other slots
unfolding find_listing drop_listing
find_listing-drop_other now path other [] n = refl
find_listing-drop_other now path other (s ∷ ss) n = ground (
  arith,
  find_listing-drop_other now path other ss n,
  str_eq_iff s.path path,
  str_eq_iff s.path other,
)

-- Where the first slot is invalid, a new listing of a path goes there even if a later slot holds
-- the path; an invalidation of the path then drops the new listing only, and a lookup answers what
-- the later slots have.
pub stale_listing :
    (now t : ℕ) (path : List ℕ) (slot new : DirCache) (rest : List DirCache)
    → slot.valid ≡ false
    → holds path new ≡ true
    → find_listing now path
        (drop_listing path (set (slot ∷ rest) (get_cache_slot t path (slot ∷ rest)) new))
      ≡ find_listing now path rest
unfolding find_listing drop_listing get_cache_slot scan_slots
stale_listing now t path slot new rest v h = ground (arith, v, h)
