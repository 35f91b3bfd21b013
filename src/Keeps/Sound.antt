-- ===== src/Keeps/Sound.antt =====
-- Rules for the callbacks of src/mega65fs.c that keep the driver's state sound, one for each way to
-- build a program.
use mega65fs.Base.{
  Holds, ℕ, suc, ◌≡◌, refl, ap, ◌∙◌, Bool, true, false, inl, inr, List, [], ◌∷◌, if◌then◌else◌,
  length, Bool-cases, Option-cases, Prog, pure, get, ◌>>=◌,
}
use mega65fs.Store.{Store}
use mega65fs.Store.Pool.{IsPool}
use mega65fs.Keeps.{KeepsPool, KeepsPool-card, KeepsPool-if}
use mega65fs.Cache.{
  Driver, DirCache, max_path, max_cached_dirs, split_parent, drop_listing, holds, on_store,
  invalidate_cache_parent,
}

-- The pool is well formed, and the cache has its sixteen slots.
pub record Sound {R : Type 0} (d : Driver R) : Type 0 where
  pub pool : IsPool d.store
  pub slots : length d.slots ≡ max_cached_dirs

length-drop_listing :
    (parent : List ℕ) (slots : List DirCache) → length (drop_listing parent slots) ≡ length slots
unfolding drop_listing
length-drop_listing parent [] = refl
length-drop_listing parent (slot ∷ slots) = elim (Bool-cases (holds parent slot)) [
  | inl w ↦ rw w refl
  | inr w ↦ rw w (ap suc (length-drop_listing parent slots))
]

-- Where m returns, the driver is sound if it was before.
pub record KeepsSound {R A : Type 0} (m : Prog (Driver R) A) : Type 0 where
  pub at : (d : Driver R) → Sound d → Holds (λ a d'. Sound d') (m d)

module _ {R : Type 0} where
  pub KeepsSound-store : {A : Type 0} (m : Prog (Store R) A) → KeepsPool m → KeepsSound (on_store m)
  KeepsSound-store m h = record {
    at = λ d v. elim (Option-cases (m d.store)) [
      | inl e ↦ rw (Holds, on_store, e) tt
      | inr ((a, s), e) ↦
          rw (on_store, e) (record { pool = rw e at (h.at d.store v.pool); slots = v.slots })
    ];
  }

  pub KeepsSound-bind :
      {A B : Type 0} (m : Prog (Driver R) A) (k : A → Prog (Driver R) B)
      → KeepsSound m
      → ((a : A) → KeepsSound (k a))
      → KeepsSound (m >>= k)
  KeepsSound-bind m k h h' = record {
    at = λ s v. elim (Option-cases (m s)) [
      | inl e ↦ rw (Holds, ◌>>=◌, e) tt
      | inr ((a, s'), e) ↦ rw (◌>>=◌, e) ((h' a).at s' (rw e at (h.at s v)))
    ];
  }

  pub KeepsSound-if :
      {A : Type 0} (b : Bool) (m m' : Prog (Driver R) A)
      → KeepsSound m
      → KeepsSound m'
      → KeepsSound (if b then m else m')
  KeepsSound-if true m m' h h' = h
  KeepsSound-if false m m' h h' = h'

  pub KeepsSound-pure : {A : Type 0} (a : A) → KeepsSound {R = R} {A = A} (pure a)
  KeepsSound-pure a = record { at = λ s v. v }

  pub KeepsSound-get : KeepsSound {R = R} get
  KeepsSound-get = record { at = λ s v. v }

  pub invalidate-KeepsSound : (path : List ℕ) → KeepsSound {R = R} (invalidate_cache_parent path)
  unfolding invalidate_cache_parent
  invalidate-KeepsSound path = record {
    at = λ d v. elim (Option-cases (split_parent max_path path)) [
      | inl e ↦ rw e v
      | inr ((parent, name), e) ↦
          rw e (record { pool = v.pool; slots = length-drop_listing parent d.slots ∙ v.slots })
    ];
  }

  pub ruleset sound_rules = (
    KeepsSound-bind, KeepsSound-get, KeepsSound-if, KeepsSound-pure, KeepsSound-store, KeepsPool-if,
    KeepsPool-card, invalidate-KeepsSound,
  )
