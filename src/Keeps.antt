-- ===== src/Keeps.antt =====
-- Rules for programs of src/m65ftp_lib.c that keep the descriptor pool well formed and descriptors
-- open, one for each way to build a program.
pub mod Slots
pub mod Calls
pub mod Slotted
pub mod Sound
pub mod Handles
pub mod Callbacks
use mega65fs.Base.{
  subst, Holds, ℕ, zero, suc, ◌+◌, ◌-◌, ◌≤◌, ◌<◌, ◌≡◌, ◌≢◌, refl, ap, sym, subst, ◌∙◌, Bool, true,
  false, not, inl, inr, ◌⊎◌, Option, none, some, List, [], ◌∷◌, ◌++◌, ◌||◌, ◌&&◌, arith, ◌==◌, leb,
  ltb, if◌then◌else◌, length, get_or, set, Bool-cases, str_eq, str_eq_iff, take, drop, replicate,
  ◌*◌, ◌/◌, ◌%◌, ◌^◌, Option-cases, Prog, pure, get, put, run, call, ◌>>=◌, ◌>>◌, ℤ, pos, negsuc,
  minus_one,
}
use mega65fs.Card.{Card}
use mega65fs.Store.{Store, FileInfo, update, on_card}
use mega65fs.Store.Pool.{IsPool}

module _ {R : Type 0} where
  -- Where m returns, the pool is well formed if it was before.
  pub record KeepsPool {A : Type 0} (m : Prog (Store R) A) : Type 0 where
    pub at : (s : Store R) → IsPool s → Holds (λ a s'. IsPool s') (m s)

  pub card-IsPool : (s : Store R) (c : Card R) → IsPool s → IsPool (record s { card = c })
  card-IsPool s c v = record {
    bounded = v.bounded;
    distinct = v.distinct;
    below = v.below;
    exact = v.exact;
  }

  pub initialized-IsPool :
      (s : Store R) (b : Bool) → IsPool s → IsPool (record s { initialized = b })
  initialized-IsPool s b v = record {
    bounded = v.bounded;
    distinct = v.distinct;
    below = v.below;
    exact = v.exact;
  }

  -- A slot that is as open as the one before.
  pub update-IsPool :
      (s : Store R) (n : ℕ) (fi : FileInfo)
      → fi.in_use ≡ (s.files n).in_use
      → IsPool s
      → IsPool (record s { files = update s.files n fi })
  update-IsPool s n fi e v = record {
    bounded = v.bounded;
    distinct = v.distinct;
    below = v.below;
    exact = λ i h. ground (arith, v.exact i, e);
  }

  pub KeepsPool-card : {A : Type 0} (m : Prog (Card R) A) → KeepsPool (on_card m)
  KeepsPool-card m = record { at = λ s v. ground (arith, card-IsPool s) }

  pub KeepsPool-bind :
      {A B : Type 0} (m : Prog (Store R) A) (k : A → Prog (Store R) B)
      → KeepsPool m
      → ((a : A) → KeepsPool (k a))
      → KeepsPool (m >>= k)
  KeepsPool-bind m k h h' = record {
    at = λ s v. elim (Option-cases (m s)) [
      | inl e ↦ rw (Holds, ◌>>=◌, e) tt
      | inr ((a, s'), e) ↦ rw (◌>>=◌, e) ((h' a).at s' (rw e at (h.at s v)))
    ];
  }

  pub KeepsPool-if :
      {A : Type 0} (b : Bool) (m m' : Prog (Store R) A)
      → KeepsPool m
      → KeepsPool m'
      → KeepsPool (if b then m else m')
  KeepsPool-if true m m' h h' = h
  KeepsPool-if false m m' h h' = h'

  pub KeepsPool-pure : {A : Type 0} (a : A) → KeepsPool {A = A} (pure a)
  KeepsPool-pure a = record { at = λ s v. v }

  pub KeepsPool-get : KeepsPool get
  KeepsPool-get = record { at = λ s v. v }

-- Where m returns, the descriptor it returns is as open as b says.
pub record KeepsOpen {S A : Type 0} (b : Bool) (m : Prog S (A × FileInfo)) : Type 0 where
  pub at : (s : S) → Holds (λ x s'. x.1.in_use ≡ b) (m s)

module _ {S A : Type 0} {b : Bool} where
  pub KeepsOpen-bind :
      {B : Type 0} (m : Prog S B) (k : B → Prog S (A × FileInfo))
      → ((x : B) → KeepsOpen b (k x))
      → KeepsOpen b (m >>= k)
  KeepsOpen-bind m k h = record {
    at = λ s. elim (Option-cases (m s)) [
      | inl e ↦ rw (Holds, ◌>>=◌, e) tt
      | inr ((a, s'), e) ↦ rw (◌>>=◌, e) ((h a).at s')
    ];
  }

  -- The second program takes the descriptor over from the first.
  pub KeepsOpen-then :
      {B : Type 0} (m : Prog S (B × FileInfo)) (k : B × FileInfo → Prog S (A × FileInfo))
      → KeepsOpen b m
      → ((x : B × FileInfo) → KeepsOpen x.1.in_use (k x))
      → KeepsOpen b (m >>= k)
  KeepsOpen-then m k h h' = record {
    at = λ s. elim (Option-cases (m s)) [
      | inl e ↦ rw (Holds, ◌>>=◌, e) tt
      | inr ((x, s'), e) ↦
          let open' : x.1.in_use ≡ b = rw e at (h.at s) in
          rw (◌>>=◌, e) (subst (λ t. Holds (λ y s''. y.1.in_use ≡ t) (k x s')) open' ((h' x).at s'))
    ];
  }

  pub KeepsOpen-if :
      (t : Bool) (m m' : Prog S (A × FileInfo))
      → KeepsOpen b m
      → KeepsOpen b m'
      → KeepsOpen b (if t then m else m')
  KeepsOpen-if true m m' h h' = h
  KeepsOpen-if false m m' h h' = h'

  pub KeepsOpen-pure : (a : A) (fi : FileInfo) → fi.in_use ≡ b → KeepsOpen {S = S} b (pure (a, fi))
  KeepsOpen-pure a fi e = record { at = λ s. e }

pub ruleset pool_rules =
    (KeepsPool-bind, KeepsPool-get, KeepsPool-if, KeepsPool-pure, KeepsPool-card)

pub ruleset open_rules = (KeepsOpen-bind, KeepsOpen-if, KeepsOpen-pure)
