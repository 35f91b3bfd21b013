-- ===== src/Base/Lists.antt =====
-- Lists of bytes, indexed by native numbers.
use Prim.Native.Nat.{ℕ, zero, suc, ◌+◌, ◌-◌, ◌≤◌, ◌<◌, min}
use mathlib.Core.Path.{◌≡◌, refl, ap}
use mathlib.Core.Bool.{Bool, true, false, ◌&&◌}
use mathlib.Core.List.{List, [], ◌∷◌, ◌++◌}
use mathlib.Core.Option.{Option, none, some}
use mathlib.Core.Logic.{◌↔◌}
use native.Mathlib.Omega.{arith}
use mega65fs.Base.Tests.{leb, ltb, ◌==◌, if◌then◌else◌}

module _ {ℓ} {A : Type ℓ} where
  abbrev pub length : List A → ℕ
  length [] = 0
  length (x ∷ xs) = suc (length xs)

  abbrev pub get_elem? : List A → ℕ → Option A
  get_elem? [] i = none
  get_elem? (x ∷ xs) zero = some x
  get_elem? (x ∷ xs) (suc i) = get_elem? xs i

  abbrev pub set : List A → ℕ → A → List A
  set [] i v = []
  set (x ∷ xs) zero v = v ∷ xs
  set (x ∷ xs) (suc i) v = x ∷ set xs i v

  abbrev pub get_or : List A → ℕ → A → A
  get_or [] i d = d
  get_or (x ∷ xs) zero d = x
  get_or (x ∷ xs) (suc i) d = get_or xs i d

  abbrev pub take : ℕ → List A → List A
  take zero xs = []
  take (suc n) [] = []
  take (suc n) (x ∷ xs) = x ∷ take n xs

  abbrev pub drop : ℕ → List A → List A
  drop zero xs = xs
  drop (suc n) [] = []
  drop (suc n) (x ∷ xs) = drop n xs

  abbrev pub replicate : ℕ → A → List A
  replicate zero a = []
  replicate (suc n) a = a ∷ replicate n a

  -- `memcpy(xs, ys, length ys)` into a region as long as xs.
  abbrev pub overlay : List A → List A → List A
  overlay [] xs = xs
  overlay (y ∷ ys) [] = []
  overlay (y ∷ ys) (x ∷ xs) = y ∷ overlay ys xs

  -- `memcpy(xs + o, ys, length ys)`.
  abbrev pub splice : ℕ → List A → List A → List A
  splice zero ys xs = overlay ys xs
  splice (suc o) ys [] = []
  splice (suc o) ys (x ∷ xs) = x ∷ splice o ys xs

module _ {ℓ} {A : Type ℓ} where
  pub length-append : (xs ys : List A) → length (xs ++ ys) ≡ length xs + length ys
  length-append [] ys = omega arith
  length-append (x ∷ xs) ys = omega (arith, length-append xs ys)

  pub length-replicate : (n : ℕ) (a : A) → length (replicate n a) ≡ n
  length-replicate zero a = refl
  length-replicate (suc n) a = ap suc (length-replicate n a)

  pub length-take : (n : ℕ) (xs : List A) → length (take n xs) ≡ min n (length xs)
  length-take zero xs = omega arith
  length-take (suc n) [] = omega arith
  length-take (suc n) (x ∷ xs) = omega (arith, length-take n xs)

  pub length-set : (xs : List A) (i : ℕ) (v : A) → length (set xs i v) ≡ length xs
  length-set [] i v = refl
  length-set (x ∷ xs) zero v = refl
  length-set (x ∷ xs) (suc i) v = ap suc (length-set xs i v)

  pub get_or-set :
      (xs : List A) (i j : ℕ) (v d : A)
      → get_or (set xs i v) j d ≡ (if (i == j) && ltb i (length xs) then v else get_or xs j d)
  get_or-set [] i j v d = ground arith
  get_or-set (x ∷ xs) zero zero v d = ground arith
  get_or-set (x ∷ xs) zero (suc j) v d = ground arith
  get_or-set (x ∷ xs) (suc i) zero v d = ground arith
  get_or-set (x ∷ xs) (suc i) (suc j) v d = ground (arith, get_or-set xs i j v d)

  pub get_or_end : (xs : List A) (i : ℕ) (d : A) → length xs ≤ i → get_or xs i d ≡ d
  get_or_end [] i d h = refl
  get_or_end (x ∷ xs) zero d h = absurd (omega arith)
  get_or_end (x ∷ xs) (suc i) d h = get_or_end xs i d (omega arith)

  pub get_or-append :
      (xs ys : List A) (i : ℕ) (d : A)
      → get_or (xs ++ ys) i d
        ≡ (if ltb i (length xs) then get_or xs i d else get_or ys (i - length xs) d)
  get_or-append [] ys i d = ground arith
  get_or-append (x ∷ xs) ys zero d = ground arith
  get_or-append (x ∷ xs) ys (suc i) d = ground (arith, get_or-append xs ys i d)

  pub get_or-replicate : (n i : ℕ) (d : A) → get_or (replicate n d) i d ≡ d
  get_or-replicate zero i d = refl
  get_or-replicate (suc n) zero d = refl
  get_or-replicate (suc n) (suc i) d = get_or-replicate n i d

  pub get_or-drop : (n i : ℕ) (xs : List A) (d : A) → get_or (drop n xs) i d ≡ get_or xs (n + i) d
  get_or-drop zero i xs d = ground arith
  get_or-drop (suc n) i [] d = refl
  get_or-drop (suc n) i (x ∷ xs) d = ground (arith, get_or-drop n i xs d)

  pub get_or-take :
      (n i : ℕ) (xs : List A) (d : A)
      → get_or (take n xs) i d ≡ (if ltb i n then get_or xs i d else d)
  get_or-take zero i xs d = ground arith
  get_or-take (suc n) i [] d = ground arith
  get_or-take (suc n) zero (x ∷ xs) d = ground arith
  get_or-take (suc n) (suc i) (x ∷ xs) d = ground (arith, get_or-take n i xs d)

  pub length-overlay : (ys xs : List A) → length (overlay ys xs) ≡ length xs
  length-overlay [] xs = refl
  length-overlay (y ∷ ys) [] = refl
  length-overlay (y ∷ ys) (x ∷ xs) = ap suc (length-overlay ys xs)

  pub length-splice : (o : ℕ) (ys xs : List A) → length (splice o ys xs) ≡ length xs
  length-splice zero ys xs = length-overlay ys xs
  length-splice (suc o) ys [] = refl
  length-splice (suc o) ys (x ∷ xs) = ap suc (length-splice o ys xs)

  pub get_or-overlay :
      (ys xs : List A) (i : ℕ) (d : A)
      → length ys ≤ length xs
      → get_or (overlay ys xs) i d ≡ (if ltb i (length ys) then get_or ys i d else get_or xs i d)
  get_or-overlay [] xs i d h = ground arith
  get_or-overlay (y ∷ ys) [] i d h = absurd (omega arith)
  get_or-overlay (y ∷ ys) (x ∷ xs) zero d h = ground arith
  get_or-overlay (y ∷ ys) (x ∷ xs) (suc i) d h = ground (arith, get_or-overlay ys xs i d)

  -- Lists of one length that agree at every index are equal.
  pub get_or_ext :
      (xs ys : List A) (d : A)
      → length xs ≡ length ys
      → ((i : ℕ) → i < length xs → get_or xs i d ≡ get_or ys i d)
      → xs ≡ ys
  get_or_ext [] [] d e h = refl
  get_or_ext [] (y ∷ ys) d e h = absurd (omega arith)
  get_or_ext (x ∷ xs) [] d e h = absurd (omega arith)
  get_or_ext (x ∷ xs) (y ∷ ys) d e h =
      ground (arith, h 0, get_or_ext xs ys d (omega arith) (λ i l. h (suc i) (omega arith)))

module _ {A : Type 0} where
  pub get_or-splice :
      (o : ℕ) (ys xs : List A) (i : ℕ) (d : A)
      → o + length ys ≤ length xs
      → get_or (splice o ys xs) i d
        ≡ (if leb o i && ltb i (o + length ys) then get_or ys (i - o) d else get_or xs i d)
  get_or-splice zero ys xs i d h = ground (arith, get_or-overlay ys xs i d)
  get_or-splice (suc o) ys [] i d h = absurd (omega arith)
  get_or-splice (suc o) ys (x ∷ xs) zero d h = ground arith
  get_or-splice (suc o) ys (x ∷ xs) (suc i) d h = ground (arith, get_or-splice o ys xs i d)

-- `strcmp(a, b) == 0`.
unfoldable pub str_eq : List ℕ → List ℕ → Bool
str_eq [] [] = true
str_eq [] (b ∷ bs) = false
str_eq (a ∷ as') [] = false
str_eq (a ∷ as') (b ∷ bs) = a == b && str_eq as' bs

pub str_eq_iff : (xs ys : List ℕ) → (str_eq xs ys ≡ true) ↔ (xs ≡ ys)
unfolding str_eq
str_eq_iff [] [] = ground arith
str_eq_iff [] (y ∷ ys) = ground arith
str_eq_iff (x ∷ xs) [] = ground arith
str_eq_iff (x ∷ xs) (y ∷ ys) = ground (arith, str_eq_iff xs ys)

pub str_eq_refl : (xs : List ℕ) → str_eq xs xs ≡ true
str_eq_refl xs = (str_eq_iff xs xs).1 refl

module _ {ℓ} {A : Type ℓ} where
  pub length-drop : (n : ℕ) (xs : List A) → length (drop n xs) ≡ length xs - n
  length-drop zero xs = omega arith
  length-drop (suc n) [] = omega arith
  length-drop (suc n) (x ∷ xs) = omega (arith, length-drop n xs)
