-- ===== src/Base/Programs.antt =====
-- Programs over an explicit state. `none` says that the program does not answer: a loop did not end
-- within its fuel, or the process died of a division by zero.
use Prim.Native.Nat.{ℕ, ◌/◌, ◌<◌}
use native.Mathlib.Omega.{arith}
use mathlib.Core.Bool.{false}
use mathlib.Core.Path.{◌≡◌, refl}
use mathlib.Core.Option.{Option, none, some}
use mega65fs.Base.Tests.{◌==◌, if◌then◌else◌}

abbrev pub Prog : Type 0 → Type 0 → Type 0
Prog S A = S → Option (A × S)

abbrev pub pure : {S A : Type 0} → A → Prog S A
pure a s = some (a, s)

-- A library call that answers and whose answer is dropped.
abbrev pub drop_result : {S A : Type 0} → (S → A × S) → Prog S (Unit {0})
drop_result f s = let (a, s') = f s in some (tt, s')

abbrev pub out_of_fuel : {S A : Type 0} → Prog S A
out_of_fuel s = none

-- The process dies.
abbrev pub crashed : {S A : Type 0} → Prog S A
crashed s = none

-- The quotient, of a C division of unsigned integers.
unfoldable pub divide : {S : Type 0} → ℕ → ℕ → Prog S ℕ
divide a b = if b == 0 then crashed else pure (a / b)

pub divide_lem : {S : Type 0} (a b : ℕ) (s : S) → 0 < b → divide a b s ≡ some (a / b, s)
unfolding divide
divide_lem a b s h = let e : (b == 0) ≡ false = ground arith in rw e refl

infixl 5 ◌>>=◌ ◌>>◌
abbrev pub ◌>>=◌ : {S A B : Type 0} → Prog S A → (A → Prog S B) → Prog S B
◌>>=◌ m f s = elim (m s) [ none ↦ none | some (a, s') ↦ f a s' ]

abbrev pub ◌>>◌ : {S B : Type 0} → Prog S (Unit {0}) → Prog S B → Prog S B
m >> k = m >>= λ _. k

abbrev pub get : {S : Type 0} → Prog S S
get s = some (s, s)

abbrev pub put : {S : Type 0} → S → Prog S (Unit {0})
put s' s = some (tt, s')

-- A library call that always returns.
abbrev pub call : {S A : Type 0} → (S → A × S) → Prog S A
call f s = let (a, s') = f s in some (a, s')

-- A library call whose result is not used.
abbrev pub run : {S : Type 0} → (S → S) → Prog S (Unit {0})
run f s = some (tt, f s)

-- The program returns from this state.
abbrev pub Returns : {S A : Type 0} → Prog S A → S → Type 0
Returns {S} {A} m s = (a : A) × (s' : S) × (m s ≡ some (a, s'))
