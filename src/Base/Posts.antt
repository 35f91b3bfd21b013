-- ===== src/Base/Posts.antt =====
-- What holds wherever a program returns.
use mathlib.Core.Option.{Option, none, some}

-- Q holds of the answer and the state that a program returned with.
abbrev pub Holds : {S A : Type 0} → (A → S → Type 0) → Option (A × S) → Type 0
Holds Q none = Unit {0}
Holds Q (some (a, s)) = Q a s
