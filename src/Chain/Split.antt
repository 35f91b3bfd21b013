-- ===== src/Chain/Split.antt =====
-- A cluster chain cut in two, as the shrinking of a file in src/m65ftp_lib.c cuts it.
use mega65fs.Base.{
  ℕ, ◌≡◌, refl, true, false, List, [], ◌∷◌, ◌++◌, ◌||◌, arith, ◌==◌, if◌then◌else◌, length,
  no_cluster,
}
use mega65fs.Store.{end_of_chain}
use mega65fs.Chain.Walks.{IsChain, step_along}
use mega65fs.Chain.Freed.{Runs, has, Distinct}

-- The last cluster of a chain that starts with m.
abbrev pub last_of : ℕ → List ℕ → ℕ
last_of m [] = m
last_of m (x ∷ xs) = last_of x xs

pub Runs-IsChain :
    (table : ℕ → ℕ) (m : ℕ) (ms : List ℕ) → Runs table (table m) ms → IsChain table m ms
Runs-IsChain table m [] end = end
Runs-IsChain table m (x ∷ xs) (e, live, rest) = (e, live, Runs-IsChain table x xs rest)

pub step_along-append :
    (m : ℕ) (xs ys : List ℕ) → step_along m (xs ++ ys) (length xs) ≡ last_of m xs
step_along-append m [] ys = refl
step_along-append m (x ∷ xs) ys = step_along-append x xs ys

pub has-append : (j : ℕ) (xs ys : List ℕ) → has j (xs ++ ys) ≡ (has j xs || has j ys)
has-append j [] ys = refl
has-append j (x ∷ xs) ys = ground (arith, has-append j xs ys)

pub has-last : (m : ℕ) (xs : List ℕ) → has (last_of m xs) (m ∷ xs) ≡ true
has-last m [] = ground arith
has-last m (x ∷ xs) = ground (arith, has-last x xs)

-- Behind the cut the chain goes on with the second part.
pub Runs-rest :
    (table : ℕ → ℕ) (m : ℕ) (xs ys : List ℕ)
    → Runs table (table m) (xs ++ ys)
    → Runs table (table (last_of m xs)) ys
Runs-rest table m [] ys r = r
Runs-rest table m (x ∷ xs) ys (e, live, r) = Runs-rest table x xs ys r

pub last_live :
    (table : ℕ → ℕ) (m : ℕ) (xs ys : List ℕ)
    → no_cluster m ≡ false
    → Runs table (table m) (xs ++ ys)
    → no_cluster (last_of m xs) ≡ false
last_live table m [] ys live r = live
last_live table m (x ∷ xs) ys live (e, live', r) = last_live table x xs ys live' r

pub Distinct-rest : (xs ys : List ℕ) → Distinct (xs ++ ys) → Distinct ys
Distinct-rest [] ys d = d
Distinct-rest (x ∷ xs) ys (out, d) = Distinct-rest xs ys d

pub Distinct-apart :
    (j : ℕ) (xs ys : List ℕ) → Distinct (xs ++ ys) → has j xs ≡ true → has j ys ≡ false
Distinct-apart j [] ys d h = cc
Distinct-apart j (x ∷ xs) ys (out, d) h =
    ground (arith, h, out, has-append x xs ys, Distinct-apart j xs ys d)

pub last_apart :
    (m : ℕ) (xs ys : List ℕ) → Distinct (m ∷ (xs ++ ys)) → has (last_of m xs) ys ≡ false
last_apart m [] ys (out, d) = out
last_apart m (x ∷ xs) ys (out, d) = last_apart x xs ys d

-- Where the entry of the last cluster of the first part is the end, the chain is that part.
pub Runs-cut :
    (table table' : ℕ → ℕ) (m : ℕ) (xs ys : List ℕ)
    → Runs table (table m) (xs ++ ys)
    → Distinct (m ∷ (xs ++ ys))
    → ((j : ℕ)
        → has j (m ∷ xs) ≡ true
        → table' j ≡ (if j == last_of m xs then end_of_chain else table j))
    → Runs table' (table' m) xs
Runs-cut table table' m [] ys r d cut = ground (arith, cut m)
Runs-cut table table' m (x ∷ xs) ys (e, live, r) (out, d) cut =
    let q : table' m ≡ x = ground (arith, cut m, e, out, has-last x xs, has-append m (x ∷ xs) ys) in
    (q, live, Runs-cut table table' x xs ys r d (λ j h. cut j (ground (arith, h))))
