-- ===== src/Truncate/Shrink.antt =====
-- m65ftp_ftruncate of src/m65ftp_lib.c on a file on the card that has clusters enough.
use mega65fs.Base.{
  subst, [], ℕ, suc, ◌-◌, ◌≤◌, ◌≡◌, ◌≢◌, refl, sym, ◌∙◌, true, false, some, List, ◌∷◌, ◌++◌, arith,
  ◌==◌, if◌then◌else◌, length, ◌>>=◌,
}
use mathlib.Core.List.{append-nil}
use mega65fs.Card.{Card, Library}
use mega65fs.Store.{end_of_chain}
use mega65fs.Chain.{walk_chain, free_chain}
use mega65fs.Chain.Disk.{Disk, Kept, Kept-refl, Kept-trans}
use mega65fs.Chain.Walks.{Follows, walk_chain_lem}
use mega65fs.Chain.Freed.{Runs, has, Distinct, Runs-frame, Frees, free_chain-Runs}
use mega65fs.Chain.Split.{
  last_of, Runs-IsChain, step_along-append, has-append, has-last, Runs-rest, last_live,
  Distinct-rest, last_apart, Distinct-apart, Runs-cut,
}
use mega65fs.Truncate.{shrink_chain}

module _ {R : Type 0} (P : Card R → Type 0) (fat : Card R → ℕ → ℕ) where
  -- The chain m, xs, ys is cut behind xs: m and xs are a chain, and ys are free.
  pub record Cut (m : ℕ) (xs ys : List ℕ) (c c' : Card R) : Type 0 where
    pub ok : P c'
    pub kept_chain : Runs (fat c') m (m ∷ xs)
    pub freed : (j : ℕ) → has j ys ≡ true → fat c' j ≡ 0
    pub others : (j : ℕ) → has j (m ∷ (xs ++ ys)) ≡ false → fat c' j ≡ fat c j

module _ {R : Type 0} {P : Card R → Type 0} {fat : Card R → ℕ → ℕ} where
  -- Nothing behind the cut.
  pub Cut-whole :
      (m : ℕ) (xs : List ℕ) (c : Card R)
      → Runs (fat c) m (m ∷ (xs ++ []))
      → P c
      → Cut P fat m xs [] c c
  Cut-whole m xs c runs ok = record {
    ok = ok;
    kept_chain = subst (λ ks. Runs (fat c) m (m ∷ ks)) (append-nil xs) runs;
    freed = λ j h. cc;
    others = λ j h. refl;
  }

  -- Steps that leave the table alone, before and after.
  pub Cut-frame :
      (m : ℕ) (xs ys : List ℕ) (c c1 c2 c3 : Card R)
      → ((j : ℕ) → fat c1 j ≡ fat c j)
      → Cut P fat m xs ys c1 c2
      → ((j : ℕ) → fat c3 j ≡ fat c2 j)
      → P c3
      → Cut P fat m xs ys c c3
  Cut-frame m xs ys c c1 c2 c3 before cut after ok = record {
    ok = ok;
    kept_chain = Runs-frame (fat c2) (fat c3) m (m ∷ xs) (λ j h. after j) cut.kept_chain;
    freed = λ j h. after j ∙ cut.freed j h;
    others = λ j h. after j ∙ cut.others j h ∙ before j;
  }

module _ {R : Type 0} ⦃lib : Library R⦄ (P : Card R → Type 0) (fat : Card R → ℕ → ℕ)
    (sector : Card R → ℕ → List ℕ) (g : Card R) (disk : Disk lib P fat sector g)
    (frees : Frees lib P fat sector) where
  pub follows : (c : Card R) → Follows lib (Kept P fat sector c) (fat c)
  follows c = record {
    chained_cluster = λ k c1 kept.
        let (e, kept') = disk.chained_cluster k c1 kept.ok in
        (e ∙ kept.table k, Kept-trans kept kept');
  }

  shrink_eq :
      (fuel m n cluster k : ℕ) (c c1 c3 : Card R)
      → walk_chain n m 0 c ≡ some ((cluster, k), c1)
      → free_chain fuel (lib.chained_cluster cluster c1).0 (lib.chained_cluster cluster c1).1
        ≡ some (tt, c3)
      → shrink_chain fuel m (suc n) c ≡ some (tt, lib.set_fat_cluster_ptr cluster end_of_chain c3)
  unfolding shrink_chain
  shrink_eq fuel m n cluster k c c1 c3 walk free =
      let z : suc n - 1 ≡ n = omega arith in rw (z, walk, ◌>>=◌, free) refl

  pub shrink_lem :
      (fuel m : ℕ) (xs ys : List ℕ) (c : Card R)
      → length ys ≤ fuel
      → Runs (fat c) m (m ∷ (xs ++ ys))
      → Distinct (m ∷ (xs ++ ys))
      → ((j : ℕ) → has j (m ∷ (xs ++ ys)) ≡ true → fat c j ≢ 0)
      → P c
      → (c' : Card R) × (shrink_chain fuel m (suc (length xs)) c ≡ some (tt, c'))
        × Cut P fat m xs ys c c'
        × ((n : ℕ) → sector c' n ≡ sector c n)
  unfolding shrink_chain
  shrink_lem fuel m xs ys c le (_, live, r) d used ok =
      let last = last_of m xs in
      let (c1, walk, k1) =
        walk_chain_lem (Kept P fat sector c) (fat c) (follows c) (length xs) m 0 (xs ++ ys) c
          (Runs-IsChain (fat c) m (xs ++ ys) r) (Kept-refl c ok) in
      let (next, k2) = disk.chained_cluster last c1 k1.ok in
      let c2 = (lib.chained_cluster last c1).1 in
      let kept = Kept-trans k1 k2 in
      let apart = last_apart m xs ys d in
      let behind : (j : ℕ) → has j ys ≡ true → has j (m ∷ (xs ++ ys)) ≡ true =
        λ j h. ground (arith, h, has-append j xs ys) in
      let (c3, run, ok3, t3, s3) =
        free_chain-Runs P fat sector g disk frees fuel (fat c last) ys c2 le
          (Runs-frame (fat c) (fat c2) (fat c last) ys (λ j h. kept.table j)
            (Runs-rest (fat c) m xs ys r))
          (Distinct-rest (m ∷ xs) ys d) (λ j h z. used j (behind j h) (sym (kept.table j) ∙ z))
          kept.ok in
      let l =
        frees.set_fat_cluster_ptr last end_of_chain c3 (last_live (fat c) m xs ys live r)
          (λ z.
            used last (ground (arith, has-last m xs, has-append last xs ys))
              (ground (arith, z, t3 last, kept.table last, apart)))
          ok3 in
      let c4 = lib.set_fat_cluster_ptr last end_of_chain c3 in
      let t : (j : ℕ)
          → fat c4 j ≡ (if j == last then end_of_chain else (if has j ys then 0 else fat c j)) =
        λ j. ground (arith, l.table j, t3 j, kept.table j) in
      (
        c4,
        shrink_eq fuel m (length xs) last _ c c1 c3 (rw (step_along-append m xs ys) at walk)
            (rw (next ∙ k1.table last) run),
        record {
          ok = l.ok;
          kept_chain = (
            refl,
            live,
            Runs-cut (fat c) (fat c4) m xs ys r d
                (λ j h. ground (arith, t j, Distinct-apart j (m ∷ xs) ys d h)),
          );
          freed = λ j h. ground (arith, t j, h, apart);
          others = λ j h.
              ground (arith, t j, h, has-last m xs, has-append j xs ys, has-append last xs ys);
        },
        (λ n. l.sectors n ∙ s3 n ∙ kept.sectors n),
      )
