-- ===== src/Tests/Grow.antt =====
-- A truncation that would grow a file, on a card that fills up on the way.
use mega65fs.Base.{
  ℕ, zero, suc, ◌+◌, ◌≤◌, ◌<◌, ◌≡◌, refl, Bool, true, false, none, some, arith, ◌==◌, if◌then◌else◌,
  Bool-cases, no_cluster, ◌&&◌, inl, inr,
}
use mega65fs.Card.{Card, Library}
use mega65fs.Store.{blank, end_of_chain}
use mega65fs.Truncate.{allocate_block, grow_chain}
use mega65fs.Truncate.Rollback.{Table, grow_chain-allocate_block}
use mega65fs.Sample.{Medium, medium, blank_card, free_run, store_at, with_fat}

-- The answer of the sample card, or no cluster.
abbrev allocate_or_not : Bool → ℕ → Card Medium → Bool × Card Medium
allocate_or_not true n c = (false, c)
allocate_or_not false n c = medium.allocate_cluster n c

-- The sample card, but clusters are looked for from 9 on, and 11 cannot be allocated.
instance abbrev full : Library Medium
full = record medium {
  find_contiguous_clusters = λ n c. (if free_run n 9 c.rest.fat then 9 else 0, c);
  allocate_cluster = λ n c. allocate_or_not (n == 11) n c;
}

pub free_run-free :
    (n start : ℕ) (fat : ℕ → ℕ) (k : ℕ)
    → free_run n start fat ≡ true
    → start ≤ k
    → k < start + n
    → fat k ≡ 0
free_run-free zero start fat k e l h = absurd (omega arith)
free_run-free (suc n) start fat k e l h = elim (Bool-cases (k == start)) [
  | inl w ↦ ground (arith, e, w)
  | inr w ↦ free_run-free n (start + 1) fat k (ground (arith, e)) (ground (arith, w)) (omega arith)
]

found_free :
    (b : Bool) (n k : ℕ) (fat : ℕ → ℕ)
    → free_run n 9 fat ≡ b
    → no_cluster (if b then 9 else 0) ≡ false
    → (if b then 9 else 0) ≤ k
    → k < (if b then 9 else 0) + n
    → fat k ≡ 0
found_free true n k fat e found l h = free_run-free n 9 fat k e l h
found_free false n k fat e found l h = absurd (ground (arith, found))

allocate_or_not-fat :
    (b : Bool) (n k : ℕ) (c : Card Medium)
    → (allocate_or_not b n c).1.rest.fat k ≡ (
        if k == n && (allocate_or_not b n c).0
        then (allocate_or_not b n c).1.rest.fat n
        else c.rest.fat k)
allocate_or_not-fat true n k c = ground arith
allocate_or_not-fat false n k c = ground arith

abbrev AnyCard : Card Medium → Type 0
AnyCard c = Unit {0}

full-Table : Table full AnyCard (λ c. c.rest.fat)
full-Table = record {
  find_contiguous_clusters = λ n c p. (tt, (λ k. refl));
  free = λ n c k p found l h. found_free (free_run n 9 c.rest.fat) n k c.rest.fat refl found l h;
  allocate_cluster = λ n c p. (tt, (λ k. allocate_or_not-fat (n == 11) n k c));
  chain_cluster = λ n m c p. (tt, (λ k. ground arith));
  deallocate_cluster = λ n c p. (tt, (λ k. refl));
}

-- Clusters 9 and 10 are allocated and chained.
abbrev filled : Card Medium
filled =
    with_fat blank_card
      (store_at (store_at (store_at blank_card.rest.fat 9 end_of_chain) 10 end_of_chain) 9 10)

grow_chain-allocate_block_example :
    (c3 : Card Medium) × (grow_chain ⦃lib = full⦄ 32
        (record blank { first_cluster = 5 })
        4
        2000
        blank_card
      ≡ some (none, c3))
    × ((k : ℕ) → c3.rest.fat k ≡ blank_card.rest.fat k)
unfolding allocate_block
grow_chain-allocate_block_example =
    grow_chain-allocate_block ⦃lib = full⦄ AnyCard (λ c. c.rest.fat) full-Table 32
      (record blank { first_cluster = 5 }) 4 2000 blank_card 2 filled tt refl refl
