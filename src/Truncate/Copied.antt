-- ===== src/Truncate/Copied.antt =====
-- The copy of a file's sectors into its new block in m65ftp_ftruncate of src/m65ftp_lib.c.
use mega65fs.Base.{
  Option, ltb, ℕ, zero, suc, ◌+◌, ◌-◌, ◌*◌, ◌≤◌, ◌<◌, ◌≡◌, ◌≢◌, refl, ap, sym, ◌∙◌, true, false,
  inl, inr, some, List, arith, ◌==◌, Bool-cases, subst, ◌>>=◌, no_cluster,
}
use mega65fs.Card.{Card, Library}
use mega65fs.Chain.Disk.{Disk, InArea, number_unique, Linked}
use mega65fs.Flush.Block.{block}
use mega65fs.Truncate.{copy_cluster, copy_chain}
use mega65fs.Truncate.ClusterCopy.{from, to, copy_cluster_lem}

-- One row of several.
rows : (i j w : ℕ) → i < j → (j - i) * w ≡ w + (j - suc i) * w
rows i j w h =
    let e : j - i ≡ suc (j - suc i) = omega arith in omega (arith, ap (λ (t : ℕ). t * w) e)

more_rows : (i count w r : ℕ) → i < count → w < r → r ≤ (count - i) * w → suc i < count
more_rows i count w r hi lt le = elim (Bool-cases (ltb (suc i) count)) [
  | inl h ↦ ground (arith, h)
  | inr h ↦
      let e : count - suc i ≡ 0 = ground (arith, h) in
      absurd (omega (arith, rows i count w hi, ap (λ (t : ℕ). t * w) e))
]

module _ {R : Type 0} ⦃lib : Library R⦄ (P : Card R → Type 0) (fat : Card R → ℕ → ℕ)
    (sector : Card R → ℕ → List ℕ) (g : Card R) (disk : Disk lib P fat sector g) (chain : ℕ → ℕ)
    (start count : ℕ) where
  -- Clusters i and up are copied.
  pub record Copied (i remaining : ℕ) (c c' : Card R) : Type 0 where
    pub ok : P c'
    pub table : (k : ℕ) → fat c' k ≡ fat c k
    pub copied :
        (j s : ℕ)
        → i ≤ j
        → j < count
        → s < g.sectors_per_cluster
        → ((j - i) * g.sectors_per_cluster + s) * 512 < remaining
        → sector c' (to g start j s) ≡ sector c (from g chain j s)
    pub others :
        (x : ℕ)
        → ((j s : ℕ) → i ≤ j → j < count → s < g.sectors_per_cluster → x ≢ to g start j s)
        → sector c' x ≡ sector c x

  module _ (old : InArea g chain count) (new : InArea g (block start) count)
      (apart : (i j s t : ℕ)
        → i < count
        → j < count
        → s < g.sectors_per_cluster
        → t < g.sectors_per_cluster
        → from g chain i s ≢ to g start j t) where
    later :
        (i j s t : ℕ)
        → i < count
        → j < count
        → s < g.sectors_per_cluster
        → t < g.sectors_per_cluster
        → suc i ≤ j
        → to g start i s ≢ to g start j t
    later i j s t hi hj hs ht lt e =
        let (q, _) = number_unique g (block start) count new i j s t hi hj hs ht e in
        absurd (omega (arith, q))

    -- Clusters i and up hold the bytes that remain.
    abbrev Holding : ℕ → ℕ → Type 0
    Holding i remaining = remaining ≤ (count - i) * (g.sectors_per_cluster * 512)

    whole_cluster :
        (i remaining : ℕ) (c : Card R) (answer : Option ℕ) (c1 : Card R)
        → P c
        → copy_cluster g.sectors_per_cluster (chain i) (start + i) 0 remaining c ≡ some (answer, c1)
        → copy_cluster c.sectors_per_cluster (chain i) (start + i) 0 remaining c ≡ some (answer, c1)
    whole_cluster i remaining c answer c1 ok run =
        subst (λ n. copy_cluster n (chain i) (start + i) 0 remaining c ≡ some (answer, c1))
          (sym (disk.geometry c ok).sectors_per_cluster) run

    chain_end :
        (fuel i remaining : ℕ) (c c1 : Card R)
        → 0 < remaining
        → P c
        → copy_cluster g.sectors_per_cluster (chain i) (start + i) 0 remaining c ≡ some (some 0, c1)
        → copy_chain (suc fuel) (chain i) (start + i) remaining c ≡ some (true, c1)
    unfolding copy_chain
    chain_end fuel i remaining c c1 more ok run =
        let z : (remaining == 0) ≡ false = ground arith in
        rw (z, ◌>>=◌, whole_cluster i remaining c (some 0) c1 ok run) refl

    chain_next :
        (fuel i remaining left : ℕ) (c c1 : Card R)
        → 0 < remaining
        → P c
        → copy_cluster g.sectors_per_cluster (chain i) (start + i) 0 remaining c
          ≡ some (some left, c1)
        → 0 < left
        → (lib.chained_cluster (chain i) c1).0 ≡ chain (suc i)
        → no_cluster (chain (suc i)) ≡ false
        → copy_chain (suc fuel) (chain i) (start + i) remaining c
          ≡ copy_chain fuel
              (chain (suc i))
              (start + suc i)
              left
              (lib.chained_cluster (chain i) c1).1
    unfolding copy_chain
    chain_next fuel i remaining left c c1 more ok run some_left next live =
        let z : (remaining == 0) ≡ false = ground arith in
        let y : (left == 0) ≡ false = ground arith in
        let x : start + i + 1 ≡ start + suc i = omega arith in
        rw (z, ◌>>=◌, whole_cluster i remaining c (some left) c1 ok run, y, next, live, x) refl

    pub copy_chain_lem :
        (fuel i remaining : ℕ) (c : Card R)
        → remaining < fuel
        → i < count
        → Holding i remaining
        → Linked (fat c) chain count
        → P c
        → (c' : Card R) × (copy_chain fuel (chain i) (start + i) remaining c ≡ some (true, c'))
          × Copied i remaining c c'
    unfolding copy_chain
    copy_chain_lem zero i remaining c enough hi holds linked ok = absurd (omega arith)
    copy_chain_lem (suc fuel) i zero c enough hi holds linked ok = (
      c,
      refl,
      record {
        ok = ok;
        table = λ k. refl;
        copied = λ j s lo h hs m. absurd (omega arith);
        others = λ x h. refl;
      },
    )
    copy_chain_lem (suc fuel) i (suc r) c enough hi holds linked ok =
        let spc = g.sectors_per_cluster in
        let (c1, left, run, el, first) =
          copy_cluster_lem P fat sector g disk chain start count old new apart spc i 0 (suc r) c hi
            (omega arith) ok in
        elim (Bool-cases (left == 0)) [
          | inl w ↦
              let z : left ≡ 0 = ground (arith, w) in
              (
                c1,
                chain_end fuel i (suc r) c c1 (omega arith) ok (rw z at run),
                record {
                  ok = first.ok;
                  table = first.table;
                  copied = λ j s lo h hs m. elim (Bool-cases (j == i)) [
                    | inl v ↦
                        let q : j ≡ i = ground (arith, v) in
                        subst (λ k. sector c1 (to g start k s) ≡ sector c (from g chain k s))
                          (sym q) (first.copied s (omega arith) hs (omega (arith, m)))
                    | inr v ↦ absurd (ground (arith, v, rows i j spc, el, z, m, lo))
                  ];
                  others = λ x h. first.others x (λ s lo hs. h i s (omega arith) hi hs);
                },
              )
          | inr w ↦
              let some_left : 0 < left = ground (arith, w) in
              let more : suc i < count =
                more_rows i count (spc * 512) (suc r) hi (omega (arith, el, some_left)) holds in
              let (next, kept) = disk.chained_cluster (chain i) c1 first.ok in
              let c2 = (lib.chained_cluster (chain i) c1).1 in
              let live : no_cluster (chain (suc i)) ≡ false =
                ground (arith, old.live (suc i) more, old.low (suc i) more) in
              let (c', run', rest) =
                copy_chain_lem fuel (suc i) left c2 (omega (arith, el, disk.some_sectors)) more
                  (omega (arith, el, rows i count (spc * 512) hi))
                  (λ j h. kept.table (chain j) ∙ first.table (chain j) ∙ linked j h) kept.ok in
              (
                c',
                chain_next fuel i (suc r) left c c1 (omega arith) ok run some_left
                      (next ∙ first.table (chain i) ∙ linked i more) live
                    ∙ run',
                record {
                  ok = rest.ok;
                  table = λ k. rest.table k ∙ kept.table k ∙ first.table k;
                  copied = λ j s lo h hs m. elim (Bool-cases (j == i)) [
                    | inl v ↦
                        let q : j ≡ i = ground (arith, v) in
                        subst (λ k. sector c' (to g start k s) ≡ sector c (from g chain k s))
                          (sym q)
                          (rest.others (to g start i s)
                              (λ k t lo' hk ht. later i k s t hi hk hs ht lo')
                            ∙ kept.sectors (to g start i s)
                            ∙ first.copied s (omega arith) hs (omega (arith, m)))
                    | inr v ↦
                        let lt : i < j = ground (arith, v, lo) in
                        rest.copied j s lt h hs (omega (arith, rows i j spc lt, m, el))
                        ∙ kept.sectors (from g chain j s)
                        ∙ first.others (from g chain j s) (λ t lo' ht. apart j i s t h hi hs ht)
                  ];
                  others = λ x h.
                      rest.others x (λ j s lo hj hs. h j s (omega arith) hj hs)
                      ∙ kept.sectors x
                      ∙ first.others x (λ s lo hs. h i s (omega arith) hi hs);
                },
              )
        ]
