-- ===== src/Truncate/ClusterCopy.antt =====
-- The copy of one cluster's sectors into the new block in m65ftp_ftruncate of src/m65ftp_lib.c.
use mega65fs.Base.{
  ℕ, zero, suc, ◌+◌, ◌-◌, ◌*◌, ◌≤◌, ◌<◌, ◌≡◌, ◌≢◌, refl, ap, sym, ◌∙◌, true, false, inl, inr, some,
  List, arith, ◌==◌, if◌then◌else◌, Bool-cases, subst,
}
use mega65fs.Card.{Card, Library}
use mega65fs.Chain.{sector_number}
use mega65fs.Chain.Disk.{Disk, InArea, same_numbers, number_lem, number_unique}
use mega65fs.Flush.{at_most}
use mega65fs.Flush.Block.{block}
use mega65fs.Truncate.{copy_cluster}

module _ {R : Type 0} (g : Card R) where
  -- Sector s of cluster i of a file, and of the block.
  abbrev pub from : (ℕ → ℕ) → ℕ → ℕ → ℕ
  from chain i s = sector_number g (chain i) s

  abbrev pub to : ℕ → ℕ → ℕ → ℕ
  to start i s = sector_number g (start + i) s

module _ {R : Type 0} ⦃lib : Library R⦄ (P : Card R → Type 0) (fat : Card R → ℕ → ℕ)
    (sector : Card R → ℕ → List ℕ) (g : Card R) (disk : Disk lib P fat sector g) (chain : ℕ → ℕ)
    (start count : ℕ) where
  -- Sectors sec and up of cluster i are copied, as far as the bytes go.
  pub record ClusterCopied (i sec remaining : ℕ) (c c' : Card R) : Type 0 where
    pub ok : P c'
    pub table : (k : ℕ) → fat c' k ≡ fat c k
    pub copied :
        (s : ℕ)
        → sec ≤ s
        → s < g.sectors_per_cluster
        → (s - sec) * 512 < remaining
        → sector c' (to g start i s) ≡ sector c (from g chain i s)
    pub others :
        (x : ℕ)
        → ((s : ℕ) → sec ≤ s → s < g.sectors_per_cluster → x ≢ to g start i s)
        → sector c' x ≡ sector c x

  module _ (old : InArea g chain count) (new : InArea g (block start) count)
      (apart : (i j s t : ℕ)
        → i < count
        → j < count
        → s < g.sectors_per_cluster
        → t < g.sectors_per_cluster
        → from g chain i s ≢ to g start j t) where
    copy_step :
        (n i s remaining : ℕ) (c : Card R) (b : List ℕ)
        → P c
        → 0 < remaining
        → (lib.read_sector (from g chain i s) true c).0 ≡ some b
        → (lib.write_sector (to g start i s) b (lib.read_sector (from g chain i s) true c).1).0
          ≡ true
        → copy_cluster (suc n) (chain i) (start + i) s remaining c
          ≡ copy_cluster n
              (chain i)
              (start + i)
              (s + 1)
              (remaining - at_most 512 remaining)
              (lib.write_sector (to g start i s) b (lib.read_sector (from g chain i s) true c).1).1
    unfolding copy_cluster
    copy_step n i s remaining c b ok more read written =
        let z : (remaining == 0) ≡ false = ground arith in
        rw
          (
            z,
            same_numbers g c (chain i) s (disk.geometry c ok),
            read,
            same_numbers g c (start + i) s (disk.geometry c ok),
            written,
          )
          refl

    behind :
        (i s t : ℕ)
        → i < count
        → s < g.sectors_per_cluster
        → t < g.sectors_per_cluster
        → s + 1 ≤ t
        → to g start i s ≢ to g start i t
    behind i s t hi hs ht lt e =
        let (_, q) = number_unique g (block start) count new i i s t hi hi hs ht e in
        absurd (omega (arith, q))

    pub copy_cluster_lem :
        (n i s remaining : ℕ) (c : Card R)
        → i < count
        → s + n ≡ g.sectors_per_cluster
        → P c
        → (c' : Card R) × (left : ℕ) × (copy_cluster n (chain i) (start + i) s remaining c
            ≡ some (some left, c'))
          × (left ≡ remaining - n * 512)
          × ClusterCopied i s remaining c c'
    unfolding copy_cluster
    copy_cluster_lem zero i s remaining c hi e ok = (
      c,
      remaining,
      refl,
      omega arith,
      record {
        ok = ok;
        table = λ k. refl;
        copied = λ t lo h m. absurd (omega (arith, e));
        others = λ x h. refl;
      },
    )
    copy_cluster_lem (suc n) i s remaining c hi e ok = elim (Bool-cases (remaining == 0)) [
      | inl w ↦ (
        c,
        remaining,
        rw w refl,
        ground (arith, w),
        record {
          ok = ok;
          table = λ k. refl;
          copied = λ t lo h m. absurd (ground (arith, w, m));
          others = λ x h. refl;
        },
      )
      | inr w ↦
          let hs : s < g.sectors_per_cluster = omega (arith, e) in
          let (read, kept) =
            disk.read_sector (from g chain i s) c
              (omega (arith, number_lem g chain count old i s hi hs)) ok in
          let b = sector c (from g chain i s) in
          let c1 = (lib.read_sector (from g chain i s) true c).1 in
          let (written, wrote) =
            disk.write_sector (to g start i s) b c1
              (omega (arith, number_lem g (block start) count new i s hi hs))
              (disk.length_sector c (from g chain i s) ok) kept.ok in
          let c2 = (lib.write_sector (to g start i s) b c1).1 in
          let here : (x : ℕ) → sector c2 x ≡ (if x == to g start i s then b else sector c x) = λ x.
            wrote.sectors x
            ∙ ap (λ (l : List ℕ). if x == to g start i s then b else l) (kept.sectors x) in
          let less = remaining - at_most 512 remaining in
          let (c', left, run, el, rest) =
            copy_cluster_lem n i (s + 1) less c2 hi (omega (arith, e)) wrote.ok in
          (
            c',
            left,
            copy_step n i s remaining c b ok (ground (arith, w)) read written ∙ run,
            ground (arith, el),
            record {
              ok = rest.ok;
              table = λ k. rest.table k ∙ wrote.table k ∙ kept.table k;
              copied = λ t lo h m. elim (Bool-cases (t == s)) [
                | inl v ↦
                    let q : t ≡ s = ground (arith, v) in
                    subst (λ u. sector c' (to g start i u) ≡ sector c (from g chain i u)) (sym q)
                      (rest.others (to g start i s) (λ u lo hu eq. behind i s u hi hs hu lo eq)
                        ∙ here (to g start i s)
                        ∙ ground arith)
                | inr v ↦
                    let a = apart i i t s hi hi h hs in
                    rest.copied t (ground (arith, lo, v)) h (ground (arith, lo, v, m))
                    ∙ here (from g chain i t)
                    ∙ ground (arith, a)
              ];
              others = λ x h.
                  rest.others x (λ t lo ht. h t (omega arith) ht)
                  ∙ here x
                  ∙ (let a = h s (omega arith) hs in ground (arith, a));
            },
          )
    ]
