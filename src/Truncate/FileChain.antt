-- ===== src/Truncate/FileChain.antt =====
-- The clusters of a file that m65ftp_ftruncate of src/m65ftp_lib.c copies, against those of a new
-- block.
use mega65fs.Base.{
  is_end, ℕ, zero, suc, ◌+◌, ◌-◌, ◌*◌, ◌^◌, ◌≤◌, ◌<◌, ◌≡◌, ◌≢◌, refl, ap, sym, ◌∙◌, true, false,
  List, [], ◌∷◌, arith, length,
}
use mega65fs.Card.{Card}
use mega65fs.Chain.{first_data_sector, cluster_size, sector_number}
use mega65fs.Chain.Disk.{InArea, Linked, number_unique}
use mega65fs.Chain.Walks.{IsChain, step_along}
use mega65fs.Chain.Freed.{Runs, has, Distinct}
use mega65fs.Flush.Block.{IsFree, IsFree-InArea, block}

pub IsChain-Linked :
    (next : ℕ → ℕ) (k : ℕ) (ms : List ℕ)
    → IsChain next k ms
    → Linked next (step_along k ms) (suc (length ms))
IsChain-Linked next k [] chain i h = absurd (omega arith)
IsChain-Linked next k (m ∷ ms) (e, live, chain) zero h = e
IsChain-Linked next k (m ∷ ms) (e, live, chain) (suc i) h =
    IsChain-Linked next m ms chain i (omega arith)

pub has-step_along :
    (k : ℕ) (ms : List ℕ) (i : ℕ) → i < suc (length ms) → has (step_along k ms i) (k ∷ ms) ≡ true
has-step_along k ms zero h = ground arith
has-step_along k [] (suc i) h = ground arith
has-step_along k (m ∷ ms) (suc i) h =
    let l = has-step_along m ms i (omega arith) in ground (arith, l)

abbrev two : ℕ → ℕ → ℕ → ℕ
two a b zero = a
two a b (suc i) = b

-- Sectors of two clusters of the data area.
apart_lem :
    {R : Type 0} (g : Card R) (chain chain' : ℕ → ℕ) (count count' i j s t : ℕ)
    → InArea g chain count
    → InArea g chain' count'
    → i < count
    → j < count'
    → s < g.sectors_per_cluster
    → t < g.sectors_per_cluster
    → chain i ≢ chain' j
    → sector_number g (chain i) s ≢ sector_number g (chain' j) t
apart_lem g chain chain' count count' i j s t old new hi hj hs ht differ e =
    let (q, _) =
      number_unique g (two (chain i) (chain' j)) 2 both 0 1 s t (omega arith) (omega arith) hs ht
        e in
    absurd (omega (arith, q))
  where
    low : (k : ℕ) → k < 2 → 2 ≤ two (chain i) (chain' j) k
    low zero h = old.low i hi
    low (suc k) h = new.low j hj

    high :
        (k : ℕ)
        → k < 2
        → first_data_sector g + (two (chain i) (chain' j) k - 1) * g.sectors_per_cluster ≤ 2 ^ 32
    high zero h = old.high i hi
    high (suc k) h = new.high j hj

    live : (k : ℕ) → k < 2 → is_end (two (chain i) (chain' j) k) ≡ false
    live zero h = old.live i hi
    live (suc k) h = new.live j hj

    distinct :
        (k l : ℕ) → k < 2 → l < 2 → two (chain i) (chain' j) k ≡ two (chain i) (chain' j) l → k ≡ l
    distinct zero zero h h' same = refl
    distinct zero (suc l) h h' same = absurd (differ same)
    distinct (suc k) zero h h' same = absurd (differ (sym same))
    distinct (suc k) (suc l) h h' same = omega arith

    both : InArea g (two (chain i) (chain' j)) 2
    both = record { low = low; high = high; live = live; distinct = distinct }

pub shorter_area :
    {R : Type 0} (g : Card R) (chain : ℕ → ℕ) (count n : ℕ)
    → n ≤ count
    → InArea g chain count
    → InArea g chain n
shorter_area g chain count n le area = record {
  low = λ i h. area.low i (omega arith);
  high = λ i h. area.high i (omega arith);
  live = λ i h. area.live i (omega arith);
  distinct = λ i j h k e. area.distinct i j (omega arith) (omega arith) e;
}

module _ {R : Type 0} (g : Card R) where
  -- The clusters of a file: distinct ones in use in the data area, which hold its size.
  pub record FileChain (table : ℕ → ℕ) (size m : ℕ) (xs : List ℕ) : Type 0 where
    pub runs : Runs table m (m ∷ xs)
    pub distinct : Distinct (m ∷ xs)
    pub used : (j : ℕ) → has j (m ∷ xs) ≡ true → table j ≢ 0
    pub area : InArea g (step_along m xs) (suc (length xs))
    pub fits : size ≤ suc (length xs) * cluster_size g

  -- The sectors of the file and those of a block of free clusters.
  pub sectors_apart :
      (table : ℕ → ℕ) (size start needed m : ℕ) (xs : List ℕ) (i j s t : ℕ)
      → FileChain table size m xs
      → IsFree g table start needed
      → suc (length xs) < needed
      → i < suc (length xs)
      → j < suc (length xs)
      → s < g.sectors_per_cluster
      → t < g.sectors_per_cluster
      → sector_number g (step_along m xs i) s ≢ sector_number g (start + j) t
  sectors_apart table size start needed m xs i j s t file free more hi hj hs ht =
      apart_lem g (step_along m xs) (block start) (suc (length xs)) needed i j s t file.area
        (IsFree-InArea g table start needed free) hi (omega arith) hs ht
        (λ e.
          file.used (step_along m xs i) (has-step_along m xs i hi)
            (ap table e ∙ free.free (start + j) (omega arith) (omega arith)))
