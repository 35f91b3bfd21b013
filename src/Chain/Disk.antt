-- ===== src/Chain/Disk.antt =====
-- What src/m65ftp_lib.c relies on where it reads and writes the data area through lib/libm65ftp: a
-- card whose sectors and file allocation table can be read off its state.
use mega65fs.Base.{
  is_end, sub32, ℕ, suc, ◌+◌, ◌-◌, ◌≤◌, ◌<◌, ◌≡◌, refl, ap, sym, ◌∙◌, true, false, some, List,
  arith, ◌==◌, if◌then◌else◌, length, ◌*◌, ◌/◌, ◌%◌, ◌^◌,
}
use native.Mathlib.Nat.{div-add-mod', div-eq_of_lt-le}
use mega65fs.Card.{Card, Library}
use mega65fs.Card.Laws.{SameGeometry}
use mega65fs.Chain.{first_data_sector, sector_number}

module _ {R : Type 0} (P : Card R → Type 0) (fat : Card R → ℕ → ℕ)
    (sector : Card R → ℕ → List ℕ) where
  -- Table and sectors of the second card are those of the first.
  pub record Kept (c c' : Card R) : Type 0 where
    pub ok : P c'
    pub table : (k : ℕ) → fat c' k ≡ fat c k
    pub sectors : (m : ℕ) → sector c' m ≡ sector c m

  -- Sector m of the second card holds b.
  pub record Wrote (m : ℕ) (b : List ℕ) (c c' : Card R) : Type 0 where
    pub ok : P c'
    pub table : (k : ℕ) → fat c' k ≡ fat c k
    pub sectors : (n : ℕ) → sector c' n ≡ (if n == m then b else sector c n)

module _ {R : Type 0} {P : Card R → Type 0} {fat : Card R → ℕ → ℕ}
    {sector : Card R → ℕ → List ℕ} where
  pub Kept-refl : (c : Card R) → P c → Kept P fat sector c c
  Kept-refl c ok = record { ok = ok; table = λ k. refl; sectors = λ m. refl }

  pub Kept-trans :
      {c c1 c2 : Card R} → Kept P fat sector c c1 → Kept P fat sector c1 c2 → Kept P fat sector c c2
  Kept-trans k k' = record {
    ok = k'.ok;
    table = λ n. k'.table n ∙ k.table n;
    sectors = λ m. k'.sectors m ∙ k.sectors m;
  }

-- While P holds: the geometry is g's, `fat` is the table and `sector` the sectors of 512 bytes,
-- and the data area can be read and written.
pub record Disk {R : Type 0} (lib : Library R) (P : Card R → Type 0) (fat : Card R → ℕ → ℕ)
    (sector : Card R → ℕ → List ℕ) (g : Card R) : Type 0 where
  pub geometry : (c : Card R) → P c → SameGeometry g c
  pub some_sectors : 0 < g.sectors_per_cluster
  pub length_sector : (c : Card R) (m : ℕ) → P c → length (sector c m) ≡ 512
  pub read_sector :
      (m : ℕ) (c : Card R)
      → first_data_sector g ≤ m
      → P c
      → ((lib.read_sector m true c).0 ≡ some (sector c m))
        × Kept P fat sector c (lib.read_sector m true c).1
  pub write_sector :
      (m : ℕ) (b : List ℕ) (c : Card R)
      → first_data_sector g ≤ m
      → length b ≡ 512
      → P c
      → ((lib.write_sector m b c).0 ≡ true) × Wrote P fat sector m b c (lib.write_sector m b c).1
  pub chained_cluster :
      (k : ℕ) (c : Card R)
      → P c
      → ((lib.chained_cluster k c).0 ≡ fat c k) × Kept P fat sector c (lib.chained_cluster k c).1
  pub get_next_cluster :
      (k : ℕ) (c : Card R)
      → P c
      → ((lib.get_next_cluster k c).0 ≡ fat c k) × Kept P fat sector c (lib.get_next_cluster k c).1

-- The `count` clusters of a chain are distinct ones of the data area, whose sectors have numbers of
-- 32 bits.
pub record InArea {R : Type 0} (g : Card R) (chain : ℕ → ℕ) (count : ℕ) : Type 0 where
  pub low : (i : ℕ) → i < count → 2 ≤ chain i
  pub high :
      (i : ℕ) → i < count → first_data_sector g + (chain i - 1) * g.sectors_per_cluster ≤ 2 ^ 32
  pub live : (i : ℕ) → i < count → is_end (chain i) ≡ false
  pub distinct : (i j : ℕ) → i < count → j < count → chain i ≡ chain j → i ≡ j

-- The table links the clusters of the chain.
abbrev pub Linked : (ℕ → ℕ) → (ℕ → ℕ) → ℕ → Type 0
Linked table chain count = (i : ℕ) → suc i < count → table (chain i) ≡ chain (suc i)

pub same_numbers :
    {R : Type 0} (g c : Card R) (k s : ℕ)
    → SameGeometry g c
    → sector_number c k s ≡ sector_number g k s
same_numbers g c k s same =
    rw (same.partition_start, same.reserved_sectors, same.sectors_per_fat, same.sectors_per_cluster)
      refl

split_unique : (a b s t n : ℕ) → s < n → t < n → a * n + s ≡ b * n + t → (a ≡ b) × (s ≡ t)
split_unique a b s t n hs ht e =
    let p : (a * n + s) / n ≡ a = div-eq_of_lt-le n (omega arith) (omega arith) in
    let q : (b * n + t) / n ≡ b = div-eq_of_lt-le n (omega arith) (omega arith) in
    let ab : a ≡ b = sym p ∙ ap (λ (x : ℕ). x / n) e ∙ q in
    (ab, omega (arith, e, ap (λ (x : ℕ). x * n) ab))

module _ {R : Type 0} (g : Card R) (chain : ℕ → ℕ) (count : ℕ) (area : InArea g chain count) where
  pub number_lem :
      (i s : ℕ)
      → i < count
      → s < g.sectors_per_cluster
      → sector_number g (chain i) s
        ≡ first_data_sector g + ((chain i - 2) * g.sectors_per_cluster + s)
  number_lem i s hi hs =
      let low = area.low i hi in
      let live : chain i < 0xffffff8 = ground (arith, area.live i hi) in
      let k : sub32 (chain i) 2 ≡ chain i - 2 = omega arith in
      let one : chain i - 1 ≡ chain i - 2 + 1 = omega arith in
      let high : first_data_sector g + (chain i - 2 + 1) * g.sectors_per_cluster ≤ 2 ^ 32 =
        rw one at (area.high i hi) in
      rw k (omega (arith, high))

  -- Sectors of the chain with one number are one sector.
  pub number_unique :
      (i j s t : ℕ)
      → i < count
      → j < count
      → s < g.sectors_per_cluster
      → t < g.sectors_per_cluster
      → sector_number g (chain i) s ≡ sector_number g (chain j) t
      → (i ≡ j) × (s ≡ t)
  number_unique i j s t hi hj hs ht e =
      let (k, st) =
        split_unique (chain i - 2) (chain j - 2) s t g.sectors_per_cluster hs ht
          (omega (arith, e, number_lem i s hi hs, number_lem j t hj ht)) in
      (area.distinct i j hi hj (omega (arith, k, area.low i hi, area.low j hj)), st)

-- The cluster, the sector in it and the byte in that, from the number of the sector in the file.
pub place :
    (off i s spc : ℕ)
    → s < spc
    → off / 512 ≡ i * spc + s
    → (off / (spc * 512) ≡ i)
      × (off % (spc * 512) / 512 ≡ s)
      × (off % (spc * 512) % 512 ≡ off % 512)
place off i s spc hs e =
    let q : off / (spc * 512) ≡ i = div-eq_of_lt-le (spc * 512) (omega arith) (omega arith) in
    let r : off % (spc * 512) ≡ s * 512 + off % 512 =
      omega (arith, div-add-mod' off (spc * 512), ap (λ (t : ℕ). t * (spc * 512)) q, e) in
    (q, omega (arith, r), omega (arith, r))
