-- ===== src/Read/Places.antt =====
-- The bytes of a file on the card of src/m65ftp_lib.c: its chain of clusters, and the sector and the
-- byte at an offset.
use mega65fs.Base.{
  is_end, get_or_ext, length-take, length-drop, get_or-take, get_or-drop, ℕ, zero, suc, ◌+◌, ◌≤◌,
  ◌<◌, ◌≡◌, refl, ap, sym, ◌∙◌, true, false, some, List, [], ◌∷◌, ◌++◌, arith, ltb, length, get_or,
  take, drop, ◌*◌, ◌/◌, ◌%◌,
}
use native.Mathlib.Nat.{div-add-mod', div-eq_of_lt-le, mod-lt}
use mega65fs.Card.{Card, Library}
use mega65fs.Card.Laws.{SameGeometry}
use mega65fs.Chain.{cluster_size, sector_number}

-- While P holds, the card has these sectors and g's geometry, and the file's clusters are `chain`
-- at 0 to count - 1.
pub record OnCard {R : Type 0} (lib : Library R) (P : Card R → Type 0) (g : Card R)
    (disk : ℕ → List ℕ) (chain : ℕ → ℕ) (count : ℕ) : Type 0 where
  pub read_sector :
      (i sec : ℕ) (c : Card R)
      → i < count
      → sec < g.sectors_per_cluster
      → P c
      → ((lib.read_sector (sector_number g (chain i) sec) true c).0
          ≡ some (disk (sector_number g (chain i) sec)))
        × P (lib.read_sector (sector_number g (chain i) sec) true c).1
  pub get_next_cluster :
      (i : ℕ) (c : Card R)
      → suc i < count
      → P c
      → ((lib.get_next_cluster (chain i) c).0 ≡ chain (suc i))
        × P (lib.get_next_cluster (chain i) c).1
  pub clusters : (i : ℕ) → i < count → is_end (chain i) ≡ false
  pub sectors : (m : ℕ) → length (disk m) ≡ 512
  pub geometry : (c : Card R) → P c → SameGeometry g c
  pub some_sectors : 0 < g.sectors_per_cluster

-- Bytes of one sector lie in one cluster.
pub same_place :
    (off j spc : ℕ)
    → 0 < spc
    → off % (spc * 512) % 512 + j < 512
    → ((off + j) / (spc * 512) ≡ off / (spc * 512))
      × ((off + j) % (spc * 512) ≡ off % (spc * 512) + j)
same_place off j spc p h = (
  q,
  omega (
    arith,
    div-add-mod' (off + j) (spc * 512),
    div-add-mod' off (spc * 512),
    ap (λ (t : ℕ). t * (spc * 512)) q,
  ),
)
  where
    q : (off + j) / (spc * 512) ≡ off / (spc * 512)
    q =
        div-eq_of_lt-le (spc * 512) (omega (arith, div-add-mod' off (spc * 512)))
          (omega (arith, div-add-mod' off (spc * 512), mod-lt off {m = spc * 512} (omega arith)))

module _ {R : Type 0} (g : Card R) (disk : ℕ → List ℕ) (chain : ℕ → ℕ) where
  -- The sector of the file at an offset, and its byte there.
  abbrev pub sector_at : ℕ → ℕ
  sector_at off = sector_number g (chain (off / cluster_size g)) (off % cluster_size g / 512)

  abbrev pub byte_on_card : ℕ → ℕ
  byte_on_card off = get_or (disk (sector_at off)) (off % cluster_size g % 512) 0

  abbrev pub contents : ℕ → ℕ → List ℕ
  contents off zero = []
  contents off (suc n) = byte_on_card off ∷ contents (off + 1) n

  pub length-contents : (off n : ℕ) → length (contents off n) ≡ n
  length-contents off zero = refl
  length-contents off (suc n) = ap suc (length-contents (off + 1) n)

  pub byte-contents : (off n i : ℕ) → i < n → get_or (contents off n) i 0 ≡ byte_on_card (off + i)
  byte-contents off zero i h = absurd (omega arith)
  byte-contents off (suc n) zero h = let z : off + 0 ≡ off = omega arith in rw z refl
  byte-contents off (suc n) (suc i) h =
      let z : off + suc i ≡ off + 1 + i = omega arith in
      rw z (byte-contents (off + 1) n i (omega arith))

  pub contents-add : (off m n : ℕ) → contents off m ++ contents (off + m) n ≡ contents off (m + n)
  contents-add off zero n =
      let z : off + 0 ≡ off = omega arith in let y : 0 + n ≡ n = omega arith in rw (z, y) refl
  contents-add off (suc m) n =
      let z : off + suc m ≡ off + 1 + m = omega arith in
      let y : suc m + n ≡ suc (m + n) = omega arith in
      rw (z, y) (ap (◌∷◌ (byte_on_card off)) (contents-add (off + 1) m n))

  module _ (spc : 0 < g.sectors_per_cluster) (sectors : (m : ℕ) → length (disk m) ≡ 512) where
    -- What a round copies from its sector.
    pub one_sector :
        (off n : ℕ)
        → off % cluster_size g % 512 + n ≤ 512
        → take n (drop (off % cluster_size g % 512) (disk (sector_at off))) ≡ contents off n
    one_sector off n h =
        (let o = off % cluster_size g % 512 in
          let d = disk (sector_at off) in
          get_or_ext (take n (drop o d)) (contents off n) 0
            (omega (
              arith,
              length-take n (drop o d),
              length-drop o d,
              sectors (sector_at off),
              length-contents off n,
            ))
            (λ i l.
              let k : i < n = omega (arith, length-take n (drop o d)) in
              let (q, r) = same_place off i g.sectors_per_cluster spc (omega arith) in
              let a : off % cluster_size g / 512 ≡ (off % cluster_size g + i) / 512 = omega arith in
              let b : (off % cluster_size g + i) % 512 ≡ o + i = omega arith in
              let w : ltb i n ≡ true = ground arith in
              let same : byte_on_card (off + i) ≡ get_or d (o + i) 0 = rw (q, r, sym a, b) refl in
              get_or-take n i (drop o d) 0
              ∙ rw w (get_or-drop o i d 0 ∙ sym (byte-contents off n i k ∙ same))))
