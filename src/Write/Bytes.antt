-- ===== src/Write/Bytes.antt =====
-- The bytes of a file on the card around a write of src/m65ftp_lib.c, and what a write may change.
use mega65fs.Base.{
  ◌⊎◌, length-take, get_or-splice, ℕ, ◌+◌, ◌≤◌, ◌<◌, ◌≡◌, ◌≢◌, false, inl, inr, List, ◌&&◌, arith,
  ◌==◌, leb, ltb, if◌then◌else◌, length, get_or, Bool-cases, take, ◌*◌, ◌/◌, ◌%◌,
}
use native.Mathlib.Nat.{div-add-mod', mod-lt, div-lt_iff_lt-mul}
use mega65fs.Card.{Card}
use mega65fs.Chain.{sector_number, cluster_size}
use mega65fs.Read.Places.{byte_on_card}
use mega65fs.Write.{Position}
use mega65fs.Write.Rounds.{patched, piece, patch}

-- The number of the sector in the file.
pub place_back :
    (off spc : ℕ)
    → 0 < spc
    → (off % (spc * 512) / 512 < spc)
      × (off / 512 ≡ off / (spc * 512) * spc + off % (spc * 512) / 512)
      × (off % (spc * 512) % 512 ≡ off % 512)
place_back off spc h =
    omega (arith, div-add-mod' off (spc * 512), mod-lt off {m = spc * 512} (omega arith))

pub index_lem :
    {R : Type 0} (g : Card R) (count : ℕ)
    → 0 < g.sectors_per_cluster
    → (x : ℕ) → x < count * cluster_size g
    → x / cluster_size g < count
index_lem g count spc x h =
    grind (arith, div-lt_iff_lt-mul {k = cluster_size g} {x = x} {y = count} (omega arith))

-- A byte of the sector a round writes: `o` is the byte, `x` the byte's number in the file.
pub patched_byte :
    (cur x o : ℕ) (rest old was : List ℕ) (f : ℕ → ℕ)
    → x / 512 ≡ cur / 512
    → o ≡ x % 512
    → length old ≡ 512
    → f x ≡ get_or was o 0
    → (if leb 512 (piece cur rest) && (cur % 512 == 0) then 0 else get_or old o 0)
      ≡ (if leb 512 (piece cur rest) && (cur % 512 == 0) then 0 else get_or was o 0)
    → get_or (patch cur rest old) o 0 ≡ patched f cur (take (piece cur rest) rest) x
patched_byte cur x o rest old was f e eo l here same = ground (
  arith,
  get_or-splice (cur % 512) (take (piece cur rest) rest) old o 0,
  length-take (piece cur rest) rest,
)

-- Where a round ends at a sector's end, the next sector follows.
pub sector_after :
    (cur k : ℕ) (rest : List ℕ)
    → 0 < length rest
    → cur / 512 ≡ k
    → ((cur + piece cur rest) % 512 ≢ 0 → piece cur rest < length rest)
    → (cur + piece cur rest) / 512 ≡ k + 1
sector_after cur k rest some_rest e h = elim (Bool-cases ((cur + piece cur rest) % 512 == 0)) [
  | inl w ↦ ground (arith, w)
  | inr w ↦ let more = h (ground (arith, w)) in ground (arith, more)
]

pub away_lem :
    (cur x : ℕ) (rest : List ℕ)
    → x / 512 ≢ cur / 512
    → (leb cur x && ltb x (cur + length (take (piece cur rest) rest))) ≡ false
away_lem cur x rest h = ground (arith, length-take (piece cur rest) rest)

module _ {R : Type 0} (sector : Card R → ℕ → List ℕ) (g : Card R) (chain : ℕ → ℕ) where
  -- The bytes of the file, as a card holds them.
  abbrev pub bytes : Card R → ℕ → ℕ
  bytes c = byte_on_card g (sector c) chain

module _ {R : Type 0} (g : Card R) (chain : ℕ → ℕ) (count : ℕ) where
  -- Where the loop stands: at sector s of cluster i of the file.
  pub record Stands (p : Position) (i : ℕ) : Type 0 where
    pub cluster : p.cluster ≡ chain i
    pub index : i < count
    pub sector_in_cluster : p.sector_in_cluster ≤ g.sectors_per_cluster
    pub offset : p.current_offset / 512 ≡ i * g.sectors_per_cluster + p.sector_in_cluster

  -- A sector of the file.
  abbrev pub Inside : ℕ → Type 0
  Inside m =
      (i : ℕ) × (s : ℕ) × (i < count)
      × (s < g.sectors_per_cluster)
      × (m ≡ sector_number g (chain i) s)

module _ {R : Type 0} (P : Card R → Type 0) (fat : Card R → ℕ → ℕ) (sector : Card R → ℕ → List ℕ)
    (g : Card R) (chain : ℕ → ℕ) (count : ℕ) where
  -- The bytes of bs are written at cur, and nothing else of the card changes: no other byte of the
  -- file, no other sector, and not the table.
  pub record Filled (cur : ℕ) (bs : List ℕ) (c c' : Card R) : Type 0 where
    pub ok : P c'
    pub table : (k : ℕ) → fat c' k ≡ fat c k
    pub bytes_there :
        (x : ℕ)
        → x < count * cluster_size g
        → bytes sector g chain c' x ≡ patched (bytes sector g chain c) cur bs x
    pub others : (m : ℕ) → (sector c' m ≡ sector c m) ⊎ Inside g chain count m
