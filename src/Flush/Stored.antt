-- ===== src/Flush/Stored.antt =====
-- What the data loops of flush_write_buffer of src/m65ftp_lib.c leave in the sectors of the card.
use mega65fs.Base.{
  ℕ, zero, suc, ◌+◌, ◌-◌, ◌*◌, ◌^◌, ◌≤◌, ◌<◌, ◌≡◌, refl, ap, sym, ◌∙◌, true, inl, inr, none, some,
  Option, List, ◌∷◌, ◌&&◌, arith, ◌==◌, leb, ltb, if◌then◌else◌, Bool-cases, length, get_or, take,
  drop, replicate, overlay, u32, length-overlay, length-replicate, length-take, length-drop,
  get_or-overlay, get_or-take, get_or-drop, get_or-replicate, get_or_end,
}
use mega65fs.Card.{Card, Library}
use mega65fs.Store.{FileInfo}
use mega65fs.Chain.{first_data_sector}
use mega65fs.Chain.Disk.{Disk}
use mega65fs.Buffer.{bytes_of}
use mega65fs.Buffer.Content.{IsBuffered, byte_at}
use mega65fs.Flush.{at_most, sector_bytes}
use mega65fs.Flush.Sectors.{file_sectors, write_all}

pub length-sector_bytes :
    (o : Option (List ℕ)) (c off copy : ℕ) → length (sector_bytes o c off copy) ≡ 512
unfolding sector_bytes
length-sector_bytes none c off copy = length-replicate {A = ℕ} 512 0
length-sector_bytes (some buf) c off copy = elim (Bool-cases (ltb off c)) [
  | inl w ↦ rw w (
      length-overlay (take (if ltb c (off + copy) then c - off else copy) (drop off buf))
        (replicate 512 0)
      ∙ length-replicate {A = ℕ} 512 0)
  | inr w ↦ rw w (length-replicate {A = ℕ} 512 0)
]

overlaid :
    (buf z : List ℕ) (off o n : ℕ)
    → length z ≡ 512
    → get_or z o 0 ≡ 0
    → o < 512
    → o < n
    → n ≤ 512
    → get_or
        (if ltb off (length buf)
          then overlay
              (take (if ltb (length buf) (off + n) then length buf - off else n) (drop off buf))
              z
          else z)
        o
        0
      ≡ get_or buf (off + o) 0
overlaid buf z off o n lz zo h l le =
    let t = if ltb (length buf) (off + n) then length buf - off else n in
    ground (
      arith,
      get_or-overlay (take t (drop off buf)) z o 0,
      length-take t (drop off buf),
      length-drop off buf,
      get_or-take t o (drop off buf) 0,
      get_or-drop off o buf 0,
      get_or_end buf (off + o) 0,
    )

-- A byte of the file in the sector written for it.
pub byte-sector_bytes :
    (fi : FileInfo) (off o : ℕ)
    → IsBuffered fi
    → o < 512
    → off + o < fi.file_size
    → get_or (sector_bytes fi.write_buf fi.write_buf_cap off (at_most 512 (fi.file_size - off))) o 0
      ≡ byte_at fi (off + o)
unfolding sector_bytes
byte-sector_bytes fi off o v h l = go fi.write_buf v.cap
  where
    go :
        (b : Option (List ℕ))
        → length (bytes_of b) ≡ fi.write_buf_cap
        → get_or (sector_bytes b fi.write_buf_cap off (at_most 512 (fi.file_size - off))) o 0
          ≡ get_or (bytes_of b) (off + o) 0
    go none e = get_or-replicate 512 o 0
    go (some buf) e = rw (sym e) (
        overlaid buf (replicate 512 0) off o (at_most 512 (fi.file_size - off))
          (length-replicate {A = ℕ} 512 0) (get_or-replicate 512 o 0) h (ground arith)
          (ground arith))

module _ {R : Type 0} ⦃lib : Library R⦄ (P : Card R → Type 0) (fat : Card R → ℕ → ℕ)
    (sector : Card R → ℕ → List ℕ) (g : Card R) (disk : Disk lib P fat sector g) (fi : FileInfo)
    (first size : ℕ) where
  -- The sector of the file that the card's sector m is.
  abbrev pub stored : ℕ → List ℕ
  stored m =
      sector_bytes fi.write_buf fi.write_buf_cap ((m - first) * 512)
        (at_most 512 (size - (m - first) * 512))

  write_all-true :
      (m : ℕ) (b : List ℕ) (rest : List (ℕ × List ℕ)) (c : Card R)
      → (lib.write_sector m b c).0 ≡ true
      → write_all ((m, b) ∷ rest) c ≡ write_all rest (lib.write_sector m b c).1
  unfolding write_all
  write_all-true m b rest c e = rw e refl

  next_sector :
      (n k : ℕ)
      → first + k < 2 ^ 32
      → file_sectors fi first size (suc n) k
        ≡ (first + k, stored (first + k)) ∷ file_sectors fi first size n (k + 1)
  unfolding file_sectors
  next_sector n k h =
      let z : u32 (first + k) ≡ first + k = omega arith in
      let y : first + k - first ≡ k = omega arith in rw z (rw y refl)

  pub write_all_lem :
      (n k : ℕ) (c : Card R)
      → first_data_sector g ≤ first
      → first + k + n ≤ 2 ^ 32
      → P c
      → (c' : Card R) × (write_all (file_sectors fi first size n k) c ≡ some (true, c'))
        × P c'
        × ((m : ℕ) → fat c' m ≡ fat c m)
        × ((m : ℕ)
            → sector c' m
              ≡ (if leb (first + k) m && ltb m (first + k + n) then stored m else sector c m))
  unfolding write_all file_sectors
  write_all_lem zero k c low high ok = (c, refl, ok, (λ m. refl), (λ m. ground arith))
  write_all_lem (suc n) k c low high ok =
      let b = stored (first + k) in
      let c1 = (lib.write_sector (first + k) b c).1 in
      let (e, w) =
        disk.write_sector (first + k) b c (omega arith)
          (length-sector_bytes fi.write_buf fi.write_buf_cap ((first + k - first) * 512)
            (at_most 512 (size - (first + k - first) * 512)))
          ok in
      let (c', e', ok', t, s) = write_all_lem n (k + 1) c1 low (omega arith) w.ok in
      (
        c',
        ap (λ ws. write_all ws c) (next_sector n k (omega arith))
            ∙ write_all-true (first + k) b (file_sectors fi first size n (k + 1)) c e
            ∙ e',
        ok',
        (λ m. t m ∙ w.table m),
        (λ m. elim (Bool-cases (m == first + k)) [
          | inl h ↦
              let q : m ≡ first + k = ground (arith, h) in
              ground (arith, s m, w.sectors m, h, ap stored q)
          | inr h ↦ ground (arith, s m, w.sectors m, h)
        ]),
      )
