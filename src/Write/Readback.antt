-- ===== src/Write/Readback.antt =====
-- A direct write of m65ftp_pwrite of src/m65ftp_lib.c, read back by m65ftp_pread.
use mega65fs.Base.{
  zero, suc, u32, min, inl, inr, ◌⊎◌, u32, min, splice, get_or-splice, get_or_ext, ℕ, zero, suc,
  ◌+◌, ◌-◌, ◌≤◌, ◌<◌, ◌≡◌, refl, ap, sym, ◌∙◌, true, false, inl, inr, ◌⊎◌, some, List, ◌&&◌, arith,
  leb, ltb, if◌then◌else◌, length, get_or, Bool-cases, ◌*◌, ◌^◌, pos,
}
use mega65fs.Card.{Card, Library}
use mega65fs.Store.{FileInfo}
use mega65fs.Chain.{cluster_size, sector_number, first_data_sector}
use mega65fs.Chain.Disk.{Disk, Kept, Kept-refl, Kept-trans, InArea, Linked, number_lem}
use mega65fs.Flush.{has_entry}
use mega65fs.Read.{pread_direct}
use mega65fs.Read.Contents.{pread_direct_lem}
use mega65fs.Read.Places.{OnCard, contents, byte_on_card, length-contents, byte-contents}
use mega65fs.Write.{pwrite_direct}
use mega65fs.Write.Bytes.{Stands}
use mega65fs.Write.Stored.{kept_position, resumes, EntryApart}
use mega65fs.Write.Direct.{file_bytes, pwrite_direct_lem}

some_clusters : (count size : ℕ) → 0 < count * size → 0 < count
some_clusters zero size h = omega (arith, h)
some_clusters (suc count) size h = omega arith

new_size :
    (size end limit : ℕ)
    → end ≤ limit
    → limit < 2 ^ 32
    → size ≤ limit
    → (end ≤ (if ltb size end then u32 end else size))
      × ((if ltb size end then u32 end else size) ≤ limit)
new_size size end limit h small le = elim (Bool-cases (ltb size end)) [
  | inl w ↦ rw w (omega (arith, h, small), omega (arith, h, small))
  | inr w ↦ rw w (ground (arith, w), le)
]

-- What lies where a list was put into another.
contents-spliced :
    {R : Type 0} (g : Card R) (d : ℕ → List ℕ) (chain : ℕ → ℕ) (n off : ℕ) (bs old : List ℕ)
    → off + length bs ≤ n
    → length old ≡ n
    → contents g d chain 0 n ≡ splice off bs old
    → contents g d chain off (length bs) ≡ bs
contents-spliced g d chain n off bs old h l e =
    get_or_ext (contents g d chain off (length bs)) bs 0 (length-contents g d chain off (length bs))
      (λ i k.
        let lt : i < length bs = omega (arith, length-contents g d chain off (length bs)) in
        let z : 0 + (off + i) ≡ off + i = omega arith in
        let y : off + i - off ≡ i = omega arith in
        let w : (leb off (off + i) && ltb (off + i) (off + length bs)) ≡ true = ground arith in
        byte-contents g d chain off (length bs) i lt
        ∙ sym (byte-contents g d chain 0 n (off + i) (omega arith) ∙ ap (byte_on_card g d chain) z)
        ∙ ap (λ (x : List ℕ). get_or x (off + i) 0) e
        ∙ get_or-splice off bs old (off + i) 0 (omega (arith, l))
        ∙ rw (w, y) refl)

module _ {R : Type 0} ⦃lib : Library R⦄ (P : Card R → Type 0) (fat : Card R → ℕ → ℕ)
    (sector : Card R → ℕ → List ℕ) (g : Card R) (disk : Disk lib P fat sector g) (chain : ℕ → ℕ)
    (count : ℕ) (area : InArea g chain count) where
  -- Reading leaves a card with these sectors.
  pub Disk-OnCard :
      (c : Card R)
      → P c
      → Linked (fat c) chain count
      → OnCard lib (Kept P fat sector c) g (sector c) chain count
  Disk-OnCard c ok linked = record {
    read_sector = λ i s c1 hi hs k.
        let m = sector_number g (chain i) s in
        let low : first_data_sector g ≤ m =
          omega (arith, number_lem g chain count area i s hi hs) in
        let (e, k') = disk.read_sector m c1 low k.ok in
        (e ∙ ap (λ (b : List ℕ). some b) (k.sectors m), Kept-trans k k');
    get_next_cluster = λ i c1 h k.
        let (e, k') = disk.get_next_cluster (chain i) c1 k.ok in
        (e ∙ k.table (chain i) ∙ linked i h, Kept-trans k k');
    clusters = area.live;
    sectors = λ m. disk.length_sector c m ok;
    geometry = λ c1 k. disk.geometry c1 k.ok;
    some_sectors = disk.some_sectors;
  }

  read_stored :
      (fi : FileInfo) (buf : List ℕ) (offset : ℕ) (old : List ℕ) (c : Card R)
      → P c
      → Linked (fat c) chain count
      → fi.first_cluster ≡ chain 0
      → 0 < length buf
      → offset + length buf ≤ fi.file_size
      → fi.file_size ≤ count * cluster_size g
      → fi.last_offset ≡ offset + length buf
      → length old ≡ count * cluster_size g
      → file_bytes P fat sector g chain count c ≡ splice offset buf old
      → (fi' : FileInfo) × (c' : Card R) × (pread_direct fi (length buf) offset c
          ≡ some (((pos (length buf), buf), fi'), c'))
  read_stored fi buf offset old c ok linked first some_bytes inside size last l e =
      let n = length buf in
      let low =
        area.low 0
          (some_clusters count (cluster_size g) (omega (arith, some_bytes, inside, size))) in
      let (fi', c', r, _, _) =
        pread_direct_lem (Kept P fat sector c) g (sector c) chain count (Disk-OnCard c ok linked) fi
          n offset c (Kept-refl c ok) first (λ z. omega (arith, low, first, z)) size
          (inl (λ z. omega (arith, z, last, some_bytes))) in
      let m : min n (fi.file_size - offset) ≡ n = ground (arith, inside) in
      (
        fi',
        c',
        r
            ∙ rw
                (
                  m,
                  contents-spliced g (sector c) chain (count * cluster_size g) offset buf old
                      (omega (arith, inside, size)) l e,
                )
                refl,
      )

  -- Bytes that a direct write put inside the clusters of a file, whose size has 32 bits, are what a
  -- direct read at the same offset then answers. The write is one that does not go on where the
  -- last one ended, or one whose kept position is the place of its offset.
  pub pread_direct-pwrite_direct :
      (fi : FileInfo) (buf : List ℕ) (offset : ℕ) (c : Card R)
      → P c
      → Linked (fat c) chain count
      → fi.first_cluster ≡ chain 0
      → 0 < length buf
      → offset + length buf ≤ count * cluster_size g
      → count * cluster_size g < 2 ^ 32
      → fi.file_size ≤ count * cluster_size g
      → (resumes fi offset ≡ false) ⊎ ((i : ℕ) × Stands g chain count (kept_position fi) i)
      → (has_entry fi ≡ true → EntryApart g chain count fi)
      → (fi' : FileInfo) × (c' : Card R) × (fi'' : FileInfo) × (c'' : Card R) × (pwrite_direct fi
            buf offset c
          ≡ some ((pos (length buf), fi'), c'))
        × (pread_direct fi' (length buf) offset c' ≡ some (((pos (length buf), buf), fi''), c''))
  pread_direct-pwrite_direct fi buf offset c ok linked first some_bytes inside small size starts
        apart =
      let (fi', c', e, s, first', size', last, there) =
        pwrite_direct_lem P fat sector g disk chain count area fi buf offset c ok linked first
          some_bytes inside starts apart in
      let linked' : Linked (fat c') chain count = λ j l. s.table (chain j) ∙ linked j l in
      let (grown, within) =
        new_size fi.file_size (offset + length buf) (count * cluster_size g) inside small size in
      let (fi'', c'', e') =
        read_stored fi' buf offset (file_bytes P fat sector g chain count c) c' s.ok linked'
          (first' ∙ first) some_bytes (omega (arith, size', grown)) (omega (arith, size', within))
          last (length-contents g (sector c) chain 0 (count * cluster_size g)) s.content in
      (fi', c', fi'', c'', e, e')
