-- ===== src/Write/Direct.antt =====
-- What a direct write of m65ftp_pwrite of src/m65ftp_lib.c makes of a file's bytes.
use mega65fs.Base.{
  u32, if◌then◌else◌, ap, ◌%◌, splice, length-splice, ◌==◌, splice, length-splice, get_or-splice,
  get_or_ext, splice, length-splice, get_or-splice, get_or_ext, ℕ, ◌+◌, ◌-◌, ◌≤◌, ◌<◌, ◌≡◌, ◌≢◌,
  refl, ap, sym, ◌∙◌, true, false, inl, inr, ◌⊎◌, some, List, [], ◌∷◌, ◌&&◌, arith, ◌==◌, leb, ltb,
  if◌then◌else◌, length, get_or, Bool-cases, ◌*◌, ◌/◌, ◌%◌, ◌>>=◌, pos,
}
use mega65fs.Card.{Card, Library}
use mega65fs.Store.{FileInfo}
use mega65fs.Chain.{cluster_size}
use mega65fs.Chain.Disk.{Disk, Kept, InArea, Linked}
use mega65fs.Flush.{has_entry}
use mega65fs.Read.Places.{contents, byte_on_card, length-contents, byte-contents, sector_at}
use mega65fs.Write.{Position, write_loop, locate, record_write, pwrite_direct}
use mega65fs.Write.Rounds.{patched}
use mega65fs.Write.Bytes.{bytes, Stands, Inside, Filled, place_back, index_lem}
use mega65fs.Write.Contents.{loop_lem}
use mega65fs.Write.Stored.{
  kept_position, resumes, entry_sector, EntryApart, EntryWritten, locate_lem, record_write_lem,
  after_write,
}

patched_same :
    (cur cur' : ℕ) (bs : List ℕ) (f f' : ℕ → ℕ) (x : ℕ)
    → cur' ≡ cur
    → f' x ≡ f x
    → patched f' cur' bs x ≡ patched f cur bs x
patched_same cur cur' bs f f' x e e' = rw (e, e') refl

contents-splice :
    {R : Type 0} (g : Card R) (d d' : ℕ → List ℕ) (chain : ℕ → ℕ) (n cur : ℕ) (bs : List ℕ)
    → cur + length bs ≤ n
    → ((x : ℕ) → x < n → byte_on_card g d' chain x ≡ patched (byte_on_card g d chain) cur bs x)
    → contents g d' chain 0 n ≡ splice cur bs (contents g d chain 0 n)
contents-splice g d d' chain n cur bs h f =
    let old = contents g d chain 0 n in
    get_or_ext (contents g d' chain 0 n) (splice cur bs old) 0
      (omega (
        arith,
        length-contents g d' chain 0 n,
        length-contents g d chain 0 n,
        length-splice cur bs old,
      ))
      (λ x l.
        let k : x < n = omega (arith, length-contents g d' chain 0 n) in
        let z : 0 + x ≡ x = omega arith in
        let was : get_or old x 0 ≡ byte_on_card g d chain x =
          byte-contents g d chain 0 n x k ∙ ap (byte_on_card g d chain) z in
        byte-contents g d' chain 0 n x k
        ∙ ap (byte_on_card g d' chain) z
        ∙ f x k
        ∙ sym (
            get_or-splice cur bs old x 0 (omega (arith, length-contents g d chain 0 n))
            ∙ ap
                (λ (b : ℕ).
                  if leb cur x && ltb x (cur + length bs) then get_or bs (x - cur) 0 else b)
                was))

module _ {R : Type 0} (P : Card R → Type 0) (fat : Card R → ℕ → ℕ) (sector : Card R → ℕ → List ℕ)
    (g : Card R) (chain : ℕ → ℕ) (count : ℕ) where
  -- The bytes that the clusters of the file hold.
  abbrev pub file_bytes : Card R → List ℕ
  file_bytes c = contents g (sector c) chain 0 (count * cluster_size g)

  -- A write to the file: bs stand at cur, the table is as it was, and no sector has changed but
  -- those of the file and the entry's.
  pub record Stored (fi : FileInfo) (cur : ℕ) (bs : List ℕ) (c c' : Card R) : Type 0 where
    pub ok : P c'
    pub table : (k : ℕ) → fat c' k ≡ fat c k
    pub content : file_bytes c' ≡ splice cur bs (file_bytes c)
    pub others :
        (m : ℕ)
        → (sector c' m ≡ sector c m)
          ⊎ Inside g chain count m
          ⊎ ((m ≡ entry_sector g fi) × (has_entry fi ≡ true))

  module _ (spc : 0 < g.sectors_per_cluster) where
    entry_apart :
        (fi : FileInfo) (c c' : Card R) (x : ℕ)
        → (has_entry fi ≡ true → EntryApart g chain count fi)
        → EntryWritten P fat sector g fi c c'
        → x < count * cluster_size g
        → bytes sector g chain c' x ≡ bytes sector g chain c x
    entry_apart fi c c' x apart w h =
        let m = sector_at g (sector c) chain x in
        elim (w.others m) [
          | inl e ↦ ap (λ (b : List ℕ). get_or b (x % cluster_size g % 512) 0) e
          | inr (e, here) ↦
              let (hs, _, _) = place_back x g.sectors_per_cluster spc in
              absurd (
                (apart here).apart (
                  x / cluster_size g,
                  x % cluster_size g / 512,
                  index_lem g count spc x h,
                  hs,
                  sym e,
                ))
        ]

    stored :
        (fi : FileInfo) (cur cur' : ℕ) (bs : List ℕ) (c c1 c2 c3 : Card R)
        → cur' ≡ cur
        → cur + length bs ≤ count * cluster_size g
        → Kept P fat sector c c1
        → Filled P fat sector g chain count cur' bs c1 c2
        → EntryWritten P fat sector g fi c2 c3
        → (has_entry fi ≡ true → EntryApart g chain count fi)
        → Stored fi cur bs c c3
    stored fi cur cur' bs c c1 c2 c3 ec inside k f w apart = record {
      ok = w.ok;
      table = λ n. w.table n ∙ f.table n ∙ k.table n;
      content =
          contents-splice g (sector c) (sector c3) chain (count * cluster_size g) cur bs inside
            (λ x h.
              entry_apart fi c2 c3 x apart w h
              ∙ f.bytes_there x h
              ∙ patched_same cur cur' bs (bytes sector g chain c) (bytes sector g chain c1) x ec (
                  ap (λ (b : List ℕ). get_or b (x % cluster_size g % 512) 0)
                    (k.sectors (sector_at g (sector c) chain x))));
      others = λ m. elim (w.others m) [
        | inr e ↦ inr (inr e)
        | inl e ↦ elim (f.others m) [
          | inl e' ↦ inl (e ∙ e' ∙ k.sectors m)
          | inr there ↦ inr (inl there)
        ]
      ];
    }

module _ {R : Type 0} ⦃lib : Library R⦄ (P : Card R → Type 0) (fat : Card R → ℕ → ℕ)
    (sector : Card R → ℕ → List ℕ) (g : Card R) (disk : Disk lib P fat sector g) (chain : ℕ → ℕ)
    (count : ℕ) (area : InArea g chain count) where
  direct_run :
      (fi : FileInfo) (b : ℕ) (rest : List ℕ) (offset : ℕ) (p q : Position) (fi' : FileInfo)
      (c c1 c2 c3 : Card R)
      → locate fi offset c ≡ some (p, c1)
      → write_loop (length (b ∷ rest) + 1) (b ∷ rest) p c1 ≡ some (some q, c2)
      → record_write fi offset q c2 ≡ some ((pos q.total_written, fi'), c3)
      → q.total_written ≡ length (b ∷ rest)
      → pwrite_direct fi (b ∷ rest) offset c ≡ some ((pos (length (b ∷ rest)), fi'), c3)
  unfolding pwrite_direct
  direct_run fi b rest offset p q fi' c c1 c2 c3 e1 e2 e3 total =
      rw (◌>>=◌, e1, e2, e3) (ap (λ (k : ℕ). some ((pos k, fi'), c3)) total)

  kept_Stands :
      (fi : FileInfo) (offset j : ℕ) (q : Position) (b : List ℕ)
      → (q.current_offset % 512 ≡ 0 → Stands g chain count q j)
      → (q.current_offset % 512 ≢ 0)
        ⊎ ((i : ℕ) × Stands g chain count
              (kept_position (record (after_write fi offset q) { dir_sector_buf = b }))
              i)
  kept_Stands fi offset j q b h = elim (Bool-cases (q.current_offset % 512 == 0)) [
    | inl w ↦
        let there = h (ground (arith, w)) in
        inr (
          j,
          record {
            cluster = there.cluster;
            index = there.index;
            sector_in_cluster = there.sector_in_cluster;
            offset = there.offset;
          },
        )
    | inr w ↦ inl (ground (arith, w))
  ]

  -- A direct write of some bytes inside the clusters of the file answers their number. The file's
  -- bytes are the old ones with the new ones in their place, the table stays, and no sector changes
  -- but those of the file and the one of its entry. The size grows to the end of the write. That
  -- holds for a write that does not go on where the last one ended, and for one that does if the
  -- position kept in the descriptor is the place of that offset; the write leaves such a position
  -- where it ends at a sector's end.
  pub pwrite_direct_lem :
      (fi : FileInfo) (buf : List ℕ) (offset : ℕ) (c : Card R)
      → P c
      → Linked (fat c) chain count
      → fi.first_cluster ≡ chain 0
      → 0 < length buf
      → offset + length buf ≤ count * cluster_size g
      → (resumes fi offset ≡ false) ⊎ ((i : ℕ) × Stands g chain count (kept_position fi) i)
      → (has_entry fi ≡ true → EntryApart g chain count fi)
      → (fi' : FileInfo) × (c' : Card R) × (pwrite_direct fi buf offset c
          ≡ some ((pos (length buf), fi'), c'))
        × Stored P fat sector g chain count fi offset buf c c'
        × (fi'.first_cluster ≡ fi.first_cluster)
        × (fi'.file_size ≡ (
            if ltb fi.file_size (offset + length buf)
            then u32 (offset + length buf)
            else fi.file_size))
        × (fi'.last_offset ≡ offset + length buf)
        × ((fi'.last_offset % 512 ≢ 0) ⊎ ((i : ℕ) × Stands g chain count (kept_position fi') i))
  pwrite_direct_lem fi [] offset c ok linked first some_bytes inside starts apart =
      absurd (omega arith)
  pwrite_direct_lem fi (b ∷ rest) offset c ok linked first some_bytes inside starts apart =
      let buf : List ℕ = b ∷ rest in
      let (p, i, c1, e1, cur1, total1, there1, k1) =
        locate_lem P fat sector g disk chain count area fi offset c first (omega (arith, inside))
          starts linked ok in
      let linked1 : Linked (fat c1) chain count = λ j l. k1.table (chain j) ∙ linked j l in
      let (q, j, c2, e2, cur2, total2, there2, f) =
        loop_lem P fat sector g disk chain count area (length buf + 1) i p buf c1 (omega arith)
          (λ h. there1) (omega (arith, inside, cur1)) linked1 k1.ok in
      let (b', c3, e3, w) =
        record_write_lem P fat sector g disk chain count area fi offset q c2 apart f.ok in
      let fi' : FileInfo = record (after_write fi offset q) { dir_sector_buf = b' } in
      (
        fi',
        c3,
        direct_run fi b rest offset p q fi' c c1 c2 c3 e1 e2 e3 (omega (arith, total1, total2)),
        stored P fat sector g chain count disk.some_sectors fi offset p.current_offset buf c c1 c2
            c3 cur1 inside k1 f w apart,
        refl,
        ap (λ (k : ℕ). if ltb fi.file_size (offset + k) then u32 (offset + k) else fi.file_size)
            (omega (arith, total1, total2)),
        omega (arith, cur2, cur1),
        kept_Stands fi offset j q b' there2,
      )
