-- ===== src/Truncate/Moved.antt =====
-- The end of a growth in m65ftp_ftruncate of src/m65ftp_lib.c: the entry leads to the new block.
use mega65fs.Base.{
  to_nat, ◌⊎◌, ℕ, suc, ◌+◌, ◌-◌, ◌*◌, ◌/◌, ◌%◌, ◌^◌, ◌≤◌, ◌<◌, ◌≡◌, ◌≢◌, refl, ap, sym, ◌∙◌, true,
  false, inl, inr, some, List, ◌∷◌, arith, ◌==◌, leb, ltb, ◌&&◌, if◌then◌else◌, length, get_or,
  Bool-cases, pos, subst,
}
use mega65fs.Card.{Card, Library}
use mega65fs.Store.{FileInfo}
use mega65fs.Chain.{first_data_sector, cluster_size, sector_number, first_data_sector}
use mega65fs.Chain.Disk.{number_lem, Disk, number_lem}
use mega65fs.Chain.Walks.{step_along}
use mega65fs.Chain.Freed.{has, Frees}
use mega65fs.Entry.Fields.{length-pack16}
use mega65fs.Entry.{pack_dir_entry_le16, set_entry_first_cluster, set_entry_file_size}
use mega65fs.Flush.{has_entry}
use mega65fs.Flush.Block.{IsFree, IsFree-InArea, chained, block, IsFree-InArea}
use mega65fs.Flush.Flushed.{in_block, clusters_of, EntryInUse}
use mega65fs.Read.Places.{byte_on_card}
use mega65fs.Write.Bytes.{Inside, place_back, index_lem}
use mega65fs.Write.Stored.{entry_sector}
use mega65fs.Truncate.{finish_truncate}
use mega65fs.Truncate.Grown.{Grown}
use mega65fs.Truncate.Shorter.{resized, finish_lem}

-- The descriptor with its new first cluster, in the entry too if that has a known place.
abbrev pub moved : FileInfo → ℕ → FileInfo
moved fi start = record (if has_entry fi then set_entry_first_cluster fi start else fi) {
  first_cluster = start;
}

same_entry :
    {R : Type 0} (g : Card R) (fi : FileInfo) (start : ℕ)
    → (has_entry (moved fi start) ≡ has_entry fi)
      × (entry_sector g (moved fi start) ≡ entry_sector g fi)
      × (length (moved fi start).dir_sector_buf ≡ length fi.dir_sector_buf)
unfolding set_entry_first_cluster
same_entry g fi start = elim (Bool-cases (has_entry fi)) [
  | inl w ↦ rw w (
    w,
    refl,
    (length-pack16
          (pack_dir_entry_le16 fi.dir_sector_buf (to_nat fi.dir_sector_offset + 0x1a)
            (start % 2 ^ 16))
          (to_nat fi.dir_sector_offset + 0x14) (start / 2 ^ 16 % 2 ^ 16)
        ∙ length-pack16 fi.dir_sector_buf (to_nat fi.dir_sector_offset + 0x1a) (start % 2 ^ 16)),
  )
  | inr w ↦ rw w (w, refl, refl)
]

module _ {R : Type 0} ⦃lib : Library R⦄ where
  finish_same :
      (fi : FileInfo) (start n : ℕ) (c : Card R)
      → finish_truncate (if has_entry fi then set_entry_first_cluster fi start else fi) start n c
        ≡ finish_truncate (moved fi start) (moved fi start).first_cluster n c
  unfolding finish_truncate set_entry_first_cluster set_entry_file_size
  finish_same fi start n c = elim (Bool-cases (has_entry fi)) [
    | inl w ↦ rw w (rw w refl)
    | inr w ↦ rw w (rw w refl)
  ]

module _ {R : Type 0} (P : Card R → Type 0) (fat : Card R → ℕ → ℕ) (sector : Card R → ℕ → List ℕ)
    (g : Card R) where
  -- The file has the bytes that it had, in a block for a length of n from `start` on, which was free
  -- and is one chain now; the clusters m and xs are free; the entry leads to the block and has the
  -- new size; the table and the sectors are otherwise the same.
  pub record Longer (fi : FileInfo) (n start m : ℕ) (xs : List ℕ) (c c' : Card R) : Type 0 where
    pub ok : P c'
    pub was_free : IsFree g (fat c) start (clusters_of g n)
    pub table :
        (k : ℕ)
        → fat c' k ≡ (if has k (m ∷ xs) then 0 else chained (fat c) start (clusters_of g n - 1) k)
    pub bytes :
        (x : ℕ)
        → x < fi.file_size
        → byte_on_card g (sector c') (block start) x ≡ byte_on_card g (sector c) (step_along m xs) x
    pub entry :
        has_entry fi ≡ true
        → sector c' (entry_sector g fi) ≡ (resized (moved fi start) n).dir_sector_buf
    pub others :
        (k : ℕ)
        → (sector c' k ≡ sector c k)
          ⊎ (Inside g (block start) (clusters_of g n) k
              ⊎ ((k ≡ entry_sector g fi) × (has_entry fi ≡ true)))

-- A sector behind or before the block is none of it.
not_in_block :
    {R : Type 0} (g : Card R) (table : ℕ → ℕ) (start n k j s : ℕ)
    → IsFree g table start n
    → (leb (first_data_sector g + (start - 2) * g.sectors_per_cluster) k
        && ltb k
            (first_data_sector g + (start - 2) * g.sectors_per_cluster + n * g.sectors_per_cluster))
      ≡ false
    → j < n
    → s < g.sectors_per_cluster
    → k ≢ sector_number g (start + j) s
not_in_block g table start n k j s free out hj hs e =
    let spc = g.sectors_per_cluster in
    let q : start + j - 2 ≡ start - 2 + j = omega (arith, free.low) in
    let r : n ≡ j + suc (n - suc j) = omega arith in
    let at_k = number_lem g (block start) n (IsFree-InArea g table start n free) j s hj hs in
    let a : first_data_sector g + (start - 2) * spc ≤ k =
      omega (arith, e, at_k, ap (λ (t : ℕ). t * spc) q) in
    let b : k < first_data_sector g + (start - 2) * spc + n * spc =
      omega (arith, e, at_k, hs, ap (λ (t : ℕ). t * spc) q, ap (λ (t : ℕ). t * spc) r) in
    ground (arith, a, b, out)

module _ {R : Type 0} ⦃lib : Library R⦄ (P : Card R → Type 0) (fat : Card R → ℕ → ℕ)
    (sector : Card R → ℕ → List ℕ) (g : Card R) (disk : Disk lib P fat sector g)
    (frees : Frees lib P fat sector) (fi : FileInfo) where
  -- What a sector holds once the entry is written.
  abbrev with_entry_at : ℕ → ℕ → (ℕ → List ℕ) → ℕ → List ℕ
  with_entry_at start n old k =
      if has_entry fi && k == entry_sector g fi
      then (set_entry_file_size (moved fi start) n).dir_sector_buf
      else old k

  finish_moved :
      (n start : ℕ) (table : ℕ → ℕ) (c : Card R)
      → n < 2 ^ 32
      → (has_entry fi ≡ true → EntryInUse g table fi)
      → P c
      → (c' : Card R) × (finish_truncate
            (if has_entry fi then set_entry_first_cluster fi start else fi)
            start
            n
            c
          ≡ some ((pos 0, resized (moved fi start) n), c'))
        × P c'
        × ((k : ℕ) → fat c' k ≡ fat c k)
        × ((k : ℕ) → sector c' k ≡ with_entry_at start n (sector c) k)
  finish_moved n start table c small used ok =
      let (a, b, l) = same_entry g fi start in
      let buf = (set_entry_file_size (moved fi start) n).dir_sector_buf in
      let (c', run, ok', t, s) =
        finish_lem P fat sector g disk frees (moved fi start) n c small
          (λ h.
            let e = used (sym a ∙ h) in
            record {
              data_area = subst (λ k. first_data_sector g ≤ k) (sym b) e.data_area;
              length_buf = l ∙ e.length_buf;
            })
          ok in
      (
        c',
        finish_same fi start n c ∙ run,
        ok',
        t,
        (λ k.
            s k
            ∙ ap (λ h. if h && k == entry_sector g (moved fi start) then buf else sector c k) a
            ∙ ap (λ e. if has_entry fi && k == e then buf else sector c k) b),
      )

  -- The entry's sector is none of the block.
  entry_apart :
      (table : ℕ → ℕ) (start n i s : ℕ)
      → IsFree g table start n
      → (has_entry fi ≡ true → EntryInUse g table fi)
      → i < n
      → s < g.sectors_per_cluster
      → (has_entry fi && sector_number g (start + i) s == entry_sector g fi) ≡ false
  entry_apart table start n i s free used hi hs = elim (Bool-cases (has_entry fi)) [
    | inr w ↦ rw w refl
    | inl w ↦
        let no =
          (used w).in_use (start + i) s (omega (arith, free.live))
            (free.free (start + i) (omega arith) (omega arith)) hs in
        rw w (ground (arith, no))
  ]

  -- The entry after a file has grown.
  pub finish-Grown :
      (n start m : ℕ) (xs : List ℕ) (c c2 : Card R)
      → n < 2 ^ 32
      → (has_entry fi ≡ true → EntryInUse g (fat c) fi)
      → Grown P fat sector g fi.file_size (clusters_of g n) start m xs c c2
      → fi.file_size ≤ clusters_of g n * cluster_size g
      → (c' : Card R) × (finish_truncate
            (if has_entry fi then set_entry_first_cluster fi start else fi)
            start
            n
            c2
          ≡ some ((pos 0, resized (moved fi start) n), c'))
        × Longer P fat sector g fi n start m xs c c'
  finish-Grown n start m xs c c2 small used grown fits =
      let free = grown.was_free in
      let spc = disk.some_sectors in
      let (c', run, ok', t, s) = finish_moved n start (fat c) c2 small used grown.ok in
      (
        c',
        run,
        record {
          ok = ok';
          was_free = free;
          table = λ k. t k ∙ grown.table k;
          bytes = λ x h.
              let i = x / cluster_size g in
              let k = x % cluster_size g / 512 in
              let (hk, _, _) = place_back x g.sectors_per_cluster spc in
              let hi = index_lem g (clusters_of g n) spc x (omega (arith, fits, h)) in
              let apart = entry_apart (fat c) start (clusters_of g n) i k free used hi hk in
              ap (λ (l : List ℕ). get_or l (x % cluster_size g % 512) 0)
                (s (sector_number g (start + i) k) ∙ rw apart refl)
              ∙ grown.bytes x h;
          entry = λ w.
              let (a, _, _) = same_entry g fi start in
              let here : (entry_sector g fi == entry_sector g fi) ≡ true = ground arith in
              let buf = (set_entry_file_size (moved fi start) n).dir_sector_buf in
              let there : sector c' (entry_sector g fi) ≡ buf =
                s (entry_sector g fi) ∙ rw (w, here) refl in
              there
              ∙ ap
                  (λ h.
                    (if h
                      then set_entry_file_size (moved fi start) n
                      else moved fi start).dir_sector_buf)
                  (sym (a ∙ w));
          others = λ k. elim (Bool-cases (has_entry fi && k == entry_sector g fi)) [
            | inl w ↦ inr (inr (ground (arith, w), ground (arith, w)))
            | inr w ↦
                elim (Bool-cases (
                  leb (first_data_sector g + (start - 2) * g.sectors_per_cluster) k
                  && ltb k (
                      first_data_sector g
                      + (start - 2) * g.sectors_per_cluster
                      + clusters_of g n * g.sectors_per_cluster))) [
                        | inl v ↦ inr (
                            inl (
                              in_block g (fat c) start (clusters_of g n) k spc free
                                (ground (arith, v)) (ground (arith, v))))
                        | inr v ↦ inl (
                            s k
                            ∙ rw w refl
                            ∙ grown.others k (λ j t hj ht.
                              not_in_block g (fat c) start (clusters_of g n) k j t free v hj ht))
                      ]
          ];
        },
      )
