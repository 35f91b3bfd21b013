-- ===== src/Flush/Whole.antt =====
-- flush_write_buffer of src/m65ftp_lib.c, from its first call to its last.
use mega65fs.Base.{
  divide_lem, subst, ℕ, ◌+◌, ◌-◌, ◌*◌, ◌/◌, ◌%◌, ◌^◌, ◌≤◌, ◌<◌, ◌≡◌, refl, ap, ◌∙◌, true, false,
  inl, inr, ◌⊎◌, some, List, ◌&&◌, arith, ◌==◌, leb, ltb, if◌then◌else◌, Bool-cases, get_or, u32,
  no_cluster, ◌>>=◌,
}
use native.Mathlib.Nat.{le-div_iff_mul-le}
use mega65fs.Card.{Card, Library}
use mega65fs.Card.Laws.{KeepsGeometry, SameGeometry, some_kept}
use mega65fs.Store.{FileInfo, end_of_chain}
use mega65fs.Chain.{cluster_size, sector_number}
use mega65fs.Chain.Disk.{Disk}
use mega65fs.Buffer.Content.{IsBuffered, byte_at}
use mega65fs.Flush.{
  at_most, sector_bytes, has_entry, chain_block, flush_clusters, flush_entry, flush_write_buffer,
}
use mega65fs.Flush.Sectors.{sector_count}
use mega65fs.Flush.Block.{Allocator, IsFree, block}
use mega65fs.Flush.Stored.{byte-sector_bytes, stored}
use mega65fs.Read.Places.{byte_on_card}
use mega65fs.Write.Bytes.{Inside, place_back, index_lem}
use mega65fs.Write.Stored.{entry_sector}
use mega65fs.Flush.Flushed.{
  bytes_in_clusters, clusters_of, EntryInUse, with_entry, flushed, Flushed, sectors_in_clusters,
  in_block, sector_of_byte,
}
use mega65fs.Flush.OnCard.{first_of, data_lem, entry_lem, block_lem}

same_number : (m : ℕ) → (m == m) ≡ true
same_number m = ground arith

module _ {R : Type 0} ⦃lib : Library R⦄ (P : Card R → Type 0) (fat : Card R → ℕ → ℕ)
    (sector : Card R → ℕ → List ℕ) (g : Card R) (disk : Disk lib P fat sector g)
    (alloc : Allocator lib P fat sector g) (keeps : KeepsGeometry lib) (fi : FileInfo) where
  -- The block that is found for the file.
  abbrev pub start_of : Card R → ℕ
  start_of c = (lib.find_contiguous_clusters (clusters_of g fi.file_size) c).0

  needed_lem :
      (c : Card R)
      → 0 < fi.file_size
      → fi.file_size + cluster_size g ≤ 2 ^ 32
      → SameGeometry g c
      → u32 (fi.file_size + cluster_size c - 1) / cluster_size c ≡ clusters_of g fi.file_size
  needed_lem c some_bytes small same =
      let n : u32 (fi.file_size + cluster_size g - 1) ≡ fi.file_size + cluster_size g - 1 =
        omega arith in
      rw same.sectors_per_cluster (ap (λ (t : ℕ). t / cluster_size g) n)

  -- The run of the program, from the runs of its parts, with a block of n clusters.
  abbrev Composed : ℕ → Card R → Card R → Card R → Card R → Type 0
  Composed n c c3 c4 c5 =
      (let (start, c1) = lib.find_contiguous_clusters n c in
        no_cluster start ≡ false
        → chain_block (n - 1) start 1 (lib.allocate_cluster start c1).1 ≡ some (tt, c3)
        → flush_clusters fi start (fi.file_size + 1) start fi.file_size c3 ≡ some (true, c4)
        → flush_entry fi start c4 ≡ some ((true, flushed fi start), c5)
        → flush_write_buffer fi c ≡ some ((true, flushed fi start), c5))

  composed :
      (c c3 c4 c5 : Card R)
      → 0 < cluster_size c
      → 0 < fi.file_size
      → Composed (u32 (fi.file_size + cluster_size c - 1) / cluster_size c) c c3 c4 c5
  unfolding flush_write_buffer
  composed c c3 c4 c5 size some_bytes found e3 e4 e5 =
      let z : (fi.file_size == 0) ≡ false = ground arith in
      let d = divide_lem (u32 (fi.file_size + cluster_size c - 1)) (cluster_size c) c size in
      rw (z, ◌>>=◌, d, found, e3, e4) e5

  flush_eq :
      (c c3 c4 c5 : Card R)
      → 0 < fi.file_size
      → fi.file_size + cluster_size g ≤ 2 ^ 32
      → SameGeometry g c
      → Composed (clusters_of g fi.file_size) c c3 c4 c5
  flush_eq c c3 c4 c5 some_bytes small same =
      subst (λ n. Composed n c c3 c4 c5) (needed_lem c some_bytes small same)
        (composed c c3 c4 c5 (omega (arith, some_kept same disk.some_sectors)) some_bytes)

  some_clusters : 0 < fi.file_size → 0 < clusters_of g fi.file_size
  some_clusters h =
      let spc = disk.some_sectors in
      grind (
        arith,
        le-div_iff_mul-le {k = cluster_size g} {x = 1} {y = fi.file_size + cluster_size g - 1}
            (omega (arith, spc)),
      )

  -- Sector m after the data and the entry.
  abbrev written : ℕ → (ℕ → List ℕ) → ℕ → List ℕ
  written start old m =
      if has_entry fi && m == entry_sector g fi
      then (with_entry fi start).dir_sector_buf
      else (if leb (first_of P fat sector g disk alloc keeps fi start) m
            && ltb m (first_of P fat sector g disk alloc keeps fi start + sector_count fi.file_size)
          then stored P fat sector g disk fi (first_of P fat sector g disk alloc keeps fi start)
              fi.file_size m
          else old m)

  -- The entry's sector is none of the block.
  entry_apart :
      (table : ℕ → ℕ) (start i s : ℕ)
      → IsFree g table start (clusters_of g fi.file_size)
      → (has_entry fi ≡ true → EntryInUse g table fi)
      → i < clusters_of g fi.file_size
      → s < g.sectors_per_cluster
      → (has_entry fi && sector_number g (start + i) s == entry_sector g fi) ≡ false
  entry_apart table start i s free used hi hs = elim (Bool-cases (has_entry fi)) [
    | inr w ↦ rw w refl
    | inl w ↦
        let no =
          (used w).in_use (start + i) s (omega (arith, free.live))
            (free.free (start + i) (omega arith) (omega arith)) hs in
        rw w (ground (arith, no))
  ]

  bytes_lem :
      (table : ℕ → ℕ) (start x : ℕ) (d old : ℕ → List ℕ)
      → IsBuffered fi
      → IsFree g table start (clusters_of g fi.file_size)
      → (has_entry fi ≡ true → EntryInUse g table fi)
      → ((m : ℕ) → d m ≡ written start old m)
      → x < fi.file_size
      → x < clusters_of g fi.file_size * cluster_size g
      → byte_on_card g d (block start) x ≡ byte_at fi x
  bytes_lem table start x d old v free used after lt inside =
      let first = first_of P fat sector g disk alloc keeps fi start in
      let i = x / cluster_size g in
      let s = x % cluster_size g / 512 in
      let m = sector_number g (start + i) s in
      let (hs, _, eo) = place_back x g.sectors_per_cluster disk.some_sectors in
      let hi = index_lem g (clusters_of g fi.file_size) disk.some_sectors x inside in
      let apart = entry_apart table start i s free used hi hs in
      let em : m ≡ first + x / 512 =
        sector_of_byte g table start (clusters_of g fi.file_size) x disk.some_sectors free inside in
      let w : (leb first m && ltb m (first + sector_count fi.file_size)) ≡ true =
        ground (arith, em, lt) in
      let b : d m ≡ stored P fat sector g disk fi first fi.file_size m =
        after m ∙ rw apart (rw w refl) in
      let k : (m - first) * 512 ≡ x / 512 * 512 = omega (arith, em) in
      let off : x / 512 * 512 + x % 512 ≡ x = omega arith in
      ap (λ (l : List ℕ). get_or l (x % cluster_size g % 512) 0) b
      ∙ ap (λ (o : ℕ). get_or (stored P fat sector g disk fi first fi.file_size m) o 0) eo
      ∙ ap
          (λ (t : ℕ).
            get_or (sector_bytes fi.write_buf fi.write_buf_cap t (at_most 512 (fi.file_size - t)))
              (x % 512) 0)
          k
      ∙ byte-sector_bytes fi (x / 512 * 512) (x % 512) v (omega arith) (omega (arith, off, lt))
      ∙ ap (byte_at fi) off

  others_lem :
      (table : ℕ → ℕ) (start m : ℕ) (d old : ℕ → List ℕ)
      → IsFree g table start (clusters_of g fi.file_size)
      → ((m : ℕ) → d m ≡ written start old m)
      → (d m ≡ old m)
        ⊎ (Inside g (block start) (clusters_of g fi.file_size) m
            ⊎ ((m ≡ entry_sector g fi) × (has_entry fi ≡ true)))
  others_lem table start m d old free after =
      elim (Bool-cases (has_entry fi && m == entry_sector g fi)) [
        | inl w ↦ inr (inr (ground (arith, w), ground (arith, w)))
        | inr w ↦
            let first = first_of P fat sector g disk alloc keeps fi start in
            elim (Bool-cases (leb first m && ltb m (first + sector_count fi.file_size))) [
              | inr out ↦ inl (after m ∙ rw w (rw out refl))
              | inl inside ↦ inr (
                  inl (
                    in_block g table start (clusters_of g fi.file_size) m disk.some_sectors free
                      (ground (arith, inside))
                      (let fits =
                          sectors_in_clusters fi.file_size g.sectors_per_cluster
                            disk.some_sectors in
                        ground (arith, inside, fits))))
            ]
      ]

  -- A flush of a well-formed, non-empty buffer, whose size and one cluster more have 32 bits, on a
  -- card where a block of free clusters is found and where the entry, if it has a known place,
  -- stands in a used cluster: it succeeds. The block was free and is one chain now, and the table is
  -- otherwise the same; the bytes of the file are those of the buffer; the entry's sector holds the
  -- entry with the block's first cluster and the size; no other sector has changed.
  pub flush_write_buffer-Flushed :
      (c : Card R)
      → P c
      → IsBuffered fi
      → 0 < fi.file_size
      → fi.file_size + cluster_size g ≤ 2 ^ 32
      → (has_entry fi ≡ true → EntryInUse g (fat c) fi)
      → no_cluster (start_of c) ≡ false
      → (c' : Card R) × (flush_write_buffer fi c ≡ some ((true, flushed fi (start_of c)), c'))
        × Flushed P fat sector g fi (start_of c) c c'
  flush_write_buffer-Flushed c ok v some_bytes small used found =
      let n = clusters_of g fi.file_size in
      let start = start_of c in
      let spc = disk.some_sectors in
      let free = alloc.found n c ok found in
      let kept = alloc.find_contiguous_clusters n c ok in
      let c1 = (lib.find_contiguous_clusters n c).1 in
      let free1 : IsFree g (fat c1) start n = record {
        low = free.low;
        high = free.high;
        live = free.live;
        free = λ k lo hi. kept.table k ∙ free.free k lo hi;
      } in
      let (c3, e3, ok3, t3, s3) =
        block_lem P fat sector g disk alloc keeps fi start c1 (some_clusters some_bytes) free1
          kept.ok in
      let (c4, e4, ok4, t4, s4) =
        data_lem P fat sector g disk alloc keeps fi (fat c) start c3 (omega (arith, small, spc))
          free ok3 in
      let (c5, e5, ok5, t5, s5) =
        entry_lem P fat sector g disk alloc keeps fi (fat c) start c4 used
          (omega (arith, free.live)) (omega (arith, small, spc)) ok4 in
      let after : (m : ℕ) → sector c5 m ≡ written start (sector c) m = λ m.
        s5 m
        ∙ ap
            (λ (v : List ℕ).
              if has_entry fi && m == entry_sector g fi
              then (with_entry fi start).dir_sector_buf
              else v)
            (s4 m
              ∙ ap
                  (λ (v : List ℕ).
                    if leb (first_of P fat sector g disk alloc keeps fi start) m
                      && ltb m (
                          first_of P fat sector g disk alloc keeps fi start
                          + sector_count fi.file_size)
                    then stored P fat sector g disk fi
                        (first_of P fat sector g disk alloc keeps fi start) fi.file_size m
                    else v)
                  (s3 m ∙ kept.sectors m)) in
      (
        c5,
        flush_eq c c3 c4 c5 some_bytes small (disk.geometry c ok) found e3 e4 e5,
        record {
          ok = ok5;
          was_free = free;
          table = λ k.
              t5 k
              ∙ t4 k
              ∙ t3 k
              ∙ ap
                  (λ (v : ℕ).
                    if leb start k && ltb k (start + (n - 1))
                    then k + 1
                    else (if k == start + (n - 1) then end_of_chain else v))
                  (kept.table k);
          bytes = λ x lt.
              bytes_lem (fat c) start x (sector c5) (sector c) v free used after lt
                (omega (arith, lt, bytes_in_clusters fi.file_size g.sectors_per_cluster spc));
          entry = λ w. after (entry_sector g fi) ∙ rw (w, same_number (entry_sector g fi)) refl;
          others = λ m. others_lem (fat c) start m (sector c5) (sector c) free after;
        },
      )
