-- ===== src/Write/Resume.antt =====
-- Where a write of src/m65ftp_lib.c goes on after a read of the same descriptor.
use mega65fs.Base.{
  Holds, ◌∙◌, ◌⊎◌, ◌*◌, ◌/◌, ◌%◌, ◌-◌, ◌≤◌, ap, sym, min, pos, ℕ, ◌+◌, ◌<◌, ◌≡◌, ◌≢◌, refl, true,
  not, inl, inr, some, List, [], ◌||◌, ◌&&◌, arith, ◌==◌, leb, ltb, if◌then◌else◌, Bool-cases,
  Option-cases, ◌>>=◌,
}
use mega65fs.Card.{Card, Library}
use mega65fs.Store.{FileInfo}
use mega65fs.Read.{read_loop, pread_direct}
use mega65fs.Buffer.{clip}
use mega65fs.Write.{locate}
use mega65fs.Chain.{sector_number, cluster_size}
use mega65fs.Chain.Disk.{InArea, number_unique}
use mega65fs.Read.Places.{OnCard, sector_at, contents}
use mega65fs.Read.Contents.{InPlace, pread_direct_ends}
use mega65fs.Write.Bytes.{place_back, index_lem}

module _ {R : Type 0} ⦃lib : Library R⦄ where
  -- A read leaves the write position.
  position_kept :
      (fi : FileInfo) (n offset : ℕ) (c : Card R)
      → Holds
          (λ x c'.
            (x.1.write_cluster ≡ fi.write_cluster) × (x.1.sector_in_cluster ≡ fi.sector_in_cluster))
          (pread_direct fi n offset c)
  unfolding pread_direct
  position_kept fi n offset c =
      elim (Bool-cases (n == 0 || fi.first_cluster == 0 || leb fi.file_size offset)) [
        | inl w ↦ rw w (refl, refl)
        | inr w ↦
            let m = clip fi.file_size n offset in
            elim (Option-cases (
              read_loop (m + 1)
                (record {
                  cluster =
                      if offset == fi.last_offset then fi.current_cluster else fi.first_cluster;
                  cluster_index = if offset == fi.last_offset then fi.current_cluster_idx else 0;
                  bytes = [];
                  remaining = m;
                  current_offset = offset;
                })
                c)) [
                  | inl e ↦ rw (w, Holds, ◌>>=◌, e) tt
                  | inr ((ended, c'), e) ↦ rw (w, ◌>>=◌, e) (refl, refl)
                ]
      ]

module _ {R : Type 0} ⦃lib : Library R⦄ (P : Card R → Type 0) (g : Card R) (disk : ℕ → List ℕ)
    (chain : ℕ → ℕ) (count : ℕ) (on : OnCard lib P g disk chain count)
    (area : InArea g chain count) where
  -- Behind the first 512 bytes of a file the bytes are not in its first sector.
  first_sector_apart :
      (x : ℕ)
      → 512 ≤ x
      → x < count * cluster_size g
      → sector_number g (chain 0) 0 ≢ sector_at g disk chain x
  first_sector_apart x far inside e =
      let spc = g.sectors_per_cluster in
      let some_sectors = on.some_sectors in
      let (hs, ex, _) = place_back x spc some_sectors in
      let hi : x / cluster_size g < count = index_lem g count some_sectors x inside in
      let (z, y) =
        number_unique g chain count area 0 (x / cluster_size g) 0 (x % cluster_size g / 512)
          (omega (arith, hi)) hi some_sectors hs e in
      let none_before : 0 * spc ≡ 0 = omega arith in
      let first : x / cluster_size g * spc ≡ 0 = ap (λ (k : ℕ). k * spc) (sym z) ∙ none_before in
      omega (arith, far, ex, y, first)

  -- A direct read that answers m bytes, m above 0, of a file on the card whose write position is, as
  -- m65ftp_open_writable leaves it, the first sector, ends at the offset m bytes behind its own; the
  -- next direct write of the descriptor at that offset starts in the first sector of the file all
  -- the same, which is the wrong one for every such offset in the file that is 512 or above. The
  -- read does not start at the offset of the last one, or the position kept for reads is in place.
  pub locate-pread_direct :
      (fi : FileInfo) (n offset : ℕ) (c : Card R)
      → P c
      → fi.first_cluster ≡ chain 0
      → fi.first_cluster ≢ 0
      → fi.write_cluster ≡ fi.first_cluster
      → fi.sector_in_cluster ≡ 0
      → fi.file_size ≤ count * cluster_size g
      → (offset ≢ fi.last_offset) ⊎ InPlace g chain fi
      → 0 < min n (fi.file_size - offset)
      → (let m = min n (fi.file_size - offset) in
          (fi' : FileInfo) × (c' : Card R) × (pread_direct fi n offset c
            ≡ some (((pos m, contents g disk chain offset m), fi'), c'))
          × (fi'.last_offset ≡ offset + m)
          × (locate fi' (offset + m) c'
              ≡ some (
                record {
                  cluster = chain 0;
                  sector_in_cluster = 0;
                  total_written = 0;
                  current_offset = offset + m;
                },
                c',
              ))
          × (512 ≤ offset + m
              → offset + m < count * cluster_size g
              → sector_number g (chain 0) 0 ≢ sector_at g disk chain (offset + m)))
  unfolding locate
  locate-pread_direct fi n offset c ok first nz at_first at_zero size kept some_bytes =
      let m = min n (fi.file_size - offset) in
      let (fi', c', e, _, ends, _) =
        pread_direct_ends P g disk chain count on fi n offset c ok first nz size kept in
      let moved = ends some_bytes in
      let (ew, es) : (fi'.write_cluster ≡ fi.write_cluster)
          × (fi'.sector_in_cluster ≡ fi.sector_in_cluster) =
        rw e at (position_kept fi n offset c) in
      let w : (offset + m == fi'.last_offset
            && ltb 0 fi'.last_offset
            && not (fi'.write_cluster == 0))
          ≡ true =
        ground (arith, ew, moved, at_first, some_bytes) in
      (
        fi',
        c',
        e,
        moved,
        rw (w, ew, es, at_first, at_zero, first) refl,
        first_sector_apart (offset + m),
      )
