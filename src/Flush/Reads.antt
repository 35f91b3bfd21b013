-- ===== src/Flush/Reads.antt =====
-- Reads of src/m65ftp_lib.c after flush_write_buffer: a flush shows in no read.
use mega65fs.Base.{
  ℕ, ◌+◌, ◌-◌, ◌*◌, ◌^◌, ◌≤◌, ◌<◌, ◌≡◌, ◌≢◌, refl, ap, sym, ◌∙◌, true, false, inl, inr, ◌⊎◌, Option,
  some, List, arith, Bool-cases, length, min, pos, no_cluster, get_or_ext, u32, ℤ,
}
use mega65fs.Card.{Card, Library, Dirent}
use mega65fs.Card.Laws.{KeepsGeometry}
use mega65fs.Store.{FileInfo}
use mega65fs.Chain.{cluster_size}
use mega65fs.Chain.Disk.{Disk, Kept, Kept-refl, Linked}
use mega65fs.Buffer.{pread_buffered}
use mega65fs.Buffer.Content.{IsBuffered, length-pread, byte-pread}
use mega65fs.Entry.Fields.{
  HasEntry, entry_cluster, entry_size, entry_cluster-set, entry_size-set,
  set_entry_file_size_outside,
}
use mega65fs.Write.Stored.{entry_sector}
use mega65fs.Entry.{set_entry_first_cluster, set_entry_file_size}
use mega65fs.Flush.{has_entry, flush_write_buffer}
use mega65fs.Flush.Block.{Allocator, IsFree-InArea, block}
use mega65fs.Flush.Flushed.{
  bytes_in_clusters, clusters_of, EntryInUse, with_entry, flushed, Flushed,
}
use mega65fs.Flush.Whole.{start_of, flush_write_buffer-Flushed}
use mega65fs.Read.{pread_direct}
use mega65fs.Read.Contents.{InPlace, pread_direct_lem}
use mega65fs.Read.Places.{contents, length-contents, byte-contents}
use mega65fs.Write.Readback.{Disk-OnCard}
use mega65fs.Files.{opened}

same_answer :
    {A : Type 0} (k : ℕ) (cs bs : List ℕ) (a : A) (r : FileInfo)
    → k ≡ length bs
    → cs ≡ bs
    → ◌≡◌ {A = Option (((ℤ × List ℕ) × FileInfo) × A)}
        (some (((pos k, cs), r), a))
        (some (((pos (length bs), bs), r), a))
same_answer k cs bs a r e f = rw (e, f) refl

module _ {R : Type 0} ⦃lib : Library R⦄ (P : Card R → Type 0) (fat : Card R → ℕ → ℕ)
    (sector : Card R → ℕ → List ℕ) (g : Card R) (disk : Disk lib P fat sector g) (fi : FileInfo)
    (start : ℕ) (c c' : Card R) (done : Flushed P fat sector g fi start c c') where
  flushed-Linked : Linked (fat c') (block start) (clusters_of g fi.file_size)
  flushed-Linked i h = ground (arith, done.table (start + i))

  -- The bytes on the card are those that the buffer gave.
  contents-Flushed :
      (n offset : ℕ)
      → IsBuffered fi
      → contents g (sector c') (block start) offset (min n (fi.file_size - offset))
        ≡ pread_buffered fi n offset
  contents-Flushed n offset v =
      let m = min n (fi.file_size - offset) in
      get_or_ext (contents g (sector c') (block start) offset m) (pread_buffered fi n offset) 0
        (length-contents g (sector c') (block start) offset m ∙ sym (length-pread fi v n offset))
        (λ i h.
          let l : i < m = omega (arith, length-contents g (sector c') (block start) offset m) in
          byte-contents g (sector c') (block start) offset m i l
          ∙ done.bytes (offset + i) (omega (arith, l))
          ∙ sym (byte-pread fi v n offset i l))

  -- A descriptor of the flushed file reads what the buffer gave.
  pub pread_direct-Flushed :
      (r : FileInfo) (n offset : ℕ)
      → IsBuffered fi
      → fi.file_size ≤ clusters_of g fi.file_size * cluster_size g
      → r.first_cluster ≡ start
      → r.file_size ≡ fi.file_size
      → (offset ≢ r.last_offset) ⊎ InPlace g (block start) r
      → (r' : FileInfo) × (c2 : Card R) × (pread_direct r n offset c'
          ≡ some
              (((pos (length (pread_buffered fi n offset)), pread_buffered fi n offset), r'), c2))
  pread_direct-Flushed r n offset v fits first size kept =
      let low = done.was_free.low in
      let z : start + 0 ≡ start = omega arith in
      let (r', c2, e, _, _) =
        pread_direct_lem (Kept P fat sector c') g (sector c') (block start)
          (clusters_of g fi.file_size)
          (Disk-OnCard P fat sector g disk (block start) (clusters_of g fi.file_size)
            (IsFree-InArea g (fat c) start (clusters_of g fi.file_size) done.was_free) c' done.ok
            flushed-Linked)
          r n offset c' (Kept-refl c' done.ok) (first ∙ sym z) (λ q. omega (arith, low, first, q))
          (omega (arith, size, fits)) kept in
      let q : min n (r.file_size - offset) ≡ min n (fi.file_size - offset) = rw size refl in
      (
        r',
        c2,
        e
            ∙ same_answer (min n (r.file_size - offset))
                (contents g (sector c') (block start) offset (min n (r.file_size - offset)))
                (pread_buffered fi n offset) c2 r' (q ∙ sym (length-pread fi v n offset))
                (ap (contents g (sector c') (block start) offset) q ∙ contents-Flushed n offset v),
      )

-- The fields of the descriptor after a flush that a read looks at.
pub flushed_fields :
    (fi : FileInfo) (start : ℕ)
    → ((flushed fi start).file_size ≡ fi.file_size) × ((flushed fi start).in_use ≡ fi.in_use)
unfolding set_entry_first_cluster set_entry_file_size
flushed_fields fi start = elim (Bool-cases (has_entry fi)) [
  | inl w ↦ rw w (refl, refl)
  | inr w ↦ rw w (refl, refl)
]

-- The entry of a descriptor, as another reader finds it in its sector.
abbrev pub entry_in : FileInfo → List ℕ → FileInfo
entry_in fi b = record fi { dir_sector_buf = b }

-- A listing's entry, with the first cluster and the size that a reader decodes.
abbrev pub listed : Dirent → FileInfo → Dirent
listed e fi = record e { d_ino = entry_cluster fi; d_filelen = entry_size fi }

entry_leads :
    (fi : FileInfo) (start : ℕ)
    → start < 2 ^ 32
    → fi.file_size < 2 ^ 32
    → HasEntry fi
    → (entry_cluster (entry_in fi (with_entry fi start).dir_sector_buf) ≡ start)
      × (entry_size (entry_in fi (with_entry fi start).dir_sector_buf) ≡ fi.file_size)
unfolding set_entry_first_cluster set_entry_file_size
entry_leads fi start low small has =
    let set_cluster = set_entry_first_cluster fi start in
    let (e, l) = entry_cluster-set fi start low has in
    let (_, kept) = set_entry_file_size_outside set_cluster fi.file_size 0 (inl (omega arith)) in
    let (e', _) = entry_size-set set_cluster fi.file_size small (omega (arith, l, has)) in
    (kept ∙ e, e')

module _ {R : Type 0} ⦃lib : Library R⦄ (P : Card R → Type 0) (fat : Card R → ℕ → ℕ)
    (sector : Card R → ℕ → List ℕ) (g : Card R) (disk : Disk lib P fat sector g)
    (alloc : Allocator lib P fat sector g) (keeps : KeepsGeometry lib) where
  -- After a flush as in flush_write_buffer-Flushed of a file with a known entry, a file that is
  -- opened for reading with the first cluster and the size that the entry on the card holds reads
  -- at every offset what a read of the buffer gave before the flush.
  pub pread_direct-opened :
      (fi : FileInfo) (e : Dirent) (old : FileInfo) (n offset : ℕ) (c : Card R)
      → P c
      → IsBuffered fi
      → 0 < fi.file_size
      → fi.file_size + cluster_size g ≤ 2 ^ 32
      → has_entry fi ≡ true
      → EntryInUse g (fat c) fi
      → no_cluster (start_of P fat sector g disk alloc keeps fi c) ≡ false
      → (c' : Card R) × (fi' : FileInfo) × (flush_write_buffer fi c ≡ some ((true, fi'), c'))
        × (r' : FileInfo) × (c2 : Card R) × (pread_direct
              (opened (listed e (entry_in fi (sector c' (entry_sector g fi)))) old)
              n
              offset
              c'
            ≡ some
                (((pos (length (pread_buffered fi n offset)), pread_buffered fi n offset), r'), c2))
  pread_direct-opened fi e old n offset c ok v some_bytes small has used found =
      let start = start_of P fat sector g disk alloc keeps fi c in
      let (c', run, done) =
        flush_write_buffer-Flushed P fat sector g disk alloc keeps fi c ok v some_bytes small
          (λ w. used) found in
      let spc = disk.some_sectors in
      let low : start < 2 ^ 32 = omega (arith, done.was_free.live) in
      let (there, size) = entry_leads fi start low (omega (arith, small, spc)) used.within in
      let b = done.entry has in
      let r = opened (listed e (entry_in fi (sector c' (entry_sector g fi)))) old in
      let first : r.first_cluster ≡ start =
        rw b (ap u32 there ∙ (let q : u32 start ≡ start = omega (arith, low) in q)) in
      let len : r.file_size ≡ fi.file_size = rw b (
        ap u32 size ∙ (let q : u32 fi.file_size ≡ fi.file_size = omega (arith, small, spc) in q)) in
      let z : start + 0 ≡ start = omega arith in
      let (r', c2, read) =
        pread_direct-Flushed P fat sector g disk fi start c c' done r n offset v
          (bytes_in_clusters fi.file_size g.sectors_per_cluster spc) first len
          (inr (record { cluster = first ∙ sym z; index = omega arith })) in
      (c', flushed fi start, run, r', c2, read)
