-- ===== src/Files/Synced.antt =====
-- m65ftp_fsync of src/m65ftp_lib.c as a reader of the same descriptor sees it.
use mega65fs.Base.{
  ℕ, get_or, subst, ◌⊎◌, ◌%◌, ◌+◌, ◌^◌, ◌≤◌, ◌<◌, ◌≡◌, refl, ap, sym, ◌∙◌, Bool, true, false, inr,
  some, List, ◌&&◌, arith, ◌==◌, if◌then◌else◌, length, pos, ℤ, no_cluster, ◌>>=◌,
}
use mega65fs.Card.{Card, Library}
use mega65fs.Card.Laws.{KeepsGeometry}
use mega65fs.Store.{FileInfo, Store, is_open, on_card, update}
use mega65fs.Chain.{cluster_size}
use mega65fs.Chain.Disk.{Disk, Kept}
use mega65fs.Buffer.{pread_buffered}
use mega65fs.Buffer.Content.{IsBuffered}
use mega65fs.Flush.{has_entry, flush_write_buffer}
use mega65fs.Flush.Block.{Allocator, block}
use mega65fs.Read.Places.{sector_at}
use mega65fs.Write.Bytes.{Inside}
use mega65fs.Write.Stored.{entry_sector}
use mega65fs.Flush.Flushed.{clusters_of, EntryInUse, flushed, Flushed, bytes_in_clusters}
use mega65fs.Flush.Whole.{start_of, flush_write_buffer-Flushed}
use mega65fs.Flush.Reads.{pread_direct-Flushed, flushed_fields}
use mega65fs.Read.{pread_direct, m65ftp_pread}
use mega65fs.Files.{m65ftp_fsync}

-- The store whose descriptor fd and card are these.
abbrev with_slot : {R : Type 0} → Store R → ℕ → FileInfo → Card R → Store R
with_slot s fd fi c = record s { files = update s.files fd fi; card = c }

if_else : {A : Type 0} (b : Bool) (x y : A) → b ≡ false → (if b then x else y) ≡ y
if_else b x y e = rw e refl

module _ {R : Type 0} ⦃lib : Library R⦄ where
  fsync_eq :
      (fd : ℕ) (fi' : FileInfo) (s : Store R) (c' : Card R)
      → (s.initialized && is_open s (pos fd)) ≡ true
      → ((s.files fd).is_writable && (s.files fd).buffered) ≡ true
      → flush_write_buffer (s.files fd) s.card ≡ some ((true, fi'), c')
      → m65ftp_fsync (pos fd) s ≡ some (pos 0, with_slot s fd fi' (lib.execute_write_queue c'))
  unfolding m65ftp_fsync
  fsync_eq fd fi' s c' open_ written e = rw (open_, written, ◌>>=◌, on_card, e) refl

  pread_buffered_eq :
      (fd n offset : ℕ) (s : Store R)
      → (s.initialized && is_open s (pos fd)) ≡ true
      → (s.files fd).buffered ≡ true
      → m65ftp_pread (pos fd) n offset s
        ≡ some (
          (
            pos (length (pread_buffered (s.files fd) n offset)),
            pread_buffered (s.files fd) n offset,
          ),
          s,
        )
  unfolding m65ftp_pread
  pread_buffered_eq fd n offset s open_ b = rw (open_, b) refl

  pread_direct_eq :
      (fd n offset : ℕ) (fi fi' : FileInfo) (a : ℤ × List ℕ) (s : Store R) (c c' : Card R)
      → (s.initialized && is_open s (pos fd)) ≡ true
      → fi.in_use ≡ true
      → fi.buffered ≡ false
      → pread_direct fi n offset c ≡ some ((a, fi'), c')
      → (s' : Store R) × (m65ftp_pread (pos fd) n offset (with_slot s fd fi c) ≡ some (a, s'))
  unfolding m65ftp_pread
  pread_direct_eq fd n offset fi fi' a s c c' open_ used b e =
      let t = with_slot s fd fi c in
      let same : (fd == fd) ≡ true = ground arith in
      let w : (t.initialized && is_open t (pos fd)) ≡ true = ground (arith, open_, used) in
      let direct : (t.files fd).buffered ≡ false = rw same b in
      let run : pread_direct (t.files fd) n offset c ≡ some ((a, fi'), c') = rw same e in
      rw (w, if_else _ _ _ direct, ◌>>=◌, on_card, run) (_, refl)

module _ {R : Type 0} ⦃lib : Library R⦄ (P : Card R → Type 0) (fat : Card R → ℕ → ℕ)
    (sector : Card R → ℕ → List ℕ) (g : Card R) (disk : Disk lib P fat sector g)
    (alloc : Allocator lib P fat sector g) (keeps : KeepsGeometry lib) where
  Flushed-Kept :
      (fi : FileInfo) (start : ℕ) (c c1 c2 : Card R)
      → Flushed P fat sector g fi start c c1
      → Kept P fat sector c1 c2
      → Flushed P fat sector g fi start c c2
  Flushed-Kept fi start c c1 c2 done kept = record {
    ok = kept.ok;
    was_free = done.was_free;
    table = λ k. kept.table k ∙ done.table k;
    bytes = λ x h.
        ap (λ (b : List ℕ). get_or b (x % cluster_size g % 512) 0)
          (kept.sectors (sector_at g (sector c2) (block start) x))
        ∙ done.bytes x h;
    entry = λ w. kept.sectors (entry_sector g fi) ∙ done.entry w;
    others = λ m.
        subst
          (λ b.
            (b ≡ sector c m)
            ⊎ (Inside g (block start) (clusters_of g fi.file_size) m
                ⊎ ((m ≡ entry_sector g fi) × (has_entry fi ≡ true))))
          (sym (kept.sectors m)) (done.others m);
  }

  -- A new file that is still in its write buffer, whose size is not 0 and with one cluster more has
  -- 32 bits, on a card where a block of free clusters is found and where the entry, if it has a
  -- known place, stands in a used cluster: fsync succeeds, and a read of any length at any offset
  -- answers after it what it answers before it, though the bytes come from the card then.
  pub m65ftp_pread-m65ftp_fsync :
      (fd n offset : ℕ) (s : Store R)
      → (s.initialized && is_open s (pos fd)) ≡ true
      → ((s.files fd).is_writable && (s.files fd).buffered) ≡ true
      → P s.card
      → IsBuffered (s.files fd)
      → 0 < (s.files fd).file_size
      → (s.files fd).file_size + cluster_size g ≤ 2 ^ 32
      → (has_entry (s.files fd) ≡ true → EntryInUse g (fat s.card) (s.files fd))
      → no_cluster (start_of P fat sector g disk alloc keeps (s.files fd) s.card) ≡ false
      → (a : ℤ × List ℕ) × (s' : Store R) × (s2 : Store R) × (m65ftp_pread (pos fd) n offset s
          ≡ some (a, s))
        × (m65ftp_fsync (pos fd) s ≡ some (pos 0, s'))
        × (m65ftp_pread (pos fd) n offset s' ≡ some (a, s2))
        × ((s'.files fd).buffered ≡ false)
  m65ftp_pread-m65ftp_fsync fd n offset s open_ written ok v some_bytes small used found =
      let fi = s.files fd in
      let c = s.card in
      let start = start_of P fat sector g disk alloc keeps fi c in
      let (c1, run, done) =
        flush_write_buffer-Flushed P fat sector g disk alloc keeps fi c ok v some_bytes small used
          found in
      let c2 = lib.execute_write_queue c1 in
      let kept = alloc.execute_write_queue c1 done.ok in
      let (size, in_use) = flushed_fields fi start in
      let z : start + 0 ≡ start = omega arith in
      let (r', c3, read) =
        pread_direct-Flushed P fat sector g disk fi start c c2
          (Flushed-Kept fi start c c1 c2 done kept) (flushed fi start) n offset v
          (bytes_in_clusters fi.file_size g.sectors_per_cluster disk.some_sectors) refl size
          (inr (record { cluster = sym z; index = omega arith })) in
      let (s2, after) =
        pread_direct_eq fd n offset (flushed fi start) r' _ s c2 c3 open_
          (in_use ∙ ground (arith, open_)) refl read in
      (
        (pos (length (pread_buffered fi n offset)), pread_buffered fi n offset),
        with_slot s fd (flushed fi start) c2,
        s2,
        pread_buffered_eq fd n offset s open_ (ground (arith, written)),
        fsync_eq fd (flushed fi start) s c1 open_ written run,
        after,
        (let same : (fd == fd) ≡ true = ground arith in rw same refl),
      )
