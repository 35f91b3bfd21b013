-- ===== src/Files/Finalise.antt =====
-- The termination of what m65ftp_close of src/m65ftp_lib.c writes out.
use mega65fs.Base.{
  ◌<◌, ◌≡◌, refl, Bool, true, false, inl, inr, some, if◌then◌else◌, Bool-cases, ◌^◌, pure, ◌>>=◌,
  Returns,
}
use mega65fs.Card.{Card, Library}
use mega65fs.Card.Laws.{KeepsGeometry, FindsData}
use mega65fs.Store.{FileInfo}
use mega65fs.Flush.{flush_write_buffer, has_entry}
use mega65fs.Flush.Returns.{flush_write_buffer-Returns}
use mega65fs.Files.{finalise}

module _ {R : Type 0} ⦃lib : Library R⦄ where
  -- The buffer is written out where there is one.
  flushed_if-Returns :
      (fi : FileInfo) (b : Bool) (c : Card R)
      → KeepsGeometry lib
      → FindsData lib
      → 0 < c.sectors_per_cluster
      → fi.file_size < 2 ^ 32
      → Returns (if b then flush_write_buffer fi else pure (true, fi)) c
  flushed_if-Returns fi true c keeps finds spc small =
      flush_write_buffer-Returns fi c keeps finds spc small
  flushed_if-Returns fi false c keeps finds spc small = (_, _, refl)

  finalise-Returns :
      (fi : FileInfo) (c : Card R)
      → KeepsGeometry lib
      → FindsData lib
      → 0 < c.sectors_per_cluster
      → fi.file_size < 2 ^ 32
      → Returns (finalise fi) c
  unfolding finalise
  finalise-Returns fi c keeps finds spc small =
      let ((b, fi'), c', e) = flushed_if-Returns fi fi.buffered c keeps finds spc small in
      elim (Bool-cases (has_entry fi')) [
        | inl w ↦ rw (◌>>=◌, e, w) (_, _, refl)
        | inr w ↦ rw (◌>>=◌, e, w) (_, _, refl)
      ]

  pub finalise_if-Returns :
      (fi : FileInfo) (b : Bool) (c : Card R)
      → KeepsGeometry lib
      → FindsData lib
      → 0 < c.sectors_per_cluster
      → fi.file_size < 2 ^ 32
      → (fi' : FileInfo) × (c' : Card R) × ((if b then finalise fi c else some (fi, c))
          ≡ some (fi', c'))
  finalise_if-Returns fi true c keeps finds spc small = finalise-Returns fi c keeps finds spc small
  finalise_if-Returns fi false c keeps finds spc small = (fi, c, refl)
