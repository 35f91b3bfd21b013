-- ===== src/Meta/Utimens.antt =====
-- m65ftp_utimens of src/m65ftp_lib.c, from the path to the directory entry on the card.
use mega65fs.Base.{
  ◌-◌, refl, ◌≡◌, ℕ, ◌+◌, ◌≤◌, true, false, ◌||◌, Option, some, List, pos, minus_one, to_nat, u32,
  take, length, if◌then◌else◌, str_eq, ◌>>=◌, Bool-cases, inl, inr, Bool,
}
use mega65fs.Card.{Card, Library, Dirent}
use mega65fs.Store.{Store, on_card, path_max}
use mega65fs.Path.{is_empty, root_dir, split_path}
use mega65fs.Meta.{
  Stamp, stamps, broken_down, utimens_in, m65ftp_utimens, stamp_write, stamp_access,
}
use mega65fs.Meta.Stamps.{StampFits, Stamped, stamped}

module _ {R : Type 0} ⦃lib : Library R⦄ where
  -- The sector of the directory entry is written from the buffer, and the write queue is executed if
  -- that succeeds.
  abbrev pub saved : List ℕ → Card R → Bool × Card R
  saved b c =
      let (written, c') =
        lib.write_sector (u32 (c.partition_start + c.dir_sector)) b
          (record c { dir_sector_buffer = b }) in
      (written, if written then lib.execute_write_queue c' else c')

  -- The card after the clock was read and the name was looked up in the directory.
  abbrev pub looked_up : List ℕ → List ℕ → Card R → Option Dirent × Card R
  looked_up dir name c =
      lib.find_file_in_curdir name (record (lib.time c).1 { current_dir = take (path_max - 1) dir })

  utimens_in_lem :
      (name : List ℕ) (a m : Option ℕ) (e : Dirent) (c c1 : Card R)
      → lib.find_file_in_curdir name c ≡ (some e, c1)
      → StampFits (broken_down lib.localtime m)
      → StampFits (broken_down lib.localtime a)
      → to_nat c1.dir_sector_offset + 32 ≤ length c1.dir_sector_buffer
      → (b : List ℕ) × (utimens_in name a m c ≡ some (saved b c1))
        × Stamped
            (broken_down lib.localtime m)
            (broken_down lib.localtime a)
            (to_nat c1.dir_sector_offset)
            c1.dir_sector_buffer
            b
  unfolding utimens_in
  utimens_in_lem name a m e c c1 found fm fa has =
      let mt = broken_down lib.localtime m in
      let at = broken_down lib.localtime a in
      let o = to_nat c1.dir_sector_offset in
      let b = stamp_access at o (stamp_write mt o c1.dir_sector_buffer) in
      let c2 = record c1 { dir_sector_buffer = b } in
      let w = lib.write_sector (u32 (c1.partition_start + c1.dir_sector)) b c2 in
      (
        b,
        elim (Bool-cases w.0) [ inl t ↦ rw (found, t) refl | inr t ↦ rw (found, t) refl ],
        stamped mt at o c1.dir_sector_buffer fm fa has,
      )

  -- With the connection up, a path that is neither empty nor the root, whose parts are a directory
  -- and a name that is not empty and that is found there, an entry within its sector, and time
  -- stamps in the years that FAT knows or none for what is to be left alone: utimens answers 0 if
  -- the sector is written and -1 if not, and current_dir is what it was but for its length. The
  -- sector that is written shows the time of modification, to two seconds, and the days of
  -- modification and access that were asked for, or those from before where one is left alone, and
  -- no other byte of it has changed.
  pub m65ftp_utimens-Stamped :
      (path dir name : List ℕ) (tv : Option (Stamp × Stamp)) (e : Dirent) (s : Store R)
      (c1 : Card R)
      → s.initialized ≡ true
      → (is_empty path || str_eq path root_dir) ≡ false
      → split_path path ≡ some (dir, name)
      → is_empty name ≡ false
      → looked_up dir name s.card ≡ (some e, c1)
      → StampFits (broken_down lib.localtime (stamps (lib.time s.card).0 tv).1)
      → StampFits (broken_down lib.localtime (stamps (lib.time s.card).0 tv).0)
      → to_nat c1.dir_sector_offset + 32 ≤ length c1.dir_sector_buffer
      → (b : List ℕ) × (m65ftp_utimens path tv s
          ≡ some (
            if (saved b c1).0 then pos 0 else minus_one,
            record s {
              card = record (saved b c1).1 {
                current_dir = take (path_max - 1) (lib.time s.card).1.current_dir;
              };
            },
          ))
        × Stamped
            (broken_down lib.localtime (stamps (lib.time s.card).0 tv).1)
            (broken_down lib.localtime (stamps (lib.time s.card).0 tv).0)
            (to_nat c1.dir_sector_offset)
            c1.dir_sector_buffer
            b
  unfolding m65ftp_utimens
  m65ftp_utimens-Stamped path dir name tv e s c1 up live parts named found fm fa has =
      let (atime, mtime) = stamps (lib.time s.card).0 tv in
      let (b, run, shows) =
        utimens_in_lem name atime mtime e
          (record (lib.time s.card).1 { current_dir = take (path_max - 1) dir }) c1 found fm fa
          has in
      (b, rw (up, live, parts, named, ◌>>=◌, on_card, run) refl, shows)
