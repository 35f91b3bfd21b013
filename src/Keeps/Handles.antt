-- ===== src/Keeps/Handles.antt =====
-- The callbacks of src/mega65fs.c on open files, and those on the whole driver, keep its state sound.
use mega65fs.Card.{Library}
use mega65fs.Base.{ℕ, ℤ, List, Option}
use mega65fs.Base.{ℕ, Option, List, ℤ}
use mega65fs.Keeps.Calls.{
  m65ftp_init-KeepsPool, m65ftp_finish-KeepsPool, m65ftp_open-KeepsPool,
  m65ftp_open_writable-KeepsPool, m65ftp_create-KeepsPool, m65ftp_sync-KeepsPool,
  m65ftp_utimens-KeepsPool, m65ftp_mbrinfo-KeepsPool,
}
use mega65fs.Keeps.Slotted.{
  m65ftp_fsync-KeepsPool, m65ftp_close-KeepsPool, m65ftp_pread-KeepsPool, m65ftp_pwrite-KeepsPool,
  m65ftp_ftruncate-KeepsPool,
}
use mega65fs.Meta.{Stamp}
use mega65fs.Fs.{
  fs_init, fs_destroy, fs_open, fs_create, fs_write, fs_read, fs_release, fs_flush, fs_fsync,
  fs_fsyncdir, fs_truncate, fs_utimens, fs_statfs,
}
use mega65fs.Keeps.Sound.{KeepsSound, sound_rules}

module _ {R : Type 0} ⦃lib : Library R⦄ where
  pub fs_init-KeepsSound : KeepsSound {R = R} fs_init
  unfolding fs_init
  fs_init-KeepsSound = search (sound_rules, m65ftp_init-KeepsPool) depth 20

  pub fs_destroy-KeepsSound : KeepsSound {R = R} fs_destroy
  unfolding fs_destroy
  fs_destroy-KeepsSound = search (sound_rules, m65ftp_finish-KeepsPool) depth 20

  pub fs_open-KeepsSound :
      (fuel : ℕ) (path : List ℕ) (flags : ℕ) → KeepsSound {R = R} (fs_open fuel path flags)
  unfolding fs_open
  fs_open-KeepsSound fuel path flags =
      search (sound_rules, m65ftp_open-KeepsPool, m65ftp_open_writable-KeepsPool) depth 20

  pub fs_create-KeepsSound : (path : List ℕ) → KeepsSound {R = R} (fs_create path)
  unfolding fs_create
  fs_create-KeepsSound path = search (sound_rules, m65ftp_create-KeepsPool) depth 20

  pub fs_write-KeepsSound :
      (fh : ℕ) (buf : List ℕ) (offset : ℕ) → KeepsSound {R = R} (fs_write fh buf offset)
  unfolding fs_write
  fs_write-KeepsSound fh buf offset = search (sound_rules, m65ftp_pwrite-KeepsPool) depth 20

  pub fs_read-KeepsSound : (fh n offset : ℕ) → KeepsSound {R = R} (fs_read fh n offset)
  unfolding fs_read
  fs_read-KeepsSound fh n offset = search (sound_rules, m65ftp_pread-KeepsPool) depth 20

  pub fs_release-KeepsSound : (fh : ℕ) → KeepsSound {R = R} (fs_release fh)
  unfolding fs_release
  fs_release-KeepsSound fh = search (sound_rules, m65ftp_close-KeepsPool) depth 20

  pub fs_flush-KeepsSound : (fh : ℕ) → KeepsSound {R = R} (fs_flush fh)
  unfolding fs_flush
  fs_flush-KeepsSound fh = search (sound_rules, m65ftp_fsync-KeepsPool) depth 20

  pub fs_fsync-KeepsSound : (fh : ℕ) → KeepsSound {R = R} (fs_fsync fh)
  unfolding fs_fsync
  fs_fsync-KeepsSound fh = search (sound_rules, m65ftp_fsync-KeepsPool) depth 20

  pub fs_fsyncdir-KeepsSound : KeepsSound {R = R} fs_fsyncdir
  unfolding fs_fsyncdir
  fs_fsyncdir-KeepsSound = search (sound_rules, m65ftp_sync-KeepsPool) depth 20

  pub fs_truncate-KeepsSound :
      (fuel fh : ℕ) (len : ℤ) → KeepsSound {R = R} (fs_truncate fuel fh len)
  unfolding fs_truncate
  fs_truncate-KeepsSound fuel fh len = search (sound_rules, m65ftp_ftruncate-KeepsPool) depth 20

  pub fs_utimens-KeepsSound :
      (path : List ℕ) (tv : Option (Stamp × Stamp)) → KeepsSound {R = R} (fs_utimens path tv)
  unfolding fs_utimens
  fs_utimens-KeepsSound path tv = search (sound_rules, m65ftp_utimens-KeepsPool) depth 20

  pub fs_statfs-KeepsSound : KeepsSound {R = R} fs_statfs
  unfolding fs_statfs
  fs_statfs-KeepsSound = search (sound_rules, m65ftp_mbrinfo-KeepsPool) depth 20
