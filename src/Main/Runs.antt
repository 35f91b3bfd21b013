-- ===== src/Main/Runs.antt =====
-- What every sequence of callbacks that FUSE makes of src/mega65fs.c keeps.
use mega65fs.Base.{ℕ, ◌≡◌, refl, some, arith}
use mega65fs.Card.{Card, Library}
use mega65fs.Cache.{Driver}
use mega65fs.Keeps.Sound.{Sound, KeepsSound, sound_rules}
use mega65fs.Keeps.Handles.{
  fs_init-KeepsSound, fs_destroy-KeepsSound, fs_open-KeepsSound, fs_create-KeepsSound,
  fs_write-KeepsSound, fs_read-KeepsSound, fs_release-KeepsSound, fs_flush-KeepsSound,
  fs_fsync-KeepsSound, fs_fsyncdir-KeepsSound, fs_truncate-KeepsSound, fs_utimens-KeepsSound,
  fs_statfs-KeepsSound,
}
use mega65fs.Keeps.Callbacks.{
  fs_getattr-KeepsSound, fs_readdir-KeepsSound, fs_access-KeepsSound, fs_mkdir-KeepsSound,
  fs_rmdir-KeepsSound, fs_unlink-KeepsSound, fs_rename-KeepsSound,
}
use mega65fs.Main.{
  Request, Reply, fs_oper, started, init, destroy, getattr, readdir, open_file, read, write, create,
  flush, release, fsync, fsyncdir, access, truncate, utimens, mkdir, rmdir, unlink, rename, statfs,
}

-- The states that the process reaches: each callback runs on the state that the last one left.
pub data Reach {R : Type 0} (lib : Library R) (B : Type 0) (c : Card R) : Driver R → Type 0 where
  start : Reach lib B c (started c)
  later :
      {d d' : Driver R} (fuel : ℕ) (request : Request B) (reply : Reply B)
      → Reach lib B c d
      → fs_oper ⦃lib = lib⦄ fuel request d ≡ some (reply, d')
      → Reach lib B c d'

started-Sound : {R : Type 0} (c : Card R) → Sound (started c)
started-Sound c = record {
  pool = record {
    bounded = omega arith;
    distinct = tt;
    below = tt;
    exact = λ fd h. absurd (omega arith);
  };
  slots = refl;
}

module _ {R : Type 0} ⦃lib : Library R⦄ {B : Type 0} where
  fs_oper-KeepsSound : (fuel : ℕ) (request : Request B) → KeepsSound {R = R} (fs_oper fuel request)
  unfolding fs_oper
  fs_oper-KeepsSound fuel init = search (sound_rules, fs_init-KeepsSound) depth 20
  fs_oper-KeepsSound fuel destroy = search (sound_rules, fs_destroy-KeepsSound) depth 20
  fs_oper-KeepsSound fuel (getattr path) = search (sound_rules, fs_getattr-KeepsSound) depth 20
  fs_oper-KeepsSound fuel (readdir path filler offset buf) =
      search (sound_rules, fs_readdir-KeepsSound) depth 20
  fs_oper-KeepsSound fuel (open_file path flags) = search (sound_rules, fs_open-KeepsSound) depth 20
  fs_oper-KeepsSound fuel (read fh size offset) = search (sound_rules, fs_read-KeepsSound) depth 20
  fs_oper-KeepsSound fuel (write fh buf offset) = search (sound_rules, fs_write-KeepsSound) depth 20
  fs_oper-KeepsSound fuel (create path) = search (sound_rules, fs_create-KeepsSound) depth 20
  fs_oper-KeepsSound fuel (flush fh) = search (sound_rules, fs_flush-KeepsSound) depth 20
  fs_oper-KeepsSound fuel (release fh) = search (sound_rules, fs_release-KeepsSound) depth 20
  fs_oper-KeepsSound fuel (fsync fh) = search (sound_rules, fs_fsync-KeepsSound) depth 20
  fs_oper-KeepsSound fuel fsyncdir = search (sound_rules, fs_fsyncdir-KeepsSound) depth 20
  fs_oper-KeepsSound fuel (access path) = search (sound_rules, fs_access-KeepsSound) depth 20
  fs_oper-KeepsSound fuel (truncate fh len) = search (sound_rules, fs_truncate-KeepsSound) depth 20
  fs_oper-KeepsSound fuel (utimens path tv) = search (sound_rules, fs_utimens-KeepsSound) depth 20
  fs_oper-KeepsSound fuel (mkdir path) = search (sound_rules, fs_mkdir-KeepsSound) depth 20
  fs_oper-KeepsSound fuel (rmdir path) = search (sound_rules, fs_rmdir-KeepsSound) depth 20
  fs_oper-KeepsSound fuel (unlink path) = search (sound_rules, fs_unlink-KeepsSound) depth 20
  fs_oper-KeepsSound fuel (rename from to flags) =
      search (sound_rules, fs_rename-KeepsSound) depth 20
  fs_oper-KeepsSound fuel statfs = search (sound_rules, fs_statfs-KeepsSound) depth 20

  -- In every state that the process reaches, however FUSE calls its callbacks and whatever they
  -- find on the card: at most 4096 descriptors are in use; the free ones stand on the stack, each
  -- once; a descriptor below the count is open just if it does not stand there; and the cache has
  -- its sixteen slots.
  pub Reach-Sound : (c : Card R) (d : Driver R) → Reach lib B c d → Sound d
  Reach-Sound c _ start = started-Sound c
  Reach-Sound c d' (later fuel request reply reach e) =
      rw e at ((fs_oper-KeepsSound fuel request).at _ (Reach-Sound c _ reach))
