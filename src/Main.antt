-- ===== src/Main.antt =====
-- The process of src/mega65fs.c: the table of callbacks that FUSE calls, the mountpoint taken from
-- the command line, and unmounting. FUSE itself and fusermount are other programs.
pub mod Runs
use mega65fs.Base.{
  ◌>>◌, replicate, ◌++◌, ℕ, zero, suc, ◌-◌, ℤ, pos, Bool, true, false, Option, none, some, List, [],
  ◌∷◌, ◌==◌, if◌then◌else◌, get_or, take, Prog, pure, ◌>>=◌,
}
use mega65fs.Card.{Card, Library}
use mega65fs.Store.{Store, blank}
use mega65fs.Path.{is_empty}
use mega65fs.Meta.{Stamp}
use mega65fs.Cache.{max_cached_dirs, Driver, DirCache, no_listing}
use mega65fs.Fs.{
  StatBuf, Statvfs, Filler, fs_init, fs_destroy, fs_getattr, fs_readdir, fs_open, fs_create,
  fs_write, fs_read, fs_release, fs_flush, fs_fsync, fs_fsyncdir, fs_access, fs_truncate,
  fs_utimens, fs_mkdir, fs_rmdir, fs_unlink, fs_rename, fs_statfs,
}

-- A call by FUSE of a callback of `fs_oper`, with the arguments that the callback reads. A path that
-- it is given and does not look at, as `write`, `read`, `truncate`, `flush`, `release`, `fsync`,
-- `fsyncdir` and `statfs` are, is left out.
pub data Request (B : Type 0) : Type 0 where
  init : Request B
  destroy : Request B
  getattr : List ℕ → Request B
  readdir : List ℕ → Filler B → ℕ → B → Request B
  open_file : List ℕ → ℕ → Request B
  read : ℕ → ℕ → ℕ → Request B
  write : ℕ → List ℕ → ℕ → Request B
  create : List ℕ → Request B
  flush : ℕ → Request B
  release : ℕ → Request B
  fsync : ℕ → Request B
  fsyncdir : Request B
  access : List ℕ → Request B
  truncate : ℕ → ℤ → Request B
  utimens : List ℕ → Option (Stamp × Stamp) → Request B
  mkdir : List ℕ → Request B
  rmdir : List ℕ → Request B
  unlink : List ℕ → Request B
  rename : List ℕ → List ℕ → ℕ → Request B
  statfs : Request B

-- What the callback gives back.
pub data Reply (B : Type 0) : Type 0 where
  done : Reply B
  result : ℤ → Reply B
  attributes : ℤ → StatBuf → Reply B
  listing : ℤ → B → Reply B
  handle : ℤ → ℕ → Reply B
  bytes : ℤ → List ℕ → Reply B
  volume : Statvfs → Reply B

-- The number that the callback returns.
abbrev pub status : {B : Type 0} → Reply B → ℤ
status done = pos 0
status (result r) = r
status (attributes r st) = r
status (listing r buf) = r
status (handle r fh) = r
status (bytes r bs) = r
status (volume st) = pos 0

module _ {R : Type 0} ⦃lib : Library R⦄ {B : Type 0} where
  -- `fs_oper`
  unfoldable pub fs_oper : ℕ → Request B → Prog (Driver R) (Reply B)
  fs_oper fuel init = do fs_init; pure done
  fs_oper fuel destroy = do fs_destroy; pure done
  fs_oper fuel (getattr path) = do (r, st) ← fs_getattr fuel path; pure (attributes r st)
  fs_oper fuel (readdir path filler offset buf) = do
    (r, buf) ← fs_readdir fuel path filler offset buf
    pure (listing r buf)
  fs_oper fuel (open_file path flags) = do (r, fh) ← fs_open fuel path flags; pure (handle r fh)
  fs_oper fuel (read fh size offset) = do (r, bs) ← fs_read fh size offset; pure (bytes r bs)
  fs_oper fuel (write fh buf offset) = do r ← fs_write fh buf offset; pure (result r)
  fs_oper fuel (create path) = do (r, fh) ← fs_create path; pure (handle r fh)
  fs_oper fuel (flush fh) = do r ← fs_flush fh; pure (result r)
  fs_oper fuel (release fh) = do r ← fs_release fh; pure (result r)
  fs_oper fuel (fsync fh) = do r ← fs_fsync fh; pure (result r)
  fs_oper fuel fsyncdir = do r ← fs_fsyncdir; pure (result r)
  fs_oper fuel (access path) = do r ← fs_access fuel path; pure (result r)
  fs_oper fuel (truncate fh length) = do r ← fs_truncate fuel fh length; pure (result r)
  fs_oper fuel (utimens path tv) = do r ← fs_utimens path tv; pure (result r)
  fs_oper fuel (mkdir path) = do r ← fs_mkdir path; pure (result r)
  fs_oper fuel (rmdir path) = do r ← fs_rmdir fuel path; pure (result r)
  fs_oper fuel (unlink path) = do r ← fs_unlink path; pure (result r)
  fs_oper fuel (rename from to flags) = do r ← fs_rename from to flags; pure (result r)
  fs_oper fuel statfs = do st ← fs_statfs; pure (volume st)

module _ {R : Type 0} where
  -- The state that the process starts in: static storage is zero.
  abbrev pub started : Card R → Driver R
  started c = record {
    slots = replicate max_cached_dirs no_listing;
    store = record {
      initialized = false;
      file_count = 0;
      files = λ fd. blank;
      free_fds = [];
      card = c;
    };
  }

-- What the process asks of the system.
pub data Action : Type 0 where
  -- `fusermount -u` in a child, and the wait for it
  unmount : List ℕ → Action
  register_exit : Action
  catch_signal : ℕ → Action
  run_fuse : List (List ℕ) → Action
  exit : ℕ → Action

abbrev pub mountpoint_size : ℕ
mountpoint_size = 1024

-- The loop over `argv[1]` to `argv[argc - 2]`: the first that is no option, cut to the buffer.
unfoldable pub find_mountpoint : List (List ℕ) → List ℕ
find_mountpoint [] = []
find_mountpoint (arg ∷ []) = []
find_mountpoint (arg ∷ next ∷ args) =
    if get_or arg 0 0 == b'-' then find_mountpoint (next ∷ args) else take (mountpoint_size - 1) arg

unfoldable pub cleanup_mount : List ℕ → List Action
cleanup_mount mountpoint = if is_empty mountpoint then [] else unmount mountpoint ∷ []

-- SIGINT, SIGTERM and SIGHUP are 2, 15 and 1.
unfoldable pub signal_handler : List ℕ → List Action
unfolding cleanup_mount
signal_handler mountpoint = cleanup_mount mountpoint ++ exit 1 ∷ []

-- `args` is what follows the program's name.
unfoldable pub main : List (List ℕ) → List Action
unfolding cleanup_mount find_mountpoint
main args =
    cleanup_mount (find_mountpoint args)
    ++ register_exit ∷ catch_signal 2 ∷ catch_signal 15 ∷ catch_signal 1 ∷ run_fuse args ∷ []
