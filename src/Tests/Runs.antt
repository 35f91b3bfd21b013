-- ===== src/Tests/Runs.antt =====
-- Runs of the driver on the sample card.
use mega65fs.Base.{
  minus_one, str_eq, ℕ, ◌-◌, ◌≡◌, refl, ◌⊎◌, none, some, List, [], ◌∷◌, arith, str_eq, take, pos,
  true, false, ◌++◌, if◌then◌else◌,
}
use mega65fs.Store.{Store, name_max}
use mega65fs.Session.{m65ftp_init}
use mega65fs.Files.{m65ftp_open, m65ftp_close}
use mega65fs.Card.{Card, Dirent}
use mega65fs.Path.{split_path, root_dir}
use mega65fs.Cache.Listing.{entries_of}
use mega65fs.Fs.{fs_readdir, fs_mkdir}
use mega65fs.Fs.Handlers.{collect, numbered}
use mega65fs.Fs.Listing.{fs_readdir-listing}
use mega65fs.Fs.Invalidated.{fs_oper-find_listing}
use mega65fs.Cache.{no_listing, max_entries, Driver, max_path, split_parent, DirCache, find_listing}
use mega65fs.Path.Split.{has_slash}
use mega65fs.Path.{slash, is_empty}
use mega65fs.Cache.Parents.{split_parent-split_path}
use mega65fs.Fs.{fs_init, fs_open, fs_release}
use mega65fs.Keeps.Sound.{Sound}
use mega65fs.Main.{
  Request, fs_oper, started, init, open_file, release, done, handle, result, main, unmount,
  register_exit, catch_signal, run_fuse, mkdir,
}
use mega65fs.Main.Runs.{start, later, Reach-Sound}
use mega65fs.Dirs.{m65ftp_rmdir, m65ftp_mkdir}
use mega65fs.Dirs.Empty.{Browses, first_of, others_of, m65ftp_rmdir-listing}
use mega65fs.Sample.{a_file, fresh_store, Medium, medium, blank_card}

-- `mega65fs -f /m x`: the last argument is not looked at.
mount_runs :
    main ((b'-' ∷ b'f' ∷ []) ∷ (b'/' ∷ b'm' ∷ []) ∷ (b'x' ∷ []) ∷ [])
    ≡ unmount (b'/' ∷ b'm' ∷ [])
      ∷ register_exit
      ∷ catch_signal 2
      ∷ catch_signal 15
      ∷ catch_signal 1
      ∷ run_fuse ((b'-' ∷ b'f' ∷ []) ∷ (b'/' ∷ b'm' ∷ []) ∷ (b'x' ∷ []) ∷ [])
      ∷ []
unfolding main
mount_runs = refl

abbrev after : Request (Unit {0}) → Driver Medium → Driver Medium
after request d = elim (fs_oper 5 request d) [ none ↦ d | some (r, d') ↦ d' ]

abbrev after_init : Driver Medium
after_init = after init (started blank_card)

abbrev after_open : Driver Medium
after_open = after (open_file (b'/' ∷ b'A' ∷ []) 0) after_init

abbrev after_release : Driver Medium
after_release = after (release 0) after_open

initialised : fs_oper {B = Unit {0}} 5 init (started blank_card) ≡ some (done, after_init)
unfolding fs_oper fs_init m65ftp_init fs_open m65ftp_open fs_release m65ftp_close str_eq
initialised = refl

file_opened :
    fs_oper {B = Unit {0}} 5 (open_file (b'/' ∷ b'A' ∷ []) 0) after_init
    ≡ some (handle (pos 0) 0, after_open)
unfolding fs_oper fs_init m65ftp_init fs_open m65ftp_open fs_release m65ftp_close str_eq
file_opened = refl

released : fs_oper {B = Unit {0}} 5 (release 0) after_open ≡ some (result (pos 0), after_release)
unfolding fs_oper fs_init m65ftp_init fs_open m65ftp_open fs_release m65ftp_close str_eq
released = refl

Reach-Sound_example : Sound after_release
Reach-Sound_example = Reach-Sound {B = Unit {0}} blank_card after_release (
    later 5 (release 0) (result (pos 0))
      (later 5 (open_file (b'/' ∷ b'A' ∷ []) 0) (handle (pos 0) 0)
        (later 5 init done start initialised) file_opened)
      released)

split_parent-split_path_example :
    ((has_slash (b'/' ∷ b'A' ∷ []) ≡ false)
      × (split_path (b'/' ∷ b'A' ∷ []) ≡ none)
      × (split_parent max_path (b'/' ∷ b'A' ∷ []) ≡ none))
    ⊎ ((before : List ℕ) × (after : List ℕ) × (b'/' ∷ b'A' ∷ [] ≡ before ++ (slash ∷ after))
        × (has_slash after ≡ false)
        × (split_path (b'/' ∷ b'A' ∷ [])
            ≡ some (if is_empty before then root_dir else before, take (name_max - 1) after))
        × (split_parent max_path (b'/' ∷ b'A' ∷ [])
            ≡ some (if is_empty before then (root_dir, []) else (before, after))))
split_parent-split_path_example = split_parent-split_path (b'/' ∷ b'A' ∷ []) (omega arith)

abbrev a_dir : Dirent
a_dir = record a_file { d_attr = 0x10; d_name = b'D' ∷ [] }

-- A card like the sample one, with a directory D in which the file lies.
abbrev nested : Store Medium
nested = record fresh_store {
  card = record blank_card { rest = record (blank_card.rest) { listing = a_dir ∷ a_file ∷ [] } };
}

-- The card lists both in every directory.
abbrev Listed : Card Medium → Type 0
Listed c = c.rest.listing ≡ a_dir ∷ a_file ∷ []

medium-Browses : Browses medium Listed (λ c. c.rest.unread) (λ path. a_dir ∷ a_file ∷ [])
medium-Browses = record {
  fat_opendir = λ path b c p. (p, λ h. p);
  fat_readdir = λ c p. next c c.rest.unread refl p;
  find_file_in_curdir = λ name c p. p;
  current_dir = λ path c p. p;
}
  where
    next :
        (c : Card Medium) (es : List Dirent)
        → c.rest.unread ≡ es
        → Listed c
        → ((medium.fat_readdir c).0 ≡ first_of (c.rest.unread))
          × ((medium.fat_readdir c).1.rest.unread ≡ others_of (c.rest.unread))
          × Listed (medium.fat_readdir c).1
    next c [] e p = rw e (refl, refl, p)
    next c (x ∷ es) e p = rw e (refl, refl, p)

m65ftp_rmdir-listing_example :
    (c' : Card Medium) × (m65ftp_rmdir 3 (b'/' ∷ b'D' ∷ []) nested
      ≡ some (minus_one, record nested { card = c' }))
    × Listed c'
unfolding split_path str_eq
m65ftp_rmdir-listing_example =
    m65ftp_rmdir-listing Listed (λ c. c.rest.unread) (λ path. a_dir ∷ a_file ∷ []) medium-Browses 3
      (b'/' ∷ b'D' ∷ []) root_dir (b'D' ∷ []) nested refl refl (omega arith) refl

-- The path is cached as an empty directory, five seconds ago.
abbrev outdated : Driver Medium
outdated = record {
  slots =
      no_listing
      ∷ record { path = b'/' ∷ b'D' ∷ []; entries = []; last_updated = 95; valid = true }
      ∷ [];
  store = nested;
}

fs_readdir-listing_example :
    (d' : Driver Medium) × (fs_readdir 3 (b'/' ∷ b'D' ∷ []) collect 0 [] outdated
      ≡ some (
        (
          pos 0,
          (b'.' ∷ [], 1)
              ∷ (b'.' ∷ b'.' ∷ [], 2)
              ∷ numbered 2 (take max_entries (entries_of medium (a_dir ∷ a_file ∷ []))),
        ),
        d',
      ))
unfolding str_eq
fs_readdir-listing_example =
    fs_readdir-listing Listed (λ c. c.rest.unread) (λ path. a_dir ∷ a_file ∷ []) medium-Browses
      (λ c p. p) 3 (b'/' ∷ b'D' ∷ []) outdated refl refl (λ c p. refl) (omega arith) refl
      (omega arith) ((λ h. absurd (ground (arith, h))), ((λ h. omega arith), tt))

abbrev listing_at : List ℕ → DirCache
listing_at path = record no_listing { path = path; last_updated = 7; valid = true }

-- The driver with the listings of "/" and "/D" in its cache.
abbrev with_listings : Driver Medium
with_listings = record after_init {
  slots = listing_at root_dir ∷ listing_at (b'/' ∷ b'D' ∷ []) ∷ [];
}

abbrev make_dir : Request (Unit {0})
make_dir = mkdir (b'/' ∷ b'E' ∷ [])

abbrev after_mkdir : Driver Medium
after_mkdir = after make_dir with_listings

dir_made : fs_oper 5 make_dir with_listings ≡ some (result (pos 0), after_mkdir)
unfolding fs_oper fs_init m65ftp_init fs_mkdir m65ftp_mkdir str_eq split_path
dir_made = refl

fs_oper-find_listing_example :
    (find_listing 9 root_dir after_mkdir.slots ≡ none)
    × (find_listing 9 (b'/' ∷ b'D' ∷ []) after_mkdir.slots
        ≡ find_listing 9 (b'/' ∷ b'D' ∷ []) with_listings.slots)
unfolding str_eq split_path
fs_oper-find_listing_example =
    fs_oper-find_listing 5 9 make_dir with_listings after_mkdir (result (pos 0)) root_dir
      (b'/' ∷ b'D' ∷ []) dir_made refl refl refl (omega arith)
