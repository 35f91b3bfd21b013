-- ===== src/Keeps/Calls.antt =====
-- The calls of src/m65ftp_lib.c on paths and on the whole connection keep the descriptor pool well
-- formed.
use mega65fs.Base.{
  get, drop_result, pure, refl, ◌≡◌, if◌then◌else◌, Holds, drop_result, ◌>>◌, ◌>>=◌, pos, minus_one,
  Bool-cases, false, true, [], u32, not, call, str_eq, Option-cases, ℕ, ◌+◌, Bool, inl, inr, Option,
  none, some, List, get, ℤ,
}
use mega65fs.Card.{Card, Library, Dirent}
use mega65fs.Store.{FileInfo, on_card}
use mega65fs.Keeps.{KeepsPool, KeepsPool-pure, card-IsPool, initialized-IsPool, pool_rules}
use mega65fs.Path.{root_dir, split_path}
use mega65fs.Files.{
  new_file, open_entry, m65ftp_open, m65ftp_open_writable, create_in, m65ftp_create, m65ftp_sync,
  opened, opened_writable, created,
}
use mega65fs.Files.Descriptors.{new_file-IsPool}
use mega65fs.Meta.{Stat, is_directory, Stamp, m65ftp_stat, m65ftp_readdir, m65ftp_utimens, Listed}
use mega65fs.Dirs.{
  mkdir_in, rmdir_in, unlink_in, with_parts, m65ftp_mkdir, m65ftp_rmdir, m65ftp_unlink,
  m65ftp_rename,
}
use mega65fs.Mbr.{Partition, is_signed, read_table, m65ftp_mbrinfo}
use mega65fs.Session.{connect, m65ftp_init, m65ftp_finish}

module _ {R : Type 0} where
  new_file-KeepsPool :
      (slot : Card R → FileInfo → FileInfo)
      → ((c : Card R) (old : FileInfo) → (slot c old).in_use ≡ true)
      → KeepsPool (new_file slot)
  new_file-KeepsPool slot opens = record {
    at = λ s v. let (r, s', e, v', _) = new_file-IsPool slot opens s v in rw e v';
  }

module _ {R : Type 0} ⦃lib : Library R⦄ where
  open_entry-KeepsPool :
      (fuel : ℕ) (b : Bool) (slot : Dirent → Card R → FileInfo → FileInfo) (path : List ℕ)
      → ((e : Dirent) (c : Card R) (old : FileInfo) → (slot e c old).in_use ≡ true)
      → KeepsPool {R = R} (open_entry fuel b slot path)
  unfolding open_entry
  open_entry-KeepsPool fuel b slot path opens = elim (Option-cases (split_path path)) [
    | inl e ↦ rw e (search pool_rules depth 20)
    | inr (x, e) ↦ rw e (search (pool_rules, found) depth 20)
  ]
    where
      found :
          (o : Option Dirent)
          → KeepsPool {R = R} (elim o [ none ↦ pure minus_one | some e ↦ new_file (slot e) ])
      found none = KeepsPool-pure _
      found (some e) = new_file-KeepsPool (slot e) (opens e)

  pub m65ftp_open-KeepsPool : (fuel : ℕ) (path : List ℕ) → KeepsPool {R = R} (m65ftp_open fuel path)
  unfolding m65ftp_open
  m65ftp_open-KeepsPool fuel path =
      open_entry-KeepsPool fuel false (λ e c old. opened e old) path (λ e c old. refl)

  pub m65ftp_open_writable-KeepsPool :
      (fuel : ℕ) (path : List ℕ) → KeepsPool {R = R} (m65ftp_open_writable fuel path)
  unfolding m65ftp_open_writable
  m65ftp_open_writable-KeepsPool fuel path =
      open_entry-KeepsPool fuel true (λ e c old. opened_writable c e) path (λ e c old. refl)

  pub m65ftp_sync-KeepsPool : KeepsPool {R = R} m65ftp_sync
  unfolding m65ftp_sync
  m65ftp_sync-KeepsPool = search pool_rules depth 20

  with_parts-KeepsPool : (f : _) (g : _) (path : List ℕ) → KeepsPool {R = R} (with_parts f g path)
  unfolding with_parts
  with_parts-KeepsPool f g path = elim (Option-cases (split_path path)) [
    | inl e ↦ rw e (search pool_rules depth 20)
    | inr (x, e) ↦ rw e (search pool_rules depth 20)
  ]

  pub m65ftp_mkdir-KeepsPool : (path : List ℕ) → KeepsPool {R = R} (m65ftp_mkdir path)
  unfolding m65ftp_mkdir
  m65ftp_mkdir-KeepsPool path = with_parts-KeepsPool (λ path. false) mkdir_in path

  pub m65ftp_rmdir-KeepsPool :
      (fuel : ℕ) (path : List ℕ) → KeepsPool {R = R} (m65ftp_rmdir fuel path)
  unfolding m65ftp_rmdir
  m65ftp_rmdir-KeepsPool fuel path =
      with_parts-KeepsPool (λ path. str_eq path root_dir) (rmdir_in fuel) path

  pub m65ftp_unlink-KeepsPool : (path : List ℕ) → KeepsPool {R = R} (m65ftp_unlink path)
  unfolding m65ftp_unlink
  m65ftp_unlink-KeepsPool path = with_parts-KeepsPool (λ path. false) unlink_in path

  pub m65ftp_rename-KeepsPool : (from to : List ℕ) → KeepsPool {R = R} (m65ftp_rename from to)
  unfolding m65ftp_rename
  m65ftp_rename-KeepsPool from to = elim (Option-cases (split_path from)) [
    | inl e ↦ rw e (search pool_rules depth 20)
    | inr (x, e) ↦ elim (Option-cases (split_path to)) [
      | inl e' ↦ rw (e, e') (search pool_rules depth 20)
      | inr (y, e') ↦ rw (e, e') (search pool_rules depth 20)
    ]
  ]

  pub m65ftp_stat-KeepsPool : (fuel : ℕ) (path : List ℕ) → KeepsPool {R = R} (m65ftp_stat fuel path)
  unfolding m65ftp_stat
  m65ftp_stat-KeepsPool fuel path = elim (Option-cases (split_path path)) [
    | inl e ↦ rw e (search pool_rules depth 20)
    | inr (x, e) ↦ rw e (search (pool_rules, found) depth 20)
  ]
    where
      found :
          (o : Option Dirent)
          → KeepsPool {R = R} {A = Option Stat} (elim o [
            | none ↦ pure none
            | some e ↦ pure (
                some (record {
                  size = u32 e.d_filelen;
                  is_dir = is_directory e;
                  mtime = lib.mktime e.d_mtime;
                }))
          ])
      found none = KeepsPool-pure _
      found (some e) = KeepsPool-pure _

  pub m65ftp_readdir-KeepsPool :
      {A : Type 0} (fuel : ℕ) (path : List ℕ) (cb : Listed → A → Bool × A) (ctx : A)
      → KeepsPool {R = R} (m65ftp_readdir fuel path cb ctx)
  unfolding m65ftp_readdir
  m65ftp_readdir-KeepsPool fuel path cb ctx = search pool_rules depth 20

  pub m65ftp_utimens-KeepsPool :
      (path : List ℕ) (tv : Option (Stamp × Stamp)) → KeepsPool {R = R} (m65ftp_utimens path tv)
  unfolding m65ftp_utimens
  m65ftp_utimens-KeepsPool path tv = elim (Option-cases (split_path path)) [
    | inl e ↦ rw e (search pool_rules depth 20)
    | inr (x, e) ↦ rw e (search pool_rules depth 20)
  ]

  new_created-KeepsPool : KeepsPool {R = R} (new_file (λ c old. created c))
  new_created-KeepsPool = new_file-KeepsPool (λ c old. created c) (λ c old. refl)

  create_entry-KeepsPool :
      (name : List ℕ)
      → KeepsPool {R = R} (do
        made ← on_card (call (lib.create_direntry_with_attrib name 0x20))
        if not made then pure minus_one else do
          s ← get
          on_card (
              drop_result (
                lib.write_sector
                  (u32 (s.card.partition_start + s.card.dir_sector))
                  s.card.dir_sector_buffer))
          new_file (λ c old. created c))
  create_entry-KeepsPool name = search (pool_rules, new_created-KeepsPool) depth 20

  create_in-KeepsPool : (dir_path name : List ℕ) → KeepsPool {R = R} (create_in dir_path name)
  unfolding create_in
  create_in-KeepsPool dir_path name = record {
    at = λ s v.
        let c1 = (lib.fat_opendir dir_path true s.card).1 in
        let c2 = (lib.find_file_in_curdir name c1).1 in
        elim (Bool-cases (lib.fat_opendir dir_path true s.card).0) [
          | inr w ↦ rw w (card-IsPool s c1 v)
          | inl w ↦ elim (Option-cases (lib.find_file_in_curdir name c1).0) [
            | inl e ↦
                rw (w, e)
                  ((create_entry-KeepsPool name).at (record s { card = c2 }) (card-IsPool s c2 v))
            | inr (x, e) ↦
                rw (w, e)
                  ((create_entry-KeepsPool name).at _ (
                    card-IsPool s (lib.fat_opendir dir_path true (lib.delete_file_or_dir name c2)).1
                      v))
          ]
        ];
  }

  pub m65ftp_create-KeepsPool : (path : List ℕ) → KeepsPool {R = R} (m65ftp_create path)
  unfolding m65ftp_create
  m65ftp_create-KeepsPool path = elim (Option-cases (split_path path)) [
    | inl e ↦ rw e (search pool_rules depth 20)
    | inr (x, e) ↦ rw e (search (pool_rules, create_in-KeepsPool) depth 20)
  ]

  pub m65ftp_mbrinfo-KeepsPool : KeepsPool {R = R} m65ftp_mbrinfo
  unfolding m65ftp_mbrinfo
  m65ftp_mbrinfo-KeepsPool = search (pool_rules, found) depth 20
    where
      found :
          (o : Option (List ℕ))
          → KeepsPool {R = R} {A = ℤ × List Partition} (elim o [
            | none ↦ pure (minus_one, [])
            | some mbr ↦
                if not (is_signed mbr)
                then pure (minus_one, [])
                else (let (partitions, count) = read_table mbr 4 0 in pure (pos count, partitions))
          ])
      found none = KeepsPool-pure _
      found (some mbr) = search pool_rules depth 20

  pub m65ftp_init-KeepsPool : KeepsPool {R = R} m65ftp_init
  unfolding m65ftp_init
  m65ftp_init-KeepsPool = record {
    at = λ s v. elim (Bool-cases s.initialized) [
      | inl w ↦ rw w (initialized-IsPool s true v)
      | inr w ↦ elim (Option-cases (connect s.card)) [
        | inl e ↦ rw (w, Holds, ◌>>=◌, on_card, e) tt
        | inr ((b, c), e) ↦ elim (Bool-cases b) [
          | inl z ↦
              rw (w, ◌>>=◌, on_card, e, z)
                (initialized-IsPool (record s { card = c }) true (card-IsPool s c v))
          | inr z ↦
              rw (w, ◌>>=◌, on_card, e, z)
                (initialized-IsPool (record s { card = c }) false (card-IsPool s c v))
        ]
      ]
    ];
  }

  pub m65ftp_finish-KeepsPool : KeepsPool {R = R} m65ftp_finish
  unfolding m65ftp_finish
  m65ftp_finish-KeepsPool = record {
    at = λ s v. elim (Bool-cases s.initialized) [
      | inl w ↦ rw w (
          initialized-IsPool (record s { card = lib.etherload_finish (lib.request_quit s.card) })
            false (card-IsPool s (lib.etherload_finish (lib.request_quit s.card)) v))
      | inr w ↦ rw w (initialized-IsPool s false v)
    ];
  }
