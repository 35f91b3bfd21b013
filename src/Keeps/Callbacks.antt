-- ===== src/Keeps/Callbacks.antt =====
-- The callbacks of src/mega65fs.c on paths keep the driver's state sound.
use mega65fs.Card.{Library}
use mega65fs.Base.{
  ◌>>◌, ◌>>=◌, length-set, ℕ, ℤ, List, Option, none, some, pos, negsuc, get, put, set, pure, call,
  true, str_eq, ◌∙◌, Prog,
}
use mega65fs.Base.{
  length-set, ℕ, ◌∙◌, true, Option, none, some, List, set, str_eq, Prog, pure, get, put, call,
  ◌>>=◌, ◌>>◌, ℤ, pos, negsuc,
}
use mega65fs.Store.{Store, on_card}
use mega65fs.Keeps.{KeepsPool, KeepsPool-card, on_card}
use mega65fs.Keeps.Calls.{
  m65ftp_stat-KeepsPool, m65ftp_readdir-KeepsPool, m65ftp_mkdir-KeepsPool, m65ftp_rmdir-KeepsPool,
  m65ftp_unlink-KeepsPool, m65ftp_rename-KeepsPool,
}
use mega65fs.Path.{root_dir}
use mega65fs.Meta.{Stat, m65ftp_stat}
use mega65fs.Cache.{
  stat_from_cache, clock, DirCache, on_store, invalidate_cache_parent, fetch_listing,
  refresh_cache_if_expired,
}
use mega65fs.Fs.{
  too_long, enametoolong, fs_getattr, fs_access, fs_readdir, then_invalidate, fs_mkdir, fs_rmdir,
  fs_unlink, fs_rename, StatBuf, enoent, Filler, zero_stat, stat_buf, zero_or,
}
use mega65fs.Keeps.Sound.{
  KeepsSound, KeepsSound-store, KeepsSound-bind, KeepsSound-if, KeepsSound-pure, sound_rules,
}

module _ {R : Type 0} ⦃lib : Library R⦄ where
  answer-KeepsSound :
      (o : Option Stat)
      → KeepsSound {R = R} {A = ℤ × StatBuf}
          (elim o [ none ↦ pure (enoent, zero_stat) | some st ↦ pure (pos 0, stat_buf st) ])
  answer-KeepsSound none = KeepsSound-pure _
  answer-KeepsSound (some st) = KeepsSound-pure _

  attributes-KeepsSound :
      (o : Option Stat) (fuel : ℕ) (path : List ℕ)
      → KeepsSound {R = R} {A = ℤ × StatBuf} (elim o [
        | some st ↦ pure (pos 0, stat_buf st)
        | none ↦ do
          found ← on_store (m65ftp_stat fuel path)
          elim found [ none ↦ pure (enoent, zero_stat) | some st ↦ pure (pos 0, stat_buf st) ]
      ])
  attributes-KeepsSound none fuel path =
      search (sound_rules, m65ftp_stat-KeepsPool, answer-KeepsSound) depth 20
  attributes-KeepsSound (some st) fuel path = KeepsSound-pure _

  clock-KeepsSound : KeepsSound {R = R} clock
  clock-KeepsSound = KeepsSound-store (on_card (call lib.time)) (KeepsPool-card (call lib.time))

  looked_up-KeepsSound :
      (fuel : ℕ) (path : List ℕ)
      → KeepsSound {R = R} {A = ℤ × StatBuf} (do
        now ← clock
        d ← get
        elim (stat_from_cache path now d.slots) [
          | some st ↦ pure (pos 0, stat_buf st)
          | none ↦ do
            found ← on_store (m65ftp_stat fuel path)
            elim found [ none ↦ pure (enoent, zero_stat) | some st ↦ pure (pos 0, stat_buf st) ]
        ])
  looked_up-KeepsSound fuel path =
      KeepsSound-bind clock
        (λ now. do
          d ← get
          elim (stat_from_cache path now d.slots) [
            | some st ↦ pure (pos 0, stat_buf st)
            | none ↦ do
              found ← on_store (m65ftp_stat fuel path)
              elim found [ none ↦ pure (enoent, zero_stat) | some st ↦ pure (pos 0, stat_buf st) ]
          ])
        clock-KeepsSound
        (λ now. record {
          at = λ d v. (attributes-KeepsSound (stat_from_cache path now d.slots) fuel path).at d v;
        })

  pub fs_getattr-KeepsSound : (fuel : ℕ) (path : List ℕ) → KeepsSound {R = R} (fs_getattr fuel path)
  unfolding fs_getattr
  fs_getattr-KeepsSound fuel path =
      KeepsSound-if (too_long path) (pure (enametoolong, zero_stat)) _ (KeepsSound-pure _) (
        KeepsSound-if (str_eq path root_dir)
          (do now ← clock; pure (pos 0, stat_buf (record { size = 0; is_dir = true; mtime = now })))
          _ (search (sound_rules, clock-KeepsSound) depth 20) (looked_up-KeepsSound fuel path))

  there-KeepsSound :
      (o : Option Stat)
      → KeepsSound {R = R} {A = ℤ} (elim o [ none ↦ pure enoent | some st ↦ pure (pos 0) ])
  there-KeepsSound none = KeepsSound-pure _
  there-KeepsSound (some st) = KeepsSound-pure _

  pub fs_access-KeepsSound : (fuel : ℕ) (path : List ℕ) → KeepsSound {R = R} (fs_access fuel path)
  unfolding fs_access
  fs_access-KeepsSound fuel path =
      search (sound_rules, m65ftp_stat-KeepsPool, there-KeepsSound) depth 20

  store_listing-KeepsSound :
      (i : ℕ) (slot : DirCache)
      → KeepsSound {R = R} (do d ← get; put (record d { slots = set d.slots i slot }); pure i)
  store_listing-KeepsSound i slot = record {
    at = λ d v. record { pool = v.pool; slots = length-set d.slots i slot ∙ v.slots };
  }

  fetch_listing-KeepsSound :
      (fuel : ℕ) (path : List ℕ) → KeepsSound {R = R} (fetch_listing fuel path)
  unfolding fetch_listing
  fetch_listing-KeepsSound fuel path = search (sound_rules, m65ftp_readdir-KeepsPool) depth 20

  refresh-KeepsSound :
      (fuel : ℕ) (path : List ℕ) → KeepsSound {R = R} (refresh_cache_if_expired fuel path)
  unfolding refresh_cache_if_expired
  refresh-KeepsSound fuel path =
      search (store_listing-KeepsSound, fetch_listing-KeepsSound, sound_rules) depth 30

  pub fs_readdir-KeepsSound :
      {B : Type 0} (fuel : ℕ) (path : List ℕ) (filler : Filler B) (offset : ℕ) (buf : B)
      → KeepsSound {R = R} (fs_readdir fuel path filler offset buf)
  unfolding fs_readdir
  fs_readdir-KeepsSound fuel path filler offset buf =
      search (sound_rules, refresh-KeepsSound) depth 20

  dropped-KeepsSound :
      (r : ℤ) (path : List ℕ)
      → KeepsSound {R = R} {A = ℤ} (elim r [
        | negsuc n ↦ pure (negsuc n)
        | pos n ↦ do invalidate_cache_parent path; pure (pos 0)
      ])
  dropped-KeepsSound (negsuc n) path = KeepsSound-pure _
  dropped-KeepsSound (pos n) path = search sound_rules depth 20

  then_invalidate-KeepsSound :
      (path : List ℕ) (e : ℤ) (m : Prog (Store R) ℤ)
      → KeepsPool m
      → KeepsSound (then_invalidate path e m)
  unfolding then_invalidate
  then_invalidate-KeepsSound path e m h =
      KeepsSound-bind (on_store m)
        (λ res. elim (zero_or res e) [
          | negsuc n ↦ pure (negsuc n)
          | pos n ↦ do invalidate_cache_parent path; pure (pos 0)
        ])
        (KeepsSound-store m h) (λ res. dropped-KeepsSound (zero_or res e) path)

  pub fs_mkdir-KeepsSound : (path : List ℕ) → KeepsSound {R = R} (fs_mkdir path)
  unfolding fs_mkdir
  fs_mkdir-KeepsSound path =
      search (sound_rules, then_invalidate-KeepsSound, m65ftp_mkdir-KeepsPool) depth 20

  pub fs_rmdir-KeepsSound : (fuel : ℕ) (path : List ℕ) → KeepsSound {R = R} (fs_rmdir fuel path)
  unfolding fs_rmdir
  fs_rmdir-KeepsSound fuel path =
      search (sound_rules, then_invalidate-KeepsSound, m65ftp_rmdir-KeepsPool) depth 20

  pub fs_unlink-KeepsSound : (path : List ℕ) → KeepsSound {R = R} (fs_unlink path)
  unfolding fs_unlink
  fs_unlink-KeepsSound path =
      search (sound_rules, then_invalidate-KeepsSound, m65ftp_unlink-KeepsPool) depth 20

  pub fs_rename-KeepsSound :
      (from to : List ℕ) (flags : ℕ) → KeepsSound {R = R} (fs_rename from to flags)
  unfolding fs_rename
  fs_rename-KeepsSound from to flags =
      search (sound_rules, then_invalidate-KeepsSound, m65ftp_rename-KeepsPool) depth 30
