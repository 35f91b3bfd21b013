-- ===== src/Files/Descriptors.antt =====
-- The descriptor pool of src/m65ftp_lib.c when descriptors are handed out and closed.
use mega65fs.Base.{
  ℕ, ◌+◌, ◌<◌, ◌≡◌, refl, subst, true, false, not, inl, inr, ◌⊎◌, none, some, List, [], ◌∷◌, ◌&&◌,
  arith, ◌==◌, leb, ltb, if◌then◌else◌, Bool-cases, ◌^◌, ℤ, pos, minus_one,
}
use mega65fs.Card.{Card, Library}
use mega65fs.Store.{FileInfo, Store, max_files, update, is_open}
use mega65fs.Store.Pool.{IsPool, pop-IsPool, grow-IsPool, Below, free_fds_room, push-IsPool}
use mega65fs.Card.Laws.{KeepsGeometry, FindsData}
use mega65fs.Files.Finalise.{finalise_if-Returns}
use mega65fs.Files.{new_file, m65ftp_close, finalise}

module _ {R : Type 0} where
  -- The pool is exhausted and nothing changes.
  abbrev pub Refused : Store R → ℤ → Store R → Type 0
  Refused s r s' = (r ≡ minus_one) × (s' ≡ s) × ((fd : ℕ) → is_open s (pos fd) ≡ ltb fd max_files)

  -- A descriptor that was not open gets the slot, and no other slot changes.
  abbrev pub Granted : (Card R → FileInfo → FileInfo) → Store R → ℤ → Store R → Type 0
  Granted slot s r s' =
      (fd : ℕ) × (r ≡ pos fd)
      × (fd < max_files)
      × (is_open s (pos fd) ≡ false)
      × (s'.files ≡ update s.files fd (slot s.card (s.files fd)))
      × (s'.card ≡ s.card)

  module _ (slot : Card R → FileInfo → FileInfo)
      (opens : (c : Card R) (old : FileInfo) → (slot c old).in_use ≡ true) where
    pub new_file_cases :
        (s : Store R) (xs : List ℕ)
        → s.free_fds ≡ xs
        → IsPool s
        → (r : ℤ) × (s' : Store R) × (new_file slot s ≡ some (r, s'))
          × IsPool s'
          × (Refused s r s' ⊎ Granted slot s r s')
    unfolding new_file
    new_file_cases s (fd ∷ fds) e v = (
      pos fd,
      record s { free_fds = fds; files = update s.files fd (slot s.card (s.files fd)) },
      ground arith,
      pop-IsPool s fd fds _ e v (opens _ _),
      inr (
        fd,
        refl,
        (omega (arith, (subst (Below s.file_count) e v.below).0)),
        ground (arith, v.exact fd),
        refl,
        refl,
      ),
    )
    new_file_cases s [] e v = elim (Bool-cases (leb max_files s.file_count)) [
      | inl full ↦ (
        minus_one,
        s,
        ground arith,
        v,
        inl (refl, refl, λ fd. ground (arith, v.exact fd, v.bounded)),
      )
      | inr room ↦ (
        pos s.file_count,
        record s {
          file_count = s.file_count + 1;
          files = update s.files s.file_count (slot s.card (s.files s.file_count));
        },
        ground arith,
        grow-IsPool s _ e (ground arith) v (opens _ _),
        inr (s.file_count, refl, ground arith, ground arith, refl, refl),
      )
    ]

    -- Taking a slot from a well-formed pool, for a file that is marked open: the pool stays well
    -- formed. Either all 4096 descriptors are open and nothing changes, or a descriptor below 4096
    -- that was not open gets the slot, no other slot changes and the card is not touched.
    pub new_file-IsPool :
        (s : Store R)
        → IsPool s
        → (r : ℤ) × (s' : Store R) × (new_file slot s ≡ some (r, s'))
          × IsPool s'
          × (Refused s r s' ⊎ Granted slot s r s')
    new_file-IsPool s v = new_file_cases s s.free_fds refl v

abbrev pub shut : FileInfo → FileInfo
shut fi = record fi { write_buf = none; write_buf_cap = 0; first_cluster = 0; in_use = false }

module _ {R : Type 0} ⦃lib : Library R⦄ where
  -- The store that `close` leaves, from the slot and the card that `finalise` left.
  abbrev closed_store : Store R → ℕ → FileInfo → Card R → Store R
  closed_store s n fi c = record s {
    files = update s.files n (shut fi);
    free_fds = n ∷ s.free_fds;
    card = c;
  }

  pub close-eq :
      (s : Store R) (n : ℕ) (fi : FileInfo) (c : Card R)
      → is_open s (pos n) ≡ true
      → IsPool s
      → (if (s.files n).is_writable then finalise (s.files n) s.card else some (s.files n, s.card))
        ≡ some (fi, c)
      → m65ftp_close (pos n) s ≡ some (tt, closed_store s n fi c)
  unfolding m65ftp_close
  close-eq s n fi c o v e =
      let u : (s.files n).in_use ≡ true = ground arith in
      let h : n < s.file_count = ground arith in ground (arith, free_fds_room s n h u v)

  -- Closing an open descriptor n of a file below 4 GB, on a card that keeps its geometry, has
  -- sectors in its clusters and finds its free clusters in the data area, always comes to an end:
  -- the pool stays well formed, n is the next descriptor to be handed out, and every other
  -- descriptor is as open as before.
  pub m65ftp_close-IsPool :
      (s : Store R) (n : ℕ)
      → KeepsGeometry lib
      → FindsData lib
      → 0 < s.card.sectors_per_cluster
      → (s.files n).file_size < 2 ^ 32
      → is_open s (pos n) ≡ true
      → IsPool s
      → (s' : Store R) × (m65ftp_close (pos n) s ≡ some (tt, s'))
        × IsPool s'
        × (s'.free_fds ≡ n ∷ s.free_fds)
        × ((i : ℕ) → is_open s' (pos i) ≡ (not (i == n) && is_open s (pos i)))
  m65ftp_close-IsPool s n keeps finds spc small o v =
      let (fi, c, e) =
        finalise_if-Returns (s.files n) (s.files n).is_writable s.card keeps finds spc small in
      (
        closed_store s n fi c,
        close-eq s n fi c o v e,
        push-IsPool (record s { card = c }) n (shut fi) (ground arith) (ground arith)
            (record {
              bounded = v.bounded;
              distinct = v.distinct;
              below = v.below;
              exact = v.exact;
            })
            refl,
        refl,
        λ i. ground arith,
      )
