-- ===== src/Keeps/Slotted.antt =====
-- The calls of src/m65ftp_lib.c on a descriptor keep the descriptor pool well formed.
use mega65fs.Base.{
  run, to_nat, pure, negsuc, refl, ◌≡◌, if◌then◌else◌, Holds, ◌>>◌, ◌>>=◌, pos, minus_one,
  Bool-cases, false, true, not, run, Option-cases, ℕ, Bool, inl, inr, some, List, ◌&&◌, arith,
  length, Prog, ℤ,
}
use mega65fs.Card.{Card, Library}
use mega65fs.Store.{FileInfo, Store, update, put_file, on_card, is_open}
use mega65fs.Store.Pool.{IsPool, push-IsPool}
use mega65fs.Keeps.{KeepsPool, KeepsPool-pure, card-IsPool, update-IsPool, pool_rules, KeepsOpen}
use mega65fs.Keeps.Slots.{
  pread_direct-KeepsOpen, flush_write_buffer-KeepsOpen, pwrite_file-KeepsOpen, truncate-KeepsOpen,
}
use mega65fs.Flush.{flush_write_buffer}
use mega65fs.Files.{m65ftp_fsync, m65ftp_close, finalise}
use mega65fs.Files.Descriptors.{close-eq, shut}
use mega65fs.Buffer.{pread_buffered}
use mega65fs.Read.{m65ftp_pread, pread_direct}
use mega65fs.Write.{m65ftp_pwrite, pwrite_file}
use mega65fs.Truncate.{m65ftp_ftruncate, truncate_buffered, truncate_direct}

module _ {R : Type 0} where
  Holds-if :
      {A : Type 0} (b : Bool) (m m' : Prog (Store R) A) (s : Store R)
      → Holds (λ a s'. IsPool s') (m s)
      → Holds (λ a s'. IsPool s') (m' s)
      → Holds (λ a s'. IsPool s') ((if b then m else m') s)
  Holds-if true m m' s h h' = h
  Holds-if false m m' s h h' = h'

  -- A call on one descriptor that leaves it open.
  on_slot :
      {A B : Type 0} (n : ℕ) (m : Prog (Card R) (A × FileInfo)) (k : A → Prog (Store R) B)
      (s : Store R)
      → KeepsOpen (s.files n).in_use m
      → ((a : A) → KeepsPool (k a))
      → IsPool s
      → Holds (λ b s'. IsPool s') ((on_card m >>= λ x. put_file n x.1 >> k x.0) s)
  on_slot n m k s h h' v = elim (Option-cases (m s.card)) [
    | inl e ↦ rw (Holds, ◌>>=◌, on_card, e) tt
    | inr ((x, c), e) ↦
        let open' : x.1.in_use ≡ (s.files n).in_use = rw e at (h.at s.card) in
        rw (◌>>=◌, on_card, e)
          ((h' x.0).at (record s { files = update s.files n x.1; card = c })
            (update-IsPool (record s { card = c }) n x.1 open' (card-IsPool s c v)))
  ]

module _ {R : Type 0} ⦃lib : Library R⦄ where
  pub m65ftp_pread-KeepsPool :
      (fd : ℤ) (n offset : ℕ) → KeepsPool {R = R} (m65ftp_pread fd n offset)
  unfolding m65ftp_pread
  m65ftp_pread-KeepsPool fd n offset = record {
    at = λ s v.
        let fi = s.files (to_nat fd) in
        elim (Bool-cases (not (s.initialized && is_open s fd))) [
          | inl w ↦ rw w v
          | inr w ↦ rw w (
              Holds-if fi.buffered
                (pure (pos (length (pread_buffered fi n offset)), pread_buffered fi n offset))
                (on_card (pread_direct fi n offset) >>= λ x. put_file (to_nat fd) x.1 >> pure x.0) s
                v
                (on_slot (to_nat fd) (pread_direct fi n offset) (λ a. pure a) s
                  (pread_direct-KeepsOpen fi n offset) (λ a. KeepsPool-pure a) v))
        ];
  }

  pub m65ftp_pwrite-KeepsPool :
      (fd : ℤ) (buf : List ℕ) (offset : ℕ) → KeepsPool {R = R} (m65ftp_pwrite fd buf offset)
  unfolding m65ftp_pwrite
  m65ftp_pwrite-KeepsPool fd buf offset = record {
    at = λ s v.
        let fi = s.files (to_nat fd) in
        elim (Bool-cases (not (s.initialized && is_open s fd && fi.is_writable))) [
          | inl w ↦ rw w v
          | inr w ↦ rw w (
              on_slot (to_nat fd) (pwrite_file fi buf offset) (λ a. pure a) s
                (pwrite_file-KeepsOpen fi buf offset) (λ a. KeepsPool-pure a) v)
        ];
  }

  pub m65ftp_ftruncate-KeepsPool :
      (fuel : ℕ) (fd len : ℤ) → KeepsPool {R = R} (m65ftp_ftruncate fuel fd len)
  unfolding m65ftp_ftruncate
  m65ftp_ftruncate-KeepsPool fuel fd (negsuc n) = search pool_rules depth 20
  m65ftp_ftruncate-KeepsPool fuel fd (pos n) = record {
    at = λ s v.
        let fi = s.files (to_nat fd) in
        elim (Bool-cases (not (s.initialized && is_open s fd && fi.is_writable))) [
          | inl w ↦ rw w v
          | inr w ↦ rw w (
              on_slot (to_nat fd)
                (if fi.buffered then truncate_buffered fi n else truncate_direct fuel fi n)
                (λ a. pure a) s (truncate-KeepsOpen fuel fi n) (λ a. KeepsPool-pure a) v)
        ];
  }

  pub m65ftp_fsync-KeepsPool : (fd : ℤ) → KeepsPool {R = R} (m65ftp_fsync fd)
  unfolding m65ftp_fsync
  m65ftp_fsync-KeepsPool fd = record {
    at = λ s v.
        let fi = s.files (to_nat fd) in
        elim (Bool-cases (not (s.initialized && is_open s fd))) [
          | inl w ↦ rw w v
          | inr w ↦ elim (Bool-cases (fi.is_writable && fi.buffered)) [
            | inl b ↦
                rw (w, b)
                  (on_slot (to_nat fd) (flush_write_buffer fi)
                    (λ flushed.
                      if not flushed
                      then pure minus_one
                      else (do on_card (run lib.execute_write_queue); pure (pos 0)))
                    s (flush_write_buffer-KeepsOpen fi) (λ a. search pool_rules depth 20) v)
            | inr b ↦
                rw (w, b)
                  (card-IsPool _ (lib.execute_write_queue s.card)
                    (update-IsPool s (to_nat fd) fi refl v))
          ]
        ];
  }

  pub m65ftp_close-KeepsPool : (fd : ℤ) → KeepsPool {R = R} (m65ftp_close fd)
  unfolding m65ftp_close
  m65ftp_close-KeepsPool (negsuc n) = record { at = λ s v. v }
  m65ftp_close-KeepsPool (pos n) = record {
    at = λ s v.
        let fi = s.files n in
        elim (Bool-cases (is_open s (pos n))) [
          | inr w ↦ rw w v
          | inl w ↦
              elim (Option-cases
                (if fi.is_writable then finalise fi s.card else some (fi, s.card))) [
                  | inl e ↦ ground (arith, e, w)
                  | inr ((fi', c), e) ↦ rw (close-eq s n fi' c w v e) (
                      push-IsPool (record s { card = c }) n (shut fi') (ground arith) (ground arith)
                        (card-IsPool s c v) refl)
                ]
        ];
  }
