-- ===== src/Keeps/Slots.antt =====
-- The reads, writes and truncations of src/m65ftp_lib.c leave an open descriptor open.
use mega65fs.Base.{
  Bool-cases, Option, minus_one, pure, if◌then◌else◌, Bool, Option-cases, out_of_fuel, ℤ, ◌+◌,
  length, List, inl, inr, none, some, ℕ, ◌+◌, ◌≡◌, refl, Bool, true, false, inl, inr, Option, none,
  some, List, if◌then◌else◌, length, Bool-cases, Option-cases, pure, ℤ, minus_one,
}
use mega65fs.Card.{Card, Library}
use mega65fs.Store.{FileInfo}
use mega65fs.Keeps.{
  KeepsOpen-then, KeepsOpen, KeepsOpen-bind, KeepsOpen-if, KeepsOpen-pure, open_rules,
}
use mega65fs.Entry.{set_entry_first_cluster, set_entry_file_size}
use mega65fs.Flush.{has_entry, flush_write_buffer, flush_empty, flush_entry}
use mega65fs.Read.{pread_direct}
use mega65fs.Buffer.{store_bytes, grow, new_capacity}
use mega65fs.Write.{Position, record_write, pwrite_direct, pwrite_buffered, pwrite_file}
use mega65fs.Truncate.{
  truncate_buffered_zero, truncate_buffered, truncate_zero, finish_truncate, truncate_direct,
}

entry_in_use :
    (b : Bool) (fi fi' : FileInfo)
    → fi'.in_use ≡ fi.in_use
    → (if b then fi' else fi).in_use ≡ fi.in_use
entry_in_use true fi fi' e = e
entry_in_use false fi fi' e = refl

module _ {R : Type 0} ⦃lib : Library R⦄ where
  pub pread_direct-KeepsOpen :
      (fi : FileInfo) (n offset : ℕ) → KeepsOpen {S = Card R} fi.in_use (pread_direct fi n offset)
  unfolding pread_direct
  pread_direct-KeepsOpen fi n offset = search open_rules

  flush_empty-KeepsOpen : (fi : FileInfo) → KeepsOpen {S = Card R} fi.in_use (flush_empty fi)
  unfolding flush_empty set_entry_file_size set_entry_first_cluster
  flush_empty-KeepsOpen fi =
      KeepsOpen-bind _ _ (λ x. KeepsOpen-pure _ _ (entry_in_use (has_entry fi) fi _ refl))

  flush_entry-KeepsOpen :
      (fi : FileInfo) (start : ℕ) → KeepsOpen {S = Card R} fi.in_use (flush_entry fi start)
  unfolding flush_entry set_entry_file_size set_entry_first_cluster
  flush_entry-KeepsOpen fi start =
      KeepsOpen-bind _ _ (λ x. KeepsOpen-pure _ _ (entry_in_use (has_entry fi) fi _ refl))

  pub flush_write_buffer-KeepsOpen :
      (fi : FileInfo) → KeepsOpen {S = Card R} fi.in_use (flush_write_buffer fi)
  unfolding flush_write_buffer
  flush_write_buffer-KeepsOpen fi =
      search (open_rules, flush_empty-KeepsOpen, flush_entry-KeepsOpen) depth 20

  record_write-KeepsOpen :
      (fi : FileInfo) (offset : ℕ) (p : _)
      → KeepsOpen {S = Card R} fi.in_use (record_write fi offset p)
  unfolding record_write set_entry_file_size
  record_write-KeepsOpen fi offset p =
      KeepsOpen-bind _ _ (λ x. KeepsOpen-pure _ _ (entry_in_use (has_entry fi) _ _ refl))

  out_of_fuel-KeepsOpen : (b : Bool) → KeepsOpen {S = Card R} {A = ℤ} b out_of_fuel
  out_of_fuel-KeepsOpen b = record { at = λ s. tt }

  ended-KeepsOpen :
      (fi : FileInfo) (offset : ℕ) (ended : Option Position)
      → KeepsOpen {S = Card R} fi.in_use
          (elim ended [ none ↦ pure (minus_one, fi) | some p ↦ record_write fi offset p ])
  ended-KeepsOpen fi offset none = KeepsOpen-pure _ _ refl
  ended-KeepsOpen fi offset (some p) = record_write-KeepsOpen fi offset p

  pwrite_direct-KeepsOpen :
      (fi : FileInfo) (buf : List ℕ) (offset : ℕ)
      → KeepsOpen {S = Card R} fi.in_use (pwrite_direct fi buf offset)
  unfolding pwrite_direct
  pwrite_direct-KeepsOpen fi buf offset = search (open_rules, ended-KeepsOpen) depth 20

  pwrite_buffered-KeepsOpen :
      (fi : FileInfo) (buf : List ℕ) (offset : ℕ)
      → KeepsOpen {S = Card R} fi.in_use (pwrite_buffered fi buf offset)
  unfolding pwrite_buffered store_bytes grow
  pwrite_buffered-KeepsOpen fi buf offset =
      elim (Option-cases (new_capacity fi.write_buf_cap (offset + length buf))) [
        | inl e ↦
            rw e (KeepsOpen-if _ _ _ (KeepsOpen-pure _ _ refl) (out_of_fuel-KeepsOpen fi.in_use))
        | inr (cap, e) ↦ rw e (search open_rules depth 20)
      ]

  pub pwrite_file-KeepsOpen :
      (fi : FileInfo) (buf : List ℕ) (offset : ℕ)
      → KeepsOpen {S = Card R} fi.in_use (pwrite_file fi buf offset)
  unfolding pwrite_file
  pwrite_file-KeepsOpen fi buf offset =
      search
        (
          open_rules, KeepsOpen-then, flush_write_buffer-KeepsOpen, pwrite_direct-KeepsOpen,
          pwrite_buffered-KeepsOpen,
        )
        depth 20

  truncate_buffered-KeepsOpen :
      (fi : FileInfo) (n : ℕ) → KeepsOpen {S = Card R} fi.in_use (truncate_buffered fi n)
  unfolding truncate_buffered truncate_buffered_zero grow set_entry_file_size
      set_entry_first_cluster
  truncate_buffered-KeepsOpen fi n = elim (Option-cases (new_capacity fi.write_buf_cap n)) [
    | inl e ↦ rw e (search (open_rules, out_of_fuel-KeepsOpen) depth 20)
    | inr (cap, e) ↦ rw e (search open_rules depth 20)
  ]

  truncate_zero-KeepsOpen :
      (fuel : ℕ) (fi : FileInfo) → KeepsOpen {S = Card R} fi.in_use (truncate_zero fuel fi)
  unfolding truncate_zero set_entry_file_size set_entry_first_cluster
  truncate_zero-KeepsOpen fuel fi = search (open_rules, entry_in_use) depth 20

  finish_truncate-KeepsOpen :
      (fi : FileInfo) (first n : ℕ) (b : Bool)
      → fi.in_use ≡ b
      → KeepsOpen {S = Card R} b (finish_truncate fi first n)
  unfolding finish_truncate set_entry_file_size
  finish_truncate-KeepsOpen fi first n b e = elim (Bool-cases (has_entry fi)) [
    | inl w ↦ rw w (search open_rules depth 20)
    | inr w ↦ rw w (search open_rules depth 20)
  ]

  grown-KeepsOpen :
      (fi : FileInfo) (n : ℕ) (start : Option ℕ)
      → KeepsOpen {S = Card R} fi.in_use (elim start [
        | none ↦ pure (minus_one, fi)
        | some start ↦
            finish_truncate (if has_entry fi then set_entry_first_cluster fi start else fi) start n
      ])
  unfolding set_entry_first_cluster
  grown-KeepsOpen fi n none = KeepsOpen-pure _ _ refl
  grown-KeepsOpen fi n (some start) =
      finish_truncate-KeepsOpen _ _ _ _ (entry_in_use (has_entry fi) fi _ refl)

  truncate_direct-KeepsOpen :
      (fuel : ℕ) (fi : FileInfo) (n : ℕ)
      → KeepsOpen {S = Card R} fi.in_use (truncate_direct fuel fi n)
  unfolding truncate_direct
  truncate_direct-KeepsOpen fuel fi n =
      search (open_rules, grown-KeepsOpen, truncate_zero-KeepsOpen, finish_truncate-KeepsOpen) depth
        20

  pub truncate-KeepsOpen :
      (fuel : ℕ) (fi : FileInfo) (n : ℕ)
      → KeepsOpen {S = Card R} fi.in_use
          (if fi.buffered then truncate_buffered fi n else truncate_direct fuel fi n)
  truncate-KeepsOpen fuel fi n =
      KeepsOpen-if _ _ _ (truncate_buffered-KeepsOpen fi n) (truncate_direct-KeepsOpen fuel fi n)
