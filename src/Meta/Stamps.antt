-- ===== src/Meta/Stamps.antt =====
-- What m65ftp_utimens of src/m65ftp_lib.c writes into a directory entry.
use mega65fs.Base.{
  refl, ℕ, ◌+◌, ◌*◌, ◌/◌, ◌^◌, ◌≤◌, ◌<◌, ◌≡◌, ◌⊎◌, arith, Option, none, some, List, get_or, length,
  ap, ◌∙◌,
}
use mega65fs.Card.{Tm}
use mega65fs.Entry.{pack_dir_entry_le16}
use mega65fs.Entry.Fields.{le16, le16-pack16, length-pack16, pack16_outside}
use mega65fs.Meta.{put_word, time_word, date_word, stamp_access, stamp_write}
use mega65fs.Meta.Words.{FatTime, clock_of, day_of, day_of-date_word, clock_of-time_word}

-- A stamp that is left out, or one that FAT can hold.
abbrev pub StampFits : Option Tm → Type 0
StampFits none = Unit {0}
StampFits (some tm) = FatTime tm

-- What a reader of the entry finds where `w` was the word before.
abbrev pub shown_clock : Option Tm → ℕ → ℕ × ℕ × ℕ
shown_clock none w = clock_of w
shown_clock (some tm) w = (tm.tm_hour, tm.tm_min, tm.tm_sec / 2 * 2)

abbrev pub shown_day : Option Tm → ℕ → ℕ × ℕ × ℕ
shown_day none w = day_of w
shown_day (some tm) w = (tm.tm_year, tm.tm_mon, tm.tm_mday)

-- The entry at o of the sector b after a time of modification m and a time of access a were
-- written into it, which gives the sector b'.
pub record Stamped (m a : Option Tm) (o : ℕ) (b b' : List ℕ) : Type 0 where
  pub clock_written : clock_of (le16 b' (o + 0x16)) ≡ shown_clock m (le16 b (o + 0x16))
  pub day_written : day_of (le16 b' (o + 0x18)) ≡ shown_day m (le16 b (o + 0x18))
  pub day_accessed : day_of (le16 b' (o + 0x12)) ≡ shown_day a (le16 b (o + 0x12))
  pub same_length : length b' ≡ length b
  pub others :
      (i : ℕ)
      → (i < o + 0x12) ⊎ (o + 0x14 ≤ i)
      → (i < o + 0x16) ⊎ (o + 0x1a ≤ i)
      → get_or b' i 0 ≡ get_or b i 0

-- A word is written as `pack_dir_entry_le16` writes one.
put_word_lem : (b : List ℕ) (o w : ℕ) → put_word b o w ≡ pack_dir_entry_le16 b o w
unfolding pack_dir_entry_le16
put_word_lem b o w = refl

le16-pack16_outside :
    (b : List ℕ) (o w j : ℕ)
    → (j + 2 ≤ o) ⊎ (o + 2 ≤ j)
    → le16 (pack_dir_entry_le16 b o w) j ≡ le16 b j
le16-pack16_outside b o w j h =
    omega (arith, pack16_outside b o w j (omega arith), pack16_outside b o w (j + 1) (omega arith))

time_word_bound : (tm : Tm) → time_word tm < 2 ^ 16
unfolding time_word
time_word_bound tm = omega arith

date_word_bound : (tm : Tm) → date_word tm < 2 ^ 16
unfolding date_word
date_word_bound tm = omega arith

stamp_access-Stamped :
    (a : Option Tm) (o : ℕ) (b : List ℕ)
    → StampFits a
    → o + 32 ≤ length b
    → Stamped none a o b (stamp_access a o b)
stamp_access-Stamped none o b v h = record {
  clock_written = refl;
  day_written = refl;
  day_accessed = refl;
  same_length = refl;
  others = λ i p q. refl;
}
stamp_access-Stamped (some tm) o b v h = rw (put_word_lem b (o + 0x12) (date_word tm)) (record {
  clock_written =
      ap clock_of (le16-pack16_outside b (o + 0x12) (date_word tm) (o + 0x16) (omega arith));
  day_written =
      ap day_of (le16-pack16_outside b (o + 0x12) (date_word tm) (o + 0x18) (omega arith));
  day_accessed =
      ap day_of (le16-pack16 b (o + 0x12) (date_word tm) (date_word_bound tm) (omega arith))
      ∙ day_of-date_word tm v;
  same_length = length-pack16 b (o + 0x12) (date_word tm);
  others = λ i p q. pack16_outside b (o + 0x12) (date_word tm) i (omega (arith, p));
})

access_kept :
    (m : Option Tm) (o : ℕ) (b : List ℕ) → le16 (stamp_write m o b) (o + 0x12) ≡ le16 b (o + 0x12)
access_kept none o b = refl
access_kept (some tm) o b =
    let t = time_word tm in
    let d = date_word tm in
    let b1 = pack_dir_entry_le16 b (o + 0x16) t in
    rw (put_word_lem b (o + 0x16) t, put_word_lem b1 (o + 0x18) d)
      (le16-pack16_outside b1 (o + 0x18) d (o + 0x12) (omega arith)
        ∙ le16-pack16_outside b (o + 0x16) t (o + 0x12) (omega arith))

stamp_write-Stamped :
    (m : Option Tm) (o : ℕ) (b : List ℕ)
    → StampFits m
    → o + 32 ≤ length b
    → Stamped m none o b (stamp_write m o b)
unfolding pack_dir_entry_le16
stamp_write-Stamped none o b v h = record {
  clock_written = refl;
  day_written = refl;
  day_accessed = refl;
  same_length = refl;
  others = λ i p q. refl;
}
stamp_write-Stamped (some tm) o b v h =
    let t = time_word tm in
    let d = date_word tm in
    let b1 = pack_dir_entry_le16 b (o + 0x16) t in
    let len = length-pack16 b (o + 0x16) t in
    rw (put_word_lem b (o + 0x16) t, put_word_lem b1 (o + 0x18) d)
      (record {
        clock_written =
            ap clock_of (
              le16-pack16_outside b1 (o + 0x18) d (o + 0x16) (omega arith)
              ∙ le16-pack16 b (o + 0x16) t (time_word_bound tm) (omega arith))
            ∙ clock_of-time_word tm v;
        day_written =
            ap day_of (le16-pack16 b1 (o + 0x18) d (date_word_bound tm) (omega (arith, len)))
            ∙ day_of-date_word tm v;
        day_accessed = ap day_of (access_kept (some tm) o b);
        same_length = length-pack16 b1 (o + 0x18) d ∙ len;
        others = λ i p q.
            pack16_outside b1 (o + 0x18) d i (omega (arith, q))
            ∙ pack16_outside b (o + 0x16) t i (omega (arith, q));
      })

-- The access date does not touch the time of modification.
pub stamped :
    (m a : Option Tm) (o : ℕ) (b : List ℕ)
    → StampFits m
    → StampFits a
    → o + 32 ≤ length b
    → Stamped m a o b (stamp_access a o (stamp_write m o b))
stamped m a o b vm va h =
    let b1 = stamp_write m o b in
    let w = stamp_write-Stamped m o b vm h in
    let s = stamp_access-Stamped a o b1 va (omega (arith, h, w.same_length)) in
    record {
      clock_written = s.clock_written ∙ w.clock_written;
      day_written = s.day_written ∙ w.day_written;
      day_accessed = s.day_accessed ∙ ap (shown_day a) (access_kept m o b);
      same_length = s.same_length ∙ w.same_length;
      others = λ i p q. s.others i p q ∙ w.others i p q;
    }
