-- ===== src/Meta/Words.antt =====
-- The FAT words for times and dates that m65ftp_utimens of src/m65ftp_lib.c packs.
use mega65fs.Base.{ℕ, ◌+◌, ◌-◌, ◌*◌, ◌/◌, ◌%◌, ◌^◌, ◌≤◌, ◌<◌, ◌≡◌, arith, bit_or-fields}
use mega65fs.Card.{Tm}
use mega65fs.Meta.{time_word, date_word}

-- A time that `localtime` gives, in a year that FAT knows: 1980 to 2107.
abbrev pub FatTime : Tm → Type 0
FatTime tm =
    (tm.tm_hour < 24)
    × (tm.tm_min < 60)
    × (tm.tm_sec ≤ 60)
    × (80 ≤ tm.tm_year)
    × (tm.tm_year < 208)
    × (tm.tm_mon < 12)
    × (tm.tm_mday < 32)

-- How a FAT reader takes the words apart: hour, minute and second, of which the last is even, and
-- the year from 1900, the month from 0 and the day.
abbrev pub clock_of : ℕ → ℕ × ℕ × ℕ
clock_of w = (w / 2 ^ 11, w / 2 ^ 5 % 2 ^ 6, w % 2 ^ 5 * 2)

abbrev pub day_of : ℕ → ℕ × ℕ × ℕ
day_of w = (w / 2 ^ 9 + 80, w / 2 ^ 5 % 2 ^ 4 - 1, w % 2 ^ 5)

time_word_lem :
    (tm : Tm) → FatTime tm → time_word tm ≡ tm.tm_hour * 2 ^ 11 + tm.tm_min * 2 ^ 5 + tm.tm_sec / 2
unfolding time_word
time_word_lem tm (h, m, s, _, _, _, _) =
    let e = bit_or-fields 11 tm.tm_hour (tm.tm_min * 2 ^ 5) (omega arith) in
    let q : tm.tm_hour * 2 ^ 11 + tm.tm_min * 2 ^ 5 ≡ (tm.tm_hour * 2 ^ 6 + tm.tm_min) * 2 ^ 5 =
      omega arith in
    let e' = bit_or-fields 5 (tm.tm_hour * 2 ^ 6 + tm.tm_min) (tm.tm_sec / 2) (omega arith) in
    rw (e, q, e') (omega arith)

date_word_lem :
    (tm : Tm)
    → FatTime tm
    → date_word tm ≡ (tm.tm_year - 80) * 2 ^ 9 + (tm.tm_mon + 1) * 2 ^ 5 + tm.tm_mday
unfolding date_word
date_word_lem tm (_, _, _, y, y', m, d) =
    let year = tm.tm_year + 2 ^ 32 - 80 in
    let e = bit_or-fields 9 year ((tm.tm_mon + 1) * 2 ^ 5) (omega arith) in
    let q : year * 2 ^ 9 + (tm.tm_mon + 1) * 2 ^ 5 ≡ (year * 2 ^ 4 + (tm.tm_mon + 1)) * 2 ^ 5 =
      omega arith in
    let e' = bit_or-fields 5 (year * 2 ^ 4 + (tm.tm_mon + 1)) tm.tm_mday (omega arith) in
    rw (e, q, e') (omega arith)

triple :
    {a a' b b' c c' : ℕ} → a ≡ a' → b ≡ b' → c ≡ c' → ◌≡◌ {A = ℕ × ℕ × ℕ} (a, b, c) (a', b', c')
triple p q r = λ i. (p i, q i, r i)

pub clock_of-time_word :
    (tm : Tm) → FatTime tm → clock_of (time_word tm) ≡ (tm.tm_hour, tm.tm_min, tm.tm_sec / 2 * 2)
clock_of-time_word tm v =
    let e = time_word_lem tm v in
    triple (omega (arith, e, v)) (omega (arith, e, v)) (omega (arith, e, v))

pub day_of-date_word :
    (tm : Tm) → FatTime tm → day_of (date_word tm) ≡ (tm.tm_year, tm.tm_mon, tm.tm_mday)
day_of-date_word tm v =
    let e = date_word_lem tm v in
    triple (omega (arith, e, v)) (omega (arith, e, v)) (omega (arith, e, v))
