-- ===== src/Tests/Stamps.antt =====
-- utimens of src/m65ftp_lib.c on the sample card.
use mega65fs.Base.{
  ℕ, ◌≡◌, refl, none, some, List, [], ◌∷◌, ◌-◌, take, pos, replicate, arith, str_eq,
}
use mega65fs.Card.{Tm}
use mega65fs.Store.{path_max}
use mega65fs.Path.{root_dir, split_path}
use mega65fs.Meta.{omit, seconds, m65ftp_utimens, time_word, date_word}
use mega65fs.Meta.Words.{FatTime}
use mega65fs.Meta.Stamps.{Stamped}
use mega65fs.Meta.Utimens.{saved, m65ftp_utimens-Stamped}
use mega65fs.Sample.{medium, fresh_store, blank_card, a_file, epoch}

-- 2 December 2022, 13:37:59
abbrev an_afternoon : Tm
an_afternoon = record {
  tm_year = 122;
  tm_mon = 11;
  tm_mday = 2;
  tm_hour = 13;
  tm_min = 37;
  tm_sec = 59;
}

time_packed : time_word an_afternoon ≡ 0x6cbd
unfolding time_word
time_packed = refl

date_packed : date_word an_afternoon ≡ 0x5582
unfolding date_word
date_packed = refl

epoch-FatTime : FatTime epoch
epoch-FatTime =
    (omega arith, omega arith, omega arith, omega arith, omega arith, omega arith, omega arith)

-- The time of access is left alone.
m65ftp_utimens-Stamped_example :
    (b : List ℕ) × (m65ftp_utimens (b'/' ∷ b'A' ∷ []) (some (omit, seconds 5)) fresh_store
      ≡ some (
        pos 0,
        record fresh_store {
          card = record (saved b blank_card).1 { current_dir = take (path_max - 1) root_dir };
        },
      ))
    × Stamped (some epoch) none 0 (replicate 512 0) b
unfolding str_eq split_path
m65ftp_utimens-Stamped_example =
    m65ftp_utimens-Stamped (b'/' ∷ b'A' ∷ []) root_dir (b'A' ∷ []) (some (omit, seconds 5)) a_file
      fresh_store blank_card refl refl refl refl refl epoch-FatTime tt (omega arith)
