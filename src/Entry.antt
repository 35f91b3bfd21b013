-- ===== src/Entry.antt =====
-- The directory entry cached in `dir_sector_buf`: src/m65ftp_lib.c, pack_dir_entry_le16/32,
-- set_entry_first_cluster and set_entry_file_size. The offset of an entry is not negative where
-- these run: the callers test it.
pub mod Fields
use mega65fs.Base.{ℕ, ◌+◌, ◌/◌, ◌%◌, ◌^◌, to_nat, List, set}
use mega65fs.Store.{FileInfo}

unfoldable pub pack_dir_entry_le16 : List ℕ → ℕ → ℕ → List ℕ
pack_dir_entry_le16 buffer offset value =
    set (set buffer offset (value % 256)) (offset + 1) (value / 2 ^ 8 % 256)

unfoldable pub pack_dir_entry_le32 : List ℕ → ℕ → ℕ → List ℕ
pack_dir_entry_le32 buffer offset value =
    let buffer = set buffer offset (value % 256) in
    let buffer = set buffer (offset + 1) (value / 2 ^ 8 % 256) in
    let buffer = set buffer (offset + 2) (value / 2 ^ 16 % 256) in
    set buffer (offset + 3) (value / 2 ^ 24 % 256)

unfoldable pub set_entry_first_cluster : FileInfo → ℕ → FileInfo
set_entry_first_cluster fi first_cluster =
    let offset = to_nat fi.dir_sector_offset in
    let buf = pack_dir_entry_le16 fi.dir_sector_buf (offset + 0x1a) (first_cluster % 2 ^ 16) in
    record fi {
      dir_sector_buf = pack_dir_entry_le16 buf (offset + 0x14) (first_cluster / 2 ^ 16 % 2 ^ 16);
    }

unfoldable pub set_entry_file_size : FileInfo → ℕ → FileInfo
set_entry_file_size fi file_size = record fi {
  dir_sector_buf =
      pack_dir_entry_le32 fi.dir_sector_buf (to_nat fi.dir_sector_offset + 0x1c) file_size;
}
