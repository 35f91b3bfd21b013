-- ===== src/Card.antt =====
-- What lib/libm65ftp (vendored) and the C library offer to src/m65ftp_lib.c: the library's globals
-- that the wrapper reads or writes, and the functions that it calls. The functions are a parameter;
-- each may change every global and the rest of the library's state. A call answers `true`, or
-- `some`, where the C function reports success.
pub mod Laws
use mega65fs.Base.{ℕ, ℤ, Bool, Option, List}

pub record Tm : Type 0 where
  pub tm_year : ℕ
  pub tm_mon : ℕ
  pub tm_mday : ℕ
  pub tm_hour : ℕ
  pub tm_min : ℕ
  pub tm_sec : ℕ

-- The fields of `struct m65dirent` that the wrapper reads.
pub record Dirent : Type 0 where
  pub d_ino : ℕ
  pub d_filelen : ℕ
  pub d_attr : ℕ
  pub d_mtime : Tm
  pub d_name : List ℕ
  pub d_longname : List ℕ

pub record Card (R : Type 0) : Type 0 where
  pub partition_start : ℕ
  pub reserved_sectors : ℕ
  pub sectors_per_fat : ℕ
  pub sectors_per_cluster : ℕ
  pub current_dir : List ℕ
  pub dir_sector : ℕ
  pub dir_sector_offset : ℤ
  pub dir_sector_buffer : List ℕ
  pub direct_sdcard_device : ℕ
  pub ethernet_mode : ℕ
  pub file_system_found : Bool
  pub fat_first_cluster : ℕ
  pub sdhc : ℤ
  pub sockfd : ℤ
  pub ethlet_all_done_basic2 : List ℕ
  pub rest : R

pub record Library (R : Type 0) : Type 0 where
  -- Sectors. The flag is `CACHE_YES`.
  pub read_sector : ℕ → Bool → Card R → Option (List ℕ) × Card R
  pub write_sector : ℕ → List ℕ → Card R → Bool × Card R
  pub execute_write_queue : Card R → Card R
  -- The file allocation table.
  pub chained_cluster : ℕ → Card R → ℕ × Card R
  pub get_next_cluster : ℕ → Card R → ℕ × Card R
  pub find_contiguous_clusters : ℕ → Card R → ℕ × Card R
  pub find_free_cluster : ℕ → Card R → ℕ × Card R
  pub allocate_cluster : ℕ → Card R → Bool × Card R
  pub chain_cluster : ℕ → ℕ → Card R → Bool × Card R
  pub deallocate_cluster : ℕ → Card R → Card R
  pub set_fat_cluster_ptr : ℕ → ℕ → Card R → Card R
  -- Directories. The flag of `fat_opendir` is `show_errmsg`.
  pub fat_opendir : List ℕ → Bool → Card R → Bool × Card R
  pub fat_readdir : Card R → Option Dirent × Card R
  pub find_file_in_curdir : List ℕ → Card R → Option Dirent × Card R
  pub create_direntry_with_attrib : List ℕ → ℕ → Card R → Bool × Card R
  pub delete_file_or_dir : List ℕ → Card R → Card R
  pub delete_single_file : List ℕ → Card R → Bool × Card R
  pub create_dir : List ℕ → Card R → Bool × Card R
  pub rename_file_or_dir : List ℕ → List ℕ → Card R → Bool × Card R
  -- The connection.
  pub etherload_init : Card R → Bool × Card R
  pub ethl_setup_dmaload : Card R → Card R
  pub trigger_eth_hyperrupt : Card R → Bool × Card R
  pub ethl_ping : ℕ → Card R → Bool × Card R
  pub send_mem : ℕ → List ℕ → Card R → Bool × Card R
  pub wait_all_acks : ℕ → Card R → Card R
  pub ethl_single_command : List ℕ → ℕ → Card R → Bool × Card R
  pub ethl_get_socket : Card R → ℤ × Card R
  pub ethl_setup_callbacks : Card R → Card R
  pub ethernet_login : Card R → Card R
  pub determine_ethernet_window_size : Card R → Card R
  pub sdhc_check : Card R → Card R
  pub open_file_system : Card R → Card R
  pub request_quit : Card R → Card R
  pub etherload_finish : Card R → Card R
  -- Generated data: the helper program, and offsets in the start-up packet.
  pub helperroutine_eth : List ℕ
  pub offset_data_end_address : ℕ
  pub offset_do_run : ℕ
  pub offset_enable_cart_signature : ℕ
  -- The C library: whether `realloc` of a size succeeds, and the clock.
  pub realloc : ℕ → Card R → Bool × Card R
  pub time : Card R → ℕ × Card R
  pub mktime : Tm → ℕ
  pub localtime : ℕ → Option Tm
