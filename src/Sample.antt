-- ===== src/Sample.antt =====
-- A concrete card for tests and witnesses: a table of clusters, sectors by number, and one
-- directory listing. It stands for no code of the repository.
use mega65fs.Base.{
  ℕ, zero, suc, ◌+◌, pos, minus_one, Bool, true, ◌&&◌, Option, none, some, List, [], ◌∷◌, ◌==◌,
  if◌then◌else◌, replicate, str_eq,
}
use mega65fs.Card.{Card, Library, Dirent, Tm}
use mega65fs.Store.{Store, blank, end_of_chain}
use mega65fs.Path.{root_dir, shown_name}

pub record Medium : Type 0 where
  pub fat : ℕ → ℕ
  pub sectors : ℕ → List ℕ
  pub listing : List Dirent
  pub unread : List Dirent

abbrev pub store_at : {A : Type 0} → (ℕ → A) → ℕ → A → ℕ → A
store_at f k v i = if i == k then v else f i

abbrev pub with_fat : Card Medium → (ℕ → ℕ) → Card Medium
with_fat c f = record c { rest = record (c.rest) { fat = f } }

-- n clusters from `start` on are free.
abbrev pub free_run : ℕ → ℕ → (ℕ → ℕ) → Bool
free_run zero start fat = true
free_run (suc n) start fat = fat start == 0 && free_run n (start + 1) fat

abbrev pub first_run : ℕ → ℕ → ℕ → (ℕ → ℕ) → ℕ
first_run zero n start fat = 0
first_run (suc k) n start fat =
    let rest = first_run k n (start + 1) fat in if free_run n start fat then start else rest

abbrev pub find_named : List ℕ → List Dirent → Option Dirent
find_named name [] = none
find_named name (e ∷ es) = if str_eq (shown_name e) name then some e else find_named name es

abbrev pub take_entry : List Dirent → Card Medium → Option Dirent × Card Medium
take_entry [] c = (none, c)
take_entry (e ∷ es) c = (some e, record c { rest = record (c.rest) { unread = es } })

abbrev pub epoch : Tm
epoch = record { tm_year = 80; tm_mon = 0; tm_mday = 1; tm_hour = 0; tm_min = 0; tm_sec = 0 }

-- Thirty-two clusters, no failures, and a clock that stands at 100.
instance abbrev pub medium : Library Medium
medium = record {
  read_sector = λ n cached c. (some (c.rest.sectors n), c);
  write_sector = λ n b c.
      (true, record c { rest = record (c.rest) { sectors = store_at c.rest.sectors n b } });
  execute_write_queue = λ c. c;
  chained_cluster = λ n c. (c.rest.fat n, c);
  get_next_cluster = λ n c. (c.rest.fat n, c);
  find_contiguous_clusters = λ n c. (first_run 32 n 2 c.rest.fat, c);
  find_free_cluster = λ n c. (first_run 32 1 2 c.rest.fat, c);
  allocate_cluster = λ n c. (true, with_fat c (store_at c.rest.fat n end_of_chain));
  chain_cluster = λ n m c. (true, with_fat c (store_at c.rest.fat n m));
  deallocate_cluster = λ n c. with_fat c (store_at c.rest.fat n 0);
  set_fat_cluster_ptr = λ n m c. with_fat c (store_at c.rest.fat n m);
  fat_opendir = λ p v c. (true, record c { rest = record (c.rest) { unread = c.rest.listing } });
  fat_readdir = λ c. take_entry c.rest.unread c;
  find_file_in_curdir = λ name c. (find_named name c.rest.listing, c);
  create_direntry_with_attrib = λ name a c. (true, c);
  delete_file_or_dir = λ name c. c;
  delete_single_file = λ name c. (true, c);
  create_dir = λ name c. (true, c);
  rename_file_or_dir = λ a b c. (true, c);
  etherload_init = λ c. (true, c);
  ethl_setup_dmaload = λ c. c;
  trigger_eth_hyperrupt = λ c. (true, c);
  ethl_ping = λ t c. (true, c);
  send_mem = λ a b c. (true, c);
  wait_all_acks = λ t c. c;
  ethl_single_command = λ b t c. (true, c);
  ethl_get_socket = λ c. (pos 3, c);
  ethl_setup_callbacks = λ c. c;
  ethernet_login = λ c. c;
  determine_ethernet_window_size = λ c. c;
  sdhc_check = λ c. c;
  open_file_system = λ c. record c { file_system_found = true };
  request_quit = λ c. c;
  etherload_finish = λ c. c;
  helperroutine_eth = replicate 2050 0;
  offset_data_end_address = 0;
  offset_do_run = 2;
  offset_enable_cart_signature = 3;
  realloc = λ n c. (true, c);
  time = λ c. (100, c);
  mktime = λ tm. 0;
  localtime = λ t. some epoch;
}

abbrev pub a_file : Dirent
a_file = record {
  d_ino = 5;
  d_filelen = 600;
  d_attr = 0x20;
  d_mtime = epoch;
  d_name = b'A' ∷ [];
  d_longname = [];
}

-- A card with one file of 600 bytes in clusters 5 and 7, and one sector in a cluster.
abbrev pub blank_card : Card Medium
blank_card = record {
  partition_start = 2048;
  reserved_sectors = 32;
  sectors_per_fat = 4;
  sectors_per_cluster = 1;
  current_dir = root_dir;
  dir_sector = 40;
  dir_sector_offset = pos 0;
  dir_sector_buffer = replicate 512 0;
  direct_sdcard_device = 0;
  ethernet_mode = 1;
  file_system_found = true;
  fat_first_cluster = 2;
  sdhc = minus_one;
  sockfd = minus_one;
  ethlet_all_done_basic2 = replicate 8 0;
  rest = record {
    fat = λ n.
        if n == 2
        then end_of_chain
        else (if n == 5 then 7 else (if n == 7 then end_of_chain else 0));
    sectors = λ n. replicate 512 0;
    listing = a_file ∷ [];
    unread = [];
  };
}

abbrev pub fresh_store : Store Medium
fresh_store = record {
  initialized = true;
  file_count = 0;
  files = λ i. blank;
  free_fds = [];
  card = blank_card;
}
