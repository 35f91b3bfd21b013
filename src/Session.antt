-- ===== src/Session.antt =====
-- src/m65ftp_lib.c: m65ftp_init and m65ftp_finish. Log output is left out.
use mega65fs.Base.{
  ℕ, zero, suc, ◌+◌, ℤ, pos, minus_one, Bool, true, false, not, List, ltb, if◌then◌else◌, length,
  take, drop, set, Prog, pure, out_of_fuel, ◌>>=◌, ◌>>◌, call, run, get, put,
}
use mega65fs.Card.{Card, Library}
use mega65fs.Store.{Store, on_card}
use mega65fs.Path.{is_empty, root_dir}

module _ {R : Type 0} where
  -- The globals that a connection starts from.
  abbrev pub reset : Card R → Card R
  reset c = record c {
    direct_sdcard_device = 0;
    ethernet_mode = 1;
    file_system_found = false;
    fat_first_cluster = 0;
    partition_start = 0xffffffff;
    sdhc = minus_one;
    current_dir = root_dir;
  }

  -- The packet that starts the helper program.
  abbrev pub start_packet : Library R → List ℕ → List ℕ
  start_packet lib packet =
      let packet = set packet lib.offset_data_end_address 0x01 in
      let packet = set packet (lib.offset_data_end_address + 1) 0x08 in
      let packet = set packet lib.offset_do_run 1 in set packet lib.offset_enable_cart_signature 0

module _ {R : Type 0} ⦃lib : Library R⦄ where
  -- The bytes left of the helper program go out in blocks.
  unfoldable pub send_helper : ℕ → ℕ → ℕ → List ℕ → Prog (Card R) Bool
  send_helper zero address block_size bytes = if is_empty bytes then pure true else out_of_fuel
  send_helper (suc fuel) address block_size bytes =
      if is_empty bytes
      then pure true
      else (let block_size = if ltb (length bytes) block_size then length bytes else block_size in
          do
            sent ← call (lib.send_mem address (take block_size bytes))
            if sent
                then send_helper fuel (address + block_size) block_size (drop block_size bytes)
                else pure false)

  -- After the helper program answers: log in, and mount the card.
  unfoldable pub mount : Prog (Card R) (Unit {0})
  mount = do
    fd ← call lib.ethl_get_socket
    c ← get
    put (record c { sockfd = fd })
    run lib.ethl_setup_callbacks
    run lib.ethernet_login
    run lib.determine_ethernet_window_size
    run lib.sdhc_check
    c ← get
    if c.file_system_found then pure tt else run lib.open_file_system

  -- Each step after `etherload_init` finishes the connection where it fails.
  unfoldable pub abandon : Prog (Card R) Bool
  abandon = do run lib.etherload_finish; pure false

  unfoldable pub start_helper : Prog (Card R) Bool
  unfolding mount abandon
  start_helper = do
    run (lib.wait_all_acks 3000)
    c ← get
    let packet = start_packet lib c.ethlet_all_done_basic2
    put (record c { ethlet_all_done_basic2 = packet })
    started ← call (lib.ethl_single_command packet 2000)
    if started then (do mount; pure true) else abandon

  unfoldable pub connect : Prog (Card R) Bool
  unfolding send_helper start_helper abandon
  connect = do
    c ← get
    put (reset c)
    up ← call lib.etherload_init
    if not up then pure false else do
      run lib.ethl_setup_dmaload
      triggered ← call lib.trigger_eth_hyperrupt
      if not triggered then abandon else do
        answered ← call (lib.ethl_ping 3000)
        if not answered then abandon else do
          let bytes = drop 2 lib.helperroutine_eth
          sent ← send_helper (length bytes) 0x0801 1024 bytes
          if sent then start_helper else abandon

  unfoldable pub m65ftp_init : Prog (Store R) ℤ
  unfolding connect
  m65ftp_init = do
    s ← get
    if s.initialized then pure (pos 0) else do
      connected ← on_card connect
      s ← get
      if connected then (do put (record s { initialized = true }); pure (pos 0)) else pure minus_one

  unfoldable pub m65ftp_finish : Prog (Store R) (Unit {0})
  m65ftp_finish = do
    s ← get
    if not s.initialized then pure tt else do
      on_card (run lib.request_quit)
      on_card (run lib.etherload_finish)
      s ← get
      put (record s { initialized = false })
