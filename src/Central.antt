-- ===== src/Central.antt =====
-- src/main.c: the connection step, the central structure and the callbacks that BlueZ makes.
-- BlueZ (bluez_deps) and the threads of the host are a parameter, `Host`; the callbacks are functions
-- of the state, and the log `acts` keeps what they asked of the host, newest first.
pub mod Discovery
pub mod Scan
pub mod Main
pub mod Mainloop
pub mod Create
pub mod Database
pub mod Handshake
pub mod Receive
pub mod Transmit
pub mod Waiting
mod Tests
use slate.Base.{
  ℕ, zero, suc, ◌+◌, ◌%◌, ◌^◌, Bool, true, false, not, Option, none, some, List, [], ◌∷◌, ◌==◌,
  if◌then◌else◌,
}
use slate.Fifo.{Fifo, mldp_rx_buff_size, init, flush, write_from, get}
use slate.Fifo
use slate.Link.{Exit, exit_success, exit_failure, Packet, Tx, tx_fifo_send_bytes}

-- ble_connection_step; `not_started` is the initial -1
pub data ConStep : Type 0 where
  not_started : ConStep
  scanning slate_found socket_open connected sps_discovering : ConStep
  all_service_discovery_complete wait_mldp_data file_transfer : ConStep

-- The handles of `struct client`, all uint16_t.
pub record Client : Type 0 where
  pub mldp_data_char_handle : ℕ
  pub mldp_data_desc_handle : ℕ
  pub mldp_ctrl_char_handle : ℕ
  pub central_identification_char_handle : ℕ
  pub peripheral_authentication_char_handle : ℕ
  pub misc_char_handle : ℕ

-- What the callbacks ask of the host.
pub data Act : Type 0 where
  write_value : ℕ → List ℕ → Act  -- bt_gatt_client_write_value: handle, value
  without_response : List ℕ → ℕ → Act  -- bt_gatt_client_write_without_response: value, id
  write_result : ℕ → ℕ → Act  -- gatt_db_attribute_write_result: id, ecode
  create_thread : Act  -- pthread_create of ft_task
  join_thread : Act  -- pthread_join of ft_task_id

-- The three calls return a request id, 0 for none, and for the thread 0 when it runs.
pub record Host {ℓ} (B : Type ℓ) : Type ℓ where
  pub bt_gatt_client_write_value : B → ℕ → List ℕ → ℕ × B
  pub bt_gatt_client_write_without_response : B → ℕ → List ℕ → ℕ × B
  pub pthread_create : B → ℕ × B

-- struct gatt_central, the globals and statics of main.c, and `mainloop_quit` as a flag.
pub record Central {ℓ} (B : Type ℓ) : Type ℓ where
  pub ble_con_step : ConStep
  pub quit : Bool
  pub cli : Client
  pub mldp_fifo_rx : Fifo
  pub mldp_fifo_tx : Fifo
  pub data_array : List ℕ
  pub host : B
  pub acts : List Act

-- A callback returns, or the process exits.
pub data Done {ℓ} (A : Type ℓ) : Type ℓ where
  returns : A → Done A
  exits : ℕ → Done A

-- `return err` passes a status of the FIFO on.
pub data Code : Type 0 where
  exit_code : Exit → Code
  fifo_code : Fifo.Status → Code

-- `(err_rx != 0 || err_tx != 0)`
abbrev pub both_success : Fifo.Status → Fifo.Status → Exit
both_success Fifo.success Fifo.success = exit_success
both_success _ _ = exit_failure

module _ {ℓ} {B : Type ℓ} where
  unfoldable pub retry_scan : Central B → Central B
  retry_scan c = record c { quit = true; ble_con_step = scanning }

  -- It joins the file transfer thread first.
  unfoldable pub att_disconnect_cb : Central B → Central B
  att_disconnect_cb c = record c {
    acts = join_thread ∷ c.acts;
    ble_con_step = scanning;
    quit = true;
  }

  -- The static buffers are zero at the start of the program.
  unfoldable pub mldp_fifos_init : List ℕ → List ℕ → Central B → Exit × Central B
  mldp_fifos_init mldp_rx_buff mldp_tx_buff c =
      let (err_rx, rx) = init c.mldp_fifo_rx (some mldp_rx_buff) mldp_rx_buff_size in
      let (err_tx, tx) = init c.mldp_fifo_tx (some mldp_tx_buff) mldp_rx_buff_size in
      (both_success err_rx err_tx, record c { mldp_fifo_rx = rx; mldp_fifo_tx = tx })

  unfoldable pub fifos_flush : Central B → Central B
  fifos_flush c = record c {
    mldp_fifo_rx = (flush c.mldp_fifo_rx).1;
    mldp_fifo_tx = (flush c.mldp_fifo_tx).1;
  }

abbrev pub ble_sps_ident_char_value : List ℕ
ble_sps_ident_char_value = 0 ∷ 0 ∷ 0 ∷ 0 ∷ 0 ∷ 0 ∷ 0 ∷ 6 ∷ []

abbrev pub ble_sps_authen_char_value : List ℕ
ble_sps_authen_char_value = 0 ∷ 0 ∷ 0 ∷ 0 ∷ []

abbrev pub ble_sps_misc_char_value : List ℕ
ble_sps_misc_char_value = 1 ∷ []

abbrev pub is_wait_mldp_data : ConStep → Bool
is_wait_mldp_data wait_mldp_data = true
is_wait_mldp_data _ = false

abbrev pub is_file_transfer : ConStep → Bool
is_file_transfer file_transfer = true
is_file_transfer _ = false

-- `h` is the host.
module _ {ℓ} {B : Type ℓ} (h : Host B) where
  -- The three write_*_char: EXIT_FAILURE when the request id is not 0.
  unfoldable pub write_char : Central B → ℕ → List ℕ → Exit × Central B
  write_char c handle value =
      let (id, b) = h.bt_gatt_client_write_value c.host handle value in
      (
        if not (id == 0) then exit_failure else exit_success,
        record c { host = b; acts = write_value handle value ∷ c.acts },
      )

  unfoldable pub write_misc_char : Central B → List ℕ → Exit × Central B
  write_misc_char c value = write_char c c.cli.misc_char_handle value

  unfoldable pub write_authentication_char : Central B → List ℕ → Exit × Central B
  write_authentication_char c value = write_char c c.cli.peripheral_authentication_char_handle value

  unfoldable pub write_identification_char : Central B → List ℕ → Exit × Central B
  write_identification_char c value = write_char c c.cli.central_identification_char_handle value

  unfoldable pub client_write_cb_misc_char : Bool → Central B → Central B
  client_write_cb_misc_char success c =
      if not success then retry_scan c else record c { ble_con_step = wait_mldp_data }

  unfoldable pub client_write_cb_authentication_char : Bool → Central B → Central B
  client_write_cb_authentication_char success c =
      if not success then retry_scan c else (write_misc_char c ble_sps_misc_char_value).1

  unfoldable pub client_write_cb_identification_char : Bool → Central B → Central B
  client_write_cb_identification_char success c =
      if not success
      then retry_scan c
      else (write_authentication_char c ble_sps_authen_char_value).1

  unfoldable pub write_ble_sps : Central B → Central B
  write_ble_sps c = (write_identification_char c ble_sps_ident_char_value).1

  -- What the main loop's thread does when pthread_create returned `err`.
  abbrev pub started : ℕ → Central B → Done (Central B)
  started err c = if err == 0 then returns c else exits 1

  unfoldable pub start_file_transfer : Central B → Done (Central B)
  start_file_transfer c =
      let c' = fifos_flush c in
      let (err, b) = h.pthread_create c'.host in
      started err (record c' { host = b; acts = create_thread ∷ c'.acts })

abbrev pub reply {ℓ} : {B : Type ℓ} → ℕ → ℕ → Central B → Central B
reply id ecode c = record c { acts = write_result id ecode ∷ c.acts }

-- The packets of tx_fifo_send_bytes in the log.
abbrev pub logged : List Packet → List Act → List Act
logged [] as' = as'
logged (p ∷ ps) as' = without_response p.value p.id ∷ logged ps as'

-- `stray` is what a read just past a FIFO's buffer gives.
module _ {ℓ} {B : Type ℓ} (stray : ℕ) where
  -- The end of the callback, when the offset is 0 and the transfer runs.
  unfoldable pub receive : ℕ → Option (List ℕ) → ℕ → Done (Central B) → Done (Central B)
  receive id value len (exits n) = exits n
  receive id value len (returns c) =
      returns
        (reply id 0 (record c { mldp_fifo_rx = (write_from stray c.mldp_fifo_rx value len).2 }))

  -- The option is what is stored through `p_byte`.
  unfoldable pub ble_mldp_get_byte : Central B → Exit × Option ℕ × Central B
  ble_mldp_get_byte c =
      let (s, byte, rx) = get stray c.mldp_fifo_rx in
      (both_success s Fifo.success, byte, record c { mldp_fifo_rx = rx })

module _ {ℓ} {B : Type ℓ} (h : Host B) (stray : ℕ) where
  -- `false` is a NULL attribute; BT_ATT_ERROR_INVALID_OFFSET is 7.
  unfoldable pub server_mldp_data_char_write_cb :
      Bool → ℕ → ℕ → Option (List ℕ) → ℕ → Central B → Done (Central B)
  server_mldp_data_char_write_cb false id offset value len c = returns c
  server_mldp_data_char_write_cb true id offset value len c =
      if not (offset == 0)
      then returns (reply id 7 c)
      else if is_wait_mldp_data c.ble_con_step
      then receive stray id value len
          (start_file_transfer h (record c { ble_con_step = file_transfer }))
      else receive stray id value len (returns c)

  -- What ble_mldp_send_bytes returns after tx_fifo_send_bytes.
  abbrev pub sent_bytes : Central B → Option (Exit × Tx B) → Option (Code × Central B)
  sent_bytes c none = none
  sent_bytes c (some (e, t)) = some (
    exit_code e,
    record c {
      mldp_fifo_tx = t.fifo_tx;
      data_array = t.data_array;
      host = t.bluez;
      acts = logged t.calls c.acts;
    },
  )

  abbrev pub queued : Central B → Fifo.Status × ℕ × Fifo → Option (Code × Central B)
  queued c (Fifo.success, n, tx) = sent_bytes c (
      tx_fifo_send_bytes h.bt_gatt_client_write_without_response c.cli.mldp_data_char_handle stray
        c.data_array tx c.host)
  queued c (s, n, tx) = some (fifo_code s, record c { mldp_fifo_tx = tx })

  -- `none` means that the fuel of tx_fifo_send_bytes ran out.
  unfoldable pub ble_mldp_send_bytes : Central B → Option (List ℕ) → ℕ → Option (Code × Central B)
  ble_mldp_send_bytes c p_string length =
      if is_file_transfer c.ble_con_step
      then queued c (write_from stray c.mldp_fifo_tx p_string length)
      else some (exit_code exit_failure, c)
