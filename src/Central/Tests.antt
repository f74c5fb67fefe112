-- ===== src/Central/Tests.antt =====
-- Runs of the central with FIFOs of four bytes and a host that gives every request the id 1.
use slate.Base.{
  ℕ, true, false, ◌≡◌, refl, arith, some, none, List, [], ◌∷◌, ◌++◌, if◌then◌else◌, pos, negsuc,
  is_neg,
}
use slate.Fifo.{Fifo, write_from}
use slate.Fifo.Inv.{IsValid}
use slate.Fifo.Refine.{contents, capacity}
use slate.Link.Inv.{AlwaysTakes}
use slate.Central.{
  Central, Host, returns, wait_mldp_data, file_transfer, connected, socket_open, write_value,
  write_result, create_thread, server_mldp_data_char_write_cb, client_write_cb_misc_char,
  client_write_cb_authentication_char, client_write_cb_identification_char, reply,
}
use slate.Central.Discovery.{
  Service, ready_cb, get_handle_from_uuid, misc_characteristic_uuid,
  central_identification_characteristic_uuid,
}
use slate.Central.Handshake.{handshake_lem}
use slate.Central.Receive.{
  RxOk, first_data_lem, Served, begin, data_written, served_in_order, running_cb,
}
use slate.Central.Scan.{
  Machine, Os, failed, Scanned, returned, scan_result, scan_loop, loops, main_round,
  l2cap_le_att_connect,
}
use slate.Central.Scan.Failures.{connect_break_lem, scan_result_lem, Seen}
use text.Mathlib.Text.{◌==◌ as str_eq}
use Prim.Native.String.{String}

abbrev ones : Host ℕ
ones = record {
  bt_gatt_client_write_value = λ b handle v. (1, b);
  bt_gatt_client_write_without_response = λ b handle v. (1, b);
  pthread_create = λ b. (0, b);
}

abbrev one_byte : Fifo
one_byte = record { p_buff = 7 ∷ 0 ∷ 0 ∷ 0 ∷ []; buff_size = 3; read_pos = 0; write_pos = 1 }

abbrev waiting : Central ℕ
waiting = record {
  ble_con_step = wait_mldp_data;
  quit = false;
  cli = record {
    mldp_data_char_handle = 1;
    mldp_data_desc_handle = 2;
    mldp_ctrl_char_handle = 3;
    central_identification_char_handle = 4;
    peripheral_authentication_char_handle = 5;
    misc_char_handle = 6;
  };
  mldp_fifo_rx = one_byte;
  mldp_fifo_tx = one_byte;
  data_array = [];
  host = 0;
  acts = [];
}

abbrev transferring : Central ℕ
transferring = record waiting { ble_con_step = file_transfer }

one_byte-RxOk : RxOk one_byte
one_byte-RxOk = record {
  valid = record { sized = refl; small = omega arith; front = refl; filled = omega arith };
  small = omega arith;
}

first_data_lem_example :
    (c' : Central ℕ) × (server_mldp_data_char_write_cb ones 9 true 3 0 (some (1 ∷ 2 ∷ [])) 2 waiting
      ≡ returns c')
    × (c'.ble_con_step ≡ file_transfer)
    × (c'.acts ≡ write_result 3 0 ∷ create_thread ∷ [])
    × RxOk c'.mldp_fifo_rx
    × (contents c'.mldp_fifo_rx ≡ 1 ∷ 2 ∷ [])
    × (capacity c'.mldp_fifo_rx ≡ 4)
first_data_lem_example =
    first_data_lem ones 9 waiting 3 (1 ∷ 2 ∷ []) one_byte-RxOk refl refl (omega arith)

-- Two bytes arrive behind the first.
abbrev transferred : Central ℕ
transferred =
    reply 3 0
      (record transferring { mldp_fifo_rx = (write_from 9 one_byte (some (1 ∷ 2 ∷ [])) 2).2 })

transferred-Served : Served ones 9 transferring transferred ([] ++ (1 ∷ 2 ∷ [])) []
transferred-Served =
    data_written 3 (1 ∷ 2 ∷ []) begin (omega arith)
      (running_cb ones 9 transferring 3 (1 ∷ 2 ∷ []) refl)

served_in_order_example : [] ++ contents transferred.mldp_fifo_rx ≡ (7 ∷ []) ++ ([] ++ (1 ∷ 2 ∷ []))
served_in_order_example =
    served_in_order ones 9 transferring transferred ([] ++ (1 ∷ 2 ∷ [])) [] refl one_byte-RxOk
      transferred-Served

-- A UUID is its text here.
abbrev same_text : String → String
same_text s = s

abbrev text_cmp : String → String → ℕ
text_cmp a b = if str_eq a b then 0 else 1

abbrev one_service : List (Service String)
one_service =
    record {
      has_data = true;
      chrcs =
          some (record { value_handle = 11; uuid = misc_characteristic_uuid })
          ∷ none
          ∷ some (record { value_handle = 12; uuid = central_identification_characteristic_uuid })
          ∷ [];
    }
    ∷ []

handshake_lem_example :
    let cli = (get_handle_from_uuid same_text text_cmp one_service waiting).cli in
    let c1 = ready_cb same_text text_cmp ones true one_service waiting in
    let c2 = client_write_cb_identification_char ones true c1 in
    let c3 = client_write_cb_authentication_char ones true c2 in
    let c4 = client_write_cb_misc_char ones true c3 in
    (c4.ble_con_step ≡ wait_mldp_data)
    × (c4.quit ≡ false)
    × (c4.acts
        ≡ write_value cli.misc_char_handle (1 ∷ [])
          ∷ write_value cli.peripheral_authentication_char_handle (0 ∷ 0 ∷ 0 ∷ 0 ∷ [])
          ∷ write_value cli.central_identification_char_handle (0 ∷ 0 ∷ 0 ∷ 0 ∷ 0 ∷ 0 ∷ 0 ∷ 6 ∷ [])
          ∷ [])
handshake_lem_example = handshake_lem same_text text_cmp ones one_service waiting

abbrev machine : Machine
machine = record {
  ble_con_step = connected;
  end_of_state_machine = false;
  signal_received = false;
  fd = pos 0;
}

-- Every call succeeds but bind().
abbrev no_bind : Os
no_bind = record {
  open_dev = pos 3;
  set_scan_parameters = pos 0;
  scan_enable = pos 0;
  scan_disable = pos 0;
  getsockopt = pos 0;
  setsockopt = pos 0;
  reads = [];
  event_buf = [];
  create_conn = pos 0;
  str2ba = pos 0;
  devba = pos 0;
  socket = pos 5;
  bind = negsuc 0;
  security = pos 0;
  connect = pos 0;
  central_created = true;
  cond_init = pos 0;
  mutex_init = pos 0;
}

abbrev an_address : List ℕ → String
an_address six = "00:00:00:00:00:06"

connect_break_lem_example :
    main_round an_address "00:00:00:00:00:06" true no_bind machine
    ≡ loops (record machine { fd = l2cap_le_att_connect no_bind; ble_con_step = socket_open })
connect_break_lem_example =
    connect_break_lem an_address "00:00:00:00:00:06" true no_bind machine refl refl refl

-- A scan whose read fails.
abbrev failed_scan : Scanned
failed_scan = record { out_success = false; err = pos 1; machine = machine }

failed_scan-returned :
    scan_result an_address "00:00:00:00:00:06" 0 (pos 0) (pos 0) [] (failed ∷ []) machine
    ≡ returned failed_scan
unfolding scan_result scan_loop
failed_scan-returned = refl

scan_result_lem_example :
    (is_neg failed_scan.err ≡ false)
    × (failed_scan.out_success ≡ true → Seen an_address "00:00:00:00:00:06" 0 (failed ∷ []) [])
scan_result_lem_example =
    scan_result_lem an_address "00:00:00:00:00:06" 0 (pos 0) (pos 0) [] (failed ∷ []) machine
      failed_scan failed_scan-returned

abbrev no_bytes : Fifo
no_bytes = record { p_buff = 7 ∷ 0 ∷ 0 ∷ 0 ∷ []; buff_size = 3; read_pos = 0; write_pos = 0 }

no_bytes-IsValid : IsValid no_bytes
no_bytes-IsValid = record { sized = refl; small = omega arith; front = refl; filled = omega arith }

ones-AlwaysTakes : AlwaysTakes ones.bt_gatt_client_write_without_response 1 9
ones-AlwaysTakes b v e = omega arith
