-- ===== src/Central/Main/Tests.antt =====
-- Four rounds of main with reports of twenty bytes.
use slate.Base.{ℕ, true, false, ◌≡◌, refl, List, [], ◌∷◌, replicate, pos}
use slate.Adv.{unknown, eir_parse_name, fields_loop, slate_research}
use slate.Fifo.{Fifo}
use slate.Central.{not_started, scanning, socket_open, Central, Host, join_thread}
use slate.Central.Mainloop.{Callback, misc_written, disconnected, mainloop_run}
use slate.Central.Main.Callbacks.{mainloop, Quits, sessions_served}
use slate.Central.Scan.{Machine, Os, bytes}
use slate.Central.Main.{running, main}
use slate.Central.Main.Sessions.{Works}
use Prim.Native.String.{String}

abbrev started : Machine
started = record {
  ble_con_step = not_started;
  end_of_state_machine = false;
  signal_received = false;
  fd = pos 0;
}

-- The event code, the subevent 2 at index 3, and a report without fields.
abbrev report : List ℕ
report = 4 ∷ 62 ∷ 12 ∷ 2 ∷ replicate 16 0

abbrev good : Os
good = record {
  open_dev = pos 3;
  set_scan_parameters = pos 0;
  scan_enable = pos 0;
  scan_disable = pos 0;
  getsockopt = pos 0;
  setsockopt = pos 0;
  reads = bytes report ∷ [];
  event_buf = replicate 20 0;
  create_conn = pos 0;
  str2ba = pos 0;
  devba = pos 0;
  socket = pos 5;
  bind = pos 0;
  security = pos 0;
  connect = pos 0;
  central_created = true;
  cond_init = pos 0;
  mutex_init = pos 0;
}

abbrev an_address : List ℕ → String
an_address six = "00:00:00:00:00:06"

good-Works : Works an_address "00:00:00:00:00:06" true good
unfolding eir_parse_name fields_loop slate_research
good-Works = record {
  opens = refl;
  parameters = refl;
  enables = refl;
  disables = refl;
  gets = refl;
  sets = refl;
  event = report;
  later = [];
  reads = refl;
  subevent = refl;
  name = unknown;
  parsed = refl;
  slate = (refl, refl);
  creates = refl;
  address = refl;
  adapter = refl;
  socket = refl;
  binds = refl;
  secures = refl;
  connects = refl;
  central = refl;
  condition = refl;
  mutex = refl;
}

abbrev ones : Host ℕ
ones = record {
  bt_gatt_client_write_value = λ b handle v. (1, b);
  bt_gatt_client_write_without_response = λ b handle v. (1, b);
  pthread_create = λ b. (0, b);
}

abbrev four_bytes : Fifo
four_bytes = record { p_buff = replicate 4 0; buff_size = 3; read_pos = 0; write_pos = 0 }

abbrev opened : Machine → Central ℕ
opened m = record {
  ble_con_step = socket_open;
  quit = false;
  cli = record {
    mldp_data_char_handle = 1;
    mldp_data_desc_handle = 2;
    mldp_ctrl_char_handle = 3;
    central_identification_char_handle = 4;
    peripheral_authentication_char_handle = 5;
    misc_char_handle = 6;
  };
  mldp_fifo_rx = four_bytes;
  mldp_fifo_tx = four_bytes;
  data_array = [];
  host = 0;
  acts = [];
}

-- The last write of the handshake is confirmed, and the SLATE disconnects.
abbrev short : Machine → List (Callback String)
short m = misc_written true ∷ disconnected ∷ []

abbrev same_text : String → String
same_text s = s

abbrev no_uuid : String → String → ℕ
no_uuid a b = 1

short-Quits : (m : Machine) → Quits same_text no_uuid ones 9 opened short m
unfolding mainloop_run
short-Quits m = record {
  runs = refl;
  last = record (opened m) { ble_con_step = scanning; quit = true; acts = join_thread ∷ [] };
  returned = refl;
  quit = refl;
}

sessions_served_example :
    (m' : Machine) × (main
        (mainloop same_text no_uuid ones 9 opened short)
        an_address
        "00:00:00:00:00:06"
        true
        true
        true
        (replicate 4 good)
        started
      ≡ (1, running m'))
    × (m'.ble_con_step ≡ scanning)
sessions_served_example =
    sessions_served same_text no_uuid ones 9 opened short an_address "00:00:00:00:00:06" true
      short-Quits 1 (replicate 4 good) started
      (good-Works, (good-Works, (good-Works, (good-Works, tt)))) refl refl
