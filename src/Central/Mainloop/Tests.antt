-- ===== src/Central/Mainloop/Tests.antt =====
-- A handshake, the first data and a disconnection.
use slate.Base.{ℕ, ◌+◌, ◌≤◌, ◌≡◌, refl, true, false, some, List, [], ◌∷◌, if◌then◌else◌, replicate}
use slate.Fifo.{Fifo, flush, write_from}
use slate.Central.{
  Central, Host, returns, scanning, socket_open, create_thread, join_thread, write_result,
  write_value, write_ble_sps, write_identification_char, write_char, write_authentication_char,
  write_misc_char, receive, start_file_transfer, fifos_flush,
}
use slate.Central.Discovery.{get_handle_from_uuid}
use slate.Central.Mainloop.{
  Callback, ready, identification_written, authentication_written, misc_written, data_written,
  disconnected, mainloop_run,
}
use slate.Central.Mainloop.Threads.{threads, mainloop_lem}
use text.Mathlib.Text.{◌==◌ as str_eq}
use Prim.Native.String.{String}

abbrev ones : Host ℕ
ones = record {
  bt_gatt_client_write_value = λ b handle v. (1, b);
  bt_gatt_client_write_without_response = λ b handle v. (1, b);
  pthread_create = λ b. (0, b);
}

abbrev four_bytes : Fifo
four_bytes = record { p_buff = replicate 4 0; buff_size = 3; read_pos = 0; write_pos = 0 }

abbrev opened : Central ℕ
opened = record {
  ble_con_step = socket_open;
  quit = false;
  cli = record {
    mldp_data_char_handle = 1;
    mldp_data_desc_handle = 2;
    mldp_ctrl_char_handle = 3;
    central_identification_char_handle = 4;
    peripheral_authentication_char_handle = 5;
    misc_char_handle = 6;
  };
  mldp_fifo_rx = four_bytes;
  mldp_fifo_tx = four_bytes;
  data_array = [];
  host = 0;
  acts = [];
}

abbrev same_text : String → String
same_text s = s

abbrev text_cmp : String → String → ℕ
text_cmp a b = if str_eq a b then 0 else 1

abbrev session : List (Callback String)
session =
    ready true []
    ∷ identification_written true
    ∷ authentication_written true
    ∷ misc_written true
    ∷ data_written true 3 0 (some (7 ∷ [])) 1
    ∷ disconnected
    ∷ []

abbrev closed : Central ℕ
closed = record opened {
  ble_con_step = scanning;
  quit = true;
  mldp_fifo_rx = (write_from 9 (flush four_bytes).1 (some (7 ∷ [])) 1).2;
  mldp_fifo_tx = (flush four_bytes).1;
  acts =
      join_thread
      ∷ write_result 3 0
      ∷ create_thread
      ∷ write_value 6 (1 ∷ [])
      ∷ write_value 5 (0 ∷ 0 ∷ 0 ∷ 0 ∷ [])
      ∷ write_value 4 (0 ∷ 0 ∷ 0 ∷ 0 ∷ 0 ∷ 0 ∷ 0 ∷ 6 ∷ [])
      ∷ [];
}

session-closed : mainloop_run same_text text_cmp ones 9 session opened ≡ returns closed
unfolding mainloop_run write_ble_sps write_identification_char write_char get_handle_from_uuid
    write_authentication_char write_misc_char receive start_file_transfer fifos_flush
session-closed = refl

mainloop_lem_example :
    (closed.quit ≡ true → closed.ble_con_step ≡ scanning) × (threads closed.acts ≤ 0 + 0 + 1)
mainloop_lem_example =
    mainloop_lem ones 9 same_text text_cmp session opened closed refl session-closed
