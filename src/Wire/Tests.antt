-- ===== src/Wire/Tests.antt =====
-- The packet "BC" behind a byte of noise goes through the FIFOs of a central of 16 bytes.
use slate.Base.{
  ◌≢◌, none, ℕ, false, true, ◌≡◌, refl, arith, some, List, [], ◌∷◌, ◌++◌, ◌==◌, length, replicate,
  take, pos,
}
use slate.Fifo.{Fifo}
use slate.Fifo.Refine.{contents}
use slate.Link.{Packet}
use slate.Link.Inv.{sent, AllSmall, AllTaken}
use slate.Central.{
  ConStep, Central, Host, returns, wait_mldp_data, file_transfer, server_mldp_data_char_write_cb,
  logged,
}
use slate.Central.Receive.{RxOk}
use slate.UnixIo.Packet.{x_ok, Params, Locals, kreadpkt, ktx_data}
use slate.Wire.{handlers}
use slate.Wire.Receive.{IsPacket, packet_read, first_packet_read}
use slate.Wire.Send.{ktx_data_lem}
use slate.Wire.Engine.{Slots, on_link}
use slate.Wire.Ending.{Patient, ft_task_silent}
use slate.Kermit.{
  Engine, Fc, k_init, k_run, k_error, k_send, k_get, k_dir, k_reinit, x_ok as kermit_ok, finished,
}
use slate.Transfer.{Ft, not_initialized, client, other_type}
use slate.Transfer.Task
use slate.Transfer.Task.{ft_task}

abbrev ones : Host ℕ
ones = record {
  bt_gatt_client_write_value = λ b handle v. (1, b);
  bt_gatt_client_write_without_response = λ b handle v. (1, b);
  pthread_create = λ b. (0, b);
}

abbrev no_wait : Central ℕ → ℕ → Central ℕ
no_wait c ms = c

abbrev params : Params
params = record { r_timo = 1; parity = 0; r_soh = 1; r_eom = 13; r_maxlen = 10 }

abbrev held : List ℕ → Fifo
held bytes = record {
  p_buff = take 16 (bytes ++ replicate 16 0);
  buff_size = 15;
  read_pos = 0;
  write_pos = length bytes;
}

abbrev central : ConStep → List ℕ → Central ℕ
central step rx = record {
  ble_con_step = step;
  quit = false;
  cli = record {
    mldp_data_char_handle = 1;
    mldp_data_desc_handle = 2;
    mldp_ctrl_char_handle = 3;
    central_identification_char_handle = 4;
    peripheral_authentication_char_handle = 5;
    misc_char_handle = 6;
  };
  mldp_fifo_rx = held rx;
  mldp_fifo_tx = held [];
  data_array = replicate 20 0;
  host = 0;
  acts = [];
}

packet-IsPacket : IsPacket params (65 ∷ []) (66 ∷ 67 ∷ []) 1 13
packet-IsPacket = record {
  no_cmd = λ e. omega arith;
  noisy = (λ e. omega arith, tt);
  starts = refl;
  plain = (
    (omega arith, λ e. omega arith, λ e. omega arith),
    ((omega arith, λ e. omega arith, λ e. omega arith), tt),
  );
  ends = refl;
  apart = λ e. omega arith;
  short = omega arith;
}

-- Two bytes follow the packet.
packet_read_example :
    let c = central file_transfer (65 ∷ 1 ∷ 66 ∷ 67 ∷ 13 ∷ 7 ∷ 8 ∷ []) in
    (t : Locals) × (c' : Central ℕ) × (kreadpkt
        (handlers ones 9 no_wait)
        params
        5
        120
        (replicate 8 0)
        c
      ≡ some (pos 2, t, c'))
    × (take 3 t.buff ≡ (66 ∷ 67 ∷ []) ++ (0 ∷ []))
    × RxOk c'.mldp_fifo_rx
    × (contents c'.mldp_fifo_rx ≡ 7 ∷ 8 ∷ [])
packet_read_example =
    packet_read ones 9 no_wait params (65 ∷ []) (66 ∷ 67 ∷ []) 1 13 (7 ∷ 8 ∷ []) (replicate 8 0) 5
      120 (central file_transfer (65 ∷ 1 ∷ 66 ∷ 67 ∷ 13 ∷ 7 ∷ 8 ∷ [])) (λ c ms. refl)
      (omega arith, omega arith) packet-IsPacket
      (record {
        valid = record { filled = omega arith; front = refl; small = omega arith; sized = refl };
        small = omega arith;
      })
      refl (omega arith) (omega arith) (omega arith)

first_packet_read_example :
    let written : List ℕ = 65 ∷ 1 ∷ 66 ∷ 67 ∷ 13 ∷ [] in
    (c1 : Central ℕ) × (t : Locals) × (c2 : Central ℕ) × (server_mldp_data_char_write_cb ones 9 true
        3 0
        (some written)
        5
        (central wait_mldp_data [])
      ≡ returns c1)
    × (kreadpkt (handlers ones 9 no_wait) params 5 120 (replicate 8 0) c1 ≡ some (pos 2, t, c2))
    × (take 3 t.buff ≡ (66 ∷ 67 ∷ []) ++ (0 ∷ []))
    × (contents c2.mldp_fifo_rx ≡ [])
first_packet_read_example =
    first_packet_read ones 9 no_wait params (65 ∷ []) (66 ∷ 67 ∷ []) 1 13 3 (replicate 8 0) 5 120
      (central wait_mldp_data []) (λ c ms. refl) (omega arith, omega arith) packet-IsPacket
      (record {
        valid = record { filled = omega arith; front = refl; small = omega arith; sized = refl };
        small = omega arith;
      })
      refl refl (omega arith) (omega arith) (omega arith) (omega arith)

ktx_data_lem_example :
    (c' : Central ℕ) × (calls : List Packet) × (ktx_data
        (handlers ones 9 no_wait)
        (1 ∷ 2 ∷ [])
        2
        (central file_transfer [])
      ≡ (x_ok, c'))
    × (c'.acts ≡ logged calls [])
    × (sent calls ≡ 1 ∷ 2 ∷ [])
    × AllSmall calls
    × AllTaken calls
    × (contents c'.mldp_fifo_tx ≡ [])
ktx_data_lem_example =
    ktx_data_lem ones 9 no_wait (central file_transfer []) (1 ∷ 2 ∷ []) refl
      (record { filled = omega arith; front = refl; small = omega arith; sized = refl })
      (omega arith) refl refl (omega arith) (λ b v e. omega arith)

-- `k->what` after a call: K_REINIT waits for a packet, with W_RECV; K_SEND, K_GET and K_DIR do not.
abbrev what_after : Fc → ℕ → ℕ
what_after k_init what = what
what_after k_run what = what
what_after k_error what = what
what_after k_send what = 1
what_after k_get what = 2
what_after k_dir what = 3
what_after k_reinit what = 0

-- An E-Kermit whose state is `k->what`, and which reads packets where it is W_RECV only.
abbrev patient : Engine (ℕ × Central ℕ) ℕ
patient = record {
  kermit = λ fc n (k, c). (kermit_ok, (what_after fc k, c));
  ok2rxd = λ e. (e.0 == 0, e);
  rxd = λ e. (pos 7, e);
  configure = λ s e. e;
  set_filelist = λ fs e. e;
  set_type = λ t e. e;
  retry = λ e. 2;
  nresend = λ e. 0;
  r_type = λ e. 3;
  r_arg = λ e. 0;
  r_dir = λ e. 0;
  kclosefile = λ e. e;
}

abbrev slots : Slots ℕ
slots = record { params = λ k. params; slot = λ k. replicate 8 0; fill = λ buff k. k }

abbrev IsReceiver : ℕ × Central ℕ → Type 0
IsReceiver e = e.0 ≡ 0

patient-Patient : Patient slots patient IsReceiver IsReceiver 4 120
patient-Patient = record {
  kermit_kept = λ fc n e. refl;
  ok2rxd_kept = λ e. refl;
  configure_kept = λ e path. refl;
  set_filelist_kept = λ e. refl;
  set_type_kept = λ e. refl;
  begins = λ e ok. refl;
  slot = λ e w. (rw w refl, w);
  unread = λ k c c' buff w. w;
  retries = λ e w. (refl, w);
  limited = λ e w. omega arith;
  time = λ k c w. (omega arith, omega arith);
  polls = λ k c w. omega arith;
}

abbrev at_start : Ft (ℕ × Central ℕ)
at_start = record {
  state = not_initialized;
  mode = client;
  ft_rp = none;
  ft_priv = false;
  k = (0, central file_transfer []);
}

ft_task_silent_example :
    (t : Task.Locals (ℕ × Central ℕ)) × (ft_task
        (on_link ones 9 no_wait slots patient 1 120)
        1
        4
        other_type
        at_start
      ≡ finished t)
    × (t.err ≢ 0)
    × (t.ft.state ≡ not_initialized)
ft_task_silent_example =
    ft_task_silent slots patient ones 9 no_wait (λ c ms. refl) IsReceiver IsReceiver 4 0 120
      patient-Patient 0 other_type at_start refl
      (record {
        ok = record {
          valid = record { filled = omega arith; front = refl; small = omega arith; sized = refl };
          small = omega arith;
        };
        bare = refl;
      })
