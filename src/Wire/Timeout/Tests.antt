-- ===== src/Wire/Timeout/Tests.antt =====
-- kreadpkt near the end of a second, with a clock that is set by the waits.
use slate.Base.{
  ℕ, ap, ◌∙◌, ◌+◌, ◌*◌, ◌<◌, ◌≤◌, ◌≡◌, refl, arith, some, [], replicate, false, leb, if◌then◌else◌,
  pos,
}
use slate.Fifo.{Fifo}
use slate.Central.{Central, Host, file_transfer}
use slate.Central.Waiting.{Timespec, Clock}
use slate.UnixIo.Packet.{Params, start_locals, kreadpkt}
use slate.Wire.Timeout.{second, stamp, Timed, timed_handlers, time_after, kreadpkt_timeout}

abbrev until : Timespec → Timespec → Timespec
until ts now = if leb second ts.tv_nsec then now else ts

abbrev stepping : Clock Timespec
stepping = record { clock_gettime = λ now. now; pthread_cond_timedwait = until }

until_refused : (ts now : Timespec) → second ≤ ts.tv_nsec → until ts now ≡ now
until_refused ts now h = ground arith

until_slept : (ts now : Timespec) → ts.tv_nsec < second → until ts now ≡ ts
until_slept ts now h = ground arith

-- usleep on this clock.
abbrev advance : ℕ → Timespec → Timespec
advance us now = stamp (now.tv_sec * second + now.tv_nsec + 1000 * us)

advance_lem : (us n : ℕ) (now : Timespec) → now ≡ stamp n → advance us now ≡ stamp (n + 1000 * us)
advance_lem us n now e =
    ap (λ (x : Timespec). stamp (x.tv_sec * second + x.tv_nsec + 1000 * us)) e
    ∙ ap stamp (omega arith)

stepping-Timed : Timed stepping advance
stepping-Timed = record {
  refused = until_refused;
  slept = λ ts b h s n. until_slept ts b h;
  sleeps = advance_lem;
}

abbrev ones : Host Timespec
ones = record {
  bt_gatt_client_write_value = λ b handle v. (1, b);
  bt_gatt_client_write_without_response = λ b handle v. (1, b);
  pthread_create = λ b. (0, b);
}

abbrev params : Params
params = record { r_timo = 1; parity = 0; r_soh = 1; r_eom = 13; r_maxlen = 10 }

abbrev empty_fifo : Fifo
empty_fifo = record { p_buff = replicate 16 0; buff_size = 15; read_pos = 0; write_pos = 0 }

abbrev central : Central Timespec
central = record {
  ble_con_step = file_transfer;
  quit = false;
  cli = record {
    mldp_data_char_handle = 1;
    mldp_data_desc_handle = 2;
    mldp_ctrl_char_handle = 3;
    central_identification_char_handle = 4;
    peripheral_authentication_char_handle = 5;
    misc_char_handle = 6;
  };
  mldp_fifo_rx = empty_fifo;
  mldp_fifo_tx = empty_fifo;
  data_array = [];
  host = record { tv_sec = 7; tv_nsec = 965000000 };
  acts = [];
}

-- Two waits of ten milliseconds, then some of none up to the full second.
kreadpkt_timeout_example :
    ((c' : Central Timespec) × (kreadpkt
          (timed_handlers ones 9 stepping advance)
          params
          1
          120
          []
          central
        ≡ some (pos 0, start_locals [], c'))
      × (c'.host ≡ stamp (time_after 120 7965000000)))
    × (7965000000 + 250000 * 120 ≤ time_after 120 7965000000)
    × (time_after 120 7965000000 ≤ 7965000000 + 10250000 * 120)
kreadpkt_timeout_example =
    kreadpkt_timeout stepping advance stepping-Timed 9 ones params 0 120 7965000000 [] central
      (omega arith, omega arith) (omega arith)
      (record {
        ok = record {
          valid = record { filled = omega arith; front = refl; small = omega arith; sized = refl };
          small = omega arith;
        };
        bare = refl;
      })
      refl

-- The fourth poll takes no wait.
first_four : time_after 4 7965000000 ≡ 7996000000
unfolding time_after
first_four = refl
