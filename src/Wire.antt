-- ===== src/Wire.antt =====
-- The handlers that start_file_transfer of src/main.c gives to src/libe_kermit/unixio_rpi.c: kreadpkt
-- reads from the rx FIFO of the central and ktx_data writes to its tx FIFO.
pub mod Receive
pub mod Send
pub mod Engine
pub mod Silence
pub mod Timeout
pub mod Ending
mod Tests
use slate.Base.{ℕ, Option, none, some, List, ℤ, pos, negsuc, ◌-◌, ◌^◌}
use slate.Fifo.{Status, success, err, empty, full, not_enough_big}
use slate.Link.{Exit, exit_success, exit_failure}
use slate.Central.{
  Central, Host, Code, exit_code, fifo_code, ble_mldp_get_byte, ble_mldp_send_bytes,
}
use slate.UnixIo.Packet.{UnixioRpi}

abbrev pub exit_number : Exit → ℕ
exit_number exit_success = 0
exit_number exit_failure = 1

-- FIFO_SUCCESS is 0, and the errors are -1 to -4, as uint32_t.
abbrev pub status_number : Status → ℕ
status_number success = 0
status_number err = 2 ^ 32 - 1
status_number empty = 2 ^ 32 - 2
status_number full = 2 ^ 32 - 3
status_number not_enough_big = 2 ^ 32 - 4

abbrev pub code_number : Code → ℕ
code_number (exit_code e) = exit_number e
code_number (fifo_code s) = status_number s

module _ {ℓ} {B : Type ℓ} where
  abbrev pub got : Exit × Option ℕ × Central B → ℕ × Option ℕ × Central B
  got (e, byte, c) = (exit_number e, byte, c)

  -- Out of fuel, a failure.
  abbrev pub sent_code : Central B → Option (Code × Central B) → ℕ × Central B
  sent_code c none = (1, c)
  sent_code c (some (code, c')) = (code_number code, c')

  -- `wait` is what happens to the central during ft_wait_ms.
  unfoldable pub handlers : Host B → ℕ → (Central B → ℕ → Central B) → UnixioRpi (Central B)
  unfolding ble_mldp_get_byte ble_mldp_send_bytes
  handlers h stray wait = record {
    ble_mldp_send_bytes = some (λ c p n. sent_code c (ble_mldp_send_bytes h stray c (some p) n));
    ble_mldp_get_byte = some (λ c. got (ble_mldp_get_byte stray c));
    ft_wait_ms = some wait;
  }
