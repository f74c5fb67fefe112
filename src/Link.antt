-- ===== src/Link.antt =====
-- src/main.c, the bytes from the tx FIFO to the MLDP data characteristic: tx_fifo_send_bytes.
-- BlueZ (bluez_deps) is a parameter: a state and its bt_gatt_client_write_without_response, which
-- returns a request id, or 0 when the packet was not sent.
pub mod Inv
pub mod Send
mod Tests
use slate.Base.{
  ℕ, zero, suc, ◌+◌, ◌-◌, ◌*◌, min, Bool, Option, none, some, List, [], ◌∷◌, leb, ◌==◌,
  if◌then◌else◌, take,
}
use slate.Fifo.{Fifo, fifo_length, read_into}
use slate.Fifo

-- EXIT_SUCCESS and EXIT_FAILURE
pub data Exit : Type 0 where
  exit_success exit_failure : Exit

abbrev pub ble_mldp_max_data_len : ℕ
ble_mldp_max_data_len = 20

-- One call of bt_gatt_client_write_without_response: the value and the id that it returned.
pub record Packet : Type 0 where
  pub value : List ℕ
  pub id : ℕ

-- The locals of tx_fifo_send_bytes, its static array, the tx FIFO, BlueZ and the calls so far.
pub record Tx {ℓ} (B : Type ℓ) : Type ℓ where
  pub nb_readable_bytes : ℕ
  pub repeat_on_error_count : ℕ
  pub data_array : List ℕ
  pub fifo_tx : Fifo
  pub bluez : B
  pub calls : List Packet

-- A round of the loop returns or breaks, or goes on.
pub data Round {ℓ} (B : Type ℓ) : Type ℓ where
  stop : Exit → Tx B → Round B
  again : Tx B → Round B

module _ {ℓ} {B : Type ℓ} (write_without_response : B → ℕ → List ℕ → ℕ × B) (handle stray : ℕ) where
  -- From the call of BlueZ to the end of the round.
  unfoldable pub transmit : Tx B → ℕ → Round B
  transmit s len =
      let value = take len s.data_array in
      let (id, b) = write_without_response s.bluez handle value in
      let s' = record s { bluez = b; calls = record { value = value; id = id } ∷ s.calls } in
      if id == 0
      then if leb 3 s.repeat_on_error_count
        then stop exit_success s'
        else again (record s' { repeat_on_error_count = s.repeat_on_error_count + 1 })
      else again
          (record s' { repeat_on_error_count = 0; nb_readable_bytes = s.nb_readable_bytes - len })

  -- What follows `fifo_read` in a round, by its status.
  unfoldable pub fetched : Tx B → ℕ → Fifo.Status × Option (List ℕ) × ℕ × Fifo → Round B
  unfolding transmit
  fetched s length_to_send (Fifo.success, some bytes, n, p) =
      let s' = record s { data_array = bytes; fifo_tx = p } in
      if n == length_to_send then transmit s' n else stop exit_failure s'
  fetched s length_to_send (_, bytes, n, p) = stop exit_failure (record s { fifo_tx = p })

  unfoldable pub tx_round : Tx B → Round B
  unfolding transmit fetched
  tx_round s =
      let length_to_send = min s.nb_readable_bytes ble_mldp_max_data_len in
      if s.nb_readable_bytes == 0
      then stop exit_success s
      else if s.repeat_on_error_count == 0
      then fetched s length_to_send (read_into stray s.fifo_tx (some s.data_array) length_to_send)
      else transmit s length_to_send

  -- `none` means that the fuel ran out.
  unfoldable pub tx_loop : ℕ → Tx B → Option (Exit × Tx B)
  tx_loop zero s = none
  tx_loop (suc fuel) s = elim (tx_round s) [ stop e s' ↦ some (e, s') | again s' ↦ tx_loop fuel s' ]

  -- The fuel for `n` bytes: at most three refusals and one success for each packet.
  abbrev pub tx_fuel : ℕ → ℕ
  tx_fuel n = 4 * n + 4

  unfoldable pub tx_fifo_send_bytes : List ℕ → Fifo → B → Option (Exit × Tx B)
  unfolding tx_loop tx_round
  tx_fifo_send_bytes data_array p b = tx_loop (tx_fuel (fifo_length p)) (record {
    nb_readable_bytes = fifo_length p;
    repeat_on_error_count = 0;
    data_array = data_array;
    fifo_tx = p;
    bluez = b;
    calls = [];
  })
