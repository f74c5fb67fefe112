-- ===== src/Wire/Send.antt =====
-- What ktx_data sends goes out to the SLATE.
use slate.Base.{ℕ, ◌≤◌, ◌≡◌, refl, ◌∙◌, List, [], arith, length, take_all}
use slate.Fifo.{mldp_rx_buff_size}
use slate.Fifo.Inv.{IsValid}
use slate.Fifo.Refine.{contents, capacity}
use slate.Link.{Packet}
use slate.Link.Inv.{sent, AllSmall, AllTaken, AlwaysTakes}
use slate.Central.{Central, Host, file_transfer, logged}
use slate.Central.Transmit.{send_bytes_lem}
use slate.UnixIo.Packet.{x_ok, ktx_data}
use slate.Wire.{handlers}

module _ {ℓ} {B : Type ℓ} (h : Host B) (stray : ℕ) (wait : Central B → ℕ → Central B) where
  -- During a transfer, with an empty tx FIFO and a BlueZ that refuses nothing, ktx_data of bytes that
  -- the FIFO can hold returns X_OK, all of them go out in order in packets of 1 to 20 bytes, and the
  -- tx FIFO is empty again.
  pub ktx_data_lem :
      (c : Central B) (bytes : List ℕ)
      → c.ble_con_step ≡ file_transfer
      → IsValid c.mldp_fifo_tx
      → capacity c.mldp_fifo_tx ≤ mldp_rx_buff_size
      → contents c.mldp_fifo_tx ≡ []
      → length c.data_array ≡ 20
      → length bytes ≤ capacity c.mldp_fifo_tx
      → AlwaysTakes h.bt_gatt_client_write_without_response c.cli.mldp_data_char_handle stray
      → (c' : Central B) × (calls : List Packet) × (ktx_data
            (handlers h stray wait)
            bytes
            (length bytes)
            c
          ≡ (x_ok, c'))
        × (c'.acts ≡ logged calls c.acts)
        × (sent calls ≡ bytes)
        × AllSmall calls
        × AllTaken calls
        × (contents c'.mldp_fifo_tx ≡ [])
  unfolding ktx_data handlers
  ktx_data_lem c bytes step valid small bare array fits takes =
      let (c', calls, run, acts, all, packets, taken, left) =
        send_bytes_lem h stray c bytes (length bytes) step valid small bare array (omega arith)
          takes in
      (c', calls, rw run refl, acts, all ∙ take_all _ bytes (omega arith), packets, taken, left)
