-- ===== src/Central/Transmit.antt =====
-- ble_mldp_send_bytes: what the transfer thread sends goes out to the SLATE.
use slate.Base.{ℕ, ◌≤◌, min, ◌≡◌, refl, ap, ◌∙◌, true, some, List, [], ◌++◌, arith, length, take}
use slate.Fifo.{Fifo, write_from, mldp_rx_buff_size}
use slate.Fifo
use slate.Fifo.Inv.{IsValid}
use slate.Fifo.Refine.{contents, capacity}
use slate.Fifo.Bulk.{write_lem}
use slate.Link.{exit_success, Packet, tx_fifo_send_bytes}
use slate.Link.Inv.{sent, AllSmall, AllTaken, AlwaysTakes}
use slate.Link.Send.{all_bytes_sent}
use slate.Central.{
  Central, Host, exit_code, file_transfer, is_file_transfer, logged, sent_bytes, queued,
  ble_mldp_send_bytes,
}

module _ {ℓ} {B : Type ℓ} (h : Host B) (stray : ℕ) where
  -- After fifo_write took the bytes.
  queued-success :
      (c : Central B) (w : Fifo.Status × ℕ × Fifo)
      → w.0 ≡ Fifo.success
      → queued h stray c w
        ≡ sent_bytes h stray c (
            tx_fifo_send_bytes h.bt_gatt_client_write_without_response c.cli.mldp_data_char_handle
              stray c.data_array w.2 c.host)
  queued-success c (s, n, tx) e = rw (e, queued) refl

  -- In BLE_FILE_TRANSFER, when the tx FIFO is empty and BlueZ refuses nothing, ble_mldp_send_bytes
  -- returns EXIT_SUCCESS, the bytes go out in order in packets of 1 to 20 bytes, as many as the FIFO
  -- takes, and the tx FIFO is empty again.
  pub send_bytes_lem :
      (c : Central B) (bytes : List ℕ) (size : ℕ)
      → c.ble_con_step ≡ file_transfer
      → IsValid c.mldp_fifo_tx
      → capacity c.mldp_fifo_tx ≤ mldp_rx_buff_size
      → contents c.mldp_fifo_tx ≡ []
      → length c.data_array ≡ 20
      → size ≤ length bytes
      → AlwaysTakes h.bt_gatt_client_write_without_response c.cli.mldp_data_char_handle stray
      → (c' : Central B) × (calls : List Packet) × (ble_mldp_send_bytes h stray c (some bytes) size
          ≡ some (exit_code exit_success, c'))
        × (c'.acts ≡ logged calls c.acts)
        × (sent calls ≡ take (min size (capacity c.mldp_fifo_tx)) bytes)
        × AllSmall calls
        × AllTaken calls
        × (contents c'.mldp_fifo_tx ≡ [])
  unfolding ble_mldp_send_bytes
  send_bytes_lem c bytes size step valid small bare array fits takes =
      let w = write_from stray c.mldp_fifo_tx (some bytes) size in
      let (count, app, valid', kept, status) =
        write_lem stray c.mldp_fifo_tx bytes size valid small fits in
      let none_yet : length (contents c.mldp_fifo_tx) ≡ 0 = ap length bare in
      let done : w.0 ≡ Fifo.success = ground arith in
      let (out, run, all, empty, packets, taken) =
        all_bytes_sent h.bt_gatt_client_write_without_response c.cli.mldp_data_char_handle stray
          c.data_array w.2 c.host valid' array takes in
      let c' = record c {
        mldp_fifo_tx = out.fifo_tx;
        data_array = out.data_array;
        host = out.bluez;
        acts = logged out.calls c.acts;
      } in
      let on : is_file_transfer c.ble_con_step ≡ true = ap is_file_transfer step in
      let n : w.1 ≡ min size (capacity c.mldp_fifo_tx) = omega arith in
      (
        c',
        out.calls,
        rw on (queued-success c w done ∙ ap (sent_bytes h stray c) run),
        refl,
        all ∙ app ∙ ap (λ l. l ++ take w.1 bytes) bare ∙ ap (λ k. take k bytes) n,
        packets,
        taken,
        empty,
      )
