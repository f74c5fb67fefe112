-- ===== src/Central/Handshake.antt =====
-- The SPS handshake with the SLATE: the order of the writes, and what a refused one does.
use slate.Base.{
  Bool, if◌then◌else◌, ℕ, true, false, ◌≡◌, refl, ap, ◌∙◌, Bool-cases, inl, inr, Option, none, some,
  List, [], ◌∷◌,
}
use slate.Central.{
  ConStep, Central, Host, scanning, wait_mldp_data, write_value, retry_scan, write_char,
  write_misc_char, write_authentication_char, write_identification_char, client_write_cb_misc_char,
  client_write_cb_authentication_char, client_write_cb_identification_char, write_ble_sps,
  ble_sps_ident_char_value, ble_sps_authen_char_value, ble_sps_misc_char_value, att_disconnect_cb,
}
use slate.Central.Discovery.{
  Chrc, Service, client_store_handle, foreach_char, client_parse_chrc, get_handle_from_uuid,
  ready_cb,
}
use Prim.Native.String.{String}

module _ {ℓ ℓb} {U : Type ℓ} {B : Type ℓb} (to_uuid : String → U) (cmp : U → U → ℕ) where
  foreach_char-acts :
      (as' : List (Option (Chrc U))) (c : Central B)
      → ((foreach_char to_uuid cmp as' c).acts ≡ c.acts)
        × ((foreach_char to_uuid cmp as' c).quit ≡ c.quit)
  unfolding foreach_char client_store_handle
  foreach_char-acts [] c = (refl, refl)
  foreach_char-acts (none ∷ as') c = foreach_char-acts as' (client_store_handle to_uuid cmp none c)
  foreach_char-acts (some a ∷ as') c =
      foreach_char-acts as' (client_store_handle to_uuid cmp (some a) c)

  client_parse_chrc-acts :
      (s : Service U) (c : Central B)
      → ((client_parse_chrc to_uuid cmp s c).acts ≡ c.acts)
        × ((client_parse_chrc to_uuid cmp s c).quit ≡ c.quit)
  unfolding client_parse_chrc
  client_parse_chrc-acts s c = elim (Bool-cases s.has_data) [
    | inl e ↦ rw e (foreach_char-acts s.chrcs c)
    | inr e ↦ rw e (refl, refl)
  ]

  -- Storing the handles asks nothing of the host.
  pub get_handle_from_uuid-acts :
      (db : List (Service U)) (c : Central B)
      → ((get_handle_from_uuid to_uuid cmp db c).acts ≡ c.acts)
        × ((get_handle_from_uuid to_uuid cmp db c).quit ≡ c.quit)
  unfolding get_handle_from_uuid
  get_handle_from_uuid-acts [] c = (refl, refl)
  get_handle_from_uuid-acts (s ∷ ss) c =
      let here = client_parse_chrc-acts s c in
      let rest = get_handle_from_uuid-acts ss (client_parse_chrc to_uuid cmp s c) in
      (rest.0 ∙ here.0, rest.1 ∙ here.1)

  module _ (h : Host B) where
    -- When ready_cb succeeds and the writes of identification, authentication and misc are confirmed in
    -- turn, whatever request ids the host gives, the central waits for MLDP data, its mainloop goes on,
    -- and exactly these three values were written, in that order, to the handles that were found.
    pub handshake_lem :
        (db : List (Service U)) (c : Central B)
        → let cli = (get_handle_from_uuid to_uuid cmp db c).cli in
          let c1 = ready_cb to_uuid cmp h true db c in
          let c2 = client_write_cb_identification_char h true c1 in
          let c3 = client_write_cb_authentication_char h true c2 in
          let c4 = client_write_cb_misc_char h true c3 in
          (c4.ble_con_step ≡ wait_mldp_data)
          × (c4.quit ≡ c.quit)
          × (c4.acts
              ≡ write_value cli.misc_char_handle ble_sps_misc_char_value
                ∷ write_value cli.peripheral_authentication_char_handle ble_sps_authen_char_value
                ∷ write_value cli.central_identification_char_handle ble_sps_ident_char_value
                ∷ c.acts)
    unfolding ready_cb client_write_cb_misc_char client_write_cb_authentication_char
        client_write_cb_identification_char write_ble_sps write_misc_char write_authentication_char
        write_identification_char write_char
    handshake_lem db c =
        let kept = get_handle_from_uuid-acts db c in
        let cli = (get_handle_from_uuid to_uuid cmp db c).cli in
        (
          refl,
          kept.1,
          ap
              (λ as'.
                write_value cli.misc_char_handle ble_sps_misc_char_value
                ∷ write_value cli.peripheral_authentication_char_handle ble_sps_authen_char_value
                ∷ write_value cli.central_identification_char_handle ble_sps_ident_char_value
                ∷ as')
              kept.0,
        )

-- A refused write, whichever of the three it is, and a disconnection stop the mainloop and go back to
-- the scan.  A confirmed write never stops it; the last one goes to BLE_WAIT_MLDP_DATA, and the other
-- two leave the step as it was.
pub failure_restarts_scan {ℓ} :
    {B : Type ℓ} (h : Host B) (success : Bool) (c : Central B)
    → let After = λ (next : ConStep) (c' : Central B).
      (c'.ble_con_step ≡ (if success then next else scanning))
      × (c'.quit ≡ (if success then c.quit else true)) in
      After c.ble_con_step (client_write_cb_identification_char h success c)
      × After c.ble_con_step (client_write_cb_authentication_char h success c)
      × After wait_mldp_data (client_write_cb_misc_char h success c)
      × ((att_disconnect_cb c).ble_con_step ≡ scanning)
      × ((att_disconnect_cb c).quit ≡ true)
unfolding client_write_cb_misc_char client_write_cb_authentication_char
    client_write_cb_identification_char write_misc_char write_authentication_char write_char
    retry_scan att_disconnect_cb
failure_restarts_scan h true c = ((refl, refl), (refl, refl), (refl, refl), refl, refl)
failure_restarts_scan h false c = ((refl, refl), (refl, refl), (refl, refl), refl, refl)
