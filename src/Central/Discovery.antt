-- ===== src/Central/Discovery.antt =====
-- src/main.c, the handles of the SLATE's characteristics: client_store_handle, client_parse_chrc,
-- get_handle_from_uuid and ready_cb.  The client database is the list of its services.
use slate.Base.{ℕ, ◌+◌, Bool, not, Option, none, some, List, [], ◌∷◌, ◌==◌, if◌then◌else◌, u16}
use slate.Central.{
  Central, Client, Host, sps_discovering, all_service_discovery_complete, write_ble_sps,
}
use Prim.Native.String.{String}

abbrev pub central_identification_characteristic_uuid : String
central_identification_characteristic_uuid = "00000000-0000-0000-4000-0000024e4553"

abbrev pub peripheral_authentication_characteristic_uuid : String
peripheral_authentication_characteristic_uuid = "00000000-0000-0000-4000-0000034e4553"

abbrev pub misc_characteristic_uuid : String
misc_characteristic_uuid = "00000000-0000-0000-4000-0000054e4553"

abbrev pub mldp_data_charac_uuid : String
mldp_data_charac_uuid = "00035b03-58e6-07dd-021a-08123a000301"

abbrev pub mldp_ctrl_charac_uuid : String
mldp_ctrl_charac_uuid = "00035b03-58e6-07dd-021a-08123a0003ff"

-- What gatt_db_attribute_get_char_data gives of a characteristic.
pub record Chrc {ℓ} (U : Type ℓ) : Type ℓ where
  pub value_handle : ℕ
  pub uuid : U

-- A service: whether gatt_db_attribute_get_service_data succeeds, and its characteristics, `none`
-- for one whose data cannot be read.
pub record Service {ℓ} (U : Type ℓ) : Type ℓ where
  pub has_data : Bool
  pub chrcs : List (Option (Chrc U))

-- `U` is bt_uuid_t; both functions are BlueZ's.
module _ {ℓ} {U : Type ℓ} (bt_string_to_uuid : String → U) (bt_uuid_cmp : U → U → ℕ) where
  -- The five tests in order, on the handles so far.
  unfoldable pub store_value : Chrc U → Client → Client
  store_value a cli =
      let is = λ (s : String). bt_uuid_cmp a.uuid (bt_string_to_uuid s) == 0 in
      let v = a.value_handle in
      let c1 =
        if is central_identification_characteristic_uuid
        then record cli { central_identification_char_handle = v }
        else cli in
      let c2 =
        if is peripheral_authentication_characteristic_uuid
        then record c1 { peripheral_authentication_char_handle = v }
        else c1 in
      let c3 = if is misc_characteristic_uuid then record c2 { misc_char_handle = v } else c2 in
      let c4 =
        if is mldp_data_charac_uuid
        then record c3 { mldp_data_char_handle = v; mldp_data_desc_handle = u16 (v + 1) }
        else c3 in
      if is mldp_ctrl_charac_uuid then record c4 { mldp_ctrl_char_handle = v } else c4

  module _ {ℓb} {B : Type ℓb} where
    unfoldable pub client_store_handle : Option (Chrc U) → Central B → Central B
    client_store_handle none c = record c { ble_con_step = sps_discovering }
    client_store_handle (some a) c = record c {
      ble_con_step = sps_discovering;
      cli = store_value a c.cli;
    }

    -- gatt_db_service_foreach_char
    unfoldable pub foreach_char : List (Option (Chrc U)) → Central B → Central B
    foreach_char [] c = c
    foreach_char (a ∷ as') c = foreach_char as' (client_store_handle a c)

    unfoldable pub client_parse_chrc : Service U → Central B → Central B
    client_parse_chrc s c = if not s.has_data then c else foreach_char s.chrcs c

    unfoldable pub get_handle_from_uuid : List (Service U) → Central B → Central B
    get_handle_from_uuid [] c = c
    get_handle_from_uuid (s ∷ ss) c = get_handle_from_uuid ss (client_parse_chrc s c)

    unfoldable pub ready_cb : Host B → Bool → List (Service U) → Central B → Central B
    ready_cb h success db c =
        if not success
        then c
        else write_ble_sps h
            (record (get_handle_from_uuid db c) { ble_con_step = all_service_discovery_complete })
