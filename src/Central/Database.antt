-- ===== src/Central/Database.antt =====
-- src/main.c, populate_mldp_service and populate_db: the MLDP service that this side offers to the SLATE.
-- The database of BlueZ (bluez_deps/src/shared/gatt-db.c) is a parameter, `GattDb`; a pointer to an
-- attribute is an Option, `none` for NULL.
pub mod Handles
mod Tests
use slate.Base.{ℕ, ◌+◌, Bool, true, false, Option, none, some, List, [], ◌∷◌}

abbrev pub mldp_service_uuid : List ℕ
mldp_service_uuid =
    0x00 ∷ 0x03 ∷ 0x5b ∷ 0x03 ∷ 0x58 ∷ 0xe6 ∷ 0x07 ∷ 0xdd ∷ 0x02 ∷ 0x1a ∷ 0x08 ∷ 0x12 ∷ 0x3a ∷ 0x00
    ∷ 0x03 ∷ 0x00 ∷ []

abbrev pub mldp_data_char_uuid : List ℕ
mldp_data_char_uuid =
    0x00 ∷ 0x03 ∷ 0x5b ∷ 0x03 ∷ 0x58 ∷ 0xe6 ∷ 0x07 ∷ 0xdd ∷ 0x02 ∷ 0x1a ∷ 0x08 ∷ 0x12 ∷ 0x3a ∷ 0x00
    ∷ 0x03 ∷ 0x01 ∷ []

abbrev pub mldp_ctrl_char_uuid : List ℕ
mldp_ctrl_char_uuid =
    0x00 ∷ 0x03 ∷ 0x5b ∷ 0x03 ∷ 0x58 ∷ 0xe6 ∷ 0x07 ∷ 0xdd ∷ 0x02 ∷ 0x1a ∷ 0x08 ∷ 0x12 ∷ 0x3a ∷ 0x00
    ∷ 0x03 ∷ 0xff ∷ []

abbrev pub gatt_client_charac_cfg_uuid : ℕ
gatt_client_charac_cfg_uuid = 0x2902

-- What bt_uuid128_create and bt_uuid16_create leave in a bt_uuid_t.
pub data Uuid : Type 0 where
  uuid128 : List ℕ → Uuid
  uuid16 : ℕ → Uuid

-- The write callback of an attribute: the program has one, server_mldp_data_char_write_cb.
pub data Writer : Type 0 where
  mldp_data_write_cb : Writer

-- BT_ATT_PERM_READ | BT_ATT_PERM_WRITE
abbrev pub read_write : ℕ
read_write = 0x01 + 0x02

-- READ, WRITE, WRITE_WITHOUT_RESP, INDICATE and NOTIFY of BT_GATT_CHRC_PROP
abbrev pub data_props : ℕ
data_props = 0x02 + 0x08 + 0x04 + 0x20 + 0x10

-- READ, WRITE and WRITE_WITHOUT_RESP
abbrev pub ctrl_props : ℕ
ctrl_props = 0x02 + 0x08 + 0x04

-- The functions of the database on its state `D`, with attributes `A`.  A characteristic has
-- permissions, properties and a write callback, a descriptor permissions; each is of a service.
pub record GattDb {ℓ} (D : Type ℓ) (A : Type ℓ) : Type ℓ where
  pub gatt_db_add_service : D → Uuid → Bool → ℕ → Option A × D
  pub gatt_db_attribute_get_handle : Option A → ℕ
  pub gatt_db_service_add_characteristic :
      Option A → Uuid → ℕ → ℕ → Option Writer → D → Option A × D
  pub gatt_db_service_add_descriptor : Option A → Uuid → ℕ → Option Writer → D → Option A × D
  pub gatt_db_service_set_active : Option A → Bool → D → D

-- The members of `struct server` that say where the service stands.
pub record Server {ℓ} (A : Type ℓ) : Type ℓ where
  pub mldp_data_char_attr : Option A
  pub mldp_ctrl_char_attr : Option A
  pub mldp_service_handle : ℕ
  pub mldp_data_char_handle : ℕ
  pub mldp_data_desc_handle : ℕ
  pub mldp_ctrl_char_handle : ℕ

-- `srv` and `db_s` of the central.
module _ {ℓ} {D : Type ℓ} {A : Type ℓ} (g : GattDb D A) where
  -- From the control characteristic on.
  unfoldable pub add_ctrl : Option A → Server A → D → Server A × D
  add_ctrl service srv db =
      let (attr, db') =
        g.gatt_db_service_add_characteristic service (uuid128 mldp_ctrl_char_uuid) read_write
          ctrl_props none db in
      (
        record srv {
          mldp_ctrl_char_handle = g.gatt_db_attribute_get_handle attr;
          mldp_ctrl_char_attr = attr;
        },
        g.gatt_db_service_set_active service true db',
      )

  -- From the data characteristic on.
  unfoldable pub add_data : Option A → Server A → D → Server A × D
  unfolding add_ctrl
  add_data service srv db =
      let (attr, db1) =
        g.gatt_db_service_add_characteristic service (uuid128 mldp_data_char_uuid) read_write
          data_props (some mldp_data_write_cb) db in
      let (_, db2) =
        g.gatt_db_service_add_descriptor service (uuid16 gatt_client_charac_cfg_uuid) read_write
          none db1 in
      add_ctrl service
        (record srv {
          mldp_data_char_handle = g.gatt_db_attribute_get_handle attr;
          mldp_data_char_attr = attr;
        })
        db2

  unfoldable pub populate_mldp_service : Server A → D → Server A × D
  unfolding add_data
  populate_mldp_service srv db =
      let (service, db') = g.gatt_db_add_service db (uuid128 mldp_service_uuid) true 8 in
      add_data service (record srv { mldp_service_handle = g.gatt_db_attribute_get_handle service })
        db'

  unfoldable pub populate_db : Server A → D → Server A × D
  unfolding populate_mldp_service
  populate_db srv db = populate_mldp_service srv db
