-- ===== src/Central/Create.antt =====
-- src/main.c, gatt_central_create: what is acquired for a connection, and what is given back when a call
-- fails.  What BlueZ (bluez_deps) and calloc return are arguments.
pub mod Ledger
mod Tests
use slate.Base.{Bool, true, false, List, [], ◌∷◌, if◌then◌else◌}

-- The structure, the transport, the two databases, the server and the client.
pub data Resource : Type 0 where
  central att db_c db_s server client : Resource

-- The functions that only set something.
pub data Setter : Type 0 where
  set_close_on_unref register_disconnect : Setter
  gatt_db_register ready_register set_service_changed populate_db : Setter

-- A call that creates a resource and whether it did, one that gives it back, or one that sets something.
pub data Call : Type 0 where
  create : Resource → Bool → Call
  release : Resource → Call
  sets : Setter → Call

-- What the calls return: `false` is NULL, or the failure of a setter.
pub record Results : Type 0 where
  pub new0 : Bool
  pub bt_att_new : Bool
  pub bt_att_set_close_on_unref : Bool
  pub bt_att_register_disconnect : Bool
  pub gatt_db_new_c : Bool
  pub gatt_db_new_s : Bool
  pub bt_gatt_server_new : Bool
  pub bt_gatt_client_new : Bool

-- Whether the result is not NULL, and the calls in order.
abbrev pub Created : Type 0
Created = Bool × List Call

abbrev pub then_calls : Call → Created → Created
then_calls c (ok, calls) = (ok, c ∷ calls)

-- bt_att_unref, free, and NULL.
abbrev pub give_up : Created
give_up = (false, release att ∷ release central ∷ [])

-- From bt_gatt_client_new on.
abbrev pub create_client : Results → Created
create_client r = then_calls (create client r.bt_gatt_client_new) (
    if r.bt_gatt_client_new
    then (
      true,
      sets gatt_db_register
          ∷ sets ready_register
          ∷ sets set_service_changed
          ∷ release db_c
          ∷ release db_s
          ∷ sets populate_db
          ∷ [],
    )
    else then_calls (release db_c) give_up)

-- From bt_gatt_server_new on.
abbrev pub create_server : Results → Created
create_server r =
    then_calls (create server r.bt_gatt_server_new)
      (if r.bt_gatt_server_new then create_client r else then_calls (release db_s) give_up)

-- From the first gatt_db_new on.
abbrev pub create_databases : Results → Created
create_databases r = then_calls (create db_c r.gatt_db_new_c) (
    then_calls (create db_s r.gatt_db_new_s)
      (if r.gatt_db_new_c then if r.gatt_db_new_s then create_server r else give_up else give_up))

-- With a transport.
abbrev pub set_up : Results → Created
set_up r = then_calls (sets set_close_on_unref) (
    if r.bt_att_set_close_on_unref
    then then_calls (sets register_disconnect)
        (if r.bt_att_register_disconnect then create_databases r else give_up)
    else give_up)

unfoldable pub gatt_central_create : Results → Created
gatt_central_create r = then_calls (create central r.new0) (
    if r.new0
    then then_calls (create att r.bt_att_new) (if r.bt_att_new then set_up r else give_up)
    else (false, []))
