-- ===== src/Central/Create/Tests.antt =====
-- The server is refused.
use slate.Base.{◌≡◌, true, false}
use slate.Central.Create.{central, att, db_c, db_s, Results, gatt_central_create}
use slate.Central.Create.Ledger.{released, create_lem}

abbrev no_server : Results
no_server = record {
  new0 = true;
  bt_att_new = true;
  bt_att_set_close_on_unref = true;
  bt_att_register_disconnect = true;
  gatt_db_new_c = true;
  gatt_db_new_s = true;
  bt_gatt_server_new = false;
  bt_gatt_client_new = true;
}

create_lem_example :
    let (ok, calls) = gatt_central_create no_server in
    (ok ≡ false)
    × (released central calls ≡ 1)
    × (released att calls ≡ 1)
    × (released db_c calls ≡ 0)
    × (released db_s calls ≡ 1)
create_lem_example = create_lem no_server
