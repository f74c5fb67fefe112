-- ===== src/Central/Create/Ledger.antt =====
-- What gatt_central_create gives back of what it acquired.
use slate.Base.{ℕ, suc, ◌≡◌, refl, Bool, true, false, ◌&&◌, ◌||◌, not, List, [], ◌∷◌, if◌then◌else◌}
use slate.Central.Create.{
  Resource, central, att, db_c, db_s, server, client, Call, release, Results, gatt_central_create,
}

abbrev pub same : Resource → Resource → Bool
same central central = true
same att att = true
same db_c db_c = true
same db_s db_s = true
same server server = true
same client client = true
same _ _ = false

-- How often a resource was given back.
abbrev pub released : Resource → List Call → ℕ
released r [] = 0
released r (release s ∷ calls) = if same r s then suc (released r calls) else released r calls
released r (_ ∷ calls) = released r calls

abbrev pub number : Bool → ℕ
number b = if b then 1 else 0

-- Both databases exist.
abbrev pub has_databases : Results → Bool
has_databases r =
    r.new0
    && (r.bt_att_new
        && (r.bt_att_set_close_on_unref
            && (r.bt_att_register_disconnect && (r.gatt_db_new_c && r.gatt_db_new_s))))

abbrev pub all_succeed : Results → Bool
all_succeed r = has_databases r && (r.bt_gatt_server_new && r.bt_gatt_client_new)

abbrev Balance : Results → Type 0
Balance r =
    let (ok, calls) = gatt_central_create r in
    (ok ≡ all_succeed r)
    × (released central calls ≡ number (r.new0 && not (all_succeed r)))
    × (released att calls ≡ number (r.new0 && not (all_succeed r)))
    × (released db_c calls ≡ number (has_databases r && r.bt_gatt_server_new))
    × (released db_s calls
        ≡ number (has_databases r && (not r.bt_gatt_server_new || r.bt_gatt_client_new)))

abbrev of : Bool → Bool → Bool → Bool → Bool → Bool → Bool → Bool → Results
of a b c d e f g h = record {
  new0 = a;
  bt_att_new = b;
  bt_att_set_close_on_unref = c;
  bt_att_register_disconnect = d;
  gatt_db_new_c = e;
  gatt_db_new_s = f;
  bt_gatt_server_new = g;
  bt_gatt_client_new = h;
}

of-Balance : (a b c d e f g h : Bool) → Balance (of a b c d e f g h)
unfolding gatt_central_create
of-Balance false b c d e f g h = (refl, refl, refl, refl, refl)
of-Balance true false c d e f g h = (refl, refl, refl, refl, refl)
of-Balance true true false d e f g h = (refl, refl, refl, refl, refl)
of-Balance true true true false e f g h = (refl, refl, refl, refl, refl)
of-Balance true true true true false f g h = (refl, refl, refl, refl, refl)
of-Balance true true true true true false g h = (refl, refl, refl, refl, refl)
of-Balance true true true true true true false h = (refl, refl, refl, refl, refl)
of-Balance true true true true true true true false = (refl, refl, refl, refl, refl)
of-Balance true true true true true true true true = (refl, refl, refl, refl, refl)

-- gatt_central_create returns a structure if and only if all eight calls that can fail succeed. When
-- it returns NULL, it gave back the structure once, if there is one, and the transport as often. It gave
-- back the database of the client once if both databases and the server exist, and that of the server
-- once if both databases exist and the server was refused or all succeeded, and never more.
pub create_lem :
    (r : Results)
    → let (ok, calls) = gatt_central_create r in
      (ok ≡ all_succeed r)
      × (released central calls ≡ number (r.new0 && not (all_succeed r)))
      × (released att calls ≡ number (r.new0 && not (all_succeed r)))
      × (released db_c calls ≡ number (has_databases r && r.bt_gatt_server_new))
      × (released db_s calls
          ≡ number (has_databases r && (not r.bt_gatt_server_new || r.bt_gatt_client_new)))
create_lem r =
    of-Balance r.new0 r.bt_att_new r.bt_att_set_close_on_unref r.bt_att_register_disconnect
      r.gatt_db_new_c r.gatt_db_new_s r.bt_gatt_server_new r.bt_gatt_client_new
