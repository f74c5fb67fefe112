-- ===== src/Central/Database/Tests.antt =====
-- A database of one service at a time, and runs of populate_db on it.
use slate.Base.{
  ℕ, ◌+◌, ◌-◌, ◌≡◌, ◌<◌, ◌≤◌, Bool, true, false, Option, none, some, refl, arith, leb, ltb,
  if◌then◌else◌,
}
use slate.Central.Database.{
  GattDb, Server, Uuid, uuid128, mldp_data_char_uuid, Writer, mldp_data_write_cb, populate_db,
}
use slate.Central.Database.Handles.{
  Entry, Table, declaration, enter, Allocates, Populated, populate_db_lem,
}

record Db : Type 0 where
  next : ℕ
  last : ℕ
  reserved : ℕ
  active : Bool
  table : Table

abbrev with_service : Db → ℕ → Db
with_service d n = record {
  next = d.next + n;
  last = d.next;
  reserved = d.next + n - 1;
  active = false;
  table = enter d.next (declaration 0x2800) d.table;
}

abbrev with_descriptor : Db → Entry → Db
with_descriptor d e = record d { last = d.last + 1; table = enter (d.last + 1) e d.table }

abbrev with_characteristic : Db → Entry → Db
with_characteristic d e = record d {
  last = d.last + 2;
  table = enter (d.last + 2) e (enter (d.last + 1) (declaration 0x2803) d.table);
}

abbrev add_service : Db → Uuid → Bool → ℕ → Option ℕ × Db
add_service d u primary n =
    if ltb 65536 (d.next + n) then (none, d) else (some d.next, with_service d n)

abbrev add_characteristic : Option ℕ → Uuid → ℕ → ℕ → Option Writer → Db → Option ℕ × Db
add_characteristic none u perms props w d = (none, d)
add_characteristic (some a) u perms props w d =
    if leb (d.last + 2) d.reserved
    then (
      some (d.last + 2),
      with_characteristic d (record { uuid = u; permissions = perms; write_func = w }),
    )
    else (none, d)

abbrev add_descriptor : Option ℕ → Uuid → ℕ → Option Writer → Db → Option ℕ × Db
add_descriptor none u perms w d = (none, d)
add_descriptor (some a) u perms w d =
    if leb (d.last + 1) d.reserved
    then (
      some (d.last + 1),
      with_descriptor d (record { uuid = u; permissions = perms; write_func = w }),
    )
    else (none, d)

abbrev handle_of : Option ℕ → ℕ
handle_of none = 0
handle_of (some a) = a

abbrev set_active : Option ℕ → Bool → Db → Db
set_active none b d = d
set_active (some a) b d = record d { active = b }

abbrev one_service : GattDb Db ℕ
one_service = record {
  gatt_db_add_service = add_service;
  gatt_db_attribute_get_handle = handle_of;
  gatt_db_service_add_characteristic = add_characteristic;
  gatt_db_service_add_descriptor = add_descriptor;
  gatt_db_service_set_active = set_active;
}

abbrev At : Db → ℕ → ℕ → ℕ → Bool → Type 0
At d a last reserved b = (d.last ≡ last) × (d.reserved ≡ reserved) × (d.active ≡ b)

added :
    (d : Db) (u : Uuid) (n : ℕ)
    → 0 < n
    → d.next + n ≤ 65536
    → add_service d u true n ≡ (some d.next, with_service d n)
added d u n h room = ground arith

refused : (d : Db) (u : Uuid) (n : ℕ) → 65536 < d.next + n → add_service d u true n ≡ (none, d)
refused d u n full = ground arith

module _ (d : Db) (a last reserved : ℕ) (b : Bool) (u : Uuid) (perms : ℕ) (w : Option Writer) where
  abbrev new_entry : Entry
  new_entry = record { uuid = u; permissions = perms; write_func = w }

  characteristic :
      (props : ℕ)
      → At d a last reserved b
      → last + 2 ≤ reserved
      → (c : ℕ) × (d' : Db) × (add_characteristic (some a) u perms props w d ≡ (some c, d'))
        × (c ≡ last + 2)
        × At d' a (last + 2) reserved b
        × (d'.table ≡ enter (last + 2) new_entry (enter (last + 1) (declaration 0x2803) d.table))
  characteristic props (l, r, e) room = (
    d.last + 2,
    with_characteristic d new_entry,
    ground arith,
    omega arith,
    (omega arith, r, e),
    rw l,
  )

  descriptor :
      At d a last reserved b
      → last + 1 ≤ reserved
      → (c : ℕ) × (d' : Db) × (add_descriptor (some a) u perms w d ≡ (some c, d'))
        × At d' a (last + 1) reserved b
        × (d'.table ≡ enter (last + 1) new_entry d.table)
  descriptor (l, r, e) room =
      (d.last + 1, with_descriptor d new_entry, ground arith, (omega arith, r, e), rw l)

abbrev laws : Allocates one_service
laws = record {
  next = λ d. d.next;
  table = λ d. d.table;
  IsService = At;
  null_handle = refl;
  null_characteristic = λ u perms props w d. refl;
  null_descriptor = λ u perms w d. refl;
  null_active = λ b d. refl;
  service_refused = refused;
  service_added = λ d u n h room.
      (d.next, with_service d n, added d u n h room, refl, (refl, refl, refl), refl);
  characteristic_added =
      λ d a last reserved b u perms props w. characteristic d a last reserved b u perms w props;
  descriptor_added = λ d a last reserved b u perms w. descriptor d a last reserved b u perms w;
  activated = λ d a last reserved b b' s. ((s.0, s.1, refl), refl);
}

abbrev empty_db : Db
empty_db = record { next = 1; last = 0; reserved = 0; active = false; table = λ h. none }

abbrev new_server : Server ℕ
new_server = record {
  mldp_data_char_attr = none;
  mldp_ctrl_char_attr = none;
  mldp_service_handle = 0;
  mldp_data_char_handle = 0;
  mldp_data_desc_handle = 0;
  mldp_ctrl_char_handle = 0;
}

populate_db_lem_example :
    Populated one_service laws 1 (λ h. none) (populate_db one_service new_server empty_db)
populate_db_lem_example = populate_db_lem one_service laws new_server empty_db (omega arith)

-- The write callback stands behind the handle of the data characteristic.
write_callback :
    (populate_db one_service new_server empty_db).1.table 3
    ≡ some (record {
      uuid = uuid128 mldp_data_char_uuid;
      permissions = 3;
      write_func = some mldp_data_write_cb;
    })
unfolding populate_db
write_callback = refl
