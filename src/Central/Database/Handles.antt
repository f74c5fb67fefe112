-- ===== src/Central/Database/Handles.antt =====
-- src/main.c, populate_mldp_service: where the attributes of the MLDP service stand in the database.
use slate.Base.{
  ℕ, ◌+◌, ◌-◌, ◌<◌, ◌≤◌, ◌≡◌, Bool, true, false, Option, none, some, sym, ◌∙◌, arith, ◌==◌,
  if◌then◌else◌,
}
use slate.Central.Database.{
  GattDb, Server, Uuid, uuid16, uuid128, Writer, mldp_data_write_cb, populate_db, mldp_service_uuid,
  mldp_data_char_uuid, mldp_ctrl_char_uuid, gatt_client_charac_cfg_uuid, read_write, add_ctrl,
  add_data, data_props, ctrl_props,
}
use mathlib.Core.Path.{subst}

-- What stands at a handle: the type, the permissions and the write callback.
pub record Entry : Type 0 where
  pub uuid : Uuid
  pub permissions : ℕ
  pub write_func : Option Writer

-- The declaration of a service or a characteristic, which can be read only.
abbrev pub declaration : ℕ → Entry
declaration u = record { uuid = uuid16 u; permissions = 1; write_func = none }

abbrev pub Table : Type 0
Table = ℕ → Option Entry

abbrev pub enter : ℕ → Entry → Table → Table
enter h e t k = if k == h then some e else t k

-- What gatt-db.c does with a service that is added at the end of the database: `next` is the next free
-- handle, and `IsService d a last reserved b` says that `a` is a service that has given out the
-- handles to `last` and may give out those to `reserved`, active as `b` says.
pub record Allocates {ℓ} {D : Type ℓ} {A : Type ℓ} (g : GattDb D A) : Type (ℓ + 1) where
  pub next : D → ℕ
  pub table : D → Table
  pub IsService : D → A → ℕ → ℕ → Bool → Type ℓ
  pub null_handle : g.gatt_db_attribute_get_handle none ≡ 0
  pub null_characteristic :
      (u : Uuid) (perms props : ℕ) (w : Option Writer) (d : D)
      → g.gatt_db_service_add_characteristic none u perms props w d ≡ (none, d)
  pub null_descriptor :
      (u : Uuid) (perms : ℕ) (w : Option Writer) (d : D)
      → g.gatt_db_service_add_descriptor none u perms w d ≡ (none, d)
  pub null_active : (b : Bool) (d : D) → g.gatt_db_service_set_active none b d ≡ d
  pub service_refused :
      (d : D) (u : Uuid) (n : ℕ) → 65536 < next d + n → g.gatt_db_add_service d u true n ≡ (none, d)
  pub service_added :
      (d : D) (u : Uuid) (n : ℕ)
      → 0 < n
      → next d + n ≤ 65536
      → (a : A) × (d' : D) × (g.gatt_db_add_service d u true n ≡ (some a, d'))
        × (g.gatt_db_attribute_get_handle (some a) ≡ next d)
        × IsService d' a (next d) (next d + n - 1) false
        × (table d' ≡ enter (next d) (declaration 0x2800) (table d))
  pub characteristic_added :
      (d : D) (a : A) (last reserved : ℕ) (b : Bool) (u : Uuid) (perms props : ℕ)
      (w : Option Writer)
      → IsService d a last reserved b
      → last + 2 ≤ reserved
      → (c : A) × (d' : D) × (g.gatt_db_service_add_characteristic (some a) u perms props w d
          ≡ (some c, d'))
        × (g.gatt_db_attribute_get_handle (some c) ≡ last + 2)
        × IsService d' a (last + 2) reserved b
        × (table d'
            ≡ enter
                (last + 2)
                (record { uuid = u; permissions = perms; write_func = w })
                (enter (last + 1) (declaration 0x2803) (table d)))
  pub descriptor_added :
      (d : D) (a : A) (last reserved : ℕ) (b : Bool) (u : Uuid) (perms : ℕ) (w : Option Writer)
      → IsService d a last reserved b
      → last + 1 ≤ reserved
      → (c : A) × (d' : D) × (g.gatt_db_service_add_descriptor (some a) u perms w d ≡ (some c, d'))
        × IsService d' a (last + 1) reserved b
        × (table d'
            ≡ enter (last + 1) (record { uuid = u; permissions = perms; write_func = w }) (table d))
  pub activated :
      (d : D) (a : A) (last reserved : ℕ) (b b' : Bool)
      → IsService d a last reserved b
      → IsService (g.gatt_db_service_set_active (some a) b' d) a last reserved b'
        × (table (g.gatt_db_service_set_active (some a) b' d) ≡ table d)

-- The attributes of the service, from the handle `n` on.
abbrev pub mldp_table : ℕ → Table → Table
mldp_table n t =
    enter (n + 5)
      (record { uuid = uuid128 mldp_ctrl_char_uuid; permissions = 3; write_func = none })
      (enter (n + 4) (declaration 0x2803) (
        enter (n + 3)
          (record { uuid = uuid16 gatt_client_charac_cfg_uuid; permissions = 3; write_func = none })
          (enter (n + 2)
            (record {
              uuid = uuid128 mldp_data_char_uuid;
              permissions = 3;
              write_func = some mldp_data_write_cb;
            })
            (enter (n + 1) (declaration 0x2803) (enter n (declaration 0x2800) t)))))

module _ {ℓ} {D : Type ℓ} {A : Type ℓ} (g : GattDb D A) (m : Allocates g) where
  -- The service is in the database, and `srv` has its handles.
  abbrev pub Populated : ℕ → Table → Server A × D → Type ℓ
  Populated n t (srv, d) =
      (srv.mldp_service_handle ≡ n)
      × (srv.mldp_data_char_handle ≡ n + 2)
      × (srv.mldp_ctrl_char_handle ≡ n + 5)
      × (g.gatt_db_attribute_get_handle srv.mldp_data_char_attr ≡ n + 2)
      × (g.gatt_db_attribute_get_handle srv.mldp_ctrl_char_attr ≡ n + 5)
      × ((a : A) × m.IsService d a (n + 5) (n + 7) true)
      × (m.table d ≡ mldp_table n t)

  -- The calls one after the other, by what each returns.
  add_ctrl-at :
      (a c : A) (srv : Server A) (d d' : D)
      → (g.gatt_db_service_add_characteristic
            (some a)
            (uuid128 mldp_ctrl_char_uuid)
            read_write
            ctrl_props
            none
            d
          ≡ (some c, d'))
      → (add_ctrl g (some a) srv d ≡ (
        record srv {
          mldp_ctrl_char_handle = g.gatt_db_attribute_get_handle (some c);
          mldp_ctrl_char_attr = some c;
        },
        g.gatt_db_service_set_active (some a) true d',
      ))
  unfolding add_ctrl
  add_ctrl-at a c srv d d' e = rw e

  add_data-at :
      (a c f : A) (srv : Server A) (d d1 d2 : D)
      → (g.gatt_db_service_add_characteristic
            (some a)
            (uuid128 mldp_data_char_uuid)
            read_write
            data_props
            (some mldp_data_write_cb)
            d
          ≡ (some c, d1))
      → (g.gatt_db_service_add_descriptor
            (some a)
            (uuid16 gatt_client_charac_cfg_uuid)
            read_write
            none
            d1
          ≡ (some f, d2))
      → (add_data g (some a) srv d
          ≡ add_ctrl g
              (some a)
              (record srv {
                mldp_data_char_handle = g.gatt_db_attribute_get_handle (some c);
                mldp_data_char_attr = some c;
              })
              d2)
  unfolding add_data
  add_data-at a c f srv d d1 d2 e e' = rw (e, e')

  populate-at :
      (a : A) (srv : Server A) (d d1 : D)
      → g.gatt_db_add_service d (uuid128 mldp_service_uuid) true 8 ≡ (some a, d1)
      → (populate_db g srv d
          ≡ add_data g
              (some a)
              (record srv { mldp_service_handle = g.gatt_db_attribute_get_handle (some a) })
              d1)
  unfolding populate_db
  populate-at a srv d d1 e = rw e

  -- When eight handles are free, the service stands at the first of them, active, with its data
  -- characteristic at the third, the descriptor right behind it and the control characteristic at
  -- the sixth; the three handles kept are these, the only attribute of the service with a write
  -- callback is the value of the data characteristic, and the rest of the database stays.
  pub populate_db_lem :
      (srv : Server A) (d : D)
      → m.next d + 8 ≤ 65536
      → Populated (m.next d) (m.table d) (populate_db g srv d)
  populate_db_lem srv d room =
      let (a, d1, e1, h1, s1, t1) =
        m.service_added d (uuid128 mldp_service_uuid) 8 (omega arith) room in
      let n = m.next d in
      let (c, d2, e2, h2, s2, t2) =
        m.characteristic_added d1 a n (n + 8 - 1) false (uuid128 mldp_data_char_uuid) read_write
          data_props (some mldp_data_write_cb) s1 (omega arith) in
      let (f, d3, e3, s3, t3) =
        m.descriptor_added d2 a (n + 2) (n + 8 - 1) false (uuid16 gatt_client_charac_cfg_uuid)
          read_write none s2 (omega arith) in
      let (c', d4, e4, h4, s4, t4) =
        m.characteristic_added d3 a (n + 2 + 1) (n + 8 - 1) false (uuid128 mldp_ctrl_char_uuid)
          read_write ctrl_props none s3 (omega arith) in
      let (s5, t5) = m.activated d4 a (n + 2 + 1 + 2) (n + 8 - 1) false true s4 in
      let d5 = g.gatt_db_service_set_active (some a) true d4 in
      let q3 : n + 2 + 1 ≡ n + 3 = omega arith in
      let q4 : n + 2 + 1 + 1 ≡ n + 4 = omega arith in
      let q5 : n + 2 + 1 + 2 ≡ n + 5 = omega arith in
      let q7 : n + 8 - 1 ≡ n + 7 = omega arith in
      subst (Populated n (m.table d))
        (sym (
          populate-at a srv d d1 e1
          ∙ add_data-at a c f _ d1 d2 d3 e2 e3
          ∙ add_ctrl-at a c' _ d3 d4 e4))
        (
          h1,
          h2,
          h4 ∙ q5,
          h2,
          h4 ∙ q5,
          (
            a,
            subst (λ k. m.IsService d5 a k (n + 7) true) q5
                (subst (λ k. m.IsService d5 a (n + 2 + 1 + 2) k true) q7 s5),
          ),
          rw (t5, t4, t3, t2, t1, q5, q4, q3),
        )

  -- With fewer than eight handles free nothing is added, and the handles kept are 0.
  pub populate_db-full :
      (srv : Server A) (d : D)
      → 65536 < m.next d + 8
      → (populate_db g srv d ≡ (
        record srv {
          mldp_service_handle = 0;
          mldp_data_char_handle = 0;
          mldp_data_char_attr = none;
          mldp_ctrl_char_handle = 0;
          mldp_ctrl_char_attr = none;
        },
        d,
      ))
  unfolding populate_db
  populate_db-full srv d full = rw (
    m.service_refused d (uuid128 mldp_service_uuid) 8 full,
    m.null_characteristic,
    m.null_descriptor,
    m.null_characteristic,
    m.null_active,
    m.null_handle,
  )
