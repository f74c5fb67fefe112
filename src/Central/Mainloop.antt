-- ===== src/Central/Mainloop.antt =====
-- The callbacks of src/main.c under mainloop_run: BlueZ makes them one after the other, and none after
-- mainloop_quit.
pub mod Threads
mod Tests
use slate.Base.{ℕ, Bool, true, false, Option, List, [], ◌∷◌, if◌then◌else◌}
use slate.Central.{
  Central, Host, Done, returns, exits, server_mldp_data_char_write_cb, client_write_cb_misc_char,
  client_write_cb_authentication_char, client_write_cb_identification_char, att_disconnect_cb,
}
use slate.Central.Discovery.{Service, ready_cb}
use Prim.Native.String.{String}

-- A callback with what BlueZ passes to it.
pub data Callback {ℓ} (U : Type ℓ) : Type ℓ where
  ready : Bool → List (Service U) → Callback U
  identification_written authentication_written misc_written : Bool → Callback U
  data_written : Bool → ℕ → ℕ → Option (List ℕ) → ℕ → Callback U
  disconnected : Callback U

module _ {ℓ ℓb} {U : Type ℓ} {B : Type ℓb} (bt_string_to_uuid : String → U)
    (bt_uuid_cmp : U → U → ℕ) (h : Host B) (stray : ℕ) where
  unfoldable pub callback : Callback U → Central B → Done (Central B)
  unfolding ready_cb client_write_cb_identification_char client_write_cb_authentication_char
      client_write_cb_misc_char server_mldp_data_char_write_cb att_disconnect_cb
  callback (ready success db) c = returns (ready_cb bt_string_to_uuid bt_uuid_cmp h success db c)
  callback (identification_written success) c =
      returns (client_write_cb_identification_char h success c)
  callback (authentication_written success) c =
      returns (client_write_cb_authentication_char h success c)
  callback (misc_written success) c = returns (client_write_cb_misc_char h success c)
  callback (data_written attrib id offset value len) c =
      server_mldp_data_char_write_cb h stray attrib id offset value len c
  callback disconnected c = returns (att_disconnect_cb c)

  abbrev pub then_run : (Central B → Done (Central B)) → Done (Central B) → Done (Central B)
  then_run rest (returns c) = rest c
  then_run rest (exits n) = exits n

  -- The callbacks until mainloop_quit, or all of them.
  unfoldable pub mainloop_run : List (Callback U) → Central B → Done (Central B)
  unfolding callback
  mainloop_run [] c = returns c
  mainloop_run (e ∷ es) c = if c.quit then returns c else then_run (mainloop_run es) (callback e c)
