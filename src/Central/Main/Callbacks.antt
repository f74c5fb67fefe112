-- ===== src/Central/Main/Callbacks.antt =====
-- The loop of main over the callbacks that BlueZ makes in each run of the mainloop.
use slate.Base.{ℕ, ◌*◌, ◌≡◌, ap, ◌∙◌, Bool, true, false, List, length}
use slate.Central.{Central, Host, Done, returns, exits, scanning}
use slate.Central.Scan.{Machine, Os}
use slate.Central.Mainloop.{Callback, mainloop_run}
use slate.Central.Mainloop.Threads.{mainloop_lem}
use slate.Central.Main.{running, main}
use slate.Central.Main.Sessions.{AllWork, ScansAgain, sessions}
use Prim.Native.String.{String}

-- `created` is the central of a connection, `made` the callbacks of its mainloop, and `to_uuid` and `cmp`
-- are BlueZ's.
module _ {ℓ ℓb} {U : Type ℓ} {B : Type ℓb} (to_uuid : String → U) (cmp : U → U → ℕ) (h : Host B)
    (stray : ℕ) (created : Machine → Central B) (made : Machine → List (Callback U)) where
  -- The step that main finds after the mainloop.
  abbrev pub left : Machine → Done (Central B) → Machine
  left m (returns c) = record m { ble_con_step = c.ble_con_step }
  left m (exits n) = m

  abbrev pub mainloop : Machine → Machine
  mainloop m = left m (mainloop_run to_uuid cmp h stray (made m) (created m))

  -- No callback exits, and one of them calls mainloop_quit, such as att_disconnect_cb.
  pub record Quits (m : Machine) : Type ℓb where
    pub runs : (created m).quit ≡ false
    pub last : Central B
    pub returned : mainloop_run to_uuid cmp h stray (made m) (created m) ≡ returns last
    pub quit : last.quit ≡ true

  module _ (ba2str : List ℕ → String) (slate_addr : String) (has_dev : Bool)
      (quits : (m : Machine) → Quits m) where
    mainloop-ScansAgain : ScansAgain ba2str slate_addr has_dev mainloop
    mainloop-ScansAgain m on =
        let q = quits m in
        let step =
          (mainloop_lem h stray to_uuid cmp (made m) (created m) q.last q.runs q.returned).0
            q.quit in
        let same = ap (left m) q.returned in
        (
          ap (λ (n : Machine). n.ble_con_step) same ∙ step,
          ap (λ (n : Machine). n.end_of_state_machine) same ∙ on,
        )

    -- When the address is accepted, every call of the rounds succeeds, each scan sees the SLATE, and each
    -- mainloop is left by a callback that calls mainloop_quit: then main comes into the mainloop once
    -- in every four rounds, for as many rounds as there are, and is scanning again afterwards.
    pub sessions_served :
        (n : ℕ) (os : List Os) (m : Machine)
        → AllWork ba2str slate_addr has_dev os
        → length os ≡ n * 4
        → m.end_of_state_machine ≡ false
        → (m' : Machine) × (main mainloop ba2str slate_addr has_dev true true os m
            ≡ (n, running m'))
          × (m'.ble_con_step ≡ scanning)
    sessions_served n os m w l on =
        sessions ba2str slate_addr has_dev mainloop n os m mainloop-ScansAgain w l on
