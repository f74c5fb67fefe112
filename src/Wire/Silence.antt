-- ===== src/Wire/Silence.antt =====
-- kreadpkt on an rx FIFO where nothing arrives.
use slate.Base.{
  ℕ, zero, suc, ◌*◌, ◌-◌, ◌≤◌, ◌≡◌, refl, sym, ap, ◌∙◌, arith, none, some, List, [], pos, Option,
}
use slate.Fifo.{get}
use slate.Fifo
use slate.Fifo.Refine.{contents, get_refines}
use slate.Fifo.Queue
use slate.Central.{Central, Host, ble_mldp_get_byte}
use slate.Central.Receive.{RxOk, get-RxOk}
use slate.UnixIo.Packet.{Params, start_locals, kreadpkt}
use slate.UnixIo.Packet.Wait.{Silent, after, after_poll, read_loop-Silent}
use slate.Wire.{got, handlers}
use slate.Wire.Receive.{WaitKeeps, HasTime}
use mathlib.Core.Path.{subst}

module _ {ℓ} {B : Type ℓ} where
  -- Nothing is in the rx FIFO.
  pub record Bare (c : Central B) : Type 0 where
    pub ok : RxOk c.mldp_fifo_rx
    pub bare : contents c.mldp_fifo_rx ≡ []

  -- Only the rx FIFO counts.
  pub Bare-same : (c c' : Central B) → c'.mldp_fifo_rx ≡ c.mldp_fifo_rx → Bare c → Bare c'
  Bare-same c c' e b = record { ok = subst RxOk (sym e) b.ok; bare = ap contents e ∙ b.bare }

module _ {ℓ} {B : Type ℓ} (h : Host B) (stray : ℕ) (wait : Central B → ℕ → Central B)
    (keeps : WaitKeeps h stray wait) where
  abbrev pub poll : Central B → ℕ × Option ℕ × Central B
  poll c = got (ble_mldp_get_byte stray c)

  pub poll-Bare :
      (c : Central B)
      → Bare c
      → ((poll c).0 ≡ 1) × ((poll c).1 ≡ none) × Bare (after_poll poll wait c)
  unfolding ble_mldp_get_byte
  poll-Bare c b =
      let g = get_refines stray c.mldp_fifo_rx b.ok.valid ∙ ap Queue.get b.bare in
      let s : (get stray c.mldp_fifo_rx).0 ≡ Fifo.empty = ap (λ t. t.0) g in
      let got_c = record c { mldp_fifo_rx = (get stray c.mldp_fifo_rx).2 } in
      (
        rw s refl,
        ap (λ t. t.1) g,
        Bare-same got_c (wait got_c 10) (keeps got_c 10)
            (record { ok = get-RxOk stray c.mldp_fifo_rx b.ok; bare = ap (λ t. t.2) g }),
      )

  pub always-Silent : (m : ℕ) (c : Central B) → Bare c → Silent poll wait m c
  always-Silent zero c b = tt
  always-Silent (suc m) c b =
      let (code, byte, b') = poll-Bare c b in
      (code, byte, always-Silent m (after_poll poll wait c) b')

  after-Bare : (m : ℕ) (c : Central B) → Bare c → Bare (after poll wait m c)
  after-Bare zero c b = b
  after-Bare (suc m) c b = after-Bare m (after_poll poll wait c) (poll-Bare c b).2

  -- When nothing is in the rx FIFO and nothing is received while kreadpkt waits, it gives up and
  -- returns 0, and the FIFO is empty still.
  pub kreadpkt_silent :
      (k : Params) (fuel patience : ℕ) (buff : List ℕ) (c : Central B)
      → HasTime k
      → k.r_timo * 120 ≤ patience
      → Bare c
      → (c' : Central B) × (kreadpkt (handlers h stray wait) k (suc fuel) patience buff c
          ≡ some (pos 0, start_locals buff, c'))
        × Bare c'
  unfolding kreadpkt handlers
  kreadpkt_silent k fuel patience buff c (soon, late) enough b =
      let m = k.r_timo * 120 - 1 in
      let c' = after poll wait (suc m) c in
      (
        c',
        read_loop-Silent poll wait k m fuel patience (start_locals buff) c (omega arith) late
            (always-Silent (suc m) c b) (omega arith),
        after-Bare (suc m) c b,
      )
