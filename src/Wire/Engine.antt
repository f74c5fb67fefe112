-- ===== src/Wire/Engine.antt =====
-- E-Kermit on the central: kermit_main of src/libe_kermit/libe-kermit.c reads its packets by kreadpkt,
-- which _EK_init sets as `k->rxd`.
use slate.Base.{ℕ, Option, none, some, List, ℤ}
use slate.Kermit.{Engine}
use slate.Central.{Central, Host}
use slate.UnixIo.Packet.{x_error, Params, Locals, kreadpkt}
use slate.Wire.{handlers}

-- What kreadpkt takes from E-Kermit's state and leaves in it: the parameters, the slot that it reads
-- into, and the slot that it filled.
pub record Slots {ℓ} (K : Type ℓ) : Type ℓ where
  pub params : K → Params
  pub slot : K → List ℕ
  pub fill : List ℕ → K → K

module _ {ℓ κ} {B : Type ℓ} {K : Type κ} (h : Host B) (stray : ℕ) (wait : Central B → ℕ → Central B)
    (l : Slots K) where
  abbrev pub read_done : K × Central B → Option (ℤ × Locals × Central B) → ℤ × (K × Central B)
  read_done e none = (x_error, e)
  read_done (k, c) (some (n, s, c')) = (n, (l.fill s.buff k, c'))

  -- `fuel` for the bytes of a packet and `patience` for the wait for each; out of fuel, an error.
  abbrev pub rxd : ℕ → ℕ → K × Central B → ℤ × (K × Central B)
  rxd fuel patience (k, c) =
      read_done (k, c) (kreadpkt (handlers h stray wait) (l.params k) fuel patience (l.slot k) c)

  -- E-Kermit with this read; its other functions may send, so that they act on the central, too.
  abbrev pub on_link : {A : Type 0} → Engine (K × Central B) A → ℕ → ℕ → Engine (K × Central B) A
  on_link g fuel patience = record g { rxd = rxd fuel patience }
