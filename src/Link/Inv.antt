-- ===== src/Link/Inv.antt =====
-- What each round of tx_fifo_send_bytes keeps, and where its loop ends.
pub mod Rounds
use mathlib.Core.Path.{subst, ap₂}
use slate.Base.{
  ℕ, zero, suc, ◌+◌, ◌-◌, ◌*◌, min, ◌≤◌, ◌<◌, ◌≡◌, ◌≢◌, ◌⊎◌, inl, inr, refl, sym, ap, ◌∙◌, true,
  false, Bool-cases, List, [], ◌∷◌, ◌++◌, append-nil, append_assoc, arith, leb, ◌==◌, if◌then◌else◌,
  length, take, length-take, length-drop, length-zero, take-append-drop, drop, ==_refl, Option,
  some,
}
use slate.Fifo.{Fifo, read_into, mldp_rx_buff_size}
use slate.Fifo
use slate.Fifo.Inv.{IsValid}
use slate.Fifo.Refine.{contents}
use slate.Fifo.Bulk.{read_lem}
use slate.Link.{exit_success, Packet, Tx, Round, stop, again, transmit, fetched, tx_round}

-- The bytes that BlueZ took; the newest call stands first.
abbrev pub sent : List Packet → List ℕ
sent [] = []
sent (c ∷ cs) = sent cs ++ (if c.id == 0 then [] else c.value)

-- The `r` newest calls were refused, and all carried `v`.
abbrev pub Refusals : ℕ → List ℕ → List Packet → Type 0
Refusals zero v cs = Unit
Refusals (suc r) v [] = ⊥
Refusals (suc r) v (c ∷ cs) = (c.id ≡ 0) × (c.value ≡ v) × Refusals r v cs

-- Every packet has from 1 to 20 bytes.
abbrev pub AllSmall : List Packet → Type 0
AllSmall [] = Unit
AllSmall (c ∷ cs) = (0 < length c.value) × (length c.value ≤ 20) × AllSmall cs

abbrev pub AllTaken : List Packet → Type 0
AllTaken [] = Unit
AllTaken (c ∷ cs) = (c.id ≢ 0) × AllTaken cs

module _ {ℓ} {B : Type ℓ} (write_without_response : B → ℕ → List ℕ → ℕ × B) (handle stray : ℕ) where
  abbrev pub AlwaysTakes : Type ℓ
  AlwaysTakes = (b : B) (v : List ℕ) → (write_without_response b handle v).0 ≢ 0

  -- What each round keeps, whatever it does.
  pub record Sound (s : Tx B) : Type ℓ where
    pub valid : IsValid s.fifo_tx
    pub array : length s.data_array ≡ 20
    pub small : AllSmall s.calls
    pub taken : AlwaysTakes → AllTaken s.calls

  -- The packet at hand: read from the FIFO, not yet sent.
  abbrev pub packet : Tx B → List ℕ
  packet s = take (min s.nb_readable_bytes 20) s.data_array

  pub record Held (q : List ℕ) (s : Tx B) : Type ℓ where
    pub sound : Sound s
    pub tries : s.repeat_on_error_count ≤ 3
    pub refused : Refusals s.repeat_on_error_count (packet s) s.calls
    pub count : s.nb_readable_bytes ≡ min s.nb_readable_bytes 20 + length (contents s.fifo_tx)
    pub bytes : sent s.calls ++ (packet s ++ contents s.fifo_tx) ≡ q

  pub record Fresh (q : List ℕ) (s : Tx B) : Type ℓ where
    pub sound : Sound s
    pub tries : s.repeat_on_error_count ≡ 0
    pub count : s.nb_readable_bytes ≡ length (contents s.fifo_tx)
    pub bytes : sent s.calls ++ contents s.fifo_tx ≡ q

  abbrev pub Inv : List ℕ → Tx B → Type ℓ
  Inv q s = Fresh q s ⊎ ((0 < s.repeat_on_error_count) × (0 < s.nb_readable_bytes) × Held q s)

  -- Where the loop ends: all bytes are sent, or the packet at hand was refused four times.
  pub data Final (q : List ℕ) (s : Tx B) : Type ℓ where
    all_sent : contents s.fifo_tx ≡ [] → sent s.calls ≡ q → Final q s
    gave_up :
        (lost : List ℕ)
        → Refusals 4 lost s.calls
        → sent s.calls ++ (lost ++ contents s.fifo_tx) ≡ q
        → Final q s

  abbrev pub measure : Tx B → ℕ
  measure s = 4 * s.nb_readable_bytes + (3 - s.repeat_on_error_count)

  abbrev pub RoundOk : List ℕ → ℕ → Round B → Type ℓ
  RoundOk q m (stop e s) = (e ≡ exit_success) × Sound s × Final q s
  RoundOk q m (again s) = Inv q s × (measure s < m)
