-- ===== src/UnixIo/Packet.antt =====
-- kreadpkt and ktx_data: Kermit packets over the handlers of `struct unixio_rpi`.
-- A handler is `none` when its pointer is 0.  What the handlers act on is a state `E`.
pub mod Wait
pub mod Frame
pub mod Bounds
mod Tests
use slate.Base.{
  ℕ, zero, suc, ◌+◌, ◌*◌, ◌%◌, Bool, true, false, not, ◌&&◌, ◌||◌, Option, none, some, List, [],
  ◌∷◌, leb, ltb, ◌==◌, if◌then◌else◌, set, take, sub32, u8, ℤ, pos, negsuc,
}
use mathlib.Core.Option

-- X_OK, X_ERROR and -K_END
abbrev pub x_ok : ℤ
x_ok = pos 0

abbrev pub x_error : ℤ
x_error = negsuc 0

abbrev pub minus_k_end : ℤ
minus_k_end = negsuc 2

-- `err_code` of ble_mldp_get_byte is a uint32_t, 0 for EXIT_SUCCESS and 1 for EXIT_FAILURE; the
-- option is the byte stored through `p_byte`.
pub record UnixioRpi {ℓ} (E : Type ℓ) : Type ℓ where
  pub ble_mldp_send_bytes : Option (E → List ℕ → ℕ → ℕ × E)
  pub ble_mldp_get_byte : Option (E → ℕ × Option ℕ × E)
  pub ft_wait_ms : Option (E → ℕ → E)

-- The members of `struct k_data` that kreadpkt reads.
pub record Params : Type 0 where
  pub r_timo : ℕ
  pub parity : ℕ
  pub r_soh : ℕ
  pub r_eom : ℕ
  pub r_maxlen : ℕ

-- The locals of kreadpkt.  `cmd` has the five cells of the array and the byte behind it; `buff` is
-- what `p` points into, and `p` stands `n` bytes on.
pub record Locals : Type 0 where
  pub rx_fifo_char : ℕ
  pub cmd : List ℕ
  pub i : ℕ
  pub comp : Bool
  pub flag : Bool
  pub n : ℕ
  pub buff : List ℕ

abbrev pub start_locals : List ℕ → Locals
start_locals buff = record {
  rx_fifo_char = 0;
  cmd = 0 ∷ 0 ∷ 0 ∷ 0 ∷ 0 ∷ 0 ∷ [];
  i = 0;
  comp = true;
  flag = false;
  n = 0;
  buff = buff;
}

-- `timeout` is an int32_t, kept as its bit pattern: `timeout >= 10`.
abbrev pub at_least_ten : ℕ → Bool
at_least_ten timeout = leb 10 timeout && ltb timeout 2147483648

-- How the wait for a byte ends: by an error of the handler, or with a time left and a character.
pub data Waited {ℓ} (E : Type ℓ) : Type ℓ where
  aborted : E → Waited E
  polled : ℕ → ℕ → E → Waited E

module _ {ℓ} {E : Type ℓ} (get_byte : E → ℕ × Option ℕ × E) (wait_ms : E → ℕ → E) where
  -- The do loop; `none` means that the fuel ran out.
  unfoldable pub wait : ℕ → ℕ → ℕ → E → Option (Waited E)
  wait zero timeout c e = none
  wait (suc fuel) timeout c e =
      let (err_code, byte, e1) = get_byte e in
      let c' = Option.get_or byte c in
      let long = at_least_ten timeout in
      let timeout' = sub32 timeout (if long then 10 else 1) in
      let e2 = wait_ms e1 (if long then 10 else 1) in
      let rest = wait fuel timeout' c' e2 in
      if not (err_code == 1) && not (err_code == 0)
      then some (aborted e1)
      else if err_code == 1 && not (timeout' == 0)
      then rest
      else some (polled timeout' c' e2)

-- strncmp(cmd, "CMD\r\n", 5) == 0
abbrev pub is_cmd : List ℕ → Bool
is_cmd (a ∷ b ∷ c ∷ d ∷ e ∷ _) = a == b'C' && (b == b'M' && (c == b'D' && (d == 13 && e == 10)))
is_cmd _ = false

-- A byte of the packet is dealt with: kreadpkt returns, or reads on.
pub data Dealt : Type 0 where
  returned : ℤ → Locals → Dealt
  reads_on : Locals → Dealt

-- Strip parity.
abbrev pub final_char : Params → ℕ → ℕ
final_char k c = if k.parity == 0 then c % 256 else c % 128

-- From the search for the start of the packet on.
unfoldable pub deal_content : Params → Locals → Dealt
deal_content k s =
    let c = final_char k s.rx_fifo_char in
    if not s.flag && not (c == k.r_soh)
    then reads_on s
    else if c == k.r_soh
    then reads_on (record s { flag = true })
    else if c == k.r_eom
    then returned (pos s.n) (record s { buff = set s.buff s.n 0 })
    else if ltb k.r_maxlen s.n
    then returned (pos (s.n + 1)) (record s { n = s.n + 1 })
    else reads_on (record s { n = s.n + 1; buff = set s.buff s.n (u8 s.rx_fifo_char) })

-- The byte is put into `cmd`; the fifth ends the search for "CMD\r\n".  Each later byte goes to cmd[5], behind
-- the array: the model keeps it in a sixth cell and leaves out what the store does to other memory.
unfoldable pub note : Locals → Locals
note s =
    let i' = if s.comp then s.i + 1 else s.i in
    record s {
      cmd = set s.cmd s.i s.rx_fifo_char;
      i = i';
      comp = if i' == 5 then false else s.comp;
    }

-- What one round does with the byte that came.
unfoldable pub deal : Params → Locals → Dealt
deal k s =
    let s' = note s in
    if s'.i == 5 && (s.comp && is_cmd s'.cmd) then returned minus_k_end s' else deal_content k s'

-- `timeout = k->r_timo * 1200`, as an int32_t.
abbrev pub full_timeout : Params → ℕ
full_timeout k = (k.r_timo * 1200) % 4294967296

module _ {ℓ} {E : Type ℓ} (get_byte : E → ℕ × Option ℕ × E) (wait_ms : E → ℕ → E) (k : Params) where
  -- The while loop, with fuel for its rounds and for each wait.
  unfoldable pub read_loop : ℕ → ℕ → Locals → E → Option (ℤ × Locals × E)
  read_loop zero patience s e = none
  read_loop (suc fuel) patience s e =
      elim (wait get_byte wait_ms patience (full_timeout k) s.rx_fifo_char e) [
        | none ↦ none
        | some (aborted e') ↦ some (minus_k_end, s, e')
        | some (polled timeout c e') ↦ elim (timeout == 0) [
          | true ↦ some (pos 0, record s { rx_fifo_char = c }, e')
          | false ↦ elim (deal k (record s { rx_fifo_char = c })) [
            | returned r s' ↦ some (r, s', e')
            | reads_on s' ↦ read_loop fuel patience s' e'
          ]
        ]
      ]

-- The two handlers are checked first; `buff` is what `p` points to.
unfoldable pub read_with {ℓ} :
    {E : Type ℓ}
    → Option (E → ℕ × Option ℕ × E)
    → Option (E → ℕ → E)
    → Params
    → ℕ
    → ℕ
    → List ℕ
    → E
    → Option (ℤ × Locals × E)
read_with none wait_ms k fuel patience buff e = some (x_error, start_locals buff, e)
read_with (some get_byte) none k fuel patience buff e = some (x_error, start_locals buff, e)
read_with (some get_byte) (some wait_ms) k fuel patience buff e =
    read_loop get_byte wait_ms k fuel patience (start_locals buff) e

unfoldable pub kreadpkt {ℓ} :
    {E : Type ℓ} → UnixioRpi E → Params → ℕ → ℕ → List ℕ → E → Option (ℤ × Locals × E)
unfolding read_with
kreadpkt h k fuel patience buff e =
    read_with h.ble_mldp_get_byte h.ft_wait_ms k fuel patience buff e

-- ktx_data of the first `n` bytes at `p`.
module _ {ℓ} {E : Type ℓ} where
  unfoldable pub tx_data : Option (E → List ℕ → ℕ → ℕ × E) → List ℕ → ℕ → E → ℤ × E
  tx_data none p n e = (x_error, e)
  tx_data (some send) p n e =
      let (r, e') = send e p n in if r == 0 then (x_ok, e') else (x_error, e')

  unfoldable pub ktx_data : UnixioRpi E → List ℕ → ℕ → E → ℤ × E
  unfolding tx_data
  ktx_data h p n e = tx_data h.ble_mldp_send_bytes p n e
