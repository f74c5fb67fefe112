-- ===== src/Kermit.antt =====
-- src/libe_kermit/libe-kermit.c, built without BSP_INTERNAL_BUFFER_SIZE and DEBUG.
-- E-Kermit itself (kermit.c) is a parameter: the record `Engine` over a state `K`, which stands for
-- the globals `k` and `r`.  A pointer that may be NULL is a Boolean: whether it points somewhere.
pub mod Ek
pub mod Rounds
pub mod Silent
pub mod Client
pub mod Bsp
mod Tests
use slate.Base.{
  ℕ, zero, suc, ◌+◌, ◌-◌, Bool, true, false, not, ◌&&◌, ◌||◌, Option, none, some, List, ◌==◌,
  if◌then◌else◌, ℤ, pos, negsuc,
}

-- K_SUCCESS, K_FAILURE, K_TIMEOUT, K_END
abbrev pub k_success : ℕ
k_success = 0

abbrev pub k_failure : ℕ
k_failure = 1

abbrev pub k_timeout : ℕ
k_timeout = 2

abbrev pub k_end : ℕ
k_end = 3

-- The function codes of kermit() that the wrapper uses.
pub data Fc : Type 0 where
  k_init k_run k_error k_send k_get k_dir k_reinit : Fc

-- A_WAIT, A_SEND, A_GET, A_DIR
abbrev pub a_wait : ℕ
a_wait = 1

abbrev pub a_send : ℕ
a_send = 2

abbrev pub a_get : ℕ
a_get = 3

abbrev pub a_dir : ℕ
a_dir = 4

-- K_ERROR as a number, which kermit_main also returns.
abbrev pub k_error_code : ℕ
k_error_code = 5

-- kermit() returns X_ERROR, X_OK, X_FILE, X_DATA, X_DONE or X_STATUS.
pub data Status : Type 0 where
  x_error x_ok x_file x_data x_done x_status : Status

abbrev pub is_done : Status → Bool
is_done x_done = true
is_done _ = false

abbrev pub is_x_error : Status → Bool
is_x_error x_error = true
is_x_error _ = false

abbrev pub is_ok : Status → Bool
is_ok x_ok = true
is_ok _ = false

-- What _EK_init writes into `k`; the buffers and the function pointers are the engine's own.
pub record Setup : Type 0 where
  pub wslots_max : ℕ
  pub p_maxlen : ℕ
  pub send_pause_us : ℕ
  pub baud : ℕ
  pub remote : ℕ
  pub xfermode : ℕ
  pub binary : ℕ
  pub parity : ℕ
  pub bct : ℕ
  pub bcta3 : ℕ
  pub ikeep : ℕ
  pub cancel : ℕ
  pub zinlen : ℕ
  pub zincnt : ℕ
  pub obuflen : ℕ
  pub rootpath : List ℕ

-- E-Kermit and its input and output.  `A` is a pointer to text.
pub record Engine {ℓ} (K : Type ℓ) (A : Type 0) : Type ℓ where
  pub kermit : Fc → ℤ → K → Status × K
  pub ok2rxd : K → Bool × K
  pub rxd : K → ℤ × K
  pub configure : Setup → K → K
  pub set_filelist : Option (List A) → K → K
  pub set_type : ℕ → K → K
  pub retry : K → ℕ
  pub nresend : K → ℕ
  pub r_type : K → ℕ
  pub r_arg : K → A
  pub r_dir : K → A
  pub kclosefile : K → K

-- The locals of kermit_main's loop.
pub record Locals {ℓ} (K : Type ℓ) : Type ℓ where
  pub status : Status
  pub rx_len : ℤ
  pub retrycounter : ℕ
  pub start : Bool
  pub k : K

-- A round of the loop ends it with a return code, or goes on.
pub data Round {ℓ} (K : Type ℓ) : Type ℓ where
  ends : ℕ → K → Round K
  goes_on : Locals K → Round K

-- What the caller finds behind its pointers.
pub record Out {ℓ} (K : Type ℓ) (A : Type 0) : Type ℓ where
  pub ret : ℕ
  pub type : Option ℕ
  pub arg : Option (Option A)
  pub nresend : Option ℕ
  pub k : K

-- `crashed` is a write through a NULL pointer, `endless` that the fuel ran out.
pub data Run {ℓ} (R : Type ℓ) : Type ℓ where
  finished : R → Run R
  crashed endless : Run R

abbrev pub run_map {ℓ κ} : {R : Type ℓ} {S : Type κ} → (R → S) → Run R → Run S
run_map f (finished r) = finished (f r)
run_map f crashed = crashed
run_map f endless = endless

-- `-rx_len`
abbrev pub negated : ℤ → ℕ
negated (pos n) = 0
negated (negsuc n) = suc n

abbrev pub is_negative : ℤ → Bool
is_negative (pos n) = false
is_negative (negsuc n) = true

abbrev pub is_zero : ℤ → Bool
is_zero (pos n) = n == 0
is_zero (negsuc n) = false

module _ {ℓ} {K : Type ℓ} {A : Type 0} (g : Engine K A) where
  -- The packet is handed to kermit().
  unfoldable pub run_engine : Locals K → Round K
  run_engine s =
      let (status, k) = g.kermit k_run s.rx_len s.k in
      if is_x_error status
      then ends k_failure k
      else goes_on (record s { status = status; start = false; k = k })

  -- A read that gave nothing is counted.
  unfoldable pub handle_input : Locals K → Round K
  unfolding run_engine
  handle_input s =
      if is_zero s.rx_len
      then if s.retrycounter == 0
        then ends k_timeout (if s.start then s.k else (g.kermit k_error s.rx_len s.k).1)
        else run_engine (record s { retrycounter = s.retrycounter - 1 })
      else run_engine s

  unfoldable pub round : Locals K → Round K
  unfolding handle_input
  round s =
      let (ok, k) = g.ok2rxd s.k in
      let (rx_len, k') = g.rxd k in
      if is_done s.status
      then ends k_success s.k
      else if ok
      then if is_negative rx_len
        then ends (negated rx_len) k'
        else handle_input (record s { rx_len = rx_len; k = k' })
      else handle_input (record s { k = k })

  -- `none` means that the fuel ran out.
  unfoldable pub loop : ℕ → Locals K → Option (ℕ × K)
  loop zero s = none
  loop (suc fuel) s = elim (round s) [ ends ret k ↦ some (ret, k) | goes_on s' ↦ loop fuel s' ]

  abbrev pub out_of : ℕ → Bool → Bool → ℕ → K → Out K A
  out_of action arg type ret k = record {
    ret = ret;
    type = if type then some (g.r_type k) else none;
    arg =
        if arg
        then some (some (if action == a_dir || g.r_type k == a_dir then g.r_dir k else g.r_arg k))
        else none;
    nresend = some (g.nresend k);
    k = g.kclosefile k;
  }

  -- From the label kermit_main_end on.
  unfoldable pub main_end : ℕ → Bool → Bool → Bool → Option (ℕ × K) → Run (Out K A)
  main_end action arg type nresend none = endless
  main_end action arg type false (some (ret, k)) = crashed
  main_end action arg type true (some (ret, k)) = finished (out_of action arg type ret k)

  -- K_DIR, K_SEND or K_GET, by the action.
  unfoldable pub begin_action : ℕ → Status × K → Status × K
  begin_action action (status, k) =
      if action == a_dir
      then g.kermit k_dir (pos 0) k
      else if action == a_send
      then g.kermit k_send (pos 0) k
      else if action == a_get
      then g.kermit k_get (pos 0) k
      else (status, k)

  abbrev pub enter : Status × K → Locals K
  enter (status, k) = record {
    status = status;
    rx_len = pos 0;
    retrycounter = g.retry k + 1;
    start = true;
    k = k;
  }

  -- kdevopen() of unixio_rpi.c returns X_OK always, so its failure is not modelled.
  unfoldable pub kermit_main : ℕ → ℕ → Option (List A) → Bool → Bool → Bool → K → Run (Out K A)
  unfolding main_end begin_action
  kermit_main fuel action cmlist arg type nresend k =
      let (status, k1) = g.kermit k_reinit (pos 0) (g.set_filelist cmlist (g.set_type a_wait k)) in
      let rest =
        main_end action arg type nresend (loop fuel (enter (begin_action action (status, k1)))) in
      if is_ok status
      then rest
      else finished (record { ret = k_error_code; type = none; arg = none; nresend = none; k = k1 })
