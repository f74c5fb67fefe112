-- ===== src/Transfer.antt =====
-- src/libfile_transfer/libfile_transfer.c over libe-kermit.c, and the thread that serves files,
-- src/file_transfer_task.c.
pub mod Task
pub mod Guards
pub mod Server
pub mod Ending
mod Tests
use slate.Base.{
  ℕ, Bool, true, false, not, ◌&&◌, ◌||◌, Option, none, some, List, ◌==◌, if◌then◌else◌,
}
use slate.Kermit.{Engine, Out, Run, finished, crashed, endless, run_map}
use slate.Kermit.Ek.{
  EkType, ek_get_type, ek_send_type, ek_dir_type, ek_other_type, Served, ek_init, ek_deinit,
  ek_init_memory, ek_start_server, ek_get, ek_send, ek_dir,
}

-- FT_SUCCESS, ETIME, EIO, EACCES, EINVAL
abbrev pub ft_success : ℕ
ft_success = 0

abbrev pub etime : ℕ
etime = 62

abbrev pub eio : ℕ
eio = 5

abbrev pub eacces : ℕ
eacces = 13

abbrev pub einval : ℕ
einval = 22

-- ft_mode_server, ft_mode_client
pub data Mode : Type 0 where
  server client : Mode

-- FT_IS_NOT_INITIALIZED, FT_IS_INITIALIZED
pub data State : Type 0 where
  not_initialized initialized : State

pub data FtType : Type 0 where
  get_type send_type dir_type end_type other_type : FtType

-- `gStatus`, `ft_rp`, `ft_priv`, and the state of E-Kermit.
pub record Ft {ℓ} (K : Type ℓ) : Type ℓ where
  pub state : State
  pub mode : Mode
  pub ft_rp : Option (List ℕ)
  pub ft_priv : Bool
  pub k : K

-- A return code, the new state, and what is stored through the caller's pointers.
pub record Reply {ℓ} (K : Type ℓ) (A : Type 0) : Type ℓ where
  pub code : ℕ
  pub type : Option FtType
  pub arg : Option (Option A)
  pub nresend : Option ℕ
  pub ft : Ft K

abbrev pub is_initialized : State → Bool
is_initialized not_initialized = false
is_initialized initialized = true

abbrev pub is_server : Mode → Bool
is_server server = true
is_server client = false

-- The `switch (ret)` of all but FT_start_server.
abbrev pub code_of : ℕ → ℕ
code_of ret = if ret == 0 then ft_success else if ret == 2 then etime else eio

abbrev pub ft_type_of : EkType → FtType
ft_type_of ek_get_type = get_type
ft_type_of ek_send_type = send_type
ft_type_of ek_dir_type = dir_type
ft_type_of ek_other_type = other_type

module _ {ℓ} {K : Type ℓ} {A : Type 0} (g : Engine K A) where
  -- `s.mode` and `s.state` are set whatever _EK_init returns.
  unfoldable pub start_init : Mode → Option (List ℕ) → Bool → Ft K → ℕ × Ft K
  start_init mode none priv s = (einval, s)
  start_init mode (some root_path) false s = (einval, s)
  start_init mode (some root_path) true s =
      let (ret, k) = ek_init g (some root_path) true s.k in
      (
        code_of ret,
        record { state = initialized; mode = mode; ft_rp = some root_path; ft_priv = true; k = k },
      )

  unfoldable pub ft_init : Mode → Option (List ℕ) → Bool → Ft K → ℕ × Ft K
  unfolding start_init
  ft_init mode root_path priv s =
      if is_initialized s.state then (eacces, s) else start_init mode root_path priv s

  unfoldable pub ft_deinit : Ft K → ℕ × Ft K
  ft_deinit s =
      let (ret, k) = ek_deinit g s.k in
      if not (is_initialized s.state)
      then (eacces, s)
      else (if ret == 0 then ft_success else eio, record s { state = not_initialized; k = k })

  abbrev pub refuse : ℕ → Ft K → Run (Reply K A)
  refuse code s = finished (record { code = code; type = none; arg = none; nresend = none; ft = s })

  -- The two switches of FT_start_server.
  abbrev pub served_reply : Ft K → Served K A → Reply K A
  served_reply s o = record {
    code =
        if o.ret == 0
        then ft_success
        else if o.ret == 2
        then etime
        else if o.ret == 3
        then ft_success
        else eio;
    type = some (if o.ret == 3 then end_type else ft_type_of o.type);
    arg = o.arg;
    nresend = o.nresend;
    ft = record s { k = o.k };
  }

  -- The Booleans say which of the three pointers are not NULL; `nresend` is not checked.
  unfoldable pub ft_start_server : ℕ → Bool → Bool → Bool → Ft K → Run (Reply K A)
  ft_start_server fuel type arg nresend s =
      let run = run_map (served_reply s) (ek_start_server g fuel arg nresend s.k) in
      if not (is_initialized s.state) || not (is_server s.mode)
      then refuse eacces s
      else if not type || not arg
      then refuse einval s
      else run

  unfoldable pub ft_init_memory : Ft K → ℕ × Ft K
  ft_init_memory s =
      let (ret, k) = ek_init_memory g s.k in
      (if ret == 0 then ft_success else eio, record s { k = k })

  abbrev pub client_reply : Ft K → Out K A → Reply K A
  client_reply s o = record {
    code = code_of o.ret;
    type = none;
    arg = o.arg;
    nresend = o.nresend;
    ft = record s { k = o.k };
  }

  -- The guards that FT_get, FT_send and FT_dir share; `given` says that the argument is not NULL.
  abbrev pub as_client : Bool → Run (Out K A) → Ft K → Run (Reply K A)
  as_client given run s =
      if not (is_initialized s.state) || is_server s.mode
      then refuse eacces s
      else if not given
      then refuse einval s
      else run_map (client_reply s) run

  unfoldable pub ft_get : ℕ → Option A → Ft K → Run (Reply K A)
  ft_get fuel none s = as_client false endless s
  ft_get fuel (some filename) s = as_client true (ek_get g fuel filename s.k) s

  unfoldable pub ft_send : ℕ → Option A → Ft K → Run (Reply K A)
  ft_send fuel none s = as_client false endless s
  ft_send fuel (some filename) s = as_client true (ek_send g fuel filename s.k) s

  unfoldable pub ft_dir : ℕ → Bool → Ft K → Run (Reply K A)
  ft_dir fuel result s = as_client result (ek_dir g fuel s.k) s
