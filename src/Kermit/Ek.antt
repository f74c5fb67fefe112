-- ===== src/Kermit/Ek.antt =====
-- The functions _EK_init to _EK_dir of src/libe_kermit/libe-kermit.c.
use slate.Base.{
  ℕ, Bool, true, false, Option, none, some, List, [], ◌∷◌, ◌++◌, ◌==◌, if◌then◌else◌, take,
  replicate, u8, pos,
}
use slate.Kermit.{
  Engine, Setup, Out, Run, run_map, kermit_main, k_success, k_failure, a_wait, a_send, a_get, a_dir,
  k_init, is_x_error,
}

-- strncpy into `n` cells: cut, or filled up with NUL.
unfoldable pub strncpy : ℕ → List ℕ → List ℕ
strncpy n s = take n (s ++ replicate n 0)

abbrev pub k_rootpath_len : ℕ
k_rootpath_len = 100

abbrev pub setup_of : List ℕ → Setup
setup_of root_path = record {
  wslots_max = 1;
  p_maxlen = 1000;
  send_pause_us = 1000000;
  baud = 115200;
  remote = 0;
  xfermode = 0;
  binary = 1;
  parity = 0;
  bct = 1;
  bcta3 = 0;
  ikeep = 0;
  cancel = 0;
  zinlen = 512;
  zincnt = 0;
  obuflen = 512;
  rootpath = strncpy k_rootpath_len root_path;
}

-- ek_type_get, ek_type_send, ek_type_dir, ek_type_other
pub data EkType : Type 0 where
  ek_get_type ek_send_type ek_dir_type ek_other_type : EkType

abbrev pub ek_type_of : ℕ → EkType
ek_type_of t =
    if t == a_get
    then ek_get_type
    else if t == a_send
    then ek_send_type
    else if t == a_dir
    then ek_dir_type
    else ek_other_type

-- What _EK_start_server gives: its uint8_t, the type, and what stands behind the pointers.
pub record Served {ℓ} (K : Type ℓ) (A : Type 0) : Type ℓ where
  pub ret : ℕ
  pub type : EkType
  pub arg : Option (Option A)
  pub nresend : Option ℕ
  pub k : K

abbrev pub or_zero : Option ℕ → ℕ
or_zero none = 0
or_zero (some n) = n

module _ {ℓ} {K : Type ℓ} {A : Type 0} (g : Engine K A) where
  unfoldable pub ek_init : Option (List ℕ) → Bool → K → ℕ × K
  ek_init none priv k = (k_failure, k)
  ek_init (some root_path) false k = (k_failure, k)
  ek_init (some root_path) true k =
      let (status, k') = g.kermit k_init (pos 0) (g.configure (setup_of root_path) k) in
      (if is_x_error status then k_failure else k_success, k')

  -- kdevdeinit() returns 0.
  unfoldable pub ek_deinit : K → ℕ × K
  ek_deinit k = (0, k)

  unfoldable pub ek_init_memory : K → ℕ × K
  ek_init_memory k = (k_success, k)

  abbrev pub served_of : Out K A → Served K A
  served_of o = record {
    ret = u8 o.ret;
    type = ek_type_of (or_zero o.type);
    arg = o.arg;
    nresend = o.nresend;
    k = o.k;
  }

  -- `k_type` is 0 where kermit_main does not set it.
  unfoldable pub ek_start_server : ℕ → Bool → Bool → K → Run (Served K A)
  ek_start_server fuel arg nresend k =
      run_map served_of (kermit_main g fuel a_wait none arg true nresend k)

  -- A NULL for `nresend` goes to kermit_main.
  unfoldable pub ek_get : ℕ → A → K → Run (Out K A)
  ek_get fuel filename k = kermit_main g fuel a_get (some (filename ∷ [])) false false false k

  unfoldable pub ek_send : ℕ → A → K → Run (Out K A)
  ek_send fuel filename k = kermit_main g fuel a_send (some (filename ∷ [])) false false false k

  unfoldable pub ek_dir : ℕ → K → Run (Out K A)
  ek_dir fuel k = kermit_main g fuel a_dir (some []) true false false k
