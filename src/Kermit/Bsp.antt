-- ===== src/Kermit/Bsp.antt =====
-- src/libe_kermit/libe-kermit.c, built with BSP_INTERNAL_BUFFER_SIZE: kermit_main, _EK_init and
-- _EK_init_memory, whose buffers and structures lie in one array of the board.  The engine's state
-- stands for what `k` and `r` point to; pointers have 4 bytes, as the sizes of the structures say.
pub mod Agrees
mod Tests
use slate.Base.{
  ℕ, ◌+◌, ◌*◌, ◌/◌, Bool, true, false, Option, none, some, List, ltb, if◌then◌else◌, sub32, pos,
  ◌==◌, ◌||◌,
}
use slate.Kermit.{
  Engine, Locals, Out, Run, finished, endless, k_success, k_failure, k_error_code, k_init, k_reinit,
  is_x_error, is_ok, a_wait, a_dir, loop, enter, begin_action,
}
use slate.Kermit.Ek.{setup_of}

abbrev pub obuflen : ℕ
obuflen = 512

abbrev pub ibuflen : ℕ
ibuflen = 512

-- sizeof(struct k_data) and sizeof(struct k_response), as BUILD_BUG_ON asks.
abbrev pub sizeof_k_data : ℕ
sizeof_k_data = 4744

abbrev pub sizeof_k_response : ℕ
sizeof_k_response = 356

-- Where the four pointers point, in bytes from the start of the array.
pub record Layout : Type 0 where
  pub o_buf : ℕ
  pub i_buf : ℕ
  pub r : ℕ
  pub k : ℕ

-- A step of `&_bsp_internal_buffer + n` is a pointer wide.
abbrev pub words_on : ℕ → ℕ
words_on n = 4 * n

abbrev pub mapped : Layout
mapped = record {
  o_buf = words_on (1536 / 4);
  i_buf = words_on (1536 / 4 + obuflen / 4 + 8 / 4);
  r = words_on (1536 / 4 + obuflen / 4 + 8 / 4 + ibuflen / 4 + 8 / 4);
  k = words_on (1536 / 4 + obuflen / 4 + 8 / 4 + ibuflen / 4 + 8 / 4 + (sizeof_k_response + 3) / 4);
}

-- tmp32
abbrev pub needed : ℕ
needed = (sizeof_k_data + 3) / 4 * 4 + (sizeof_k_response + 3) / 4 * 4 + obuflen + ibuflen + 16

-- `size` is BSP_INTERNAL_BUFFER_SIZE, an int that is compared as unsigned; `root_path` and `priv` say
-- whether these are not NULL.
unfoldable pub ek_init : ℕ → Bool → Bool → ℕ × Option Layout
ek_init size false priv = (k_failure, none)
ek_init size true false = (k_failure, none)
ek_init size true true =
    if ltb (sub32 size 1536) needed then (k_failure, none) else (k_success, some mapped)

module _ {ℓ} {K : Type ℓ} {A : Type 0} (g : Engine K A) where
  unfoldable pub ek_init_memory : List ℕ → K → ℕ × K
  ek_init_memory root_path k =
      let (status, k') = g.kermit k_init (pos 0) (g.configure (setup_of root_path) k) in
      (if is_x_error status then k_failure else k_success, k')

  -- From the label kermit_main_end on; `nresend` is not written.
  unfoldable pub main_end : ℕ → Bool → Bool → Option (ℕ × K) → Run (Out K A)
  main_end action arg type none = endless
  main_end action arg type (some (ret, k)) = finished (record {
    ret = ret;
    type = if type then some (g.r_type k) else none;
    arg =
        if arg
        then some (some (if action == a_dir || g.r_type k == a_dir then g.r_dir k else g.r_arg k))
        else none;
    nresend = none;
    k = g.kclosefile k;
  })

  -- The loop is that of the other build.
  unfoldable pub kermit_main : ℕ → ℕ → Option (List A) → Bool → Bool → K → Run (Out K A)
  unfolding main_end begin_action
  kermit_main fuel action cmlist arg type k =
      let (status, k1) = g.kermit k_reinit (pos 0) (g.set_filelist cmlist (g.set_type a_wait k)) in
      let rest =
        main_end action arg type (loop g fuel (enter g (begin_action g action (status, k1)))) in
      if is_ok status
      then rest
      else finished (record { ret = k_error_code; type = none; arg = none; nresend = none; k = k1 })
