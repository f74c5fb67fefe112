-- ===== src/Transfer/Tests.antt =====
-- Runs of the file transfer library with the engines of Kermit/Tests.
use slate.Base.{ℕ, suc, ◌≡◌, refl, true, false, none, some, [], ◌∷◌, ℤ, pos}
use slate.Kermit.{Engine, Status, x_ok, finished, loop, round, kermit_main}
use slate.Kermit.Ek.{ek_start_server, ek_deinit, ek_init}
use slate.Transfer.{
  Ft, get_type, other_type, server, client, not_initialized, ft_init, ft_deinit, ft_start_server,
}
use slate.Transfer.Task.{Locals, ft_task, serve}
use slate.Transfer.Ending.{EndsRight, ft_task_ends}

-- An engine that takes K_INIT and K_REINIT, gives `status` to each packet, and whose reads give `len`.
abbrev constant : Status → ℤ → Engine ℕ ℕ
constant status len = record {
  kermit = λ fc n k. (status, suc k);
  ok2rxd = λ k. (true, k);
  rxd = λ k. (len, k);
  configure = λ s k. k;
  set_filelist = λ fs k. k;
  set_type = λ t k. k;
  retry = λ k. 2;
  nresend = λ k. 0;
  r_type = λ k. 3;
  r_arg = λ k. 0;
  r_dir = λ k. 0;
  kclosefile = λ k. k;
}

abbrev silent : Engine ℕ ℕ
silent = constant x_ok (pos 0)

abbrev fresh : Ft ℕ
fresh = record { state = not_initialized; mode = client; ft_rp = none; ft_priv = false; k = 0 }

-- The thread on a link where nothing arrives ends after one call.
abbrev timed_out : Locals ℕ
timed_out = record {
  type = get_type;
  flag = true;
  err = 62;
  log = get_type ∷ [];
  ft = record {
    state = not_initialized;
    mode = server;
    ft_rp = some (b'i' ∷ b'm' ∷ b'g' ∷ b'/' ∷ []);
    ft_priv = true;
    k = 6;
  };
}

task_times_out : ft_task silent 1 5 other_type fresh ≡ finished timed_out
unfolding ft_task serve ft_init ft_start_server ek_start_server kermit_main loop round ft_deinit
    ek_deinit ek_init
task_times_out = refl

ft_task_ends_example : EndsRight timed_out × (timed_out.ft.state ≡ not_initialized)
ft_task_ends_example = ft_task_ends silent 1 5 other_type fresh timed_out task_times_out
