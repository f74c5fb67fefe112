-- ===== src/Kermit/Tests.antt =====
-- Runs of kermit_main with engines that count the calls of kermit().
use slate.Base.{ℕ, suc, ◌≡◌, ◌≢◌, refl, true, none, some, ℤ, pos}
use slate.Kermit.{Engine, Status, x_ok, x_done, Locals, Out, finished, round, loop, k_success}
use slate.Kermit.Ek.{ek_get, ek_send, ek_dir}
use slate.Kermit.Client.{client_never_returns}
use slate.Kermit.Silent.{NothingArrives}

-- An engine whose kermit() and whose read give always the same.
abbrev constant : Status → ℤ → Engine ℕ ℕ
constant status len = record {
  kermit = λ fc n k. (status, suc k);
  ok2rxd = λ k. (true, k);
  rxd = λ k. (len, k);
  configure = λ s k. k;
  set_filelist = λ fs k. k;
  set_type = λ t k. k;
  retry = λ k. 2;
  nresend = λ k. 0;
  r_type = λ k. 3;
  r_arg = λ k. 0;
  r_dir = λ k. 0;
  kclosefile = λ k. k;
}

abbrev silent : Engine ℕ ℕ
silent = constant x_ok (pos 0)

abbrev done_at_once : Engine ℕ ℕ
done_at_once = constant x_done (pos 9)

silent-NothingArrives : NothingArrives silent (λ k. Unit) (λ k. Unit)
silent-NothingArrives = record {
  ready = λ k i. (refl, i);
  empty = λ k i. (refl, i);
  retries = λ k i. (refl, i);
}

abbrev first_locals : Locals ℕ
first_locals = record { status = x_ok; rx_len = pos 0; retrycounter = 3; start = true; k = 0 }

done_in_two : loop done_at_once 2 first_locals ≡ some (k_success, 1)
unfolding loop round
done_in_two = refl

abbrev refused : Out ℕ ℕ
refused = record { ret = 5; type = none; arg = none; nresend = none; k = 1 }

-- The client functions write through a NULL pointer here.
client_never_returns_example :
    (ek_get silent 5 7 0 ≢ finished refused)
    × (ek_send silent 5 7 0 ≢ finished refused)
    × (ek_dir silent 5 0 ≢ finished refused)
client_never_returns_example = client_never_returns silent 5 7 0 refused refl refl
