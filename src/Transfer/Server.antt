-- ===== src/Transfer/Server.antt =====
-- FT_start_server over libe-kermit.c: a link where nothing arrives, and the end by a command.
use slate.Base.{false, ℕ, suc, ◌+◌, ◌<◌, true, ◌≡◌, refl, none, some, ap, ◌∙◌, negsuc}
use slate.Kermit.{Engine, Out, finished, is_ok, run_map, kermit_main, a_wait, k_error_code}
use slate.Kermit.Ek.{served_of, ek_start_server}
use slate.Kermit.Client.{reinit}
use slate.Kermit.Silent.{NothingArrives, kermit_main_silent, kermit_main_read_fails}
use slate.Transfer.{
  Ft, Reply, end_type, etime, eio, ft_success, is_initialized, is_server, ft_start_server,
  served_reply,
}

module _ {ℓ} {K : Type ℓ} {A : Type 0} (g : Engine K A) where
  -- FT_start_server with its pointers given is _EK_start_server, its answer translated.
  ft_start_server-ek :
      (fuel : ℕ) (s : Ft K)
      → is_initialized s.state ≡ true
      → is_server s.mode ≡ true
      → ft_start_server g fuel true true true s
        ≡ run_map (served_reply g s) (ek_start_server g fuel true true s.k)
  unfolding ft_start_server
  ft_start_server-ek fuel s i m = rw (i, m) refl

  -- On a link where nothing arrives, an initialized server returns ETIME once the retry limit of
  -- E-Kermit is used up.
  pub server_times_out :
      (fuel : ℕ) (s : Ft K) (I J : K → Type 0)
      → is_initialized s.state ≡ true
      → is_server s.mode ≡ true
      → NothingArrives g I J
      → I (reinit g none s.k).1
      → is_ok (reinit g none s.k).0 ≡ true
      → g.retry (reinit g none s.k).1 + 1 < fuel
      → (r : Reply K A) × (ft_start_server g fuel true true true s ≡ finished r) × (r.code ≡ etime)
  unfolding ek_start_server
  server_times_out fuel s I J i m quiet begins ok enough =
      let (last, e) = kermit_main_silent g fuel true true s.k I J quiet begins ok enough in
      (
        _,
        ft_start_server-ek fuel s i m
            ∙ ap (λ r. run_map (served_reply g s) (run_map (served_of g) r)) e,
        refl,
      )

  -- A server that K_REINIT refuses returns EIO.
  pub server_refused :
      (fuel : ℕ) (s : Ft K)
      → is_initialized s.state ≡ true
      → is_server s.mode ≡ true
      → is_ok (reinit g none s.k).0 ≡ false
      → (r : Reply K A) × (ft_start_server g fuel true true true s ≡ finished r) × (r.code ≡ eio)
  unfolding ek_start_server kermit_main
  server_refused fuel s i m bad =
      let refused : Out K A = record {
        ret = k_error_code;
        type = none;
        arg = none;
        nresend = none;
        k = (reinit g none s.k).1;
      } in
      let run : kermit_main g fuel a_wait none true true true s.k ≡ finished refused =
        rw bad refl in
      (
        served_reply g s (served_of g refused),
        ft_start_server-ek fuel s i m
            ∙ ap (λ r. run_map (served_reply g s) (run_map (served_of g) r)) run,
        refl,
      )

  -- When the first read of an initialized server ends with -K_END, as for the bytes "CMD", the
  -- server returns FT_SUCCESS with the type ft_type_end.
  pub server_ends_on_command :
      (fuel : ℕ) (s : Ft K)
      → is_initialized s.state ≡ true
      → is_server s.mode ≡ true
      → is_ok (reinit g none s.k).0 ≡ true
      → (g.ok2rxd (reinit g none s.k).1).0 ≡ true
      → (g.rxd (g.ok2rxd (reinit g none s.k).1).1).0 ≡ negsuc 2
      → (r : Reply K A) × (ft_start_server g (suc fuel) true true true s ≡ finished r)
        × (r.code ≡ ft_success)
        × (r.type ≡ some end_type)
  unfolding ek_start_server
  server_ends_on_command fuel s i m ok ready end = (
    _,
    ft_start_server-ek (suc fuel) s i m
        ∙ ap (λ r. run_map (served_reply g s) (run_map (served_of g) r))
            (kermit_main_read_fails g fuel true true s.k 2 ok ready end),
    refl,
    refl,
  )
