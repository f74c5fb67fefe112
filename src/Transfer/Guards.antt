-- ===== src/Transfer/Guards.antt =====
-- The checks before E-Kermit is called, and the life of the library's state.
use slate.Base.{ℕ, Bool, true, false, ◌≡◌, ◌⊎◌, refl, Option, some, List, arith}
use slate.Kermit.{Engine}
use slate.Kermit.Ek.{ek_init, ek_deinit}
use slate.Transfer.{
  Ft, Mode, initialized, not_initialized, is_initialized, is_server, refuse, eacces, ft_success,
  ft_init, ft_deinit, ft_start_server, ft_get, ft_send, ft_dir,
}

module _ {ℓ} {K : Type ℓ} {A : Type 0} (g : Engine K A) where
  -- Before FT_init or after FT_deinit, and in the wrong mode, FT_start_server, FT_get, FT_send and
  -- FT_dir return EACCES with any arguments, call no E-Kermit and leave all as it was.
  pub wrong_state_refused :
      (fuel : ℕ) (p q r : Bool) (name : Option A) (s : Ft K)
      → ((is_initialized s.state ≡ false) ⊎ (is_server s.mode ≡ false)
          → ft_start_server g fuel p q r s ≡ refuse g eacces s)
        × ((is_initialized s.state ≡ false) ⊎ (is_server s.mode ≡ true)
            → (ft_get g fuel name s ≡ refuse g eacces s)
              × (ft_send g fuel name s ≡ refuse g eacces s)
              × (ft_dir g fuel p s ≡ refuse g eacces s))
  unfolding ft_start_server ft_get ft_send ft_dir
  wrong_state_refused fuel p q r name s =
      (λ h. ground arith, λ h. (ground arith, ground arith, ground arith))

  abbrev begun : Mode → List ℕ → Ft K → Ft K
  begun mode root_path s = record {
    state = initialized;
    mode = mode;
    ft_rp = some root_path;
    ft_priv = true;
    k = (ek_init g (some root_path) true s.k).1;
  }

  init-fresh :
      (mode : Mode) (root_path : List ℕ) (s : Ft K)
      → is_initialized s.state ≡ false
      → (ft_init g mode (some root_path) true s).1 ≡ begun mode root_path s
  unfolding ft_init
  init-fresh mode root_path s h = rw h refl

  -- FT_init with a root path and a context on a library that is not initialized leaves it initialized
  -- in the given mode, also when it reports that E-Kermit failed.  A second FT_init returns EACCES and
  -- changes nothing, and FT_deinit then succeeds and gives a library that is not initialized.
  pub init_deinit :
      (mode mode' : Mode) (root_path : List ℕ) (path : Option (List ℕ)) (priv : Bool) (s : Ft K)
      → is_initialized s.state ≡ false
      → let t = (ft_init g mode (some root_path) true s).1 in
        (t.state ≡ initialized)
        × (t.mode ≡ mode)
        × (ft_init g mode' path priv t ≡ (eacces, t))
        × ((ft_deinit g t).0 ≡ ft_success)
        × ((ft_deinit g t).1.state ≡ not_initialized)
        × ((ft_deinit g (ft_deinit g t).1).0 ≡ eacces)
  unfolding ft_init ft_deinit ek_deinit
  init_deinit mode mode' root_path path priv s h =
      rw (init-fresh mode root_path s h) (refl, refl, refl, refl, refl, refl)
