-- ===== src/Kermit/Client.antt =====
-- _EK_get, _EK_send and _EK_dir hand kermit_main a NULL `nresend`, which it writes through.
use slate.Base.{ℕ, Bool, true, false, ◌≡◌, ◌≢◌, sym, ◌∙◌, Option, some, List, [], ◌∷◌, pos, arith}
use slate.Kermit.{
  Engine, Out, finished, Status, kermit_main, main_end, k_reinit, is_ok, a_wait, a_get, a_send,
  a_dir, k_error_code,
}
use slate.Kermit.Ek.{ek_get, ek_send, ek_dir}

module _ {ℓ} {K : Type ℓ} {A : Type 0} (g : Engine K A) where
  -- What the first call of kermit(), K_REINIT, returns.
  abbrev pub reinit : Option (List A) → K → Status × K
  reinit cmlist k = g.kermit k_reinit (pos 0) (g.set_filelist cmlist (g.set_type a_wait k))

  -- Without a place for `nresend`, kermit_main returns to its caller only if K_REINIT fails.
  kermit_main_null :
      (fuel action : ℕ) (cmlist : Option (List A)) (arg type : Bool) (k : K) (o : Out K A)
      → kermit_main g fuel action cmlist arg type false k ≡ finished o
      → (is_ok (reinit cmlist k).0 ≡ false) × (o.ret ≡ k_error_code)
  unfolding kermit_main main_end
  kermit_main_null fuel action cmlist arg type k o h = ground arith

  -- Once K_REINIT succeeds, none of the three client functions returns to its caller: a call that
  -- returns did so because K_REINIT failed, with K_ERROR.
  pub client_returns_only_on_reinit_failure :
      (fuel : ℕ) (filename : A) (k : K) (o : Out K A)
      → (ek_get g fuel filename k ≡ finished o
          → (is_ok (reinit (some (filename ∷ [])) k).0 ≡ false) × (o.ret ≡ k_error_code))
        × (ek_send g fuel filename k ≡ finished o
            → (is_ok (reinit (some (filename ∷ [])) k).0 ≡ false) × (o.ret ≡ k_error_code))
        × (ek_dir g fuel k ≡ finished o
            → (is_ok (reinit (some []) k).0 ≡ false) × (o.ret ≡ k_error_code))
  unfolding ek_get ek_send ek_dir
  client_returns_only_on_reinit_failure fuel filename k o = (
    kermit_main_null fuel a_get (some (filename ∷ [])) false false k o,
    kermit_main_null fuel a_send (some (filename ∷ [])) false false k o,
    kermit_main_null fuel a_dir (some []) true false k o,
  )

  -- Once K_REINIT succeeds for the files of both kinds of call, none of the three client functions
  -- returns to its caller, whatever E-Kermit does and whatever is received.
  pub client_never_returns :
      (fuel : ℕ) (filename : A) (k : K) (o : Out K A)
      → is_ok (reinit (some (filename ∷ [])) k).0 ≡ true
      → is_ok (reinit (some []) k).0 ≡ true
      → (ek_get g fuel filename k ≢ finished o)
        × (ek_send g fuel filename k ≢ finished o)
        × (ek_dir g fuel k ≢ finished o)
  client_never_returns fuel filename k o ok ok' =
      let (get, send, dir) = client_returns_only_on_reinit_failure fuel filename k o in
      (
        λ e. let (unready, _) = get e in absurd (ground (arith, sym ok ∙ unready)),
        λ e. let (unready, _) = send e in absurd (ground (arith, sym ok ∙ unready)),
        λ e. let (unready, _) = dir e in absurd (ground (arith, sym ok' ∙ unready)),
      )
