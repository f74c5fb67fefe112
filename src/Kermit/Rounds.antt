-- ===== src/Kermit/Rounds.antt =====
-- How kermit_main's loop ends.
use mathlib.Core.Path.{ap₂}
use mathlib.Core.Option
use slate.Base.{
  ℕ, zero, suc, ◌-◌, true, false, Bool-cases, ◌≡◌, ◌≢◌, ◌⊎◌, refl, sym, inl, inr, Option, some, ℤ,
  arith, ◌==◌, ◌∙◌, ap,
}
use slate.Kermit.{
  Engine, Status, x_done, Locals, Round, ends, goes_on, run_engine, handle_input, round, loop,
  is_done, is_x_error, is_negative, is_zero, negated, k_success, k_run,
}

module _ {ℓ} {K : Type ℓ} {A : Type 0} (g : Engine K A) where
  -- The status and the state are those that some call of kermit() with K_RUN gave.
  abbrev pub FromRun : Status → K → Type ℓ
  FromRun status k = (len : ℤ) × (before : K) × (g.kermit k_run len before ≡ (status, k))

  -- From the input on, a round never ends with K_SUCCESS.
  abbrev Handled : Round K → Type ℓ
  Handled (ends ret k) = (u : Unit {ℓ}) → ret ≢ k_success
  Handled (goes_on t) = FromRun t.status t.k

  run_engine-Handled : (s : Locals K) → Handled (run_engine g s)
  unfolding run_engine
  run_engine-Handled s = elim (Bool-cases (is_x_error (g.kermit k_run s.rx_len s.k).0)) [
    | inl e ↦ rw e (λ u h. absurd (omega arith))
    | inr e ↦ rw e (s.rx_len, s.k, refl)
  ]

  handle_input-Handled : (s : Locals K) → Handled (handle_input g s)
  unfolding handle_input
  handle_input-Handled s = elim (Bool-cases (is_zero s.rx_len)) [
    | inl e ↦ elim (Bool-cases (s.retrycounter == 0)) [
      | inl z ↦ rw (e, z) (λ u h. absurd (omega arith))
      | inr z ↦ rw (e, z) (run_engine-Handled (record s { retrycounter = s.retrycounter - 1 }))
    ]
    | inr e ↦ rw e (run_engine-Handled s)
  ]

  -- A round that ends with K_SUCCESS does so for the status X_DONE.
  abbrev RoundOk : Locals K → Round K → Type ℓ
  RoundOk s (ends ret k) = ret ≡ k_success → (s.status ≡ x_done) × (k ≡ s.k)
  RoundOk s (goes_on t) = FromRun t.status t.k

  Handled-RoundOk : (s : Locals K) (r : Round K) → Handled r → RoundOk s r
  Handled-RoundOk s (ends ret k) h = λ e. absurd (h tt e)
  Handled-RoundOk s (goes_on t) h = h

  is_done-eq : (s : Status) → is_done s ≡ true → s ≡ x_done
  is_done-eq s h = ground arith

  negated_ne : (n : ℤ) → is_negative n ≡ true → negated n ≢ k_success
  negated_ne n h = ground arith

  round-RoundOk : (s : Locals K) → RoundOk s (round g s)
  unfolding round
  round-RoundOk s =
      let (ok, k) = g.ok2rxd s.k in
      let (rx_len, k') = g.rxd k in
      elim (Bool-cases (is_done s.status)) [
        | inl e ↦ rw e (λ _. (is_done-eq s.status e, refl))
        | inr e ↦ elim (Bool-cases ok) [
          | inl a ↦ elim (Bool-cases (is_negative rx_len)) [
            | inl n ↦ rw (e, a, n) (λ h. absurd (negated_ne rx_len n h))
            | inr n ↦
                let t : Locals K = record s { rx_len = rx_len; k = k' } in
                rw (e, a, n) (Handled-RoundOk s (handle_input g t) (handle_input-Handled t))
          ]
          | inr a ↦
              let t : Locals K = record s { k = k } in
              rw (e, a) (Handled-RoundOk s (handle_input g t) (handle_input-Handled t))
        ]
      ]

  -- A loop that starts here has not seen X_DONE, or has it from K_RUN.
  abbrev Origin : Locals K → Type ℓ
  Origin s = (is_done s.status ≡ false) ⊎ FromRun s.status s.k

  abbrev LoopOk : Option (ℕ × K) → Type ℓ
  LoopOk r = (k : K) → r ≡ some (k_success, k) → FromRun x_done k

  Origin-done : (s : Locals K) (k : K) → Origin s → s.status ≡ x_done → k ≡ s.k → FromRun x_done k
  Origin-done s k (inl e) d q = absurd (cc)
  Origin-done s k (inr (len, b, h)) d q = (len, b, h ∙ ap₂ (λ a c. (a, c)) d (sym q))

  after_round :
      (fuel : ℕ) (s : Locals K) (r : Round K)
      → ((t : Locals K) → Origin t → LoopOk (loop g fuel t))
      → Origin s
      → RoundOk s r
      → LoopOk (elim r [ ends ret k ↦ some (ret, k) | goes_on t ↦ loop g fuel t ])
  after_round fuel s (ends ret j) ih h ok = λ k e.
      let p : ◌≡◌ {A = ℕ × K} (ret, j) (k_success, k) = ap (λ o. Option.get_or o (ret, j)) e in
      let (d, q) = ok (ap (λ o. o.0) p) in Origin-done s k h d (sym (ap (λ o. o.1) p) ∙ q)
  after_round fuel s (goes_on t) ih h ok = ih t (inr ok)

  loop-LoopOk : (fuel : ℕ) (s : Locals K) → Origin s → LoopOk (loop g fuel s)
  unfolding loop
  loop-LoopOk zero s h = λ k e. cc
  loop-LoopOk (suc fuel) s h = after_round fuel s (round g s) (loop-LoopOk fuel) h (round-RoundOk s)

  -- kermit_main's loop ends with K_SUCCESS only if E-Kermit reported X_DONE for a packet that it was
  -- given, and with the state that E-Kermit left then.
  pub loop_success_needs_done :
      (fuel : ℕ) (s : Locals K) (k : K)
      → is_done s.status ≡ false
      → loop g fuel s ≡ some (k_success, k)
      → (len : ℤ) × (before : K) × (g.kermit k_run len before ≡ (x_done, k))
  loop_success_needs_done fuel s k d e = loop-LoopOk fuel s (inl d) k e
