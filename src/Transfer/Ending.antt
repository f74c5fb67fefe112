-- ===== src/Transfer/Ending.antt =====
-- When the file transfer thread ends, and how it leaves the library.
use mathlib.Core.Path.{subst}
use slate.Base.{
  ℕ, zero, suc, true, false, Bool-cases, not, ◌||◌, ◌≡◌, ◌≢◌, ◌⊎◌, inl, inr, refl, sym, List, [],
  ◌∷◌, ap, ◌∙◌, arith, ◌==◌,
}
use slate.Kermit.{Engine, Run, finished, crashed, endless, run_map}
use slate.Transfer.{Ft, Reply, FtType, get_type, not_initialized, ft_deinit, ft_start_server}
use slate.Transfer.Task.{Locals, is_get, noted, serve, ft_task}

-- No transaction in the list is a GET.
abbrev pub NoGet : List FtType → Type 0
NoGet [] = Unit
NoGet (t ∷ ts) = (is_get t ≡ false) × NoGet ts

-- The newest transaction is a GET and no older one, or the last call of FT_start_server failed.
abbrev pub EndsRight {ℓ} : {K : Type ℓ} → Locals K → Type 0
EndsRight s = (s.err ≢ 0) ⊎ ((older : List FtType) × (s.log ≡ get_type ∷ older) × NoGet older)

module _ {ℓ} {K : Type ℓ} {A : Type 0} (g : Engine K A) where
  abbrev Fine : Locals K → Type 0
  Fine s = (s.flag ≡ false) × NoGet s.log

  is_get-eq : (t : FtType) → is_get t ≡ true → t ≡ get_type
  is_get-eq t h = ground arith

  noted-stop :
      (s : Locals K) (r : Reply K A)
      → Fine s
      → (not (r.code == 0) || (noted g s r).flag) ≡ true
      → EndsRight (noted g s r)
  noted-stop s r h e = elim (Bool-cases (r.code == 0)) [
    | inl z ↦
        let get : is_get (noted g s r).type ≡ true = ground arith in
        inr (s.log, ap (λ t. t ∷ s.log) (is_get-eq (noted g s r).type get), h.1)
    | inr z ↦ inl (ground arith)
  ]

  noted-Fine :
      (s : Locals K) (r : Reply K A)
      → Fine s
      → (not (r.code == 0) || (noted g s r).flag) ≡ false
      → Fine (noted g s r)
  noted-Fine s r h e =
      let f : (noted g s r).flag ≡ false = ground arith in
      let t : is_get (noted g s r).type ≡ false = ground arith in (f, (t, h.1))

  abbrev ServeOk : Run (Locals K) → Type ℓ
  ServeOk r = (t : Locals K) → r ≡ finished t → EndsRight t

  finished-eq :
      (s t : Locals K)
      → EndsRight s
      → ◌≡◌ {A = Run (Locals K)} (finished s) (finished t)
      → EndsRight t
  finished-eq s t h e = let q : s ≡ t = cc in subst EndsRight q h

  after_reply :
      (rounds fuel : ℕ) (s : Locals K) (r : Run (Reply K A))
      → ((t : Locals K) → Fine t → ServeOk (serve g rounds fuel t))
      → Fine s
      → ServeOk (elim r [
        | finished r ↦ elim (not (r.code == 0) || (noted g s r).flag) [
          | true ↦ finished (noted g s r)
          | false ↦ serve g rounds fuel (noted g s r)
        ]
        | crashed ↦ crashed
        | endless ↦ endless
      ])
  after_reply rounds fuel s crashed ih h = λ t e. cc
  after_reply rounds fuel s endless ih h = λ t e. cc
  after_reply rounds fuel s (finished r) ih h =
      elim (Bool-cases (not (r.code == 0) || (noted g s r).flag)) [
        | inl e ↦ rw e (λ t q. finished-eq (noted g s r) t (noted-stop s r h e) q)
        | inr e ↦ rw e (ih (noted g s r) (noted-Fine s r h e))
      ]

  serve-ServeOk : (rounds fuel : ℕ) (s : Locals K) → Fine s → ServeOk (serve g rounds fuel s)
  unfolding serve
  serve-ServeOk zero fuel s h = λ t e. cc
  serve-ServeOk (suc rounds) fuel s h =
      after_reply rounds fuel s (ft_start_server g fuel true true true s.ft)
        (serve-ServeOk rounds fuel) h

  run_map-finished :
      (f : Locals K → Locals K) (r : Run (Locals K)) (t : Locals K)
      → run_map f r ≡ finished t
      → (s : Locals K) × (r ≡ finished s) × (f s ≡ t)
  run_map-finished f (finished s) t e = (s, refl, cc e)
  run_map-finished f crashed t e = cc
  run_map-finished f endless t e = cc

  deinit-state : (s : Ft K) → (ft_deinit g s).1.state ≡ not_initialized
  unfolding ft_deinit
  deinit-state s = ground arith

  -- When ft_task ends, its last transaction was a GET and none before it, or the last call of
  -- FT_start_server returned an error; and the library is not initialized.
  pub ft_task_ends :
      (rounds fuel : ℕ) (junk : FtType) (s : Ft K) (t : Locals K)
      → ft_task g rounds fuel junk s ≡ finished t
      → EndsRight t × (t.ft.state ≡ not_initialized)
  unfolding ft_task
  ft_task_ends rounds fuel junk s t e =
      let (u, served, same) = run_map-finished _ (serve g rounds fuel _) t e in
      let right = serve-ServeOk rounds fuel _ (refl, tt) u served in
      (subst EndsRight same right, ap (λ (l : Locals K). l.ft.state) (sym same) ∙ deinit-state u.ft)
