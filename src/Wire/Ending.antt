-- ===== src/Wire/Ending.antt =====
-- The transfer thread on a link that has gone silent.
use mathlib.Core.Path.{subst}
use slate.Base.{
  false, [], ℕ, suc, ◌+◌, ◌*◌, ◌<◌, ◌≤◌, ◌≡◌, ◌≢◌, refl, sym, ap, arith, Bool-cases, inl, inr, true,
  false, none, some, List, ℤ, pos, ◌==◌,
}
use slate.Kermit.{Engine, Fc, finished, is_ok, k_run, k_init, k_reinit, x_ok, run_map, a_wait}
use slate.Kermit.Ek.{ek_init, setup_of}
use slate.Kermit.Client.{reinit}
use slate.Kermit.Silent.{NothingArrives}
use slate.Central.{Central, Host}
use slate.Transfer.{
  Ft, FtType, Reply, not_initialized, server, ft_init, ft_deinit, ft_start_server, start_init,
  is_initialized, is_server,
}
use slate.Transfer.Server.{server_times_out, server_refused}
use slate.Transfer.Task.{Locals, ft_task, serve, noted, file_transfer_path}
use slate.Transfer.Ending.{ft_task_ends}
use slate.Wire.Receive.{WaitKeeps, HasTime}
use slate.Wire.Silence.{Bare, Bare-same, kreadpkt_silent}
use slate.Wire.Engine.{Slots, on_link, read_done}

module _ {ℓ κ} {B : Type ℓ} {K : Type κ} {A : Type 0} (l : Slots K)
    (g : Engine (K × Central B) A) where
  abbrev Kept : K × Central B → K × Central B → Type 0
  Kept e e' = e'.1.mldp_fifo_rx ≡ e.1.mldp_fifo_rx

  -- E-Kermit as a server that waits for its first packet: `Waits` are the states that K_REINIT leaves when it
  -- succeeds, with W_RECV; `Reads` those after ok2rxd there, which lets a packet be read. A read
  -- without a byte changes nothing of this, and K_RUN without a packet then asks again and waits. It
  -- takes nothing from the rx FIFO but by kreadpkt, retries fewer than `limit` times, and has a time limit
  -- of at most `patience` polls where it reads.
  pub record Patient (Waits Reads : K × Central B → Type 0) (limit patience : ℕ)
      : Type (ℓ ⊔ κ) where
    pub kermit_kept : (fc : Fc) (n : ℤ) (e : K × Central B) → Kept e (g.kermit fc n e).1
    pub ok2rxd_kept : (e : K × Central B) → Kept e (g.ok2rxd e).1
    pub configure_kept :
        (e : K × Central B) (path : List ℕ) → Kept e (g.configure (setup_of path) e)
    pub set_filelist_kept : (e : K × Central B) → Kept e (g.set_filelist none e)
    pub set_type_kept : (e : K × Central B) → Kept e (g.set_type a_wait e)
    pub begins :
        (e : K × Central B)
        → is_ok (g.kermit k_reinit (pos 0) e).0 ≡ true
        → Waits (g.kermit k_reinit (pos 0) e).1
    pub slot : (e : K × Central B) → Waits e → ((g.ok2rxd e).0 ≡ true) × Reads (g.ok2rxd e).1
    pub unread :
        (k : K) (c c' : Central B) (buff : List ℕ) → Reads (k, c) → Reads (l.fill buff k, c')
    pub retries :
        (e : K × Central B)
        → Reads e
        → ((g.kermit k_run (pos 0) e).0 ≡ x_ok) × Waits (g.kermit k_run (pos 0) e).1
    pub limited : (e : K × Central B) → Waits e → g.retry e + 1 < limit
    pub time : (k : K) (c : Central B) → Reads (k, c) → HasTime (l.params k)
    pub polls : (k : K) (c : Central B) → Reads (k, c) → (l.params k).r_timo * 120 ≤ patience

  module _ (h : Host B) (stray : ℕ) (wait : Central B → ℕ → Central B)
      (keeps : WaitKeeps h stray wait) (Waits Reads : K × Central B → Type 0)
      (limit fuel patience : ℕ) (p : Patient Waits Reads limit patience) where
    abbrev linked : Engine (K × Central B) A
    linked = on_link h stray wait l g (suc fuel) patience

    BareWaits : K × Central B → Type 0
    BareWaits e = Bare e.1 × Waits e

    BareReads : K × Central B → Type 0
    BareReads e = Bare e.1 × Reads e

    rxd_silent :
        (e : K × Central B)
        → Bare e.1
        → Reads e
        → ((linked.rxd e).0 ≡ pos 0) × (Bare (linked.rxd e).1.1 × Reads (linked.rxd e).1)
    rxd_silent (k, c) b w =
        let (c', run, b') =
          kreadpkt_silent h stray wait keeps (l.params k) fuel patience (l.slot k) c (p.time k c w)
            (p.polls k c w) b in
        let done = ap (read_done h stray wait l (k, c)) run in
        (
          ap (λ r. r.0) done,
          (
            Bare-same c' (linked.rxd (k, c)).1.1 (ap (λ r. r.1.1.mldp_fifo_rx) done) b',
            subst Reads (sym (ap (λ r. r.1) done)) (p.unread k c c' _ w),
          ),
        )

    linked-NothingArrives : NothingArrives linked BareWaits BareReads
    unfolding BareWaits BareReads
    linked-NothingArrives = record {
      ready = λ e (b, w).
          ((p.slot e w).0, (Bare-same e.1 (g.ok2rxd e).1.1 (p.ok2rxd_kept e) b, (p.slot e w).1));
      empty = λ e (b, w). rxd_silent e b w;
      retries = λ e (b, w). (
        (p.retries e w).0,
        (
          Bare-same e.1 (g.kermit k_run (pos 0) e).1.1 (p.kermit_kept k_run (pos 0) e) b,
          (p.retries e w).1,
        ),
      );
    }

    reinit-Bare : (e : K × Central B) → Bare e.1 → Bare (reinit linked none e).1.1
    reinit-Bare e b =
        let e1 = g.set_type a_wait e in
        let e2 = g.set_filelist none e1 in
        let b1 = Bare-same e.1 e1.1 (p.set_type_kept e) b in
        let b2 = Bare-same e1.1 e2.1 (p.set_filelist_kept e1) b1 in
        Bare-same e2.1 (reinit linked none e).1.1 (p.kermit_kept k_reinit (pos 0) e2) b2

    -- FT_start_server returns an error.
    server_fails :
        (s : Ft (K × Central B))
        → is_initialized s.state ≡ true
        → is_server s.mode ≡ true
        → Bare s.k.1
        → (r : Reply (K × Central B) A) × (ft_start_server linked limit true true true s
            ≡ finished r)
          × ((r.code == 0) ≡ false)
    unfolding BareWaits
    server_fails s i m b = elim (Bool-cases (is_ok (reinit linked none s.k).0)) [
      | inl ok ↦
          let waits = p.begins (g.set_filelist none (g.set_type a_wait s.k)) ok in
          let (r, run, code) =
            server_times_out linked limit s BareWaits BareReads i m linked-NothingArrives
              (reinit-Bare s.k b, waits) ok (p.limited (reinit linked none s.k).1 waits) in
          (r, run, ap (λ c. c == 0) code)
      | inr bad ↦
          let (r, run, code) = server_refused linked limit s i m bad in
          (r, run, ap (λ c. c == 0) code)
    ]

    serve_fails :
        (rounds : ℕ) (s : Locals (K × Central B)) (r : Reply (K × Central B) A)
        → ft_start_server linked limit true true true s.ft ≡ finished r
        → (r.code == 0) ≡ false
        → serve linked (suc rounds) limit s ≡ finished (noted linked s r)
    unfolding serve
    serve_fails rounds s r run bad = rw (run, serve) (rw bad refl)

    -- What FT_init leaves.
    init-server :
        (s : Ft (K × Central B))
        → s.state ≡ not_initialized
        → let s' = (ft_init linked server (some file_transfer_path) true s).1 in
          (is_initialized s'.state ≡ true)
          × (is_server s'.mode ≡ true)
          × (s'.k ≡ (ek_init linked (some file_transfer_path) true s.k).1)
    unfolding ft_init start_init
    init-server s fresh = rw fresh (refl, refl, refl)

    init-Bare :
        (e : K × Central B) → Bare e.1 → Bare (ek_init linked (some file_transfer_path) true e).1.1
    unfolding ek_init
    init-Bare e b =
        let e1 = g.configure (setup_of file_transfer_path) e in
        let b1 = Bare-same e.1 e1.1 (p.configure_kept e file_transfer_path) b in
        Bare-same e1.1 (g.kermit k_init (pos 0) e1).1.1 (p.kermit_kept k_init (pos 0) e1) b1

    -- When the rx FIFO is empty and nothing is received any more while kreadpkt waits, ft_task, started
    -- with the library not initialized over an E-Kermit that, once K_REINIT succeeds, waits for a packet and
    -- asks again after each read without a byte, comes to its end with one call of FT_start_server, which
    -- returned an error, and leaves the library not initialized.
    pub ft_task_silent :
        (rounds : ℕ) (junk : FtType) (s : Ft (K × Central B))
        → s.state ≡ not_initialized
        → Bare s.k.1
        → (t : Locals (K × Central B)) × (ft_task linked (suc rounds) limit junk s ≡ finished t)
          × (t.err ≢ 0)
          × (t.ft.state ≡ not_initialized)
    unfolding ft_task
    ft_task_silent rounds junk s fresh b =
        let s' = (ft_init linked server (some file_transfer_path) true s).1 in
        let start : Locals (K × Central B) = record {
          type = junk;
          flag = false;
          err = 0;
          log = [];
          ft = s';
        } in
        let (i, m, k) = init-server s fresh in
        let (r, run, bad) = server_fails s' i m (subst (λ e. Bare e.1) (sym k) (init-Bare s.k b)) in
        let deinit = λ (t : Locals (K × Central B)). record t { ft = (ft_deinit linked t.ft).1 } in
        let done : ft_task linked (suc rounds) limit junk s
            ≡ finished (deinit (noted linked start r)) =
          ap (run_map deinit) (serve_fails rounds start r run bad) in
        (
          deinit (noted linked start r),
          done,
          λ z. ground arith,
          (ft_task_ends linked (suc rounds) limit junk s _ done).1,
        )
