-- ===== src/Kermit/Silent.antt =====
-- kermit_main on a link where nothing arrives, and on one that fails.
use slate.Base.{
  ℕ, zero, suc, ◌+◌, ◌-◌, ◌<◌, Bool, true, false, ◌≡◌, refl, none, some, pos, negsuc, arith, ◌==◌,
  if◌then◌else◌,
}
use slate.Kermit.{
  Engine, finished, Status, x_ok, Locals, ends, goes_on, run_engine, round, loop, is_done, is_ok,
  is_x_error, k_error, k_timeout, k_run, main_end, begin_action, kermit_main, enter, out_of, a_wait,
}
use slate.Kermit.Client.{reinit}

module _ {ℓ} {K : Type ℓ} {A : Type 0} (g : Engine K A) where
  -- Nothing arrives: in a state of `I`, E-Kermit waits for a packet and comes to one of `J`, in which a
  -- read times out; and then it asks for more and is in one of `I` again.
  pub record NothingArrives (I J : K → Type 0) : Type ℓ where
    pub ready : (k : K) → I k → ((g.ok2rxd k).0 ≡ true) × J (g.ok2rxd k).1
    pub empty : (k : K) → J k → ((g.rxd k).0 ≡ pos 0) × J (g.rxd k).1
    pub retries :
        (k : K) → J k → ((g.kermit k_run (pos 0) k).0 ≡ x_ok) × I (g.kermit k_run (pos 0) k).1

  -- The state after a read.
  abbrev read_k : Locals K → K
  read_k s = (g.rxd (g.ok2rxd s.k).1).1

  abbrev given_up : Locals K → K
  given_up s = if s.start then read_k s else (g.kermit k_error (pos 0) (read_k s)).1

  abbrev asked_again : Locals K → Locals K
  asked_again s = record s {
    rx_len = pos 0;
    retrycounter = s.retrycounter - 1;
    status = (g.kermit k_run (pos 0) (read_k s)).0;
    start = false;
    k = (g.kermit k_run (pos 0) (read_k s)).1;
  }

  module _ (I J : K → Type 0) (quiet : NothingArrives I J) where
    read_k-J : (s : Locals K) → I s.k → J (read_k s)
    read_k-J s i = (quiet.empty (g.ok2rxd s.k).1 (quiet.ready s.k i).1).1

    round_last :
        (s : Locals K)
        → I s.k
        → is_done s.status ≡ false
        → (s.retrycounter == 0) ≡ true
        → round g s ≡ ends k_timeout (given_up s)
    unfolding round
    round_last s i d z =
        let (ready, i') = quiet.ready s.k i in
        rw (d, ready, (quiet.empty (g.ok2rxd s.k).1 i').0, z) refl

    round_next :
        (s : Locals K)
        → I s.k
        → is_done s.status ≡ false
        → (s.retrycounter == 0) ≡ false
        → round g s ≡ goes_on (asked_again s)
    unfolding round run_engine
    round_next s i d z =
        let (ready, i') = quiet.ready s.k i in
        rw (d, ready, (quiet.empty (g.ok2rxd s.k).1 i').0, z)
          (let e : is_x_error (g.kermit k_run (pos 0) (read_k s)).0 ≡ false =
              rw (quiet.retries (read_k s) (read_k-J s i)).0 in
            rw e)

    -- Where nothing arrives, the loop gives up with K_TIMEOUT after `retrycounter + 1` reads.
    pub loop_silent :
        (r fuel : ℕ) (s : Locals K)
        → I s.k
        → is_done s.status ≡ false
        → s.retrycounter ≡ r
        → r < fuel
        → (k : K) × (loop g fuel s ≡ some (k_timeout, k))
    unfolding loop
    loop_silent r zero s i d e f = absurd (omega arith)
    loop_silent zero (suc fuel) s i d e f = (given_up s, rw (round_last s i d (ground arith), loop))
    loop_silent (suc r) (suc fuel) s i d e f =
        let (again, i') = quiet.retries (read_k s) (read_k-J s i) in
        let (k, later) =
          loop_silent r fuel (asked_again s) i' (rw again) (omega arith) (omega arith) in
        (k, rw (round_next s i d (ground arith), loop) later)

  -- The server's kermit_main from the end of its loop.
  pub kermit_main-loop :
      (fuel : ℕ) (arg type : Bool) (k last : K) (ret : ℕ)
      → is_ok (reinit g none k).0 ≡ true
      → loop g fuel (enter g (reinit g none k)) ≡ some (ret, last)
      → kermit_main g fuel a_wait none arg type true k
        ≡ finished (out_of g a_wait arg type ret last)
  unfolding kermit_main main_end begin_action
  kermit_main-loop fuel arg type k last ret ok e = rw ok (rw e)

  not-done : (s : Status) → is_ok s ≡ true → is_done s ≡ false
  not-done s h = ground arith

  -- A server on a link where nothing arrives ends with K_TIMEOUT, once the retry limit of E-Kermit
  -- and two reads more are used up, and leaves the count of resends to its caller.
  pub kermit_main_silent :
      (fuel : ℕ) (arg type : Bool) (k : K) (I J : K → Type 0)
      → NothingArrives I J
      → I (reinit g none k).1
      → is_ok (reinit g none k).0 ≡ true
      → g.retry (reinit g none k).1 + 1 < fuel
      → (last : K) × (kermit_main g fuel a_wait none arg type true k
          ≡ finished (out_of g a_wait arg type k_timeout last))
  kermit_main_silent fuel arg type k I J quiet begins ok enough =
      let (last, e) =
        loop_silent I J quiet (g.retry (reinit g none k).1 + 1) fuel (enter g (reinit g none k))
          begins (not-done (reinit g none k).0 ok) refl enough in
      (last, kermit_main-loop fuel arg type k last k_timeout ok e)

  -- A read that fails ends the loop with the negated length, and E-Kermit is not run.
  pub loop_read_fails :
      (fuel : ℕ) (s : Locals K) (n : ℕ)
      → is_done s.status ≡ false
      → (g.ok2rxd s.k).0 ≡ true
      → (g.rxd (g.ok2rxd s.k).1).0 ≡ negsuc n
      → loop g (suc fuel) s ≡ some (suc n, read_k s)
  unfolding loop round
  loop_read_fails fuel s n d ok bad = rw (d, loop) (rw (ok) (rw bad))

  -- A server whose first read fails with `-(n + 1)` ends with `n + 1`.
  pub kermit_main_read_fails :
      (fuel : ℕ) (arg type : Bool) (k : K) (n : ℕ)
      → is_ok (reinit g none k).0 ≡ true
      → (g.ok2rxd (reinit g none k).1).0 ≡ true
      → (g.rxd (g.ok2rxd (reinit g none k).1).1).0 ≡ negsuc n
      → kermit_main g (suc fuel) a_wait none arg type true k
        ≡ finished (out_of g a_wait arg type (suc n) (read_k (enter g (reinit g none k))))
  kermit_main_read_fails fuel arg type k n ok ready bad =
      kermit_main-loop (suc fuel) arg type k _ (suc n) ok (
        loop_read_fails fuel (enter g (reinit g none k)) n (not-done (reinit g none k).0 ok) ready
          bad)
