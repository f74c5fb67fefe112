-- ===== src/UnixIo/Packet/Wait.antt =====
-- The wait for one byte: polls ten milliseconds apart, until a byte comes or the time is up.
use mathlib.Core.Path.{ap₂}
use slate.Base.{ℕ, zero, suc, ◌+◌, ◌-◌, ◌*◌, ◌^◌, ◌<◌, ◌≡◌, ◌∙◌, Option, none, some, arith, pos}
use slate.UnixIo.Packet.{polled, wait, Locals, Params, full_timeout, read_loop}

module _ {ℓ} {E : Type ℓ} (get_byte : E → ℕ × Option ℕ × E) (wait_ms : E → ℕ → E) where
  -- The state after one poll and ten milliseconds.
  abbrev pub after_poll : E → E
  after_poll e = wait_ms (get_byte e).2 10

  abbrev pub after : ℕ → E → E
  after zero e = e
  after (suc m) e = after m (after_poll e)

  -- `m` polls in a row find no byte.
  abbrev pub Silent : ℕ → E → Type 0
  Silent zero e = Unit
  Silent (suc m) e = ((get_byte e).0 ≡ 1) × ((get_byte e).1 ≡ none) × Silent m (after_poll e)

  -- After `m` polls that find none, the next finds the byte `x` and leaves the state `e'`.
  abbrev pub Arrives : ℕ → ℕ → E → E → Type ℓ
  Arrives zero x e e' = ((get_byte e).0 ≡ 0) × ((get_byte e).1 ≡ some x) × (after_poll e ≡ e')
  Arrives (suc m) x e e' =
      ((get_byte e).0 ≡ 1) × ((get_byte e).1 ≡ none) × Arrives m x (after_poll e) e'

  -- One poll that finds nothing, with time left after it.
  wait-none :
      (fuel t c : ℕ) (e : E)
      → (get_byte e).0 ≡ 1
      → (get_byte e).1 ≡ none
      → 10 < t
      → t < 2 ^ 31
      → wait get_byte wait_ms (suc fuel) t c e
        ≡ wait get_byte wait_ms fuel (t - 10) c (after_poll e)
  unfolding wait
  wait-none fuel t c e k b lo hi = ground arith

  -- The last poll finds nothing.
  wait_last :
      (fuel c : ℕ) (e : E)
      → (get_byte e).0 ≡ 1
      → (get_byte e).1 ≡ none
      → wait get_byte wait_ms (suc fuel) 10 c e ≡ some (polled 0 c (after_poll e))
  unfolding wait
  wait_last fuel c e k b = ground arith

  wait_found :
      (fuel t c x : ℕ) (e : E)
      → (get_byte e).0 ≡ 0
      → (get_byte e).1 ≡ some x
      → 10 < t
      → t < 2 ^ 31
      → wait get_byte wait_ms (suc fuel) t c e ≡ some (polled (t - 10) x (after_poll e))
  unfolding wait
  wait_found fuel t c x e k b lo hi = ground arith

  pub wait-Arrives :
      (m fuel t c x : ℕ) (e e' : E)
      → Arrives m x e e'
      → 10 * m + 10 < t
      → t < 2 ^ 31
      → m < fuel
      → (t' : ℕ) × (wait get_byte wait_ms fuel t c e ≡ some (polled (suc t') x e'))
  wait-Arrives m zero t c x e e' h lo hi f = absurd (omega arith)
  wait-Arrives zero (suc fuel) t c x e e' (k, b, w) lo hi f = (
    t - 11,
    wait_found fuel t c x e k b (omega arith) hi ∙ ap₂ (λ n s. some (polled n x s)) (omega arith) w,
  )
  wait-Arrives (suc m) (suc fuel) t c x e e' (k, b, h) lo hi f =
      let (t', r) =
        wait-Arrives m fuel (t - 10) c x (after_poll e) e' h (omega arith) (omega arith)
          (omega arith) in
      (t', wait-none fuel t c e k b (omega arith) hi ∙ r)

  pub wait-Silent :
      (m fuel t c : ℕ) (e : E)
      → Silent (suc m) e
      → t ≡ 10 * suc m
      → t < 2 ^ 31
      → m < fuel
      → wait get_byte wait_ms fuel t c e ≡ some (polled 0 c (after (suc m) e))
  wait-Silent m zero t c e h k hi f = absurd (omega arith)
  wait-Silent zero (suc fuel) t c e (k, b, _) q hi f =
      let q' : t ≡ 10 = omega arith in rw q' (wait_last fuel c e k b)
  wait-Silent (suc m) (suc fuel) t c e (k, b, h) q hi f =
      wait-none fuel t c e k b (omega arith) hi
      ∙ wait-Silent m fuel (t - 10) c (after_poll e) h (omega arith) (omega arith) (omega arith)

  -- If no byte comes, the read gives up after 120 polls for each second of `r_timo`, each with a
  -- wait of 10 ms, and returns 0.
  pub read_loop-Silent :
      (k : Params) (m fuel patience : ℕ) (s : Locals) (e : E)
      → k.r_timo * 120 ≡ suc m
      → k.r_timo * 1200 < 2 ^ 31
      → Silent (suc m) e
      → m < patience
      → read_loop get_byte wait_ms k (suc fuel) patience s e ≡ some (pos 0, s, after (suc m) e)
  unfolding read_loop
  read_loop-Silent k m fuel patience s e q hi h f = rw (
    wait-Silent m patience (full_timeout k) s.rx_fifo_char e h (omega arith) (omega arith) f,
    read_loop,
  )
