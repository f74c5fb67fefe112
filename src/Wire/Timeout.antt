-- ===== src/Wire/Timeout.antt =====
-- kreadpkt over ft_wait_ms of src/main.c and the usleep of fifo_get in src/fifo.c: how long it takes when
-- nothing is received.
mod Tests
use mathlib.Core.Path.{ap₂}
use slate.Base.{
  ℕ, zero, suc, ◌+◌, ◌-◌, ◌*◌, ◌/◌, ◌%◌, ◌^◌, ◌<◌, ◌≤◌, ◌≡◌, refl, sym, ap, ◌∙◌, arith, Option,
  none, some, List, pos, ltb, ◌==◌, if◌then◌else◌, Bool-cases, inl, inr, true, false,
}
use slate.Central.{Central, Host, ble_mldp_get_byte}
use slate.Central.Waiting.{Timespec, Clock, ft_wait_ms}
use slate.UnixIo.Packet.{UnixioRpi, Params, start_locals, kreadpkt}
use slate.UnixIo.Packet.Wait.{after, after_poll, Silent, read_loop-Silent}
use slate.Wire.{got, handlers}
use slate.Wire.Receive.{HasTime}
use slate.Wire.Silence.{Bare, Bare-same, poll, poll-Bare}

abbrev pub second : ℕ
second = 1000000000

-- The time of `n` nanoseconds.
abbrev pub stamp : ℕ → Timespec
stamp n = record { tv_sec = n / second; tv_nsec = n % second }

-- What usleep does, and pthread_cond_timedwait when nobody signals, the time of the code itself left aside:
-- the latter refuses a time that is not valid at once with EINVAL, and sleeps up to one that is to come.
pub record Timed {ℓ} {B : Type ℓ} (t : Clock B) (usleep : ℕ → B → B) : Type ℓ where
  pub refused : (ts : Timespec) (b : B) → second ≤ ts.tv_nsec → t.pthread_cond_timedwait ts b ≡ b
  pub slept :
      (ts : Timespec) (b : B)
      → ts.tv_nsec < second
      → ts.tv_sec ≡ (t.clock_gettime b).tv_sec
      → (t.clock_gettime b).tv_nsec ≤ ts.tv_nsec
      → t.clock_gettime (t.pthread_cond_timedwait ts b) ≡ ts
  pub sleeps :
      (us now : ℕ) (b : B)
      → t.clock_gettime b ≡ stamp now
      → t.clock_gettime (usleep us b) ≡ stamp (now + 1000 * us)

-- ft_wait_ms as a handler: nothing is received.
abbrev pub clock_wait {ℓ} : {B : Type ℓ} → Clock B → Central B → ℕ → Central B
clock_wait t c ms = record c { host = ft_wait_ms t c.host ms }

-- The usleep of fifo_get, when it has no byte.
abbrev pub sleep_if_empty {ℓ} :
    {B : Type ℓ} → (ℕ → B → B) → ℕ × Option ℕ × Central B → ℕ × Option ℕ × Central B
sleep_if_empty usleep r =
    (r.0, r.1, if r.0 == 0 then r.2 else record r.2 { host = usleep 250 r.2.host })

-- ble_mldp_get_byte with the time that it takes.
abbrev pub timed_get {ℓ} : {B : Type ℓ} → (ℕ → B → B) → ℕ → Central B → ℕ × Option ℕ × Central B
timed_get usleep stray c = sleep_if_empty usleep (got (ble_mldp_get_byte stray c))

unfoldable pub timed_handlers {ℓ} :
    {B : Type ℓ} → Host B → ℕ → Clock B → (ℕ → B → B) → UnixioRpi (Central B)
unfolding handlers ble_mldp_get_byte
timed_handlers h stray t usleep = record (handlers h stray (clock_wait t)) {
  ble_mldp_get_byte = some (timed_get usleep stray);
}

-- The time after a wait of ten milliseconds: none, if it would not end before the next full second.
abbrev pub waited : ℕ → ℕ
waited now = if ltb (now % second + 10000000) second then now + 10000000 else now

-- The time after `m` polls that find nothing, of 250 microseconds and such a wait each.
unfoldable pub time_after : ℕ → ℕ → ℕ
time_after zero now = now
time_after (suc m) now = time_after m (waited (now + 250000))

time_after_bounds :
    (m now : ℕ) → (now + 250000 * m ≤ time_after m now) × (time_after m now ≤ now + 10250000 * m)
unfolding time_after
time_after_bounds zero now = (omega arith, omega arith)
time_after_bounds (suc m) now =
    let (lo, hi) = time_after_bounds m (waited (now + 250000)) in (ground arith, ground arith)

module _ {ℓ} {B : Type ℓ} (t : Clock B) (usleep : ℕ → B → B) (l : Timed t usleep) where
  abbrev Now : B → ℕ → Type 0
  Now b now = t.clock_gettime b ≡ stamp now

  wait-Now : (b : B) (now : ℕ) → Now b now → Now (ft_wait_ms t b 10) (waited now)
  unfolding ft_wait_ms
  wait-Now b now e =
      let nsec = now % second in
      let ts : Timespec = record { tv_sec = now / second; tv_nsec = nsec + 10000000 } in
      let at_sec : now / second ≡ (t.clock_gettime b).tv_sec =
        sym (ap (λ (x : Timespec). x.tv_sec) e) in
      let at_nsec : (t.clock_gettime b).tv_nsec ≡ nsec = ap (λ (x : Timespec). x.tv_nsec) e in
      let call : ft_wait_ms t b 10 ≡ t.pthread_cond_timedwait ts b =
        ap
          (λ (x : Timespec).
            t.pthread_cond_timedwait (record x { tv_nsec = x.tv_nsec + 10000000 }) b)
          e in
      elim (Bool-cases (ltb (nsec + 10000000) second)) [
        | inl more ↦
            let inside : nsec + 10000000 < second = ground arith in
            let later : ts ≡ stamp (now + 10000000) =
              ap₂ (λ (x y : ℕ). record { tv_sec = x; tv_nsec = y }) (omega arith) (omega arith) in
            rw more (ap t.clock_gettime call ∙ l.slept ts b inside at_sec (omega arith) ∙ later)
        | inr late ↦ rw late (ap t.clock_gettime (call ∙ l.refused ts b (ground arith)) ∙ e)
      ]

  module _ (stray : ℕ) (h : Host B) where
    abbrev get_byte : Central B → ℕ × Option ℕ × Central B
    get_byte c = timed_get usleep stray c

    get_byte-Bare :
        (c : Central B)
        → Bare c
        → ((get_byte c).0 ≡ 1)
          × ((get_byte c).1 ≡ none)
          × ((get_byte c).2.host ≡ usleep 250 c.host)
          × Bare (after_poll get_byte (clock_wait t) c)
    unfolding ble_mldp_get_byte
    get_byte-Bare c b =
        let keeps = λ (c' : Central B) (ms : ℕ). refl {a = c'.mldp_fifo_rx} in
        let (code, byte, b') = poll-Bare h stray (clock_wait t) keeps c b in
        let polled = poll h stray (clock_wait t) keeps c in
        (
          code,
          byte,
          rw code refl,
          Bare-same (clock_wait t polled.2 10) (after_poll get_byte (clock_wait t) c) (rw code refl)
              b',
        )

    always-Silent : (m : ℕ) (c : Central B) → Bare c → Silent get_byte (clock_wait t) m c
    always-Silent zero c b = tt
    always-Silent (suc m) c b =
        let (code, byte, _, b') = get_byte-Bare c b in
        (code, byte, always-Silent m (after_poll get_byte (clock_wait t) c) b')

    after-Now :
        (m : ℕ) (c : Central B) (now : ℕ)
        → Bare c
        → Now c.host now
        → Now (after get_byte (clock_wait t) m c).host (time_after m now)
    unfolding time_after
    after-Now zero c now b e = e
    after-Now (suc m) c now b e =
        let (_, _, woken, b') = get_byte-Bare c b in
        let after_sleep : Now (get_byte c).2.host (now + 250000) =
          ap t.clock_gettime woken ∙ l.sleeps 250 now c.host e in
        after-Now m (after_poll get_byte (clock_wait t) c) (waited (now + 250000)) b'
          (wait-Now (get_byte c).2.host (now + 250000) after_sleep)

    -- When the rx FIFO is empty, nothing is received and only usleep and the waits take time, kreadpkt
    -- returns 0 after r_timo * 120 polls.  Each of them takes 250 microseconds and then 10 milliseconds, or
    -- none of these if they would not end before the clock comes to its next full second; so all
    -- take between 0.25 and 10.25 milliseconds for each poll.
    pub kreadpkt_timeout :
        (k : Params) (fuel patience now : ℕ) (buff : List ℕ) (c : Central B)
        → HasTime k
        → k.r_timo * 120 ≤ patience
        → Bare c
        → t.clock_gettime c.host ≡ stamp now
        → let polls = k.r_timo * 120 in
          ((c' : Central B) × (kreadpkt
                (timed_handlers h stray t usleep)
                k
                (suc fuel)
                patience
                buff
                c
              ≡ some (pos 0, start_locals buff, c'))
            × (t.clock_gettime c'.host ≡ stamp (time_after polls now)))
          × (now + 250000 * polls ≤ time_after polls now)
          × (time_after polls now ≤ now + 10250000 * polls)
    unfolding kreadpkt handlers timed_handlers
    kreadpkt_timeout k fuel patience now buff c (soon, late) enough b e =
        let m = k.r_timo * 120 - 1 in
        let count : suc m ≡ k.r_timo * 120 = omega arith in
        let (lo, hi) = time_after_bounds (k.r_timo * 120) now in
        (
          (
            after get_byte (clock_wait t) (suc m) c,
            read_loop-Silent get_byte (clock_wait t) k m fuel patience (start_locals buff) c
                (omega arith) late (always-Silent (suc m) c b) (omega arith),
            after-Now (suc m) c now b e ∙ ap (λ n. stamp (time_after n now)) count,
          ),
          lo,
          hi,
        )
