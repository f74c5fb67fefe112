-- ===== src/Central/Waiting.antt =====
-- src/main.c, ft_wait_ms: the wait of the transfer thread.  The clock and the condition variable are a
-- parameter.  The sum of `tv_nsec` is a long, which holds it for the 1 and the 10 that kreadpkt asks for.
use slate.Base.{ℕ, ◌+◌, ◌*◌, u32}

pub record Timespec : Type 0 where
  pub tv_sec : ℕ
  pub tv_nsec : ℕ

-- CLOCK_MONOTONIC, and pthread_cond_timedwait on a condition that nobody signals; both on a host `B`.
pub record Clock {ℓ} (B : Type ℓ) : Type ℓ where
  pub clock_gettime : B → Timespec
  pub pthread_cond_timedwait : Timespec → B → B

unfoldable pub ft_wait_ms {ℓ} : {B : Type ℓ} → Clock B → B → ℕ → B
ft_wait_ms t b time_ms =
    let ts = t.clock_gettime b in
    t.pthread_cond_timedwait (record ts { tv_nsec = ts.tv_nsec + u32 (time_ms * 1000000) }) b
