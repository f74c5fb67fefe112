-- ===== src/UnixIo/Packet/Frame.antt =====
-- kreadpkt on a stream that carries a packet: noise, the start of the packet, its contents, its end.
pub mod Deal
use mathlib.Core.Path.{ap₂}
use slate.Base.{
  ℕ, zero, suc, ◌+◌, ◌*◌, ◌^◌, ◌≤◌, ◌<◌, ◌≡◌, ◌≢◌, refl, sym, ap, ◌∙◌, true, false, Option, some,
  List, [], ◌∷◌, ◌++◌, arith, length, length-set, length-blit, blit, take, take-blit, take-set, set,
  get_or, ◌==◌, ℤ, pos,
}
use slate.UnixIo.Packet.{
  Params, Locals, returned, reads_on, final_char, note, deal_content, deal, is_cmd, full_timeout,
  read_loop, start_locals,
}
use slate.UnixIo.Packet.Wait.{Arrives, wait-Arrives}
use slate.UnixIo.Packet.Frame.Deal.{
  IsNoCmd, Starts, note-first, note-later, deal-IsNoCmd, IsContent, deal_content-noise,
  deal_content-soh, deal_content-eom, deal_content-byte, AllContent, AllNoise,
}

-- The first byte of `cs` followed by `c`.
abbrev pub first : List ℕ → ℕ → ℕ
first [] c = c
first (x ∷ _) c = x

module _ {ℓ} {E : Type ℓ} (get_byte : E → ℕ × Option ℕ × E) (wait_ms : E → ℕ → E) (k : Params) where
  -- The bytes come one after the other, each before the time for it is up.
  abbrev pub Delivers : List ℕ → E → E → Type ℓ
  Delivers [] e e' = e ≡ e'
  Delivers (x ∷ xs) e e' =
      (m : ℕ) × (e1 : E) × (10 * m + 10 < k.r_timo * 1200)
      × Arrives get_byte wait_ms m x e e1
      × Delivers xs e1 e'

  module _ (patience : ℕ) (hi : k.r_timo * 1200 < 2 ^ 31) (enough : k.r_timo * 120 ≤ patience) where
    read_step :
        (fuel m x : ℕ) (s t : Locals) (e e1 : E)
        → 10 * m + 10 < k.r_timo * 1200
        → Arrives get_byte wait_ms m x e e1
        → deal k (record s { rx_fifo_char = x }) ≡ reads_on t
        → read_loop get_byte wait_ms k (suc fuel) patience s e
          ≡ read_loop get_byte wait_ms k fuel patience t e1
    unfolding read_loop
    read_step fuel m x s t e e1 short a d =
        let (t', w) =
          wait-Arrives get_byte wait_ms m patience (full_timeout k) s.rx_fifo_char x e e1 a
            (omega arith) (omega arith) (omega arith) in
        let z : (suc t' == 0) ≡ false = ground arith in rw (w, read_loop) (rw (z) (rw (d)))

    read_stop :
        (fuel m x : ℕ) (s t : Locals) (r : ℤ) (e e1 : E)
        → 10 * m + 10 < k.r_timo * 1200
        → Arrives get_byte wait_ms m x e e1
        → deal k (record s { rx_fifo_char = x }) ≡ returned r t
        → read_loop get_byte wait_ms k (suc fuel) patience s e ≡ some (r, t, e1)
    unfolding read_loop
    read_stop fuel m x s t r e e1 short a d =
        let (t', w) =
          wait-Arrives get_byte wait_ms m patience (full_timeout k) s.rx_fifo_char x e e1 a
            (omega arith) (omega arith) (omega arith) in
        let z : (suc t' == 0) ≡ false = ground arith in rw (w, read_loop) (rw (z) (rw (d)))

    abbrev read : ℕ → Locals → E → Option (ℤ × Locals × E)
    read fuel s e = read_loop get_byte wait_ms k fuel patience s e

    -- The contents of a packet and its end.
    read_contents :
        (body : List ℕ) (c fuel : ℕ) (s : Locals) (e e' : E)
        → Delivers (body ++ (c ∷ [])) e e'
        → IsNoCmd s
        → s.flag ≡ true
        → AllContent k body
        → final_char k c ≡ k.r_eom
        → k.r_eom ≢ k.r_soh
        → s.n + length body ≤ k.r_maxlen + 1
        → length body < fuel
        → (t : Locals) × (read fuel s e ≡ some (pos (s.n + length body), t, e'))
          × (t.buff ≡ set (blit s.buff s.n body) (s.n + length body) 0)
    unfolding note
    read_contents body c zero s e e' d i f b h ne m more = absurd (omega arith)
    read_contents [] c (suc fuel) s e e' (g, e1, short, a, q) i f b h ne m more =
        let s' : Locals = record s { rx_fifo_char = c } in
        let t : Locals = record (note s') { buff = set s.buff s.n 0 } in
        let stop =
          read_stop fuel g c s t (pos s.n) e e1 short a
            (deal-IsNoCmd k s' (note-later s' i) ∙ deal_content-eom k (note s') f h ne) in
        let z : s.n ≡ s.n + 0 = omega arith in
        (t, stop ∙ ap₂ (λ n r. some (pos n, t, r)) z q, ap (λ n. set s.buff n 0) z)
    read_contents (x ∷ xs) c (suc fuel) s e e' (g, e1, short, a, d) i f (b, bs) h ne m more =
        let s' : Locals = record s { rx_fifo_char = x } in
        let t : Locals = record (note s') { n = s.n + 1; buff = set s.buff s.n x } in
        let step =
          read_step fuel g x s t e e1 short a (
            deal-IsNoCmd k s' (note-later s' i)
            ∙ deal_content-byte k (note s') f b (omega arith)) in
        let (u, rest, copy) =
          read_contents xs c fuel t e1 e' d (note-later s' i) f bs h ne (omega arith)
            (omega arith) in
        let z : s.n + 1 + length xs ≡ s.n + suc (length xs) = omega arith in
        let y : s.n + 1 ≡ suc s.n = omega arith in
        (
          u,
          step ∙ rest ∙ ap (λ n. some (pos n, u, e')) z,
          copy ∙ ap₂ (λ i n. set (blit (set s.buff s.n x) i xs) n 0) y z,
        )

    -- The noise before a packet and its start.
    read_noise :
        (noise rest : List ℕ) (c fuel : ℕ) (s : Locals) (e e' : E)
        → Delivers (noise ++ (c ∷ rest)) e e'
        → IsNoCmd (note (record s { rx_fifo_char = first noise c }))
        → s.flag ≡ false
        → AllNoise k noise
        → final_char k c ≡ k.r_soh
        → length noise < fuel
        → (t : Locals) × (left : ℕ) × (e1 : E) × (read fuel s e ≡ read left t e1)
          × (left + suc (length noise) ≡ fuel)
          × Delivers rest e1 e'
          × IsNoCmd t
          × (t.flag ≡ true)
          × (t.n ≡ s.n)
          × (t.buff ≡ s.buff)
    unfolding note
    read_noise noise rest c zero s e e' d i f b h more = absurd (omega arith)
    read_noise [] rest c (suc fuel) s e e' (g, e1, short, a, d) i f b h more =
        let s' : Locals = record s { rx_fifo_char = c } in
        let t : Locals = record (note s') { flag = true } in
        (
          t,
          fuel,
          e1,
          read_step fuel g c s t e e1 short a
              (deal-IsNoCmd k s' i ∙ deal_content-soh k (note s') h),
          omega arith,
          d,
          i,
          refl,
          refl,
          refl,
        )
    read_noise (x ∷ xs) rest c (suc fuel) s e e' (g, e1, short, a, d) i f (b, bs) h more =
        let s' : Locals = record s { rx_fifo_char = x } in
        let step =
          read_step fuel g x s (note s') e e1 short a
            (deal-IsNoCmd k s' i ∙ deal_content-noise k (note s') f b) in
        let next : Locals = record (note s') { rx_fifo_char = first xs c } in
        let (t, left, e2, later, count, rest_d, ok, flagged, same_n, same_buff) =
          read_noise xs rest c fuel (note s') e1 e' d (note-later next i) f bs h (omega arith) in
        (t, left, e2, step ∙ later, omega arith, rest_d, ok, flagged, same_n, same_buff)

    -- Noise that does not begin with a C, the start of a packet, contents that fit, and the end, where each
    -- byte comes before the wait for it is over: the read returns the number of bytes of the contents, which stand at the front of the buffer with a
    -- NUL behind them.
    pub read_loop_packet :
        (noise body buff : List ℕ) (start end fuel : ℕ) (e e' : E)
        → Delivers (noise ++ (start ∷ (body ++ (end ∷ [])))) e e'
        → first noise start ≢ b'C'
        → AllNoise k noise
        → final_char k start ≡ k.r_soh
        → AllContent k body
        → final_char k end ≡ k.r_eom
        → k.r_eom ≢ k.r_soh
        → length body ≤ k.r_maxlen + 1
        → length body < length buff
        → length noise + length body + 1 < fuel
        → (t : Locals) × (read_loop get_byte wait_ms k fuel patience (start_locals buff) e
            ≡ some (pos (length body), t, e'))
          × (take (suc (length body)) t.buff ≡ body ++ (0 ∷ []))
    read_loop_packet noise body buff start end fuel e e' d c b h bs h' ne fits room more =
        let begun : Locals = record (start_locals buff) { rx_fifo_char = first noise start } in
        let (t, left, e1, before, count, d1, ok, flagged, none_yet, same) =
          read_noise noise (body ++ (end ∷ [])) start fuel (start_locals buff) e e' d
            (note-first begun (refl, refl, refl) c) refl b h (omega arith) in
        let (u, then_read, copy) =
          read_contents body end left t e1 e' d1 ok flagged bs h' ne (omega arith) (omega arith) in
        let full : u.buff ≡ set (blit buff 0 body) (length body) 0 =
          copy
          ∙ ap₂ (λ b n. set (blit b n body) (n + length body) 0) same none_yet
          ∙ ap (λ n. set (blit buff 0 body) n 0)
              (let z : 0 + length body ≡ length body = omega arith in z) in
        (
          u,
          before ∙ then_read ∙ ap (λ n. some (pos n, u, e')) (omega arith),
          ap (take (suc (length body))) full
              ∙ take-set (blit buff 0 body) (length body) 0 (omega (arith, length-blit buff 0 body))
              ∙ ap (λ l. l ++ (0 ∷ [])) (take-blit buff body (omega arith)),
        )
