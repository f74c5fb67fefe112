-- ===== src/UnixIo/Packet/Bounds.antt =====
-- What kreadpkt writes: the packet buffer, and the array `cmd` of five bytes.
use mathlib.Core.Path.{subst}
use slate.Base.{
  ℕ, zero, suc, ◌+◌, ◌≤◌, ◌<◌, ◌≡◌, refl, ap, ◌∙◌, true, false, Option, none, some, List, [], ◌∷◌,
  ◌++◌, arith, length, length-set, get_elem?, get_elem?-set_self, get_elem?-set_ne, set, ℤ, pos,
  negsuc, ◌==◌, u8, ◌⊎◌,
}
use slate.UnixIo.Packet.{
  Params, Locals, Dealt, returned, reads_on, minus_k_end, Waited, aborted, polled, wait, note,
  deal_content, deal, full_timeout, read_loop, start_locals,
}

abbrev pub AtMost : ℤ → ℕ → Type 0
AtMost (pos n) m = n ≤ m
AtMost (negsuc n) m = Unit

module _ (k : Params) (j : ℕ) (far : k.r_maxlen + 1 < j) where
  -- The cell `j` of the packet buffer is as it was.
  abbrev pub Keeps : Locals → Locals → Type 0
  Keeps s t = get_elem? t.buff j ≡ get_elem? s.buff j

  abbrev DealtOk : Locals → Dealt → Type 0
  DealtOk s (returned r t) = Keeps s t × AtMost r (k.r_maxlen + 2)
  DealtOk s (reads_on t) = Keeps s t × (t.n ≤ k.r_maxlen + 1)

  set_far :
      (s : Locals) (v : ℕ)
      → s.n ≤ k.r_maxlen + 1
      → get_elem? (set s.buff s.n v) j ≡ get_elem? s.buff j
  set_far s v h = get_elem?-set_ne s.buff s.n j v (omega arith)

  deal_content-DealtOk : (s : Locals) → s.n ≤ k.r_maxlen + 1 → DealtOk s (deal_content k s)
  unfolding deal_content
  deal_content-DealtOk s h = ground (arith, set_far s 0 h, set_far s (u8 s.rx_fifo_char) h)

  deal-DealtOk : (s : Locals) → s.n ≤ k.r_maxlen + 1 → DealtOk s (deal k s)
  unfolding deal note
  deal-DealtOk s h = ground (arith, deal_content-DealtOk (note s) h)

  -- Whatever bytes come, and however the read ends, nothing is written past the `r_maxlen + 2` first
  -- cells of the packet buffer, and a number of bytes that it returns is at most `r_maxlen + 2`.
  module _ {ℓ} {E : Type ℓ} (get_byte : E → ℕ × Option ℕ × E) (wait_ms : E → ℕ → E)
      (patience : ℕ) where
    abbrev pub ReadOk : Locals → Option (ℤ × Locals × E) → Type 0
    ReadOk s none = Unit
    ReadOk s (some (r, t, e)) = Keeps s t × AtMost r (k.r_maxlen + 2)

    ReadOk-Keeps :
        (s t : Locals) (r : Option (ℤ × Locals × E)) → Keeps s t → ReadOk t r → ReadOk s r
    ReadOk-Keeps s t none h g = tt
    ReadOk-Keeps s t (some (r, u, e)) h g = (g.0 ∙ h, g.1)

    abbrev ReadsOk : ℕ → Type ℓ
    ReadsOk fuel =
        (t : Locals) (e : E)
        → t.n ≤ k.r_maxlen + 1
        → ReadOk t (read_loop get_byte wait_ms k fuel patience t e)

    after_deal :
        (fuel : ℕ) (s : Locals) (e : E) (d : Dealt)
        → ReadsOk fuel
        → DealtOk s d
        → ReadOk s (elim d [
          | returned r t ↦ some (r, t, e)
          | reads_on t ↦ read_loop get_byte wait_ms k fuel patience t e
        ])
    after_deal fuel s e (returned r t) ih h = h
    after_deal fuel s e (reads_on t) ih h = ReadOk-Keeps s t _ h.0 (ih t e h.1)

    after_wait :
        (fuel : ℕ) (s : Locals) (w : Option (Waited E))
        → ReadsOk fuel
        → s.n ≤ k.r_maxlen + 1
        → ReadOk s (elim w [
          | none ↦ none
          | some (aborted e') ↦ some (minus_k_end, s, e')
          | some (polled timeout c e') ↦ elim (timeout == 0) [
            | true ↦ some (pos 0, record s { rx_fifo_char = c }, e')
            | false ↦ elim (deal k (record s { rx_fifo_char = c })) [
              | returned r s' ↦ some (r, s', e')
              | reads_on s' ↦ read_loop get_byte wait_ms k fuel patience s' e'
            ]
          ]
        ])
    after_wait fuel s none ih h = tt
    after_wait fuel s (some (aborted e')) ih h = (refl, tt)
    after_wait fuel s (some (polled zero c e')) ih h = (refl, omega arith)
    after_wait fuel s (some (polled (suc n) c e')) ih h =
        let z : (suc n == 0) ≡ false = ground arith in
        let s' : Locals = record s { rx_fifo_char = c } in
        rw z (after_deal fuel s' e' (deal k s') ih (deal-DealtOk s' h))

    -- Whatever bytes come, and however the read ends, nothing is written past the `r_maxlen + 2`
    -- first cells of the packet buffer, and a number of bytes that is returned is at most
    -- `r_maxlen + 2`.
    pub read_loop_bounds :
        (fuel : ℕ) (s : Locals) (e : E)
        → s.n ≤ k.r_maxlen + 1
        → ReadOk s (read_loop get_byte wait_ms k fuel patience s e)
    unfolding read_loop
    read_loop_bounds zero s e h = tt
    read_loop_bounds (suc fuel) s e h =
        after_wait fuel s (wait get_byte wait_ms patience (full_timeout k) s.rx_fifo_char e)
          (read_loop_bounds fuel) h

-- The bytes of a read go into `cmd` one after the other.
abbrev pub note_all : List ℕ → Locals → Locals
note_all [] s = s
note_all (c ∷ cs) s = note_all cs (note (record s { rx_fifo_char = c }))

abbrev Counts : ℕ → Locals → Type 0
Counts m s =
    (length s.cmd ≡ 6)
    × ((s.comp ≡ true) × (s.i ≡ m) × (m < 5) ⊎ (s.comp ≡ false) × (s.i ≡ 5) × (5 ≤ m))

note-Counts : (m : ℕ) (s : Locals) → Counts m s → Counts (suc m) (note s)
unfolding note
note-Counts m s h = ground (arith, length-set s.cmd s.i s.rx_fifo_char)

note_all-Counts :
    (cs : List ℕ) (m : ℕ) (s : Locals) → Counts m s → Counts (m + length cs) (note_all cs s)
note_all-Counts [] m s h = let e : m ≡ m + 0 = omega arith in subst (λ n. Counts n s) e h
note_all-Counts (c ∷ cs) m s h =
    let e : suc m + length cs ≡ m + suc (length cs) = omega arith in
    let s' : Locals = record s { rx_fifo_char = c } in
    subst (λ n. Counts n (note_all cs (note s'))) e
      (note_all-Counts cs (suc m) (note s') (note-Counts m s' h))

note_all-append :
    (cs : List ℕ) (c : ℕ) (s : Locals)
    → note_all (cs ++ (c ∷ [])) s ≡ note (record (note_all cs s) { rx_fifo_char = c })
note_all-append [] c s = refl
note_all-append (x ∷ xs) c s = note_all-append xs c (note (record s { rx_fifo_char = x }))

note-behind :
    (s : Locals) → length s.cmd ≡ 6 → s.i ≡ 5 → get_elem? (note s).cmd 5 ≡ some s.rx_fifo_char
unfolding note
note-behind s l e = rw e (get_elem?-set_self s.cmd 5 s.rx_fifo_char (omega arith))

-- From the sixth byte of a read on, each byte is written behind the five cells of `cmd`.
pub sixth_byte_behind_cmd :
    (cs buff : List ℕ) (c : ℕ)
    → 5 ≤ length cs
    → get_elem? (note_all (cs ++ (c ∷ [])) (start_locals buff)).cmd 5 ≡ some c
sixth_byte_behind_cmd cs buff c h =
    let s = note_all cs (start_locals buff) in
    let n = note_all-Counts cs 0 (start_locals buff) (ground arith) in
    ap (λ (t : Locals). get_elem? t.cmd 5) (note_all-append cs c (start_locals buff))
    ∙ note-behind (record s { rx_fifo_char = c }) n.0 (ground (arith, n))
