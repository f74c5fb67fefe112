-- ===== src/Fifo/Stray.antt =====
-- The read of `fifo_shift` at index `readpos + 1`, which leaves the buffer when it is full.
use slate.Base.{
  ℕ, zero, suc, ◌≤◌, ◌<◌, ◌≡◌, refl, sym, ap, ◌∙◌, some, List, [], ◌∷◌, arith, length, get_elem?,
  get_or_inside, ℕ-cases, inl, inr,
}
use slate.Fifo.{Fifo, shift_loop, get}
use slate.Fifo.Inv.{IsValid}
use slate.Fifo.Refine.{capacity, get-empty, get-nonempty, shift_loop-cons}

-- With a byte behind those that move, the loop reads inside the buffer.
shift_loop_inside :
    (a b n : ℕ) (x : ℕ) (xs : List ℕ)
    → n ≤ length xs
    → shift_loop a n 0 (x ∷ xs) ≡ shift_loop b n 0 (x ∷ xs)
unfolding shift_loop
shift_loop_inside a b zero x xs h = refl
shift_loop_inside a b (suc n) x [] h = absurd (omega arith)
shift_loop_inside a b (suc n) x (y ∷ ys) h =
    rw (shift_loop-cons a n 0 y (y ∷ ys), shift_loop-cons b n 0 y (y ∷ ys))
      (ap (λ l. y ∷ l) (shift_loop_inside a b n y ys (omega arith)))

-- On a full buffer the last round stores what stands behind the buffer.
shift_loop_full :
    (a n : ℕ) (buff : List ℕ)
    → length buff ≡ suc n
    → get_elem? (shift_loop a (suc n) 0 buff) n ≡ some a
unfolding shift_loop
shift_loop_full a n [] h = absurd (omega arith)
shift_loop_full a zero (x ∷ []) h = refl
shift_loop_full a zero (x ∷ y ∷ ys) h = absurd (omega arith)
shift_loop_full a (suc n) (x ∷ []) h = absurd (omega arith)
shift_loop_full a (suc n) (x ∷ y ∷ ys) h =
    rw (shift_loop-cons a (suc n) 0 y (y ∷ ys)) (shift_loop_full a n (y ∷ ys) (omega arith))

shift_loop_room :
    (a b n : ℕ) (buff : List ℕ)
    → suc n ≤ length buff
    → shift_loop a n 0 buff ≡ shift_loop b n 0 buff
shift_loop_room a b n [] h = absurd (omega arith)
shift_loop_room a b n (x ∷ xs) h = shift_loop_inside a b n x xs (omega arith)

-- `fifo_get` on a valid FIFO that is not full does not read past the buffer: whatever stands
-- behind it, the result is the same.  On a full one it does, and the byte read there becomes the
-- last byte of the buffer.
pub get_reads_past_iff_full :
    (a b : ℕ) (p : Fifo)
    → IsValid p
    → (p.write_pos < capacity p → get a p ≡ get b p)
      × (p.write_pos ≡ capacity p → get_elem? (get a p).2.p_buff p.buff_size ≡ some a)
get_reads_past_iff_full a b p v = elim (ℕ-cases p.write_pos) [
  | inl e ↦ (λ h. get-empty a p v e ∙ sym (get-empty b p v e), λ h. absurd (omega arith))
  | inr (n, e) ↦ (
    λ h.
        rw
          (
            get-nonempty a p n v e,
            get-nonempty b p n v e,
            shift_loop_room a b (suc n) p.p_buff (omega arith),
          )
          (cc (get_or_inside p.p_buff 0 a b (omega arith))),
    λ h. rw (get-nonempty a p n v e) (
        let k : p.buff_size ≡ n = omega arith in rw k (shift_loop_full a n p.p_buff (omega arith))),
  )
]
