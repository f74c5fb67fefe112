-- ===== src/Fifo/Refine.antt =====
-- A valid FIFO behaves as the queue of the bytes that it holds.
use slate.Base.{
  ℕ, zero, suc, ◌≤◌, ◌<◌, ◌≡◌, refl, sym, ℕ-cases, inl, inr, ap, none, some, List, [], ◌∷◌, ◌++◌,
  arith, length, length-take, get_or, set, take, take-set, add32,
}
use slate.Fifo.{Fifo, success, empty, put, shift_loop, shift, get}
use slate.Fifo.Queue
use slate.Fifo.Queue.{Queue}
use slate.Fifo.Inv.{IsValid, fifo_length-valid}

-- The bytes in the buffer, oldest first.
abbrev pub contents : Fifo → Queue
contents p = take p.write_pos p.p_buff

abbrev pub capacity : Fifo → ℕ
capacity p = suc p.buff_size

pub length-contents : (p : Fifo) → IsValid p → length (contents p) ≡ p.write_pos
length-contents p v = omega (arith, length-take p.write_pos p.p_buff)

write_pos_next : (p : Fifo) → IsValid p → add32 p.write_pos 1 ≡ suc p.write_pos
write_pos_next p v = omega arith

pub contents-empty : (p : Fifo) → p.write_pos ≡ 0 → contents p ≡ []
contents-empty p e = ap (λ n. take n p.p_buff) e

-- What `fifo_put` does on a valid FIFO with room.
pub put-room :
    (p : Fifo) (x : ℕ)
    → IsValid p
    → p.write_pos ≤ p.buff_size
    → ((put p x).1.write_pos ≡ suc p.write_pos) × (contents (put p x).1 ≡ contents p ++ (x ∷ []))
unfolding put
put-room p x v h =
    ground (arith, write_pos_next p v, fifo_length-valid p v, take-set p.p_buff p.write_pos x)

-- On a valid FIFO, `fifo_put` returns the status of the bounded queue and leaves its contents.
pub put_refines :
    (p : Fifo) (x : ℕ)
    → IsValid p
    → ((put p x).0, contents (put p x).1) ≡ Queue.put (capacity p) (contents p) x
unfolding put
put_refines p x v = ground (
  arith,
  write_pos_next p v,
  fifo_length-valid p v,
  take-set p.p_buff p.write_pos x,
  length-contents p v,
)

module _ (stray : ℕ) where
  pub shift_loop-cons :
      (left i : ℕ) (x : ℕ) (xs : List ℕ)
      → shift_loop stray left (suc i) (x ∷ xs) ≡ x ∷ shift_loop stray left i xs
  unfolding shift_loop
  shift_loop-cons zero i x xs = refl
  shift_loop-cons (suc left) i x xs =
      shift_loop-cons left (suc i) x (set xs i (get_or xs (suc i) stray))

  -- The loop moves each byte one place down, whatever the read past the end gives.
  take-shift_loop :
      (n : ℕ) (x : ℕ) (xs : List ℕ)
      → n ≤ length xs
      → take n (shift_loop stray (suc n) 0 (x ∷ xs)) ≡ take n xs
  unfolding shift_loop
  take-shift_loop zero x xs h = refl
  take-shift_loop (suc n) x [] h = absurd (omega arith)
  take-shift_loop (suc n) x (y ∷ ys) h =
      rw (shift_loop-cons (suc n) 0 y (y ∷ ys))
        (ap (λ l. y ∷ l) (take-shift_loop n y ys (omega arith)))

  -- A queue with a byte in it, taken apart by the reads of the loop.
  pub shift-contents :
      (n : ℕ) (buff : List ℕ)
      → suc n ≤ length buff
      → take (suc n) buff ≡ get_or buff 0 stray ∷ take n (shift_loop stray (suc n) 0 buff)
  shift-contents n [] h = absurd (omega arith)
  shift-contents n (x ∷ xs) h = rw (take-shift_loop n x xs (omega arith))

  -- What `fifo_get` does on a valid FIFO that holds a byte.
  pub get-nonempty :
      (p : Fifo) (n : ℕ)
      → IsValid p
      → p.write_pos ≡ suc n
      → get stray p ≡ (
        success,
        some (get_or p.p_buff 0 stray),
        record p { p_buff = shift_loop stray (suc n) 0 p.p_buff; write_pos = n },
      )
  unfolding get shift
  get-nonempty p n v e = ground (arith, fifo_length-valid p v)

  pub get-empty : (p : Fifo) → IsValid p → p.write_pos ≡ 0 → get stray p ≡ (empty, none, p)
  unfolding get shift
  get-empty p v e = ground (arith, fifo_length-valid p v)

  -- On a valid FIFO, `fifo_get` returns the status and the byte of the queue and leaves its rest.
  pub get_refines :
      (p : Fifo)
      → IsValid p
      → ((get stray p).0, (get stray p).1, contents (get stray p).2) ≡ Queue.get (contents p)
  get_refines p v = elim (ℕ-cases p.write_pos) [
    | inl e ↦ rw (get-empty p v e, e)
    | inr (n, e) ↦ rw (get-nonempty p n v e, e, shift-contents n p.p_buff (omega arith)) refl
  ]

  -- One round of `fifo_get` on a valid FIFO that is not empty.
  pub get-cons :
      (p : Fifo)
      → IsValid p
      → 0 < p.write_pos
      → (x : ℕ) × (rest : List ℕ) × (contents p ≡ x ∷ rest)
        × ((get stray p).0 ≡ success)
        × ((get stray p).1 ≡ some x)
        × (contents (get stray p).2 ≡ rest)
        × (suc (get stray p).2.write_pos ≡ p.write_pos)
  get-cons p v h = elim (ℕ-cases p.write_pos) [
    | inl e ↦ absurd (omega arith)
    | inr (n, e) ↦ (
      get_or p.p_buff 0 stray,
      take n (shift_loop stray (suc n) 0 p.p_buff),
      rw e (shift-contents n p.p_buff (omega arith)),
      rw (get-nonempty p n v e),
      rw (get-nonempty p n v e),
      rw (get-nonempty p n v e),
      rw (get-nonempty p n v e) (sym e),
    )
  ]
