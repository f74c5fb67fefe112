-- ===== src/Fifo/Race.antt =====
-- fifo_get by the transfer thread and fifo_put by the BlueZ thread on the rx FIFO at the same time:
-- their tests, loads and stores in any order.  `stray` is what a read just past the end of the buffer gives.
use mathlib.Core.Path.{subst, ap₂}
use slate.Base.{
  take-set_behind, ℕ, zero, suc, ◌-◌, ◌≤◌, ◌<◌, ◌≡◌, refl, sym, ap, ◌∙◌, true, false, ◌==◌, leb,
  List, [], ◌∷◌, ◌++◌, arith, length, get_or, set, take, drop, add32, sub32, ℕ-cases, inl, inr,
}
use slate.Fifo.{Fifo, fifo_length, put, get, shift_loop}
use slate.Fifo.Inv.{IsValid, get-IsValid, buff_size-get}
use slate.Fifo.Queue
use slate.Fifo.Refine.{contents, get_refines, get-nonempty, shift_loop-cons, put-room}

-- Where fifo_get stands: before its test, before the length is taken, in the loop of fifo_shift, between the
-- load and the store of `write_pos--`, with the value that was loaded, and behind it.
pub data Getter : Type 0 where
  tests_empty measures : Getter
  shifts : ℕ → ℕ → Getter
  lowers : ℕ → Getter
  got : Getter

-- Where fifo_put stands: before its test, before the store of the byte, before the load and before the store
-- of `write_pos++`, and behind it.
pub data Putter : Type 0 where
  tests_room writes : ℕ → Putter
  counts : Putter
  raises : ℕ → Putter
  has_put : Putter

pub data State : Type 0 where
  at : Fifo → Getter → Putter → State

module _ (stray : ℕ) where
  -- A test, a load or a store of either, and the copy of one byte by fifo_shift as one step; the byte that
  -- fifo_get stores for its caller is left out.
  pub data Step : State → State → Type 0 where
    finds :
        (p : Fifo) (u : Putter)
        → (fifo_length p == 0) ≡ false
        → Step (at p tests_empty u) (at p measures u)
    measured :
        (p : Fifo) (u : Putter)
        → Step (at p measures u) (at p (shifts (fifo_length p - p.read_pos) p.read_pos) u)
    moves :
        (p : Fifo) (left i : ℕ) (u : Putter)
        → Step (at p (shifts (suc left) i) u) (
            at
              (record p { p_buff = set p.p_buff i (get_or p.p_buff (suc i) stray) })
              (shifts left (suc i))
              u)
    loads_down :
        (p : Fifo) (i : ℕ) (u : Putter)
        → Step (at p (shifts zero i) u) (at p (lowers p.write_pos) u)
    drops :
        (p : Fifo) (w : ℕ) (u : Putter)
        → Step (at p (lowers w) u) (at (record p { write_pos = sub32 w 1 }) got u)
    has_room :
        (p : Fifo) (g : Getter) (x : ℕ)
        → leb (fifo_length p) p.buff_size ≡ true
        → Step (at p g (tests_room x)) (at p g (writes x))
    stores :
        (p : Fifo) (g : Getter) (x : ℕ)
        → Step (at p g (writes x)) (at (record p { p_buff = set p.p_buff p.write_pos x }) g counts)
    loads_up : (p : Fifo) (g : Getter) → Step (at p g counts) (at p g (raises p.write_pos))
    counted :
        (p : Fifo) (g : Getter) (w : ℕ)
        → Step (at p g (raises w)) (at (record p { write_pos = add32 w 1 }) g has_put)

  pub data Steps : State → State → Type 0 where
    stay : (s : State) → Steps s s
    step : {s t u : State} → Step s t → Steps t u → Steps s u

  last_index : ℕ → ℕ → ℕ
  last_index zero i = i
  last_index (suc left) i = last_index left (suc i)

  -- The whole loop of fifo_shift, and what follows it.
  moves_all :
      (left i : ℕ) (p : Fifo) (u : Putter) (s : State)
      → Steps
          (at
            (record p { p_buff = shift_loop stray left i p.p_buff })
            (shifts zero (last_index left i))
            u)
          s
      → Steps (at p (shifts left i) u) s
  unfolding shift_loop last_index
  moves_all zero i p u s rest = rest
  moves_all (suc left) i p u s rest = step (moves p left i u) (
      moves_all left (suc i) (record p { p_buff = set p.p_buff i (get_or p.p_buff (suc i) stray) })
        u s rest)

  -- With a byte behind them, the bytes that the loop moves are those behind the first.
  take-shift_all :
      (n x : ℕ) (xs : List ℕ) → n ≤ length xs → take n (shift_loop stray n 0 (x ∷ xs)) ≡ take n xs
  unfolding shift_loop
  take-shift_all zero x xs h = refl
  take-shift_all (suc n) x [] h = absurd (omega arith)
  take-shift_all (suc n) x (y ∷ ys) h =
      rw (shift_loop-cons stray n 0 y (y ∷ ys))
        (ap (λ l. y ∷ l) (take-shift_all n y ys (omega arith)))

  take_last :
      (n : ℕ) (xs : List ℕ)
      → n < length xs
      → take (suc n) xs ≡ take n xs ++ (get_or xs n stray ∷ [])
  take_last n [] h = absurd (omega arith)
  take_last zero (x ∷ xs) h = refl
  take_last (suc n) (x ∷ xs) h = ap (λ l. x ∷ l) (take_last n xs (omega arith))

  shifted :
      (n : ℕ) (buff : List ℕ)
      → suc n < length buff
      → take (suc n) (shift_loop stray (suc n) 0 buff)
        ≡ drop 1 (take (suc n) buff) ++ (get_or buff (suc n) stray ∷ [])
  shifted n [] h = absurd (omega arith)
  shifted n (x ∷ xs) h = take-shift_all (suc n) x xs (omega arith) ∙ take_last n xs (omega arith)

  rest-get : (q : Queue.Queue) → (Queue.get q).2 ≡ drop 1 q
  rest-get [] = refl
  rest-get (x ∷ q) = refl

  -- One after the other.
  in_order :
      (p : Fifo) (x : ℕ)
      → IsValid p
      → 0 < p.write_pos
      → contents (put (get stray p).2 x).1 ≡ drop 1 (contents p) ++ (x ∷ [])
  in_order p x v some_byte = elim (ℕ-cases p.write_pos) [
    | inl e ↦ absurd (omega arith)
    | inr (n, e) ↦
        let place : (get stray p).2.write_pos ≡ n = rw (get-nonempty stray p n v e) refl in
        let same = buff_size-get stray p in
        let rest = ap (λ t. t.2) (get_refines stray p v) ∙ rest-get (contents p) in
        (put-room (get stray p).2 x (get-IsValid stray p v) (omega arith)).1
        ∙ ap (λ q. q ++ (x ∷ [])) rest
  ]

  -- fifo_put between the loop of fifo_shift and its `write_pos--`.
  between :
      (n x : ℕ) (p : Fifo)
      → IsValid p
      → p.write_pos ≡ suc n
      → p.write_pos ≤ p.buff_size
      → (p' : Fifo) × Steps (at p tests_empty (tests_room x)) (at p' got has_put)
        × (contents p' ≡ drop 1 (contents p) ++ (get_or p.p_buff p.write_pos stray ∷ []))
  unfolding fifo_length
  between n x p v e room =
      let buff = shift_loop stray (suc n) 0 p.p_buff in
      let p1 = record p { p_buff = buff } in
      let p2 = record p { p_buff = set buff p.write_pos x } in
      let p3 = record p2 { write_pos = add32 p2.write_pos 1 } in
      let p4 = record p3 { write_pos = sub32 p3.write_pos 1 } in
      let i = last_index (suc n) 0 in
      let begun : shifts (fifo_length p - p.read_pos) p.read_pos ≡ shifts (suc n) 0 =
        ap₂ shifts (let f = v.front in omega arith) v.front in
      let count : sub32 (add32 p.write_pos 1) 1 ≡ suc n = omega arith in
      let later : Steps (at p1 (shifts zero i) (tests_room x)) (at p4 got has_put) =
        step (has_room p1 (shifts zero i) x (ground arith)) (
          step (stores p1 (shifts zero i) x) (
            step (loads_up p2 (shifts zero i)) (
              step (counted p2 (shifts zero i) p2.write_pos) (
                step (loads_down p3 i has_put)
                  (step (drops p3 p3.write_pos has_put) (stay (at p4 got has_put))))))) in
      (
        p4,
        step (finds p (tests_room x) (ground arith)) (
            step (measured p (tests_room x)) (
              subst (λ g. Steps (at p g (tests_room x)) (at p4 got has_put)) (sym begun)
                (moves_all (suc n) 0 p (tests_room x) (at p4 got has_put) later))),
        ap (λ w. take w (set buff p.write_pos x)) count
            ∙ take-set_behind (suc n) p.write_pos x buff (omega arith)
            ∙ shifted n p.p_buff (let s = v.sized in omega arith)
            ∙ ap (λ w. drop 1 (take w p.p_buff) ++ (get_or p.p_buff w stray ∷ [])) (sym e),
      )

  -- A fifo_get and then a fifo_put leave the rest of the queue and the new byte.  But from every valid
  -- FIFO that holds a byte and has room, whatever byte is put, there is an order of their statements
  -- in which both come to their end and the new byte is lost: in its place stands what the buffer held
  -- behind the queue before.
  pub put_lost :
      (p : Fifo) (x : ℕ)
      → IsValid p
      → 0 < p.write_pos
      → p.write_pos ≤ p.buff_size
      → (contents (put (get stray p).2 x).1 ≡ drop 1 (contents p) ++ (x ∷ []))
        × ((p' : Fifo) × Steps (at p tests_empty (tests_room x)) (at p' got has_put)
            × (contents p' ≡ drop 1 (contents p) ++ (get_or p.p_buff p.write_pos stray ∷ [])))
  put_lost p x v some_byte room = (
    in_order p x v some_byte,
    elim (ℕ-cases p.write_pos) [
      | inl e ↦ absurd (omega arith)
      | inr (n, e) ↦ between n x p v e room
    ],
  )
