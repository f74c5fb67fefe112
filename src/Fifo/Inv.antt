-- ===== src/Fifo/Inv.antt =====
-- The representation invariant of `fifo`, and what keeps it.
use slate.Base.{
  ℕ, zero, suc, ◌-◌, ◌≤◌, ◌<◌, ◌≡◌, refl, some, List, arith, length, length-set, get_or, set,
}
use slate.Fifo.{Fifo, init, fifo_length, put, flush, shift_loop, shift, get}

-- The buffer holds `buff_size + 1` bytes, fewer than a uint16_t counts, and `read_pos` stays 0.
pub record IsValid (p : Fifo) : Type 0 where
  pub sized : length p.p_buff ≡ suc p.buff_size
  pub small : p.buff_size < 65535
  pub front : p.read_pos ≡ 0
  pub filled : p.write_pos ≤ suc p.buff_size

pub fifo_length-valid : (p : Fifo) → IsValid p → fifo_length p ≡ p.write_pos
unfolding fifo_length
fifo_length-valid p v = omega arith

pub init-IsValid :
    (p : Fifo) (buff : List ℕ)
    → 0 < length buff
    → length buff < 65536
    → IsValid (init p (some buff) (length buff)).1
unfolding init
init-IsValid p buff h k = omega arith

pub put-IsValid : (p : Fifo) (x : ℕ) → IsValid p → IsValid (put p x).1
unfolding put
put-IsValid p x v = ground (arith, length-set p.p_buff p.write_pos x)

pub flush-IsValid : (p : Fifo) → IsValid p → IsValid (flush p).1
unfolding flush
flush-IsValid p v = omega arith

pub buff_size-put : (p : Fifo) (x : ℕ) → (put p x).1.buff_size ≡ p.buff_size
unfolding put
buff_size-put p x = ground arith

module _ (stray : ℕ) where
  length-shift_loop :
      (left i : ℕ) (buff : List ℕ) → length (shift_loop stray left i buff) ≡ length buff
  unfolding shift_loop
  length-shift_loop zero i buff = refl
  length-shift_loop (suc left) i buff =
      let v = get_or buff (suc i) stray in
      omega (arith, length-shift_loop left (suc i) (set buff i v), length-set buff i v)

  pub get-IsValid : (p : Fifo) → IsValid p → IsValid (get stray p).2
  unfolding get shift
  get-IsValid p v =
      ground (arith, length-shift_loop (fifo_length p - p.read_pos) p.read_pos p.p_buff)

  pub buff_size-get : (p : Fifo) → (get stray p).2.buff_size ≡ p.buff_size
  unfolding get shift
  buff_size-get p = ground arith
