-- ===== src/Fifo.antt =====
-- src/fifo.c: the byte FIFO between the GATT callbacks and the file transfer thread.
-- `p_fifo->p_buff` is a list; a function that updates `*p_fifo` returns the new record.
-- `size_t` is 32 bits wide, as on the Raspberry Pi target.
pub mod Queue
pub mod Inv
pub mod Refine
pub mod Bulk
pub mod Stray
pub mod Sequence
pub mod Race
mod Tests
use slate.Base.{
  ℕ, zero, suc, ◌-◌, Bool, Option, none, some, List, ltb, leb, ◌==◌, if◌then◌else◌, get_or, set,
  add32, sub32, u32,
}

-- FIFO_SUCCESS, FIFO_ERR, FIFO_EMPTY, FIFO_FULL, FIFO_NOT_ENOUGH_BIG
pub data Status : Type 0 where
  success err empty full not_enough_big : Status

pub record Fifo : Type 0 where
  pub p_buff : List ℕ
  pub buff_size : ℕ  -- uint32_t, the last index
  pub read_pos : ℕ  -- uint32_t
  pub write_pos : ℕ  -- uint32_t

-- MLDP_RX_BUFF_SIZE, the size of the member array `fifo`
abbrev pub mldp_rx_buff_size : ℕ
mldp_rx_buff_size = 4096

-- `none` is a NULL buffer. `buf_size - 1` is stored into a uint32_t.
unfoldable pub init : Fifo → Option (List ℕ) → ℕ → Status × Fifo
init p none buf_size = (err, p)
init p (some buff) buf_size =
    (success, record { p_buff = buff; buff_size = sub32 buf_size 1; read_pos = 0; write_pos = 0 })

unfoldable pub fifo_length : Fifo → ℕ
fifo_length p = sub32 p.write_pos p.read_pos

unfoldable pub put : Fifo → ℕ → Status × Fifo
unfolding fifo_length
put p byte =
    if leb (fifo_length p) p.buff_size
    then (
      success,
      record p { p_buff = set p.p_buff p.write_pos byte; write_pos = add32 p.write_pos 1 },
    )
    else (not_enough_big, p)

unfoldable pub is_fifo_full : Fifo → Bool
is_fifo_full p = p.write_pos == mldp_rx_buff_size

unfoldable pub is_fifo_empty : Fifo → Bool
is_fifo_empty p = p.write_pos == p.read_pos

unfoldable pub flush : Fifo → Status × Fifo
flush p = (success, record p { write_pos = 0; read_pos = 0 })

-- `stray` is what a read just past the end of the buffer gives.
module _ (stray : ℕ) where
  -- The `while` loop of `fifo_shift`, with the rounds left.
  unfoldable pub shift_loop : ℕ → ℕ → List ℕ → List ℕ
  shift_loop zero readpos buff = buff
  shift_loop (suc left) readpos buff =
      shift_loop left (suc readpos) (set buff readpos (get_or buff (suc readpos) stray))

  unfoldable pub shift : Fifo → Fifo
  unfolding fifo_length
  shift p = record p {
    p_buff = shift_loop (fifo_length p - p.read_pos) p.read_pos p.p_buff;
    write_pos = sub32 p.write_pos 1;
  }

  -- The option is what is stored through `p_byte`; Wire/Timeout has the usleep of an empty FIFO.
  unfoldable pub get : Fifo → Status × Option ℕ × Fifo
  unfolding fifo_length
  get p =
      if fifo_length p == 0
      then (empty, none, p)
      else (success, some (get_or p.p_buff p.read_pos stray), shift p)

  -- `p_byte_array[index++]` stays as it is where `fifo_get` stores nothing.
  abbrev pub store : List ℕ → ℕ → Option ℕ → List ℕ
  store dst i none = dst
  store dst i (some b) = set dst i b

  unfoldable pub read_loop : ℕ → ℕ → List ℕ → Fifo → List ℕ × Fifo
  read_loop zero index dst p = (dst, p)
  read_loop (suc left) index dst p =
      let (s, b, p') = get p in read_loop left (suc index) (store dst index b) p'

  -- What `fifo_read` leaves: the status, the array, `*p_size`, the FIFO.
  unfoldable pub read_into : Fifo → Option (List ℕ) → ℕ → Status × Option (List ℕ) × ℕ × Fifo
  unfolding fifo_length
  read_into p none size = (success, none, fifo_length p, p)
  read_into p (some dst) size =
      let read_size = if ltb (u32 size) (fifo_length p) then u32 size else fifo_length p in
      let (dst', p') = read_loop read_size 0 dst p in (success, some dst', read_size, p')

  -- The pointers may be NULL.
  unfoldable pub read :
      Option Fifo → Option (List ℕ) → Option ℕ → Status × Option (List ℕ) × Option ℕ × Option Fifo
  read none dst size = (err, dst, size, none)
  read (some p) dst none = (err, dst, none, some p)
  read (some p) dst (some size) =
      let (s, dst', n, p') = read_into p dst size in (s, dst', some n, some p')

  unfoldable pub write_loop : ℕ → ℕ → List ℕ → Fifo → Fifo
  write_loop zero index src p = p
  write_loop (suc left) index src p =
      write_loop left (suc index) src (put p (get_or src index stray)).1

  abbrev pub available_count : Fifo → ℕ
  available_count p = add32 (sub32 p.buff_size (fifo_length p)) 1

  -- What `fifo_write` leaves: the status, `*p_size`, the FIFO.
  unfoldable pub write_from : Fifo → Option (List ℕ) → ℕ → Status × ℕ × Fifo
  unfolding is_fifo_full
  write_from p none size =
      if is_fifo_full p then (full, available_count p, p) else (success, available_count p, p)
  write_from p (some src) size =
      let write_size = if ltb size (available_count p) then size else available_count p in
      if is_fifo_full p
      then (full, available_count p, p)
      else (success, write_size, write_loop write_size 0 src p)

  unfoldable pub write : Option Fifo → Option (List ℕ) → Option ℕ → Status × Option ℕ × Option Fifo
  write none src size = (err, size, none)
  write (some p) src none = (err, none, some p)
  write (some p) src (some size) = let (s, n, p') = write_from p src size in (s, some n, some p')
