-- ===== src/Fifo/Bulk.antt =====
-- `fifo_write` and `fifo_read`: how many bytes they move, and which.
use mathlib.Core.Path.{subst}
use slate.Base.{
  ℕ, zero, suc, ◌+◌, ◌-◌, ◌^◌, ◌≤◌, ◌<◌, ◌≡◌, refl, ap, ◌∙◌, sym, some, List, [], ◌∷◌, ◌++◌,
  append-nil, append_assoc, arith, min, length, length-take, take, drop, get_or, blit, take-blit,
  drop-get_or, drop_all, take_all, length-blit, u32, ltb, ◌==◌, if◌then◌else◌,
}
use slate.Fifo.{
  Fifo, success, full, mldp_rx_buff_size, fifo_length, put, get, store, read_loop, read_into,
  write_loop, write_from, available_count,
}
use slate.Fifo.Inv.{IsValid, fifo_length-valid, put-IsValid, buff_size-put, get-IsValid}
use slate.Fifo.Inv.{buff_size-get}
use slate.Fifo.Refine.{contents, capacity, length-contents, contents-empty, put-room, get-cons}

module _ (stray : ℕ) where
  -- What a run of `fifo_write`'s loop leaves.
  record Wrote (p : Fifo) (bytes : List ℕ) (out : Fifo) : Type 0 where
    valid : IsValid out
    same_size : out.buff_size ≡ p.buff_size
    appended : contents out ≡ contents p ++ bytes

  write_loop-Wrote :
      (n i : ℕ) (src : List ℕ) (p : Fifo)
      → IsValid p
      → p.write_pos + n ≤ capacity p
      → i + n ≤ length src
      → Wrote p (take n (drop i src)) (write_loop stray n i src p)
  unfolding write_loop
  write_loop-Wrote zero i src p v room fits = record {
    valid = v;
    same_size = refl;
    appended = rw append-nil;
  }
  write_loop-Wrote (suc n) i src p v room fits =
      let x = get_or src i stray in
      let (e, w) = put-room p x v (omega arith) in
      let rest =
        write_loop-Wrote n (suc i) src (put p x).1 (put-IsValid p x v)
          (omega (arith, buff_size-put p x)) (omega arith) in
      record {
        valid = rest.valid;
        same_size = rest.same_size ∙ buff_size-put p x;
        appended =
            rest.appended
            ∙ ap (λ l. l ++ take n (drop (suc i) src)) w
            ∙ append_assoc (contents p) (x ∷ []) (take n (drop (suc i) src))
            ∙ ap (λ l. contents p ++ take (suc n) l) (sym (drop-get_or src i stray (omega arith)));
      }

  available_count-valid :
      (p : Fifo) → IsValid p → available_count stray p ≡ capacity p - p.write_pos
  available_count-valid p v = omega (arith, fifo_length-valid p v)

  write_within :
      (p : Fifo) (src : List ℕ) (size : ℕ)
      → IsValid p
      → size ≤ length src
      → let n = if ltb size (available_count stray p) then size else available_count stray p in
        (n ≡ min size (capacity p - p.write_pos))
        × Wrote p (take n src) (write_loop stray n 0 src p)
  write_within p src size v fits =
      let n = if ltb size (available_count stray p) then size else available_count stray p in
      let e : n ≡ min size (capacity p - p.write_pos) = ground (arith, available_count-valid p v) in
      (e, write_loop-Wrote n 0 src p v (omega arith) (omega arith))

  -- `fifo_write` of `size` bytes to a valid FIFO takes as many as there is room for, reports their
  -- number through `p_size`, appends exactly that prefix of the source and keeps the FIFO valid.
  -- Its status is FIFO_FULL if the FIFO holds 4096 bytes already and FIFO_SUCCESS else.
  pub write_lem :
      (p : Fifo) (src : List ℕ) (size : ℕ)
      → IsValid p
      → capacity p ≤ mldp_rx_buff_size
      → size ≤ length src
      → let (s, n, p') = write_from stray p (some src) size in
        (n ≡ min size (capacity p - length (contents p)))
        × (contents p' ≡ contents p ++ take n src)
        × IsValid p'
        × (p'.buff_size ≡ p.buff_size)
        × (s ≡ (if length (contents p) == mldp_rx_buff_size then full else success))
  unfolding write_from
  write_lem p src size v small fits = ground (
    arith,
    available_count-valid p v,
    length-contents p v,
    append-nil (contents p),
    write_within p src size v fits,
  )

  -- What a run of `fifo_read`'s loop leaves.
  record Took (p : Fifo) (n i : ℕ) (dst : List ℕ) (out : List ℕ × Fifo) : Type 0 where
    valid : IsValid out.1
    same_size : out.1.buff_size ≡ p.buff_size
    copied : out.0 ≡ blit dst i (take n (contents p))
    rest : contents out.1 ≡ drop n (contents p)

  read_loop-Took :
      (n i : ℕ) (dst : List ℕ) (p : Fifo)
      → IsValid p
      → n ≤ p.write_pos
      → Took p n i dst (read_loop stray n i dst p)
  unfolding read_loop
  read_loop-Took zero i dst p v h = record {
    valid = v;
    same_size = refl;
    copied = refl;
    rest = refl;
  }
  read_loop-Took (suc n) i dst p v h =
      let (x, rest, e, _, b, c, w) = get-cons stray p v (omega arith) in
      let later =
        read_loop-Took n (suc i) (store stray dst i (get stray p).1) (get stray p).2
          (get-IsValid stray p v) (omega arith) in
      record {
        valid = later.valid;
        same_size = later.same_size ∙ buff_size-get stray p;
        copied = later.copied ∙ rw (b, c, e);
        rest = later.rest ∙ ap (drop n) c ∙ ap (drop (suc n)) (sym e);
      }

  read_size-min :
      (p : Fifo) (size : ℕ)
      → IsValid p
      → size < 2 ^ 32
      → (if ltb (u32 size) (fifo_length p) then u32 size else fifo_length p) ≡ min size p.write_pos
  read_size-min p size v h = ground (arith, fifo_length-valid p v)

  -- `fifo_read` of `size` bytes from a valid FIFO into an array that has room takes as many as
  -- there are, reports their number through `p_size`, puts exactly that prefix of the contents at
  -- the front of the array, leaves the rest in the FIFO and keeps it valid.
  pub read_lem :
      (p : Fifo) (dst : List ℕ) (size : ℕ)
      → IsValid p
      → size < 2 ^ 32
      → size ≤ length dst
      → let (s, out, n, p') = read_into stray p (some dst) size in
        (s ≡ success)
        × (n ≡ min size (length (contents p)))
        × ((bytes : List ℕ) × (out ≡ some bytes)
            × (take n bytes ≡ take n (contents p))
            × (length bytes ≡ length dst))
        × (contents p' ≡ drop n (contents p))
        × IsValid p'
        × (p'.buff_size ≡ p.buff_size)
  unfolding read_into
  read_lem p dst size v h fits =
      let n = if ltb (u32 size) (fifo_length p) then u32 size else fifo_length p in
      let e : n ≡ min size p.write_pos = read_size-min p size v h in
      let t = read_loop-Took n 0 dst p v (omega arith) in
      let bytes = take n (contents p) in
      let k : length bytes ≡ n = omega (arith, length-take n (contents p), length-contents p v) in
      (
        refl,
        omega (arith, length-contents p v),
        (
          (read_loop stray n 0 dst p).0,
          refl,
          ap (take n) t.copied
              ∙ subst (λ m. take m (blit dst 0 bytes) ≡ bytes) k
                  (take-blit dst bytes (omega arith)),
          ap length t.copied ∙ length-blit dst 0 bytes,
        ),
        t.rest,
        t.valid,
        t.same_size,
      )

  -- What `fifo_write` puts into a valid empty FIFO that has room for it, `fifo_read` of that many
  -- bytes gives back, and the FIFO is empty again.
  pub read-write :
      (p : Fifo) (src dst : List ℕ)
      → IsValid p
      → p.write_pos ≡ 0
      → capacity p ≤ mldp_rx_buff_size
      → length src ≤ capacity p
      → length src ≤ length dst
      → let (s, n, q) = write_from stray p (some src) (length src) in
        let (s', out, n', r) = read_into stray q (some dst) n in
        (n' ≡ length src)
        × ((bytes : List ℕ) × (out ≡ some bytes) × (take (length src) bytes ≡ src))
        × (contents r ≡ [])
  read-write p src dst v e small fits fits' =
      let (count, added, v', same, _) = write_lem p src (length src) v small (omega arith) in
      let (_, n, q) = write_from stray p (some src) (length src) in
      let n-src : n ≡ length src = omega (arith, length-contents p v) in
      let held : contents q ≡ src =
        added ∙ ap (λ l. l ++ take n src) (contents-empty p e) ∙ take_all n src (omega arith) in
      let (_, count', (bytes, out, front, _), rest, _, _) =
        read_lem q dst n v' (omega arith) (omega arith) in
      let moved = (read_into stray q (some dst) n).2 in
      let n'-src : moved ≡ length src = omega (arith, ap (length {0}) held) in
      (
        n'-src,
        (
          bytes,
          out,
          ap (λ m. take m bytes) (sym n'-src)
              ∙ front
              ∙ ap (take moved) held
              ∙ take_all moved src (omega arith),
        ),
        rest ∙ ap (drop moved) held ∙ drop_all moved src (omega arith),
      )
