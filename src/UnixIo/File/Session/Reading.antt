-- ===== src/UnixIo/File/Session/Reading.antt =====
-- kreadfile of src/libe_kermit/unixio_rpi.c in any state of its buffer.
use mathlib.Core.Path.{subst}
use slate.Base.{
  ℕ, zero, suc, ◌≤◌, ◌<◌, ◌≡◌, refl, sym, ap, ◌∙◌, true, false, Bool-cases, ℕ-cases, Option-cases,
  inl, inr, ◌⊎◌, none, some, List, arith, ltb, ◌==◌, length, length-set, length-take, length-blit,
  take, drop, blit,
}
use slate.UnixIo.File.{
  crashed, KFile, text_fill, refilled, binary_fill, refill, byte_at, next_byte, read_at, kreadfile,
  and_then,
}
use slate.UnixIo.File.Read.{text_fill-Filled}
use slate.UnixIo.File.Session.{IsSound, ComesBack, IsStale}

byte_at-ComesBack :
    (k : KFile) (p : ℕ)
    → IsSound k
    → k.zinptr ≡ some p
    → 0 < k.zincnt
    → ComesBack (byte_at k k.zinptr)
byte_at-ComesBack k p s e some_left =
    let i = s.inside p e in
    subst (λ o. ComesBack (byte_at k o)) (sym e)
      (record { cells = s.cells; mode = s.mode; inside = λ q f. ground arith })

refilled-ComesBack :
    (k : KFile) (rest : List ℕ) (cnt : ℕ) (buf : List ℕ)
    → IsSound k
    → length buf ≡ 520
    → cnt ≤ 512
    → ComesBack (next_byte (refilled k (rest, cnt, buf)))
refilled-ComesBack k rest zero buf s l h = record {
  cells = length-set buf 0 0 ∙ l;
  mode = s.mode;
  inside = λ q e. let i = s.inside q e in omega arith;
}
refilled-ComesBack k rest (suc n) buf s l h =
    let more : (suc n == 0) ≡ false = ground arith in
    rw more
      (record { cells = length-set buf (suc n) 0 ∙ l; mode = s.mode; inside = λ q e. ground arith })

text-ComesBack :
    (k : KFile) (rest : List ℕ)
    → IsSound k
    → ComesBack (next_byte (refilled k (text_fill k.zinlen rest 0 k.zinbuf)))
text-ComesBack k rest s =
    let out = text_fill 512 rest 0 k.zinbuf in
    let f = text_fill-Filled rest 0 k.zinbuf s.cells (omega arith) in
    let up = f.room in
    subst (λ n. ComesBack (next_byte (refilled k (text_fill n rest 0 k.zinbuf)))) (sym s.mode)
      (refilled-ComesBack k out.0 out.1 out.2 s (f.cells ∙ s.cells) (omega arith))

binary-ComesBack :
    (k : KFile) (rest : List ℕ) → IsSound k → ComesBack (next_byte (binary_fill k rest))
binary-ComesBack k rest s = elim (Bool-cases (length rest == 0)) [
  | inl e ↦ rw e (record {
    cells = s.cells;
    mode = s.mode;
    inside = λ q e. let i = s.inside q e in omega arith;
  })
  | inr e ↦
      let part = take k.zinlen rest in
      let mode = s.mode in
      rw e (
        refilled-ComesBack k (drop k.zinlen rest) (length part) (blit k.zinbuf 0 part) s
          (length-blit k.zinbuf 0 part ∙ s.cells) (omega (arith, length-take k.zinlen rest)))
]

refill-ComesBack :
    (k : KFile) (rest : List ℕ) → IsSound k → ComesBack (and_then (refill k (some rest)) next_byte)
unfolding refill
refill-ComesBack k rest s = elim (Bool-cases (k.binary == 0)) [
  | inl text ↦ rw text (text-ComesBack k rest s)
  | inr raw ↦
      let size : (k.zinlen == 512) ≡ true = ap (λ z. z == 512) s.mode in
      let k0 = record k { dummy = 0 } in
      rw (raw, size)
        (binary-ComesBack k0 rest (record { cells = s.cells; mode = s.mode; inside = s.inside }))
]

-- Without a file the C library is called with NULL.
refill-none : (k : KFile) → IsSound k → refill k none ≡ crashed
unfolding refill
refill-none k s =
    let mode = s.mode in
    let size : (k.zinlen == 512) ≡ true = ap (λ z. z == 512) mode in
    let room : ltb 2 k.zinlen ≡ true = ap (λ z. ltb 2 z) mode in
    elim (Bool-cases (k.binary == 0)) [ inl text ↦ rw (text, room) | inr raw ↦ rw (raw, size) ]

-- What a call of kreadfile is when the buffer is used up.
reading_on :
    (k : KFile) (p : ℕ)
    → k.zinptr ≡ some p
    → k.zincnt ≡ 0
    → kreadfile k ≡ and_then (refill k k.ifile) next_byte
unfolding kreadfile
reading_on k p e z =
    let used_up : ltb k.zincnt 1 ≡ true = ground arith in ap (read_at k) e ∙ rw used_up refl

-- What a call of kreadfile is when bytes are buffered.
reading_buffered :
    (k : KFile) (p : ℕ) → k.zinptr ≡ some p → 0 < k.zincnt → kreadfile k ≡ byte_at k k.zinptr
unfolding kreadfile
reading_buffered k p e some_left =
    let on : ltb k.zincnt 1 ≡ false = ground arith in ap (read_at k) e ∙ rw on refl

-- In a sound state kreadfile comes back and leaves a sound state, unless the state is stale.
pub kreadfile-cases :
    (k : KFile) → IsSound k → ComesBack (kreadfile k) ⊎ (IsStale k × (kreadfile k ≡ crashed))
unfolding kreadfile
kreadfile-cases k s = elim (Option-cases k.zinptr) [
  | inl e ↦ inl (subst (λ o. ComesBack (read_at k o)) (sym e) s)
  | inr (p, e) ↦ elim (ℕ-cases k.zincnt) [
    | inr (n, f) ↦ inl (
        subst ComesBack (sym (reading_buffered k p e (omega arith)))
          (byte_at-ComesBack k p s e (omega arith)))
    | inl f ↦ elim (Option-cases k.ifile) [
      | inl g ↦ inr (
        record { pointed = (p, e); used_up = f; closed = g },
        reading_on k p e f
            ∙ ap (λ o. and_then (refill k o) next_byte) g
            ∙ ap (λ r. and_then r next_byte) (refill-none k s),
      )
      | inr (rest, g) ↦ inl (
          subst ComesBack (sym (reading_on k p e f ∙ ap (λ o. and_then (refill k o) next_byte) g))
            (refill-ComesBack k rest s))
    ]
  ]
]
