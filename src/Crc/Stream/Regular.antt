-- ===== src/Crc/Stream/Regular.antt =====
-- src/libcrc32/libcrc32_file.c on a regular file whose calls do not fail: the CRC of the list of its bytes.
use slate.Base.{
  ℕ, zero, suc, ◌+◌, ◌-◌, ◌*◌, ◌%◌, ◌^◌, ◌<◌, ◌≤◌, ◌≡◌, refl, arith, true, false, not, ◌||◌,
  Bool-cases, inl, inr, some, List, leb, ltb, ◌==◌, if◌then◌else◌, length, length-take, length-drop,
  drop-drop, take, drop, pos,
}
use mathlib.Core.Path.{subst}
use slate.Crc.{
  Result, crc32_fast, over, last_word, calc_tail, calc_loop, file_size-length, calc_crc_soft,
}
use slate.Crc
use slate.Crc.Stream.{
  Stdio, as_int, seek_set, seek_end, success, enoent, einval, eio, Ran, ran, crcf_fsize, crcf_fseek,
  stream_tail, stream_loop, stream_crc, crcf_calc_crc,
}

-- What the C library does with a regular file that can be read: `Holds f bytes p` says that `f` has these
-- bytes and stands at `p`.  A position of 2 ^ 31 or more need not fit a long.
pub record Regular {ℓ} {F : Type ℓ} (s : Stdio F) : Type (ℓ + 1) where
  pub Holds : F → List ℕ → ℕ → Type ℓ
  pub tells : (f : F) (bytes : List ℕ) (p : ℕ) → Holds f bytes p → p < 2 ^ 31 → s.ftell f ≡ pos p
  pub seeks :
      (f : F) (bytes : List ℕ) (p k : ℕ)
      → Holds f bytes p
      → k < 2 ^ 31
      → (f' : F) × (s.fseek f (pos k) seek_set ≡ (pos 0, f')) × Holds f' bytes k
  pub seeks_end :
      (f : F) (bytes : List ℕ) (p : ℕ)
      → Holds f bytes p
      → (f' : F) × (s.fseek f (pos 0) seek_end ≡ (pos 0, f')) × Holds f' bytes (length bytes)
  pub reads :
      (f : F) (bytes : List ℕ) (p n : ℕ)
      → Holds f bytes p
      → (f' : F) × (s.fread f n ≡ (take n (drop p bytes), f'))
        × Holds f' bytes (p + length (take n (drop p bytes)))

int_small : (p : ℕ) → p < 2 ^ 31 → as_int (pos p) ≡ pos p
int_small p h =
    let low : p % 2 ^ 32 ≡ p = omega arith in
    let small : ltb p (2 ^ 31) ≡ true = ground arith in rw low (rw small refl)

module _ {ℓ} {F : Type ℓ} (s : Stdio F) (g : Regular s) where
  -- The code, `*crc` and the file left are those of a result on the list: after an error of the
  -- arguments `*crc` is as before and the file stands where it stood; after a success it stands at `stop`.
  abbrev pub Agrees : List ℕ → ℕ → ℕ → ℕ → Result → Ran F → Type ℓ
  Agrees bytes p stop crc (Crc.ok v) r = (f' : F) × (r ≡ ran success v f') × g.Holds f' bytes stop
  Agrees bytes p stop crc Crc.enoent r = (f' : F) × (r ≡ ran enoent crc f') × g.Holds f' bytes p
  Agrees bytes p stop crc Crc.einval r = (f' : F) × (r ≡ ran einval crc f') × g.Holds f' bytes p
  Agrees bytes p stop crc Crc.eio r =
      (f' : F) × (v : ℕ) × (r ≡ ran eio v f') × g.Holds f' bytes (length bytes)

  -- A position that fits an int.
  told :
      (f : F) (bytes : List ℕ) (p : ℕ) → g.Holds f bytes p → p < 2 ^ 31 → as_int (s.ftell f) ≡ pos p
  told f bytes p h small = rw (g.tells f bytes p h small) (int_small p small)

  pub fsize_regular :
      (f : F) (bytes : List ℕ) (p : ℕ)
      → g.Holds f bytes p
      → p < 2 ^ 31
      → length bytes < 2 ^ 31
      → (f' : F) × (crcf_fsize s f ≡ (length bytes, f')) × g.Holds f' bytes p
  unfolding crcf_fsize
  fsize_regular f bytes p h low small =
      let (f1, e1, h1) = g.seeks_end f bytes p h in
      let (f2, e2, h2) = g.seeks f1 bytes (length bytes) p h1 low in
      let whole : length bytes % 2 ^ 32 ≡ length bytes = omega arith in
      (f2, rw (told f bytes p h low, e1, told f1 bytes (length bytes) h1 small, e2, whole), h2)

  -- A read that gives fewer bytes than asked leaves the file at its end.
  short_read :
      (bytes : List ℕ) (p n : ℕ)
      → p ≤ length bytes
      → (length (take n (drop p bytes)) == n) ≡ false
      → p + length (take n (drop p bytes)) ≡ length bytes
  short_read bytes p n inside e = ground (arith, length-take n (drop p bytes), length-drop p bytes)

  full_read :
      (bytes : List ℕ) (p n : ℕ)
      → p ≤ length bytes
      → (length (take n (drop p bytes)) == n) ≡ true
      → p + n ≤ length bytes
  full_read bytes p n inside e = ground (arith, length-take n (drop p bytes), length-drop p bytes)

  -- Moving an equation of the position along.
  abbrev at : (f : F) (bytes : List ℕ) {p q : ℕ} → p ≡ q → g.Holds f bytes p → g.Holds f bytes q
  at f bytes e h = subst (λ k. g.Holds f bytes k) e h

  tail_regular :
      (r cache crc : ℕ) (f : F) (bytes : List ℕ) (p p0 stop crc0 : ℕ)
      → g.Holds f bytes p
      → p ≤ length bytes
      → p + r ≡ stop
      → Agrees bytes p0 stop crc0
          (calc_tail r (drop p bytes) cache crc)
          (stream_tail s r cache crc f)
  unfolding calc_tail stream_tail
  tail_regular r cache crc f bytes p p0 stop crc0 h inside q =
      let (f1, e1, h1) = g.reads f bytes p r h in
      elim (Bool-cases (r == 0)) [
        | inl none_left ↦ rw none_left (f, refl, at f bytes (ground arith) h)
        | inr more ↦ elim (Bool-cases (length (take r (drop p bytes)) == r)) [
          | inl full ↦ rw (more, e1, full) (f1, refl, at f1 bytes (ground arith) h1)
          | inr short ↦
              rw (more, e1, short)
                (f1, crc, refl, at f1 bytes (short_read bytes p r inside short) h1)
        ]
      ]

  loop_regular :
      (n r cache crc : ℕ) (f : F) (bytes : List ℕ) (p p0 stop crc0 : ℕ)
      → g.Holds f bytes p
      → p ≤ length bytes
      → p + (4 * n + r) ≡ stop
      → Agrees bytes p0 stop crc0
          (calc_loop n r (drop p bytes) cache crc)
          (stream_loop s n r cache crc f)
  unfolding calc_loop stream_loop
  loop_regular zero r cache crc f bytes p p0 stop crc0 h inside q =
      tail_regular r cache crc f bytes p p0 stop crc0 h inside (omega arith)
  loop_regular (suc n) r cache crc f bytes p p0 stop crc0 h inside q =
      let (f1, e1, h1) = g.reads f bytes p 4 h in
      elim (Bool-cases (length (take 4 (drop p bytes)) == 4)) [
        | inl full ↦
            rw (e1, full, drop-drop 4 p bytes)
              (loop_regular n r _ _ f1 bytes (p + 4) p0 stop crc0 (at f1 bytes (ground arith) h1)
                (full_read bytes p 4 inside full) (omega arith))
        | inr short ↦
            rw (e1, short) (f1, crc, refl, at f1 bytes (short_read bytes p 4 inside short) h1)
      ]

  -- On a regular file of less than 2 ^ 31 bytes that stands before 2 ^ 31, CRCF_calc_crc returns what
  -- calc_crc_soft gives of its bytes: the CRC with 0, and the file past the last byte read; ENOENT and
  -- EINVAL with `*crc` as before and the file where it stood; EIO with the file at its end.
  pub calc_crc-refines :
      (f : F) (bytes : List ℕ) (p start len crc : ℕ)
      → g.Holds f bytes p
      → p < 2 ^ 31
      → length bytes < 2 ^ 31
      → Agrees bytes p
          (start + (if not (len == 0) then len else length bytes - start))
          crc
          (calc_crc_soft bytes start len)
          (crcf_calc_crc s (some f) start len crc)
  unfolding calc_crc_soft crcf_calc_crc stream_crc
  calc_crc-refines f bytes p start len crc h low small =
      let (f1, e1, h1) = fsize_regular f bytes p h low small in
      let size = file_size-length bytes (omega arith) in
      elim (Bool-cases (length bytes == 0)) [
        | inl empty ↦ rw (size, e1, empty) (f1, refl, h1)
        | inr some_bytes ↦
            elim (Bool-cases
              (leb (length bytes) start || (ltb (length bytes) len || not (start % 4 == 0)))) [
                | inl bad ↦ rw (size, e1, some_bytes, bad) (f1, refl, h1)
                | inr good ↦
                    let (f2, e2, h2) = g.seeks f1 bytes p start h1 (ground arith) in
                    rw (size, e1, some_bytes, good, crcf_fseek, e2)
                      (loop_regular _ _ 0 (2 ^ 32 - 1) f2 bytes start p _ crc h2 (ground arith)
                        (omega arith))
              ]
      ]
