-- ===== src/Crc/Stream/Delivered.antt =====
-- src/libcrc32/libcrc32_file.c whatever ftell, fseek and fread do: what a CRC that is returned is one of.
use slate.Base.{
  ℕ, ℤ, pos, negsuc, ◌≢◌, zero, suc, ◌+◌, ◌-◌, ◌*◌, ◌/◌, ◌%◌, ◌^◌, ◌<◌, ◌≡◌, ◌∙◌, arith, false, not,
  ◌||◌, Bool-cases, inl, inr, some, List, [], ◌++◌, leb, ltb, ◌==◌, if◌then◌else◌, length,
  length-append, ltb→lt, take_all, take-append, drop-append,
}
use slate.Crc.{
  Result, crc32_fast, over, last_word, calc_tail, calc_loop, file_size-length, calc_crc_soft,
}
use slate.Crc
use slate.Crc.Stream.{
  Stdio, Ret, as_int, as_u32, is_minus_one, size_at_end, seek_end, success, enoent, einval, eio,
  seek_failed, ran, crcf_fsize, crcf_fseek, stream_tail, stream_loop, stream_crc, crcf_calc_crc,
  from_start,
}

-- The whole of a list that is not empty.
whole_list :
    (bytes : List ℕ) (n : ℕ)
    → length bytes ≡ n
    → 0 < n
    → n < 2 ^ 32 - 1
    → calc_crc_soft bytes 0 0 ≡ calc_loop (n / 4) (n % 4) bytes 0 (2 ^ 32 - 1)
unfolding calc_crc_soft
whole_list bytes n e some_bytes small =
    let no_zero : (length bytes == 0) ≡ false = ground arith in
    let start_inside : leb (length bytes) 0 ≡ false = ground arith in
    let len_inside : ltb (length bytes) 0 ≡ false = ground arith in
    let from_zero : length bytes - 0 ≡ n = omega arith in
    rw (file_size-length bytes (omega arith), no_zero, start_inside, len_inside, from_zero)

-- An int that is not -1, as a uint32_t.
as_u32-lt : (x : ℤ) → is_minus_one (as_int x) ≡ false → as_u32 (as_int x) < 2 ^ 32 - 1
as_u32-lt (pos n) e = elim (Bool-cases (ltb (n % 2 ^ 32) (2 ^ 31))) [
  | inl low ↦ rw low (omega (arith, ltb→lt _ _ low))
  | inr high ↦ let other : n % 2 ^ 32 ≢ 2 ^ 32 - 1 = λ z. ground arith in rw high (omega arith)
]
as_u32-lt (negsuc n) e = elim (Bool-cases (ltb (n % 2 ^ 32) (2 ^ 31))) [
  | inl low ↦ let other : n % 2 ^ 32 ≢ 0 = λ z. ground arith in rw low (omega arith)
  | inr high ↦ rw high (ground arith)
]

module _ {ℓ} {F : Type ℓ} (s : Stdio F) where
  -- The bytes that fread gives to the loop of `n` words and the read of the `r` bytes behind it.
  pub delivered : ℕ → ℕ → F → List ℕ
  delivered zero r f = if r == 0 then [] else (s.fread f r).0
  delivered (suc n) r f = (s.fread f 4).0 ++ delivered n r (s.fread f 4).1

  tail-delivered :
      (r cache crc v : ℕ) (f f' : F)
      → stream_tail s r cache crc f ≡ ran success v f'
      → (calc_tail r (delivered 0 r f) cache crc ≡ Crc.ok v) × (length (delivered 0 r f) ≡ r)
  unfolding delivered stream_tail calc_tail
  tail-delivered r cache crc v f f' e = elim (Bool-cases (r == 0)) [
    | inl none_left ↦ (rw none_left (ground arith), rw none_left (ground arith))
    | inr more ↦ elim (Bool-cases (length (s.fread f r).0 == r)) [
      | inl full ↦ (
        rw (more, take_all r (s.fread f r).0 (ground arith), full) (ground arith),
        rw more (ground arith),
      )
      | inr short ↦ absurd (ground arith)
    ]
  ]

  loop-delivered :
      (n r cache crc v : ℕ) (f f' : F)
      → stream_loop s n r cache crc f ≡ ran success v f'
      → (calc_loop n r (delivered n r f) cache crc ≡ Crc.ok v)
        × (length (delivered n r f) ≡ 4 * n + r)
  unfolding delivered stream_loop calc_loop
  loop-delivered zero r cache crc v f f' e =
      let (a, b) = tail-delivered r cache crc v f f' e in (a, b ∙ omega arith)
  loop-delivered (suc n) r cache crc v f f' e = elim (Bool-cases (length (s.fread f 4).0 == 4)) [
    | inl full ↦
        let bytes = (s.fread f 4).0 in
        let rest = delivered n r (s.fread f 4).1 in
        let four : length bytes ≡ 4 = ground arith in
        let (a, b) = loop-delivered n r _ _ v (s.fread f 4).1 f' (rw full at e) in
        (
          rw (take-append bytes rest 4 four, drop-append bytes rest 4 four, full) a,
          omega (arith, length-append bytes rest),
        )
    | inr short ↦ absurd (ground arith)
  ]

  size_at_end-lt : (at : ℤ) (f : F) → (size_at_end s at f).0 < 2 ^ 32 - 1
  size_at_end-lt at f = ground (arith, as_u32-lt (s.ftell f))

  fsize-lt : (f : F) → (crcf_fsize s f).0 < 2 ^ 32 - 1
  unfolding crcf_fsize
  fsize-lt f =
      let at = as_int (s.ftell f) in
      ground (arith, size_at_end-lt at (s.fseek f (pos 0) seek_end).1)

  -- The number of bytes that a call is about, and the file behind the seek to `start`.
  abbrev pub asked : F → ℕ → ℕ → ℕ
  asked f start len = if not (len == 0) then len else (crcf_fsize s f).0 - start

  abbrev pub sought : F → ℕ → F
  sought f start = (crcf_fseek s (crcf_fsize s f).1 start).1

  from_start-delivered :
      (fsize v : ℕ) (r : Ret × F) (f' : F)
      → from_start s fsize r ≡ ran success v f'
      → 0 < fsize
      → fsize < 2 ^ 32 - 1
      → (calc_crc_soft (delivered (fsize / 4) (fsize % 4) r.1) 0 0 ≡ Crc.ok v)
        × (length (delivered (fsize / 4) (fsize % 4) r.1) ≡ fsize)
  from_start-delivered fsize v (success, f) f' e some_bytes small =
      let bytes = delivered (fsize / 4) (fsize % 4) f in
      let (a, b) = loop-delivered (fsize / 4) (fsize % 4) 0 (2 ^ 32 - 1) v f f' e in
      let all : length bytes ≡ fsize = b ∙ omega arith in
      (whole_list bytes fsize all some_bytes small ∙ a, all)
  from_start-delivered fsize v (enoent, f) f' e some_bytes small = absurd (ground arith)
  from_start-delivered fsize v (einval, f) f' e some_bytes small = absurd (ground arith)
  from_start-delivered fsize v (eio, f) f' e some_bytes small = absurd (ground arith)
  from_start-delivered fsize v (seek_failed, f) f' e some_bytes small = absurd (ground arith)

  -- Whatever ftell, fseek and fread do: a CRC that is returned with 0 is that of the bytes which fread
  -- gave behind the seek, and these are as many as were asked for, `len` or the rest of the size.
  pub success-delivered :
      (f : F) (start len crc v : ℕ) (f' : F)
      → crcf_calc_crc s (some f) start len crc ≡ ran success v f'
      → (calc_crc_soft
            (delivered (asked f start len / 4) (asked f start len % 4) (sought f start))
            0
            0
          ≡ Crc.ok v)
        × (length (delivered (asked f start len / 4) (asked f start len % 4) (sought f start))
            ≡ asked f start len)
  unfolding crcf_calc_crc stream_crc
  success-delivered f start len crc v f' e =
      let size = (crcf_fsize s f).0 in
      elim (Bool-cases (size == 0)) [
        | inl empty ↦ absurd (ground arith)
        | inr some_bytes ↦
            elim (Bool-cases (leb size start || (ltb size len || not (start % 4 == 0)))) [
              | inl bad ↦ let e' = (rw (some_bytes, bad) at e) in absurd (ground arith)
              | inr good ↦
                  from_start-delivered (asked f start len) v (crcf_fseek s (crcf_fsize s f).1 start)
                    f' (rw (some_bytes, good) at e) (ground arith) (ground (arith, fsize-lt f))
            ]
      ]
