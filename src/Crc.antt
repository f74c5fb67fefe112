-- ===== src/Crc.antt =====
-- src/libcrc32/libcrc32_file.c with the C library's files and without the STM32's unit: Crc32Fast and
-- CRCF_calc_crc_soft.  An open regular file is the list of its bytes; fread gives as many as there are.
pub mod Segment
pub mod Stream
pub mod Table
pub mod Bitwise
mod Tests
use slate.Base.{
  ℕ, zero, suc, ◌+◌, ◌-◌, ◌*◌, ◌/◌, ◌%◌, ◌^◌, bit_or, bit_xor, Bool, true, false, not, ◌||◌, Option,
  none, some, List, [], ◌∷◌, ◌≡◌, ◌<◌, arith, leb, ltb, ◌==◌, if◌then◌else◌, get_or, take, drop,
  length,
}

abbrev pub crc_table : List ℕ
crc_table =
    0 ∷ 79764919 ∷ 159529838 ∷ 222504665 ∷ 319059676 ∷ 398814059 ∷ 445009330 ∷ 507990021 ∷ 638119352
    ∷ 583659535 ∷ 797628118 ∷ 726387553 ∷ 890018660 ∷ 835552979 ∷ 1015980042 ∷ 944750013 ∷ []

-- `(crc << 4) ^ crc_table[crc >> 28]`
unfoldable pub round : ℕ → ℕ
round crc = bit_xor ((crc * 16) % 2 ^ 32) (get_or crc_table (crc / 2 ^ 28) 0)

unfoldable pub rounds : ℕ → ℕ → ℕ
rounds zero crc = crc
rounds (suc n) crc = rounds n (round crc)

unfoldable pub crc32_fast : ℕ → ℕ → ℕ
crc32_fast crc word = rounds 8 (bit_xor crc word)

-- ENOENT, EINVAL, EIO, or 0 with `*crc`.
pub data Result : Type 0 where
  enoent einval eio : Result
  ok : ℕ → Result

-- fread of bytes over the first cells of the little-endian `cache`.
abbrev pub over : List ℕ → ℕ → ℕ
over [] cache = cache
over (b ∷ bs) cache = b + 256 * over bs (cache / 256)

-- The last bytes, shifted to the MSB, the LSBs filled with 0xff.
abbrev pub last_word : ℕ → ℕ → ℕ
last_word r cache = bit_or ((cache * 2 ^ (8 * (4 - r))) % 2 ^ 32) ((2 ^ 32 - 1) / 2 ^ (8 * r))

-- The end of the function, with `r = fsize % 4` and the bytes from the position on.
unfoldable pub calc_tail : ℕ → List ℕ → ℕ → ℕ → Result
calc_tail r rest cache crc =
    if r == 0
    then ok crc
    else if not (length (take r rest) == r)
    then eio
    else ok (crc32_fast crc (last_word r (over (take r rest) cache)))

-- The loop over `n` words and the end.
unfoldable pub calc_loop : ℕ → ℕ → List ℕ → ℕ → ℕ → Result
calc_loop zero r rest cache crc = calc_tail r rest cache crc
calc_loop (suc n) r rest cache crc =
    let word = over (take 4 rest) cache in
    let next = calc_loop n r (drop 4 rest) word (crc32_fast crc word) in
    if not (length (take 4 rest) == 4) then eio else next

-- CRCF_fsize of a regular file whose position fits a long: its length goes through an int, where -1 is an
-- error and gives 0, to a uint32_t.
unfoldable pub file_size : List ℕ → ℕ
file_size file = let size = length file % 2 ^ 32 in if size == 2 ^ 32 - 1 then 0 else size

pub file_size-length : (file : List ℕ) → length file < 2 ^ 32 - 1 → file_size file ≡ length file
unfolding file_size
file_size-length file h = ground arith

unfoldable pub calc_crc_soft : List ℕ → ℕ → ℕ → Result
unfolding file_size
calc_crc_soft file start len =
    let ffsize = file_size file in
    let fsize = if not (len == 0) then len else ffsize - start in
    if ffsize == 0
    then enoent
    else if leb ffsize start || (ltb ffsize len || not (start % 4 == 0))
    then einval
    else calc_loop (fsize / 4) (fsize % 4) (drop start file) 0 (2 ^ 32 - 1)
