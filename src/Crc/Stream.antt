-- ===== src/Crc/Stream.antt =====
-- src/libcrc32/libcrc32_file.c with the C library's files: CRCF_fsize, CRCF_fread, CRCF_fseek,
-- CRCF_calc_crc_soft and CRCF_calc_crc over ftell, fseek and fread, which may fail and are a parameter,
-- `Stdio`.  An int has 32 bits; a uint32_t becomes a long as it is.
pub mod Regular
pub mod Delivered
pub mod Memory
mod Tests
use slate.Base.{
  ℕ, zero, suc, ◌-◌, ◌/◌, ◌%◌, ◌^◌, Bool, false, not, ◌||◌, Option, none, some, List, leb, ltb,
  ◌==◌, if◌then◌else◌, length, ℤ, pos, negsuc,
}
use slate.Crc.{crc32_fast, over, last_word}

pub data Whence : Type 0 where
  seek_set seek_end : Whence

-- The functions on an open file `F`: ftell is -1 and fseek not 0 when they fail; fread gives the bytes
-- that it read, as many as asked or fewer.
pub record Stdio {ℓ} (F : Type ℓ) : Type ℓ where
  pub ftell : F → ℤ
  pub fseek : F → ℤ → Whence → ℤ × F
  pub fread : F → ℕ → List ℕ × F

-- What is returned; `seek_failed` is the 1 of CRCF_fseek.
pub data Ret : Type 0 where
  success enoent einval eio seek_failed : Ret

-- The code returned, `*crc` and the file; a NULL file is followed.
pub data Ran {ℓ} (F : Type ℓ) : Type ℓ where
  crashed : Ran F
  ran : Ret → ℕ → F → Ran F

abbrev pub is_zero : ℤ → Bool
is_zero (pos n) = n == 0
is_zero (negsuc n) = false

-- `(uint32_t)end`
abbrev pub as_u32 : ℤ → ℕ
as_u32 (pos n) = n % 2 ^ 32
as_u32 (negsuc n) = 2 ^ 32 - 1 - n % 2 ^ 32

-- `x == -1`
abbrev pub is_minus_one : ℤ → Bool
is_minus_one (pos n) = false
is_minus_one (negsuc n) = n == 0

-- A long stored into an int.
abbrev pub as_int : ℤ → ℤ
as_int (pos n) =
    let low = n % 2 ^ 32 in if ltb low (2 ^ 31) then pos low else negsuc (2 ^ 32 - 1 - low)
as_int (negsuc n) =
    let low = n % 2 ^ 32 in if ltb low (2 ^ 31) then negsuc low else pos (2 ^ 32 - 1 - low)

module _ {ℓ} {F : Type ℓ} (s : Stdio F) where
  -- From the second ftell on.
  abbrev pub size_at_end : ℤ → F → ℕ × F
  size_at_end at file =
      let end_pos = as_int (s.ftell file) in
      let (back, file') = s.fseek file at seek_set in
      if is_minus_one end_pos
      then (0, file)
      else if not (is_zero back)
      then if is_minus_one at then (0, file') else (as_u32 end_pos, file')
      else (as_u32 end_pos, file')

  unfoldable pub crcf_fsize : F → ℕ × F
  crcf_fsize file =
      let at = as_int (s.ftell file) in
      let (r, file') = s.fseek file (pos 0) seek_end in
      if is_minus_one at
      then (0, file)
      else if not (is_zero r)
      then (0, file')
      else size_at_end at file'

  -- It always returns FR_OK; `*br` is the number of bytes.
  abbrev pub crcf_fread : F → ℕ → List ℕ × F
  crcf_fread file n = s.fread file n

  unfoldable pub crcf_fseek : F → ℕ → Ret × F
  crcf_fseek file ofs =
      let (r, file') = s.fseek file (pos ofs) seek_set in
      (if is_zero r then success else seek_failed, file')

  -- The end of the function, with `r = fsize % 4`.
  unfoldable pub stream_tail : ℕ → ℕ → ℕ → F → Ran F
  stream_tail r cache crc file =
      let (bytes, file') = crcf_fread file r in
      if r == 0
      then ran success crc file
      else if not (length bytes == r)
      then ran eio crc file'
      else ran success (crc32_fast crc (last_word r (over bytes cache))) file'

  -- The loop over `n` words and the end.
  unfoldable pub stream_loop : ℕ → ℕ → ℕ → ℕ → F → Ran F
  stream_loop zero r cache crc file = stream_tail r cache crc file
  stream_loop (suc n) r cache crc file =
      let (bytes, file') = crcf_fread file 4 in
      let word = over bytes cache in
      let next = stream_loop n r word (crc32_fast crc word) file' in
      if not (length bytes == 4) then ran eio crc file' else next

  -- From the seek to `start` on.
  abbrev pub from_start : ℕ → Ret × F → Ran F
  from_start fsize (success, file) = stream_loop (fsize / 4) (fsize % 4) 0 (2 ^ 32 - 1) file
  from_start fsize (ret, file) = ran ret (2 ^ 32 - 1) file

  unfoldable pub stream_crc : F → ℕ → ℕ → ℕ → Ran F
  unfolding crcf_fseek
  stream_crc file start len crc =
      let (ffsize, file') = crcf_fsize file in
      let fsize = if not (len == 0) then len else ffsize - start in
      if ffsize == 0
      then ran enoent crc file'
      else if leb ffsize start || (ltb ffsize len || not (start % 4 == 0))
      then ran einval crc file'
      else from_start fsize (crcf_fseek file' start)

  -- The file is asked for its size before it is compared with NULL.
  unfoldable pub crcf_calc_crc : Option F → ℕ → ℕ → ℕ → Ran F
  crcf_calc_crc none start len crc = crashed
  crcf_calc_crc (some file) start len crc = stream_crc file start len crc
