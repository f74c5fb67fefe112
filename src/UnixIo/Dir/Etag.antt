-- ===== src/UnixIo/Dir/Etag.antt =====
-- kgetdirdata of src/libe_kermit/unixio_rpi.c: the etag of an entry, from the file that fopen gives through
-- CRCF_calc_crc.
use slate.Base.{
  ℕ, ◌-◌, ◌^◌, ◌<◌, ◌≡◌, refl, ap, ◌∙◌, arith, true, Bool-cases, inl, inr, Option, none, some, List,
  ◌==◌, if◌then◌else◌, length, get_or, take_all, AllBytes,
}
use slate.Crc.{Result, file_size-length, calc_crc_soft}
use slate.Crc
use slate.Crc.Segment.{words}
use slate.Crc.Bitwise.{divided, calc_crc_soft-divided}
use slate.Crc.Stream.{Stdio, success, Ran, ran, crashed, crcf_calc_crc}
use slate.Crc.Stream.Regular.{Regular, Agrees, calc_crc-refines}
use slate.UnixIo.Dir.{etag_of, file_etag}

-- `etag` after the call, and `none` where the loop goes on to the next entry or the call does not come back.
abbrev pub etag_after {ℓ} : {F : Type ℓ} → List ℕ → Ran F → Option ℕ
etag_after d_name crashed = none
etag_after d_name (ran success crc f) = some crc
etag_after d_name (ran ret crc f) = if get_or d_name 0 0 == 46 then some 0 else none

empty-enoent : (bytes : List ℕ) → (length bytes == 0) ≡ true → calc_crc_soft bytes 0 0 ≡ Crc.enoent
unfolding calc_crc_soft
empty-enoent bytes e = rw (file_size-length bytes (ground arith), e)

-- Of the list of the bytes of a file.
pub file_etag-divided :
    (d_name bytes : List ℕ)
    → AllBytes bytes
    → length bytes < 2 ^ 31
    → file_etag d_name (some bytes) ≡ (
        if length bytes == 0
        then if get_or d_name 0 0 == 46 then some 0 else none
        else some (divided (2 ^ 32 - 1) (words bytes)))
file_etag-divided d_name bytes b small = elim (Bool-cases (length bytes == 0)) [
  | inl empty ↦ ap (etag_of d_name) (empty-enoent bytes empty) ∙ rw empty
  | inr some_bytes ↦
      let whole = calc_crc_soft-divided bytes 0 0 b (ground arith) refl (omega arith) small in
      let all = take_all (length bytes - 0) bytes (omega arith) in
      ap (etag_of d_name) (whole ∙ ap (λ l. Crc.ok (divided (2 ^ 32 - 1) (words l))) all)
      ∙ rw some_bytes
]

-- `etag` is 0 before the first entry and keeps its value from one entry to the next.
module _ {ℓ} {F : Type ℓ} (s : Stdio F) where
  unfoldable pub stream_etag : List ℕ → Option F → ℕ → Option ℕ
  unfolding crcf_calc_crc
  stream_etag d_name none etag = none
  stream_etag d_name (some f) etag = etag_after d_name (crcf_calc_crc s (some f) 0 0 etag)

  module _ (g : Regular s) where
    -- By the result on the list of the bytes.
    etag_after-Agrees :
        (d_name bytes : List ℕ) (p stop crc : ℕ) (result : Result) (r : Ran F)
        → Agrees s g bytes p stop crc result r
        → etag_after d_name r ≡ etag_of d_name result
    etag_after-Agrees d_name bytes p stop crc (Crc.ok v) r (f, e, h) = ap (etag_after d_name) e
    etag_after-Agrees d_name bytes p stop crc Crc.enoent r (f, e, h) = ap (etag_after d_name) e
    etag_after-Agrees d_name bytes p stop crc Crc.einval r (f, e, h) = ap (etag_after d_name) e
    etag_after-Agrees d_name bytes p stop crc Crc.eio r (f, v, e, h) = ap (etag_after d_name) e

    pub stream_etag-file :
        (d_name bytes : List ℕ) (f : F) (etag : ℕ)
        → g.Holds f bytes 0
        → length bytes < 2 ^ 31
        → stream_etag d_name (some f) etag ≡ file_etag d_name (some bytes)
    unfolding stream_etag
    stream_etag-file d_name bytes f etag h small =
        etag_after-Agrees d_name bytes 0 _ etag (calc_crc_soft bytes 0 0)
          (crcf_calc_crc s (some f) 0 0 etag)
          (calc_crc-refines s g f bytes 0 0 0 etag h (omega arith) small)

    -- The etag of a regular file of less than 2 ^ 31 bytes, whatever the one before: the remainder of
    -- the division of all its words by 0x04C11DB7, from 0xffffffff on; a file without bytes is
    -- passed over, or has the etag 0 if its name begins with a dot.
    pub stream_etag-divided :
        (d_name bytes : List ℕ) (f : F) (etag : ℕ)
        → g.Holds f bytes 0
        → AllBytes bytes
        → length bytes < 2 ^ 31
        → stream_etag d_name (some f) etag ≡ (
            if length bytes == 0
            then if get_or d_name 0 0 == 46 then some 0 else none
            else some (divided (2 ^ 32 - 1) (words bytes)))
    stream_etag-divided d_name bytes f etag h b small =
        stream_etag-file d_name bytes f etag h small ∙ file_etag-divided d_name bytes b small
