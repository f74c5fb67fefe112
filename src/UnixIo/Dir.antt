-- ===== src/UnixIo/Dir.antt =====
-- kgetdirdata of src/libe_kermit/unixio_rpi.c: the listing of a directory, with the CRC of each file.
-- What opendir, readdir and fopen give is a parameter; strcat appends to the text so far.
pub mod Listing
pub mod Etag
pub mod Shown
mod Tests
use slate.Base.{
  ℕ, zero, suc, ◌+◌, ◌-◌, ◌*◌, ◌/◌, ◌%◌, ◌^◌, Bool, true, false, not, ◌&&◌, ◌||◌, Option, none,
  some, List, [], ◌∷◌, ◌++◌, ltb, ◌==◌, if◌then◌else◌, get_or, ℤ, pos,
}
use slate.Crc.{Result, enoent, einval, eio, ok, calc_crc_soft}
use slate.UnixIo.Packet.{x_ok}
use slate.UnixIo.File.{Done, done, overrun, crashed, KFile, kadd_rootpath, with_path}
use Prim.Native.Char.{code}
use Prim.Native.String.{String}

-- The bytes of a text of ASCII.
abbrev pub codes : String → List ℕ
codes String.[] = []
codes (String.◌∷◌ c s) = code c ∷ codes s

abbrev pub k_dir_max : ℕ
k_dir_max = 6

-- K_ERROR
abbrev pub k_error : ℤ
k_error = pos 5

-- DT_REG, DT_LNK, and all others
pub data DType : Type 0 where
  dt_reg dt_lnk dt_other : DType

pub record Entry : Type 0 where
  pub d_type : DType
  pub d_name : List ℕ

abbrev pub hex_digit : ℕ → ℕ
hex_digit n = if ltb n 10 then b'0' + n else b'a' + n - 10

-- The `n` low digits, the highest first.
abbrev pub hex_digits : ℕ → ℕ → List ℕ
hex_digits zero x = []
hex_digits (suc n) x = hex_digits n (x / 16) ++ (hex_digit (x % 16) ∷ [])

-- "%08lx" of a number of 32 bits
abbrev pub hex08 : ℕ → List ℕ
hex08 x = hex_digits 8 (x % 2 ^ 32)

abbrev pub is_listed_type : DType → Bool
is_listed_type dt_reg = true
is_listed_type dt_lnk = true
is_listed_type dt_other = false

-- `etag` after CRCF_calc_crc; `none` goes on to the next entry.
abbrev pub etag_of : List ℕ → Result → Option ℕ
etag_of d_name (ok crc) = some crc
etag_of d_name _ = if get_or d_name 0 0 == 46 then some 0 else none

abbrev pub file_etag : List ℕ → Option (List ℕ) → Option ℕ
file_etag d_name none = none
file_etag d_name (some contents) = etag_of d_name (calc_crc_soft contents 0 0)

abbrev pub slash : List ℕ
slash = codes "/"

-- The object of one file.
abbrev pub dir_object : List ℕ → ℕ → List ℕ
dir_object d_name etag =
    codes "{\"filename\":\"" ++ (d_name ++ (codes "\",\"etag\":\"" ++ (hex08 etag ++ codes "\"}")))

module _ (fopen : List ℕ → Option (List ℕ)) (kfilename : List ℕ) where
  -- Whether an entry is listed, and with which etag.
  abbrev pub entry_etag : Entry → Option ℕ
  entry_etag e =
      if is_listed_type e.d_type
      then file_etag e.d_name (fopen (kfilename ++ (slash ++ e.d_name)))
      else none

  -- The loop over readdir, with the entries so far and the text.
  unfoldable pub dir_loop : List Entry → ℕ → List ℕ → List ℕ
  dir_loop [] cnt pdf = pdf
  dir_loop (e ∷ es) cnt pdf = elim (entry_etag e) [
    | none ↦ dir_loop es cnt pdf
    | some etag ↦
        let comma = if not (cnt == 0) then codes "," else [] in
        let pdf' = pdf ++ (comma ++ dir_object e.d_name etag) in
        let rest = dir_loop es (cnt + 1) pdf' in if cnt + 1 == k_dir_max then pdf' else rest
  ]

-- The return code and the text at `pdf`, if the directory opens.
abbrev pub listed :
    (List ℕ → Option (List ℕ)) → KFile → Option (List Entry) → ℤ × Option (List ℕ) × KFile
listed fopen k none = (k_error, none, k)
listed fopen k (some es) =
    (x_ok, some (dir_loop fopen k.kfilename es 0 (codes "[") ++ codes "]"), k)

unfoldable pub kgetdirdata :
    (List ℕ → Option (List Entry))
    → (List ℕ → Option (List ℕ))
    → KFile
    → List ℕ
    → Done (ℤ × Option (List ℕ) × KFile)
unfolding kadd_rootpath dir_loop
kgetdirdata opendir fopen k dirname =
    with_path k dirname (λ k'. done (listed fopen k' (opendir k'.kfilename)))
