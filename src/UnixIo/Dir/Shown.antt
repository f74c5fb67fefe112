-- ===== src/UnixIo/Dir/Shown.antt =====
-- What kgetdirdata writes, against a description of the listing that does not use its parts.
use mathlib.Core.Path.{ap₂}
use slate.Base.{
  ℕ, zero, suc, ◌+◌, ◌/◌, ◌%◌, ◌-◌, ◌^◌, ◌<◌, ◌≤◌, ◌≡◌, refl, ap, ◌∙◌, Option-cases, inl, inr,
  Option, none, some, List, [], ◌∷◌, ◌++◌, arith, ◌==◌, if◌then◌else◌, length, get_or, take,
  AllBytes,
}
use slate.Crc.Segment.{words}
use slate.Crc.Bitwise.{divided}
use slate.UnixIo.Packet.{x_ok}
use slate.UnixIo.File.{done, KFile, kadd_rootpath, kfilename_maxsize}
use slate.UnixIo.Dir.{
  DType, dt_reg, dt_lnk, dt_other, Entry, codes, hex_digit, hex08, dir_object, entry_etag,
  file_etag, kgetdirdata,
}
use slate.UnixIo.Dir.Etag.{file_etag-divided}
use slate.UnixIo.Dir.Listing.{objects, joined, length-listing, AllShort, kgetdirdata_lem}

abbrev digits : List ℕ
digits = codes "0123456789abcdef"

-- The eight digits of a number of 32 bits.
abbrev pub eight_digits : ℕ → List ℕ
eight_digits x =
    get_or digits (x / 16 ^ 7 % 16) 0
    ∷ get_or digits (x / 16 ^ 6 % 16) 0
    ∷ get_or digits (x / 16 ^ 5 % 16) 0
    ∷ get_or digits (x / 16 ^ 4 % 16) 0
    ∷ get_or digits (x / 16 ^ 3 % 16) 0
    ∷ get_or digits (x / 16 ^ 2 % 16) 0
    ∷ get_or digits (x / 16 % 16) 0
    ∷ get_or digits (x % 16) 0
    ∷ []

hex_digit-lookup : (n : ℕ) → n < 16 → hex_digit n ≡ get_or digits n 0
hex_digit-lookup zero h = refl
hex_digit-lookup (suc zero) h = refl
hex_digit-lookup (suc (suc zero)) h = refl
hex_digit-lookup (suc (suc (suc zero))) h = refl
hex_digit-lookup (suc (suc (suc (suc zero)))) h = refl
hex_digit-lookup (suc (suc (suc (suc (suc zero))))) h = refl
hex_digit-lookup (suc (suc (suc (suc (suc (suc zero)))))) h = refl
hex_digit-lookup (suc (suc (suc (suc (suc (suc (suc zero))))))) h = refl
hex_digit-lookup (suc (suc (suc (suc (suc (suc (suc (suc zero)))))))) h = refl
hex_digit-lookup (suc (suc (suc (suc (suc (suc (suc (suc (suc zero))))))))) h = refl
hex_digit-lookup (suc (suc (suc (suc (suc (suc (suc (suc (suc (suc zero)))))))))) h = refl
hex_digit-lookup (suc (suc (suc (suc (suc (suc (suc (suc (suc (suc (suc zero))))))))))) h = refl
hex_digit-lookup (suc (suc (suc (suc (suc (suc (suc (suc (suc (suc (suc (suc zero)))))))))))) h =
    refl
hex_digit-lookup (suc (suc (suc (suc (suc (suc (suc (suc (suc (suc (suc (suc (suc zero)))))))))))))
      h =
    refl
hex_digit-lookup
      (suc (suc (suc (suc (suc (suc (suc (suc (suc (suc (suc (suc (suc (suc zero)))))))))))))) h =
    refl
hex_digit-lookup
      (suc (suc (suc (suc (suc (suc (suc (suc (suc (suc (suc (suc (suc (suc (suc zero)))))))))))))))
      h =
    refl
hex_digit-lookup
      (suc
        (suc (suc (suc (suc (suc (suc (suc (suc (suc (suc (suc (suc (suc (suc (suc n))))))))))))))))
      h =
    absurd (omega arith)

digit_at : (n m : ℕ) → n ≡ m → m < 16 → hex_digit n ≡ get_or digits m 0
digit_at n m e h = ap hex_digit e ∙ hex_digit-lookup m h

hex08-eight_digits : (x : ℕ) → hex08 x ≡ eight_digits x
hex08-eight_digits x =
    let y = x % 2 ^ 32 in
    rw
      (
        digit_at (y / 16 / 16 / 16 / 16 / 16 / 16 / 16 % 16) (x / 16 ^ 7 % 16) (omega arith)
            (omega arith),
        digit_at (y / 16 / 16 / 16 / 16 / 16 / 16 % 16) (x / 16 ^ 6 % 16) (omega arith)
            (omega arith),
        digit_at (y / 16 / 16 / 16 / 16 / 16 % 16) (x / 16 ^ 5 % 16) (omega arith) (omega arith),
        digit_at (y / 16 / 16 / 16 / 16 % 16) (x / 16 ^ 4 % 16) (omega arith) (omega arith),
        digit_at (y / 16 / 16 / 16 % 16) (x / 16 ^ 3 % 16) (omega arith) (omega arith),
        digit_at (y / 16 / 16 % 16) (x / 16 ^ 2 % 16) (omega arith) (omega arith),
        digit_at (y / 16 % 16) (x / 16 % 16) (omega arith) (omega arith),
        digit_at (y % 16) (x % 16) (omega arith) (omega arith),
      )
      refl

-- The text for one file.
abbrev pub entry_text : List ℕ → ℕ → List ℕ
entry_text name crc =
    codes "{\"filename\":\""
    ++ (name ++ (codes "\",\"etag\":\"" ++ (eight_digits crc ++ codes "\"}")))

dir_object-entry_text : (name : List ℕ) (crc : ℕ) → dir_object name crc ≡ entry_text name crc
dir_object-entry_text name crc =
    ap (λ l. codes "{\"filename\":\"" ++ (name ++ (codes "\",\"etag\":\"" ++ (l ++ codes "\"}"))))
      (hex08-eight_digits crc)

-- The number of a file: the remainder of the division of its words; 0 for an empty one with a dot in front of
-- its name, and none for other empty ones.
abbrev pub crc_of_file : List ℕ → List ℕ → Option ℕ
crc_of_file name contents =
    if length contents == 0
    then if get_or name 0 0 == b'.' then some 0 else none
    else some (divided (2 ^ 32 - 1) (words contents))

abbrev pub crc_of_opened : List ℕ → Option (List ℕ) → Option ℕ
crc_of_opened name none = none
crc_of_opened name (some contents) = crc_of_file name contents

-- Regular files and links only.
abbrev pub shown_crc : DType → Option ℕ → Option ℕ
shown_crc dt_reg crc = crc
shown_crc dt_lnk crc = crc
shown_crc dt_other crc = none

module _ (fopen : List ℕ → Option (List ℕ)) (path : List ℕ) where
  abbrev pub crc_of_entry : Entry → Option ℕ
  crc_of_entry e = shown_crc e.d_type (crc_of_opened e.d_name (fopen (path ++ (b'/' ∷ e.d_name))))

  abbrev pub shown : List Entry → List (List ℕ)
  shown [] = []
  shown (e ∷ es) = elim (crc_of_entry e) [
    | none ↦ shown es
    | some crc ↦ entry_text e.d_name crc ∷ shown es
  ]

  -- Every file holds bytes, fewer than 2 ^ 31.
  abbrev pub HoldFiles : Type 0
  HoldFiles =
      (name contents : List ℕ)
      → fopen name ≡ some contents
      → AllBytes contents × (length contents < 2 ^ 31)

  entry_etag-crc : (e : Entry) → HoldFiles → entry_etag fopen path e ≡ crc_of_entry e
  entry_etag-crc e files = opened e.d_type
    where
      file :
          (o : Option (List ℕ))
          → fopen (path ++ (b'/' ∷ e.d_name)) ≡ o
          → file_etag e.d_name o ≡ crc_of_opened e.d_name o
      file none q = refl
      file (some contents) q =
          let (bytes, small) = files (path ++ (b'/' ∷ e.d_name)) contents q in
          file_etag-divided e.d_name contents bytes small

      opened :
          (t : DType)
          → entry_etag fopen path (record { d_type = t; d_name = e.d_name })
            ≡ crc_of_entry (record { d_type = t; d_name = e.d_name })
      opened dt_reg = file (fopen (path ++ (b'/' ∷ e.d_name))) refl
      opened dt_lnk = file (fopen (path ++ (b'/' ∷ e.d_name))) refl
      opened dt_other = refl

  objects-shown : (es : List Entry) → HoldFiles → objects fopen path es ≡ shown es
  objects-shown [] files = refl
  objects-shown (e ∷ es) files = elim (Option-cases (crc_of_entry e)) [
    | inl skip ↦
        let skip' = entry_etag-crc e files ∙ skip in
        rw (skip', objects) (rw (skip, shown) (objects-shown es files))
    | inr (crc, one) ↦
        let one' = entry_etag-crc e files ∙ one in
        rw (one', objects)
          (rw (one, shown)
            (ap₂ (λ x l. x ∷ l) (dir_object-entry_text e.d_name crc) (objects-shown es files)))
  ]

-- When the path fits, the directory opens, no name in it is longer than 16 bytes and every file in it has fewer
-- than 2 ^ 31 bytes, kgetdirdata returns X_OK and writes, between brackets and with commas between them, the
-- name and the CRC in eight digits of the first six regular files and links that can be opened and are
-- not empty, where an empty one with a dot in front counts and has the CRC 0; and this fits, with its NUL,
-- into the K_DIR_LEN bytes that E-Kermit keeps of it.
pub kgetdirdata-shown :
    (opendir : List ℕ → Option (List Entry)) (fopen : List ℕ → Option (List ℕ)) (k : KFile)
    (dirname path : List ℕ) (es : List Entry)
    → kadd_rootpath k.rootpath dirname kfilename_maxsize ≡ done path
    → opendir path ≡ some es
    → AllShort es
    → HoldFiles fopen path
    → let text = (b'[' ∷ []) ++ (joined (take 6 (shown fopen path es)) ++ (b']' ∷ [])) in
      (kgetdirdata opendir fopen k dirname ≡ done (x_ok, some text, record k { kfilename = path }))
      × (length text + 1 ≤ 302)
kgetdirdata-shown opendir fopen k dirname path es p o short files =
    let same = objects-shown fopen path es files in
    let text = λ (l : List (List ℕ)). (b'[' ∷ []) ++ (joined (take 6 l) ++ (b']' ∷ [])) in
    (
      kgetdirdata_lem opendir fopen k dirname path es p o
          ∙ ap (λ l. done (x_ok, some (text l), record k { kfilename = path })) same,
      rw (← same) (length-listing fopen path es short),
    )
