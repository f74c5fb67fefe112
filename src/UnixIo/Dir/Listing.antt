-- ===== src/UnixIo/Dir/Listing.antt =====
-- What kgetdirdata writes.
use slate.Base.{
  ℕ, zero, suc, ◌+◌, ◌*◌, ◌≤◌, ◌≡◌, refl, sym, ap, ◌∙◌, true, false, not, Bool-cases, Option-cases,
  ℕ-cases, inl, inr, Option, none, some, List, [], ◌∷◌, ◌++◌, append-nil, append_assoc, arith, ◌==◌,
  if◌then◌else◌, length, length-append, take,
}
use slate.UnixIo.Packet.{x_ok}
use slate.UnixIo.File.{done, KFile, kadd_rootpath, kfilename_maxsize, with_path}
use slate.UnixIo.Dir.{
  Entry, codes, k_dir_max, dir_object, hex08, entry_etag, dir_loop, listed, kgetdirdata,
}

-- The files to be listed, each with its object.
module _ (fopen : List ℕ → Option (List ℕ)) (path : List ℕ) where
  abbrev pub objects : List Entry → List (List ℕ)
  objects [] = []
  objects (e ∷ es) = elim (entry_etag fopen path e) [
    | none ↦ objects es
    | some etag ↦ dir_object e.d_name etag ∷ objects es
  ]

-- The texts, each behind a comma.
abbrev pub behind_commas : List (List ℕ) → List ℕ
behind_commas [] = []
behind_commas (x ∷ xs) = codes "," ++ (x ++ behind_commas xs)

-- The texts, with commas between them.
abbrev pub joined : List (List ℕ) → List ℕ
joined [] = []
joined (x ∷ xs) = x ++ behind_commas xs

-- The rest of the text, with `cnt` objects written.
abbrev pub following : ℕ → List (List ℕ) → List ℕ
following cnt xs = if cnt == 0 then joined xs else behind_commas xs

abbrev comma : ℕ → List ℕ
comma cnt = if not (cnt == 0) then codes "," else []

following-cons :
    (cnt : ℕ) (x : List ℕ) (xs : List (List ℕ))
    → (comma cnt ++ x) ++ behind_commas xs ≡ following cnt (x ∷ xs)
following-cons cnt x xs = elim (Bool-cases (cnt == 0)) [ inl e ↦ rw e refl | inr e ↦ rw e refl ]

following-nil : (cnt n : ℕ) → [] ≡ following cnt (take n [])
following-nil cnt zero = elim (Bool-cases (cnt == 0)) [ inl e ↦ rw e refl | inr e ↦ rw e refl ]
following-nil cnt (suc n) = elim (Bool-cases (cnt == 0)) [ inl e ↦ rw e refl | inr e ↦ rw e refl ]

module _ (fopen : List ℕ → Option (List ℕ)) (path : List ℕ) where
  -- The loop from the `cnt`-th object on, for at most `left` more.
  dir_loop-objects :
      (es : List Entry) (cnt left : ℕ) (pdf : List ℕ)
      → cnt + suc left ≡ 6
      → dir_loop fopen path es cnt pdf
        ≡ pdf ++ following cnt (take (suc left) (objects fopen path es))
  unfolding dir_loop
  dir_loop-objects [] cnt left pdf h =
      sym (append-nil pdf) ∙ ap (λ l. pdf ++ l) (following-nil cnt (suc left))
  dir_loop-objects (e ∷ es) cnt left pdf h = elim (Option-cases (entry_etag fopen path e)) [
    | inl skip ↦ rw (skip, dir_loop, objects) (dir_loop-objects es cnt left pdf h)
    | inr (etag, one) ↦
        let x = dir_object e.d_name etag in
        let xs = objects fopen path es in
        let pdf' = pdf ++ (comma cnt ++ x) in
        let placed : (ys : List (List ℕ))
            → pdf' ++ behind_commas ys ≡ pdf ++ following cnt (x ∷ ys) =
          λ ys.
            append_assoc pdf (comma cnt ++ x) (behind_commas ys)
            ∙ ap (λ l. pdf ++ l) (following-cons cnt x ys) in
        rw (one, dir_loop, objects)
          (elim (ℕ-cases left) [
            | inl z ↦
                let stop : (cnt + 1 == k_dir_max) ≡ true = ground arith in
                rw stop (rw z (sym (append-nil pdf') ∙ placed []))
            | inr (m, s) ↦
                let on : (cnt + 1 == k_dir_max) ≡ false = ground arith in
                let later : (cnt + 1 == 0) ≡ false = ground arith in
                rw on (
                  dir_loop-objects es (cnt + 1) m pdf' (omega arith)
                  ∙ rw later
                      (ap (λ n. pdf' ++ behind_commas (take n xs)) (sym s) ∙ placed (take left xs)))
          ])
  ]

-- The text of a listing.
abbrev pub listing : (List ℕ → Option (List ℕ)) → List ℕ → List Entry → List ℕ
listing fopen path es = codes "[" ++ (joined (take k_dir_max (objects fopen path es)) ++ codes "]")

-- When the path fits and the directory opens, kgetdirdata returns X_OK and writes the objects of the
-- first six of the regular files and links that can be opened and whose CRC can be computed, or is
-- replaced by 0 for a name with a dot in front, each with its name and its CRC in eight digits.
pub kgetdirdata_lem :
    (opendir : List ℕ → Option (List Entry)) (fopen : List ℕ → Option (List ℕ)) (k : KFile)
    (dirname path : List ℕ) (es : List Entry)
    → kadd_rootpath k.rootpath dirname kfilename_maxsize ≡ done path
    → opendir path ≡ some es
    → kgetdirdata opendir fopen k dirname
      ≡ done (x_ok, some (listing fopen path es), record k { kfilename = path })
unfolding kgetdirdata
kgetdirdata_lem opendir fopen k dirname path es p o =
    let text : dir_loop fopen path es 0 (codes "[") ++ codes "]" ≡ listing fopen path es =
      ap (λ l. l ++ codes "]") (dir_loop-objects fopen path es 0 5 (codes "[") (omega arith))
      ∙ append_assoc (codes "[") (joined (take 6 (objects fopen path es))) (codes "]") in
    let k' = record k { kfilename = path } in
    rw (p, with_path)
      (ap (λ d. done (listed fopen k' d)) o ∙ ap (λ t. done (x_ok, some t, k')) text)

abbrev pub k_dir_len : ℕ
k_dir_len = 2 + 6 * 50

-- No name is longer than 16 bytes.
abbrev pub AllShort : List Entry → Type 0
AllShort [] = Unit
AllShort (e ∷ es) = (length e.d_name ≤ 16) × AllShort es

abbrev AllSmall : List (List ℕ) → Type 0
AllSmall [] = Unit
AllSmall (x ∷ xs) = (length x ≤ 49) × AllSmall xs

length-dir_object :
    (d_name : List ℕ) (etag : ℕ) → length (dir_object d_name etag) ≡ length d_name + 33
length-dir_object d_name etag =
    omega (arith, length-append d_name (codes "\",\"etag\":\"" ++ (hex08 etag ++ codes "\"}")))

objects-AllSmall :
    (fopen : List ℕ → Option (List ℕ)) (path : List ℕ) (es : List Entry)
    → AllShort es
    → AllSmall (objects fopen path es)
objects-AllSmall fopen path [] a = tt
objects-AllSmall fopen path (e ∷ es) (h, a) = elim (Option-cases (entry_etag fopen path e)) [
  | inl skip ↦ rw (skip, objects) (objects-AllSmall fopen path es a)
  | inr (etag, one) ↦
      rw (one, objects)
        (omega (arith, length-dir_object e.d_name etag), objects-AllSmall fopen path es a)
]

length-behind_commas :
    (n : ℕ) (xs : List (List ℕ)) → AllSmall xs → length (behind_commas (take n xs)) ≤ 50 * n
length-behind_commas zero xs a = omega arith
length-behind_commas (suc n) [] a = omega arith
length-behind_commas (suc n) (x ∷ xs) (h, a) =
    omega (arith, length-append x (behind_commas (take n xs)), length-behind_commas n xs a)

length-joined :
    (n : ℕ) (xs : List (List ℕ)) → AllSmall xs → length (joined (take (suc n) xs)) ≤ 50 * n + 49
length-joined n [] a = omega arith
length-joined n (x ∷ xs) (h, a) =
    omega (arith, length-append x (behind_commas (take n xs)), length-behind_commas n xs a)

pub length-listing :
    (fopen : List ℕ → Option (List ℕ)) (path : List ℕ) (es : List Entry)
    → AllShort es
    → length (listing fopen path es) + 1 ≤ k_dir_len
length-listing fopen path es a =
    let xs = objects fopen path es in
    omega (
      arith,
      length-joined 5 xs (objects-AllSmall fopen path es a),
      length-append (joined (take 6 xs)) (codes "]"),
    )

-- When no name in the directory is longer than 16 bytes, the listing with its NUL fits into the
-- K_DIR_LEN bytes that E-Kermit keeps of it.
pub listing_fits :
    (opendir : List ℕ → Option (List Entry)) (fopen : List ℕ → Option (List ℕ)) (k : KFile)
    (dirname path : List ℕ) (es : List Entry)
    → kadd_rootpath k.rootpath dirname kfilename_maxsize ≡ done path
    → opendir path ≡ some es
    → AllShort es
    → (text : List ℕ) × (k' : KFile) × (kgetdirdata opendir fopen k dirname
        ≡ done (x_ok, some text, k'))
      × (length text + 1 ≤ k_dir_len)
listing_fits opendir fopen k dirname path es p o a = (
  listing fopen path es,
  record k { kfilename = path },
  kgetdirdata_lem opendir fopen k dirname path es p o,
  length-listing fopen path es a,
)
