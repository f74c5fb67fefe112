-- ===== src/UnixIo/File/Read.antt =====
-- kopenfile and kreadfile: reading a file byte by byte through the buffer of 512.
pub mod Step
pub mod Whole
use mathlib.Core.Path.{subst}
use slate.Base.{
  take-set_behind, ℕ, zero, suc, ◌+◌, ◌-◌, ◌%◌, ◌≤◌, ◌<◌, min, ◌≡◌, ◌≢◌, ◌⊎◌, inl, inr, refl, sym,
  ap, ◌∙◌, Bool, true, false, Bool-cases, ℕ-cases, Option, none, some, List, [], ◌∷◌, ◌++◌,
  append_assoc, append-nil, arith, leb, ltb, ◌==◌, if◌then◌else◌, length, length-set, length-zero,
  length-take, length-drop, length-blit, get_or, set, take, drop, take-set, take-blit, drop-get_or,
  take-append-drop, AllBytes, AllBytes-append, AllBytes-take, AllBytes-drop, blit, ℤ, pos, negsuc,
}
use slate.UnixIo.File.{
  Done, done, overrun, crashed, KFile, text_fill, refilled, binary_fill, refill, next_byte, byte_at,
  read_at, kreadfile, and_then,
}

-- The bytes that the text mode gives for those of a file: a CR before each LF.
abbrev pub crlf : List ℕ → List ℕ
crlf [] = []
crlf (c ∷ cs) = if c == 10 then 13 ∷ 10 ∷ crlf cs else c ∷ crlf cs

-- What is read of the bytes of a file.
abbrev pub encoded : ℕ → List ℕ → List ℕ
encoded binary bytes = if binary == 0 then crlf bytes else bytes

-- The bytes in the buffer.
abbrev pub buffered : KFile → ℕ → List ℕ
buffered k p = take k.zincnt (drop p k.zinbuf)

-- An input file is open, with `p` and `rest` in its pointer and its file: the buffer has the cells of
-- `i_buf`, and the binary mode reads it whole.
pub record IsOpen (k : KFile) (p : ℕ) (rest : List ℕ) : Type 0 where
  pub pointer : k.zinptr ≡ some p
  pub file : k.ifile ≡ some rest
  pub cells : length k.zinbuf ≡ 520
  pub inside : p + k.zincnt ≤ 512
  pub mode : k.zinlen ≡ 512
  pub bytes : AllBytes (buffered k p) × AllBytes rest

-- What the calls to come give.
abbrev pub upcoming : KFile → ℕ → List ℕ → List ℕ
upcoming k p rest = buffered k p ++ encoded k.binary rest

-- What one run of the text loop leaves.
pub record Filled (rest buf : List ℕ) (cnt : ℕ) (out : List ℕ × ℕ × List ℕ) : Type 0 where
  pub text : take out.1 out.2 ++ crlf out.0 ≡ take cnt buf ++ crlf rest
  pub more : (rest ≡ []) ⊎ (cnt < out.1) ⊎ (510 ≤ cnt)
  pub room : out.1 ≤ 511
  pub grown : cnt ≤ out.1
  pub cells : length out.2 ≡ length buf
  pub bytes : AllBytes (take cnt buf) → AllBytes rest → AllBytes (take out.1 out.2) × AllBytes out.0

-- One byte of the file was put into the buffer as `enc`.
Filled-cons :
    (c : ℕ) (enc rest buf buf' : List ℕ) (cnt cnt' : ℕ) (out : List ℕ × ℕ × List ℕ)
    → take cnt' buf' ≡ take cnt buf ++ enc
    → crlf (c ∷ rest) ≡ enc ++ crlf rest
    → (c < 256 → AllBytes enc)
    → cnt < cnt'
    → length buf' ≡ length buf
    → Filled rest buf' cnt' out
    → Filled (c ∷ rest) buf cnt out
Filled-cons c enc rest buf buf' cnt cnt' out t e b h l f = record {
  text =
      f.text
      ∙ ap (λ x. x ++ crlf rest) t
      ∙ append_assoc (take cnt buf) enc (crlf rest)
      ∙ ap (λ x. take cnt buf ++ x) (sym e);
  more = let up = f.grown in inr (inl (omega arith));
  room = f.room;
  grown = let up = f.grown in omega arith;
  cells = f.cells ∙ l;
  bytes =
      λ a (i, r). f.bytes (subst AllBytes (sym t) (AllBytes-append (take cnt buf) enc a (b i))) r;
}

take-set_next :
    (xs : List ℕ) (i v : ℕ) → i < length xs → take (i + 1) (set xs i v) ≡ take i xs ++ (v ∷ [])
take-set_next xs i v h =
    let e : i + 1 ≡ suc i = omega arith in ap (λ n. take n (set xs i v)) e ∙ take-set xs i v h

take-set_two :
    (xs : List ℕ) (i v w : ℕ)
    → i + 1 < length xs
    → take (i + 2) (set (set xs i v) (i + 1) w) ≡ take i xs ++ (v ∷ w ∷ [])
take-set_two xs i v w h =
    let e : i + 2 ≡ suc (i + 1) = omega arith in
    let l = length-set xs i v in
    ap (λ n. take n (set (set xs i v) (i + 1) w)) e
    ∙ take-set (set xs i v) (i + 1) w (omega arith)
    ∙ ap (λ x. x ++ (w ∷ [])) (take-set_next xs i v (omega arith))
    ∙ append_assoc (take i xs) (v ∷ []) (w ∷ [])

pub text_fill-Filled :
    (rest : List ℕ) (cnt : ℕ) (buf : List ℕ)
    → length buf ≡ 520
    → cnt ≤ 511
    → Filled rest buf cnt (text_fill 512 rest cnt buf)
unfolding text_fill
text_fill-Filled [] cnt buf l h = record {
  text = refl;
  more = inl refl;
  room = h;
  grown = omega arith;
  cells = refl;
  bytes = λ a b. (a, b);
}
text_fill-Filled (c ∷ rest) cnt buf l h = elim (Bool-cases (ltb (cnt + 2) 512)) [
  | inr full ↦ rw full (record {
    text = refl;
    more = inr (inr (ground arith));
    room = h;
    grown = omega arith;
    cells = refl;
    bytes = λ a b. (a, b);
  })
  | inl on ↦ elim (Bool-cases (c == 10)) [
    | inl lf ↦
        let ten : c ≡ 10 = ground arith in
        let buf' = set (set buf cnt 13) (cnt + 1) c in
        let cells : length buf' ≡ length buf =
          length-set (set buf cnt 13) (cnt + 1) c ∙ length-set buf cnt 13 in
        let put = take-set_two buf cnt 13 c (ground arith) in
        rw on (
          rw lf (
            Filled-cons c (13 ∷ c ∷ []) rest buf buf' cnt (cnt + 2)
              (text_fill 512 rest (cnt + 2) buf') put
              (rw lf (ap (λ x. 13 ∷ x ∷ crlf rest) (sym ten))) (λ i. (omega arith, (i, tt)))
              (omega arith) cells
              (text_fill-Filled rest (cnt + 2) buf' (cells ∙ l) (ground arith))))
    | inr other ↦
        let buf' = set buf cnt c in
        let cells : length buf' ≡ length buf = length-set buf cnt c in
        let put = take-set_next buf cnt c (ground arith) in
        rw on (
          rw other (
            Filled-cons c (c ∷ []) rest buf buf' cnt (cnt + 1) (text_fill 512 rest (cnt + 1) buf')
              put (rw other refl) (λ i. (i, tt)) (omega arith) cells
              (text_fill-Filled rest (cnt + 1) buf' (cells ∙ l) (ground arith))))
  ]
]
