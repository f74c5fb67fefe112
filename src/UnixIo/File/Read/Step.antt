-- ===== src/UnixIo/File/Read/Step.antt =====
-- One call of kreadfile.
use mathlib.Core.Path.{subst}
use slate.Base.{
  take-set_behind, ℕ, zero, suc, ◌+◌, ◌-◌, ◌%◌, ◌≤◌, min, ◌≡◌, inl, inr, refl, sym, ap, ◌∙◌, true,
  false, Bool-cases, ℕ-cases, some, List, [], ◌∷◌, ◌++◌, arith, ltb, ◌==◌, length, length-set,
  length-zero, length-take, length-blit, get_or, set, take, drop, take-blit, drop-get_or,
  take-append-drop, AllBytes, AllBytes-take, AllBytes-drop, blit, ℤ, pos, negsuc,
}
use slate.UnixIo.File.{
  Done, done, KFile, text_fill, refilled, binary_fill, refill, next_byte, byte_at, read_at,
  kreadfile, and_then,
}
use slate.UnixIo.File.Read.{crlf, encoded, buffered, IsOpen, upcoming, text_fill-Filled}

-- What one call of kreadfile does: the end of the file, or the next byte.
pub data Stepped (all : List ℕ) : Done (ℤ × KFile) → Type 0 where
  end : (k : KFile) → all ≡ [] → Stepped all (done (negsuc 0, k))
  byte :
      (k : KFile) (p : ℕ) (rest : List ℕ) (x : ℕ) (xs : List ℕ)
      → all ≡ x ∷ xs
      → IsOpen k p rest
      → upcoming k p rest ≡ xs
      → Stepped all (done (pos x, k))

byte_at-Stepped :
    (k : KFile) (p n : ℕ) (rest all : List ℕ)
    → IsOpen k p rest
    → k.zincnt ≡ suc n
    → upcoming k p rest ≡ all
    → Stepped all (byte_at k k.zinptr)
byte_at-Stepped k p n rest all o e u =
    let x = get_or k.zinbuf p 0 in
    let left = take n (drop (suc p) k.zinbuf) in
    let k' = record k { zincnt = k.zincnt - 1; zinptr = some (p + 1) } in
    let first : buffered k p ≡ x ∷ left =
      ap (λ m. take m (drop p k.zinbuf)) e
      ∙ ap (take (suc n))
          (drop-get_or k.zinbuf p 0 (let i = o.inside in let c = o.cells in omega arith)) in
    let fine : AllBytes (x ∷ left) = subst AllBytes first o.bytes.0 in
    let count : k.zincnt - 1 ≡ n = omega arith in
    let on : p + 1 ≡ suc p = omega arith in
    let after : buffered k' (p + 1) ≡ left =
      ap (λ m. take m (drop (p + 1) k.zinbuf)) count ∙ ap (λ i. take n (drop i k.zinbuf)) on in
    let small : x % 256 ≡ x = let h = fine.0 in omega arith in
    let run : byte_at k k.zinptr ≡ done (pos x, k') =
      ap (byte_at k) o.pointer ∙ ap (λ v. done (pos v, k')) small in
    subst (Stepped all) (sym run) (
      byte k' (p + 1) rest x (left ++ encoded k.binary rest)
        (sym u ∙ ap (λ l. l ++ encoded k.binary rest) first)
        (record {
          pointer = refl;
          file = o.file;
          cells = o.cells;
          inside = let i = o.inside in omega arith;
          mode = o.mode;
          bytes = (subst AllBytes (sym after) fine.1, o.bytes.1);
        })
        (ap (λ l. l ++ encoded k.binary rest) after))

-- After the refill; `cnt` bytes stand at the front of `buf`, and `rest` is left of the file.
refilled-Stepped :
    (k : KFile) (rest : List ℕ) (cnt : ℕ) (buf all : List ℕ)
    → take cnt buf ++ encoded k.binary rest ≡ all
    → (cnt ≡ 0 → all ≡ [])
    → length buf ≡ 520
    → cnt ≤ 512
    → k.zinlen ≡ 512
    → AllBytes (take cnt buf) × AllBytes rest
    → Stepped all (next_byte (refilled k (rest, cnt, buf)))
refilled-Stepped k rest zero buf all t z l h m b =
    end (record k { ifile = some rest; zincnt = 0; zinbuf = set buf 0 0 }) (z refl)
refilled-Stepped k rest (suc n) buf all t z l h m b =
    let more : (suc n == 0) ≡ false = ground arith in
    let buf' = set buf (suc n) 0 in
    let k' = record k { ifile = some rest; zincnt = suc n; zinbuf = buf'; zinptr = some 0 } in
    let same : take (suc n) buf' ≡ take (suc n) buf =
      take-set_behind (suc n) (suc n) 0 buf (omega arith) in
    rw more (
      byte_at-Stepped k' 0 n rest all
        (record {
          pointer = refl;
          file = refl;
          cells = length-set buf (suc n) 0 ∙ l;
          inside = omega arith;
          mode = m;
          bytes = (subst AllBytes (sym same) b.0, b.1);
        })
        refl (ap (λ x. x ++ encoded k.binary rest) same ∙ t))

text-Stepped :
    (k : KFile) (p : ℕ) (rest : List ℕ)
    → IsOpen k p rest
    → (k.binary == 0) ≡ true
    → Stepped (encoded k.binary rest) (next_byte (refilled k (text_fill 512 rest 0 k.zinbuf)))
text-Stepped k p rest o t =
    let f = text_fill-Filled rest 0 k.zinbuf o.cells (omega arith) in
    let out = text_fill 512 rest 0 k.zinbuf in
    let up = f.room in
    let text : (bs : List ℕ) → encoded k.binary bs ≡ crlf bs = λ bs. rw t refl in
    refilled-Stepped k out.0 out.1 out.2 (encoded k.binary rest)
      (ap (λ l. take out.1 out.2 ++ l) (text out.0) ∙ f.text ∙ sym (text rest))
      (λ z. elim f.more [
        | inl none_left ↦ text rest ∙ ap crlf none_left
        | inr (inl grown) ↦ absurd (omega arith)
        | inr (inr full) ↦ absurd (omega arith)
      ])
      (f.cells ∙ o.cells) (omega arith) o.mode (f.bytes tt o.bytes.1)

binary-Stepped :
    (k : KFile) (p : ℕ) (rest : List ℕ)
    → IsOpen k p rest
    → (k.binary == 0) ≡ false
    → Stepped (encoded k.binary rest) (next_byte (binary_fill (record k { dummy = 0 }) rest))
binary-Stepped k p rest o b = elim (Bool-cases (length rest == 0)) [
  | inl e ↦
      let nothing : rest ≡ [] = length-zero rest (ground arith) in
      rw e (
        end (record k { dummy = 0; zincnt = 0; ifile = some rest })
          (ap (encoded k.binary) nothing ∙ rw b refl))
  | inr e ↦
      let k0 = record k { dummy = 0 } in
      let part = take k.zinlen rest in
      let left = drop k.zinlen rest in
      let raw : (bs : List ℕ) → encoded k.binary bs ≡ bs = λ bs. rw b refl in
      let mode = o.mode in
      let size : length part ≡ min k.zinlen (length rest) = length-take k.zinlen rest in
      let cells = o.cells in
      let front = take-blit k.zinbuf part (omega arith) in
      rw e (
        refilled-Stepped k0 left (length part) (blit k.zinbuf 0 part) (encoded k.binary rest)
          (ap (λ l. take (length part) (blit k.zinbuf 0 part) ++ l) (raw left)
            ∙ ap (λ l. l ++ left) front
            ∙ take-append-drop k.zinlen rest
            ∙ sym (raw rest))
          (λ z. absurd (ground arith)) (length-blit k.zinbuf 0 part ∙ cells) (omega arith) mode
          (
            subst AllBytes (sym front) (AllBytes-take k.zinlen rest o.bytes.1),
            AllBytes-drop k.zinlen rest o.bytes.1,
          ))
]

-- kreadfile on an open file returns -1 when nothing is left, and else the next byte.
pub kreadfile-Stepped :
    (k : KFile) (p : ℕ) (rest : List ℕ)
    → IsOpen k p rest
    → Stepped (upcoming k p rest) (kreadfile k)
unfolding kreadfile
kreadfile-Stepped k p rest o = elim (ℕ-cases k.zincnt) [
  | inr (n, e) ↦
      let some_left : ltb k.zincnt 1 ≡ false = ground arith in
      let run : kreadfile k ≡ byte_at k k.zinptr = ap (read_at k) o.pointer ∙ rw some_left refl in
      subst (Stepped (upcoming k p rest)) (sym run)
        (byte_at-Stepped k p n rest (upcoming k p rest) o e refl)
  | inl e ↦
      let none_left : ltb k.zincnt 1 ≡ true = ground arith in
      let run : kreadfile k ≡ and_then (refill k (some rest)) next_byte =
        ap (read_at k) o.pointer
        ∙ rw none_left (ap (λ f. and_then (refill k f) next_byte) o.file) in
      let bare : encoded k.binary rest ≡ upcoming k p rest =
        sym (ap (λ n. take n (drop p k.zinbuf) ++ encoded k.binary rest) e) in
      subst (Stepped (upcoming k p rest)) (sym run) (
        subst (λ all. Stepped all (and_then (refill k (some rest)) next_byte)) bare
          (elim (Bool-cases (k.binary == 0)) [
            | inl t ↦
                let filled : and_then (refill k (some rest)) next_byte
                    ≡ next_byte (refilled k (text_fill 512 rest 0 k.zinbuf)) =
                  rw t (ap (λ z. next_byte (refilled k (text_fill z rest 0 k.zinbuf))) o.mode) in
                subst (Stepped (encoded k.binary rest)) (sym filled) (text-Stepped k p rest o t)
            | inr b ↦
                let size : (k.zinlen == 512) ≡ true = ap (λ z. z == 512) o.mode in
                let filled : and_then (refill k (some rest)) next_byte
                    ≡ next_byte (binary_fill (record k { dummy = 0 }) rest) =
                  rw b (rw size refl) in
                subst (Stepped (encoded k.binary rest)) (sym filled) (binary-Stepped k p rest o b)
          ]))
]
