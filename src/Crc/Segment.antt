-- ===== src/Crc/Segment.antt =====
-- The CRC of a part of a file is the CRC of its words.
use slate.Base.{
  ℕ, zero, suc, ◌+◌, ◌-◌, ◌*◌, ◌/◌, ◌%◌, ◌^◌, ◌≤◌, ◌<◌, ◌≡◌, refl, sym, ap, ◌∙◌, arith, bit_or,
  false, not, ◌||◌, List, [], ◌∷◌, ◌++◌, leb, ltb, ◌==◌, if◌then◌else◌, take, drop, length,
  length-take, length-drop, take-append-drop, AllBytes, AllBytes-take, AllBytes-drop,
}
use slate.Crc.{crc32_fast, ok, calc_tail, calc_loop, file_size-length, calc_crc_soft}

-- The bytes of a part, in words of four, little endian; the last ones stand at the high end of their
-- word, and 0xff fills its low end.
abbrev pub words : List ℕ → List ℕ
words [] = []
words (a ∷ []) = bit_or (a * 2 ^ 24) (2 ^ 24 - 1) ∷ []
words (a ∷ b ∷ []) = bit_or (a * 2 ^ 16 + b * 2 ^ 24) (2 ^ 16 - 1) ∷ []
words (a ∷ b ∷ c ∷ []) = bit_or (a * 2 ^ 8 + b * 2 ^ 16 + c * 2 ^ 24) (2 ^ 8 - 1) ∷ []
words (a ∷ b ∷ c ∷ d ∷ bs) = (a + b * 2 ^ 8 + c * 2 ^ 16 + d * 2 ^ 24) ∷ words bs

abbrev pub crc_of : ℕ → List ℕ → ℕ
crc_of crc [] = crc
crc_of crc (w ∷ ws) = crc_of (crc32_fast crc w) ws

last_one : (a cache : ℕ) → a < 256 → ((a + 256 * (cache / 256)) * 2 ^ 24) % 2 ^ 32 ≡ a * 2 ^ 24
last_one a cache h = omega arith

last_two :
    (a b cache : ℕ)
    → a < 256
    → b < 256
    → ((a + 256 * (b + 256 * (cache / 256 / 256))) * 2 ^ 16) % 2 ^ 32 ≡ a * 2 ^ 16 + b * 2 ^ 24
last_two a b cache h k = omega arith

last_three :
    (a b c cache : ℕ)
    → a < 256
    → b < 256
    → c < 256
    → ((a + 256 * (b + 256 * (c + 256 * (cache / 256 / 256 / 256)))) * 2 ^ 8) % 2 ^ 32
      ≡ a * 2 ^ 8 + b * 2 ^ 16 + c * 2 ^ 24
last_three a b c cache h k l = omega arith

tail-words :
    (part after : List ℕ) (cache crc : ℕ)
    → length part < 4
    → AllBytes part
    → calc_tail (length part) (part ++ after) cache crc ≡ ok (crc_of crc (words part))
unfolding calc_tail
tail-words [] after cache crc h b = refl
tail-words (x ∷ []) after cache crc h (b, _) = rw (last_one x cache b) refl
tail-words (x ∷ y ∷ []) after cache crc h (b, (c, _)) = rw (last_two x y cache b c) refl
tail-words (x ∷ y ∷ z ∷ []) after cache crc h (b, (c, (d, _))) =
    rw (last_three x y z cache b c d) refl
tail-words (x ∷ y ∷ z ∷ w ∷ part) after cache crc h b = absurd (omega arith)

loop-words :
    (n r : ℕ) (part after : List ℕ) (cache crc : ℕ)
    → cache < 2 ^ 32
    → length part ≡ 4 * n + r
    → r < 4
    → AllBytes part
    → calc_loop n r (part ++ after) cache crc ≡ ok (crc_of crc (words part))
unfolding calc_loop
loop-words zero r part after cache crc l e h b =
    let same : r ≡ length part = omega arith in
    rw same (tail-words part after cache crc (omega arith) b)
loop-words (suc n) r [] after cache crc l e h b = absurd (omega arith)
loop-words (suc n) r (x ∷ []) after cache crc l e h b = absurd (omega arith)
loop-words (suc n) r (x ∷ y ∷ []) after cache crc l e h b = absurd (omega arith)
loop-words (suc n) r (x ∷ y ∷ z ∷ []) after cache crc l e h b = absurd (omega arith)
loop-words (suc n) r (x ∷ y ∷ z ∷ w ∷ part) after cache crc l e h (i, (j, (k, (m, b)))) =
    let word : x + 256 * (y + 256 * (z + 256 * (w + 256 * (cache / 256 / 256 / 256 / 256))))
        ≡ x + y * 2 ^ 8 + z * 2 ^ 16 + w * 2 ^ 24 =
      omega arith in
    rw word (
      loop-words n r part after (x + y * 2 ^ 8 + z * 2 ^ 16 + w * 2 ^ 24)
        (crc32_fast crc (x + y * 2 ^ 8 + z * 2 ^ 16 + w * 2 ^ 24)) (omega arith) (omega arith) h b)

-- The part of a file from `start`, a multiple of four inside it, on, of `len` bytes that are there, or
-- up to the end for 0, the file of less than 2 ^ 31 bytes: CRCF_calc_crc_soft returns 0 and the CRC, from 0xffffffff on, of its words.
pub calc_crc_soft_lem :
    (file : List ℕ) (start len : ℕ)
    → AllBytes file
    → start < length file
    → start % 4 ≡ 0
    → start + len ≤ length file
    → length file < 2 ^ 31
    → let size = if not (len == 0) then len else length file - start in
      calc_crc_soft file start len ≡ ok (crc_of (2 ^ 32 - 1) (words (take size (drop start file))))
unfolding calc_crc_soft
calc_crc_soft_lem file start len bytes inside aligned there small =
    let size = if not (len == 0) then len else length file - start in
    let rest = drop start file in
    let part = take size rest in
    let fits : size ≤ length file - start = ground arith in
    let bytes' = AllBytes-take size rest (AllBytes-drop start file bytes) in
    let full : length part ≡ size = omega (arith, length-take size rest, length-drop start file) in
    let run =
      loop-words (size / 4) (size % 4) part (drop size rest) 0 (2 ^ 32 - 1) (omega arith)
        (omega arith) (omega arith) bytes' in
    let some_bytes : (length file == 0) ≡ false = ground arith in
    let allowed : (leb (length file) start || (ltb (length file) len || not (start % 4 == 0)))
        ≡ false =
      ground arith in
    let opened : calc_crc_soft file start len
        ≡ calc_loop (size / 4) (size % 4) rest 0 (2 ^ 32 - 1) =
      rw (file_size-length file (omega arith)) (rw some_bytes (rw allowed refl)) in
    opened
    ∙ ap (λ l. calc_loop (size / 4) (size % 4) l 0 (2 ^ 32 - 1)) (sym (take-append-drop size rest))
    ∙ run
