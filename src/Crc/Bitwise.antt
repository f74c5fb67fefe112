-- ===== src/Crc/Bitwise.antt =====
-- Crc32Fast against the division by 0x04C11DB7, bit by bit.
use slate.Base.{
  ◌-◌, take, drop, length, not, ◌==◌, bit_or_bound, AllBytes, AllBytes-take, AllBytes-drop, ℕ, zero,
  suc, ◌+◌, ◌*◌, ◌/◌, ◌%◌, ◌^◌, ◌≤◌, ◌<◌, ◌≡◌, refl, sym, ap, ◌∙◌, true, false, Bool-cases, inl,
  inr, arith, bit_xor, bit_xor_swap, bit_xor_comm, bit_xor_fields, bit_xor_bound, bit_xor_double,
  split-bit_xor, leb, if◌then◌else◌, get_or, List, [], ◌∷◌,
}
use slate.Crc.{crc_table, round, rounds, crc32_fast, ok, calc_crc_soft}
use slate.Crc.Segment.{words, crc_of, calc_crc_soft_lem}
use slate.Crc.Table.{bit_step, four_bits, crc_table_lem}

bit_step_bound : (crc : ℕ) → bit_step crc < 2 ^ 32
bit_step_bound crc = elim (Bool-cases (leb (2 ^ 31) crc)) [
  | inl top ↦ rw top (bit_xor_bound 32 ((crc * 2) % 2 ^ 32) 79764919 (omega arith) (omega arith))
  | inr low ↦ rw low (omega arith)
]

-- Digits that are not shifted out are only shifted.
bit_step-bit_xor :
    (high low : ℕ)
    → high < 2 ^ 32
    → low < 2 ^ 31
    → bit_step (bit_xor high low) ≡ bit_xor (bit_step high) (low * 2)
bit_step-bit_xor high low h l = elim (Bool-cases (leb (2 ^ 31) high)) [
  | inl top ↦
      let rest = high % 2 ^ 31 in
      let parts : high ≡ 1 * 2 ^ 31 + rest = ground arith in
      let all : bit_xor high low ≡ 2 ^ 31 + bit_xor rest low =
        ap (λ x. bit_xor x low) parts ∙ bit_xor_fields 31 1 rest low (omega arith) l in
      let small = bit_xor_bound 31 rest low (omega arith) l in
      let top' : leb (2 ^ 31) (bit_xor high low) ≡ true = ground arith in
      let up : (bit_xor high low * 2) % 2 ^ 32 ≡ bit_xor rest low * 2 = omega arith in
      let up' : (high * 2) % 2 ^ 32 ≡ rest * 2 = omega arith in
      rw top' (
        rw up (
          rw top (
            rw up' (
              ap (λ x. bit_xor x 79764919) (sym (bit_xor_double rest low))
              ∙ bit_xor_swap (rest * 2) (low * 2) 79764919))))
  | inr under ↦
      let small = bit_xor_bound 31 high low (ground arith) l in
      let under' : leb (2 ^ 31) (bit_xor high low) ≡ false = ground arith in
      let up : (bit_xor high low * 2) % 2 ^ 32 ≡ bit_xor high low * 2 = omega arith in
      let up' : (high * 2) % 2 ^ 32 ≡ high * 2 = ground arith in
      rw under' (rw up (rw under (rw up' (sym (bit_xor_double high low)))))
]

four_bits-bit_xor :
    (high low : ℕ)
    → high < 2 ^ 32
    → low < 2 ^ 28
    → four_bits (bit_xor high low) ≡ bit_xor (four_bits high) (low * 16)
four_bits-bit_xor high low h l =
    let one = bit_step high in
    let two = bit_step one in
    let three = bit_step two in
    let end : low * 2 * 2 * 2 * 2 ≡ low * 16 = omega arith in
    ap (λ x. bit_step (bit_step (bit_step x))) (bit_step-bit_xor high low h (omega arith))
    ∙ ap (λ x. bit_step (bit_step x))
        (bit_step-bit_xor one (low * 2) (bit_step_bound high) (omega arith))
    ∙ ap bit_step (bit_step-bit_xor two (low * 2 * 2) (bit_step_bound one) (omega arith))
    ∙ bit_step-bit_xor three (low * 2 * 2 * 2) (bit_step_bound two) (omega arith)
    ∙ ap (bit_xor (four_bits high)) end

-- One round of Crc32Fast is four bits of the division.
round-four_bits : (crc : ℕ) → crc < 2 ^ 32 → round crc ≡ four_bits crc
unfolding round
round-four_bits crc h =
    let high = crc / 2 ^ 28 in
    let low = crc % 2 ^ 28 in
    let parts : crc ≡ bit_xor (high * 2 ^ 28) low =
      (let e : crc ≡ high * 2 ^ 28 + low = omega arith in e)
      ∙ split-bit_xor 28 high low (omega arith) in
    let shifted : (crc * 16) % 2 ^ 32 ≡ low * 16 = omega arith in
    ap (λ x. bit_xor x (get_or crc_table high 0)) shifted
    ∙ ap (bit_xor (low * 16)) (crc_table_lem high (omega arith))
    ∙ bit_xor_comm (low * 16) (four_bits (high * 2 ^ 28))
    ∙ sym (four_bits-bit_xor (high * 2 ^ 28) low (omega arith) (omega arith))
    ∙ ap four_bits (sym parts)

-- `n` bits of the division.
abbrev pub bit_steps : ℕ → ℕ → ℕ
bit_steps zero crc = crc
bit_steps (suc n) crc = bit_steps n (bit_step crc)

bit_steps_bound : (n crc : ℕ) → crc < 2 ^ 32 → bit_steps n crc < 2 ^ 32
bit_steps_bound zero crc h = h
bit_steps_bound (suc n) crc h = bit_steps_bound n (bit_step crc) (bit_step_bound crc)

rounds-bit_steps : (n crc : ℕ) → crc < 2 ^ 32 → rounds n crc ≡ bit_steps (4 * n) crc
unfolding rounds
rounds-bit_steps zero crc h = refl
rounds-bit_steps (suc n) crc h =
    let more : suc (suc (suc (suc (4 * n)))) ≡ 4 * suc n = omega arith in
    ap (rounds n) (round-four_bits crc h)
    ∙ rounds-bit_steps n (four_bits crc) (bit_step_bound (bit_step (bit_step (bit_step crc))))
    ∙ ap (λ m. bit_steps m crc) more

crc32_fast-bit_steps :
    (crc word : ℕ)
    → crc < 2 ^ 32
    → word < 2 ^ 32
    → crc32_fast crc word ≡ bit_steps 32 (bit_xor crc word)
unfolding crc32_fast
crc32_fast-bit_steps crc word h k =
    rounds-bit_steps 8 (bit_xor crc word) (bit_xor_bound 32 crc word h k)

-- The remainder that the words leave, each put in front of the next bits of the division.
abbrev pub divided : ℕ → List ℕ → ℕ
divided crc [] = crc
divided crc (w ∷ ws) = divided (bit_steps 32 (bit_xor crc w)) ws

abbrev AllWords : List ℕ → Type 0
AllWords [] = Unit
AllWords (w ∷ ws) = (w < 2 ^ 32) × AllWords ws

crc_of-divided :
    (crc : ℕ) (ws : List ℕ) → crc < 2 ^ 32 → AllWords ws → crc_of crc ws ≡ divided crc ws
crc_of-divided crc [] h a = refl
crc_of-divided crc (w ∷ ws) h (k, a) =
    ap (λ c. crc_of c ws) (crc32_fast-bit_steps crc w h k)
    ∙ crc_of-divided (bit_steps 32 (bit_xor crc w)) ws
        (bit_steps_bound 32 (bit_xor crc w) (bit_xor_bound 32 crc w h k)) a

words-AllWords : (bytes : List ℕ) → AllBytes bytes → AllWords (words bytes)
words-AllWords [] h = tt
words-AllWords (a ∷ []) (h, _) =
    (bit_or_bound 32 (a * 2 ^ 24) (2 ^ 24 - 1) (omega arith) (omega arith), tt)
words-AllWords (a ∷ b ∷ []) (h, (k, _)) =
    (bit_or_bound 32 (a * 2 ^ 16 + b * 2 ^ 24) (2 ^ 16 - 1) (omega arith) (omega arith), tt)
words-AllWords (a ∷ b ∷ c ∷ []) (h, (k, (l, _))) = (
  bit_or_bound 32 (a * 2 ^ 8 + b * 2 ^ 16 + c * 2 ^ 24) (2 ^ 8 - 1) (omega arith) (omega arith),
  tt,
)
words-AllWords (a ∷ b ∷ c ∷ d ∷ bs) (h, (k, (l, (m, rest)))) = (omega arith, words-AllWords bs rest)

-- The part of a file of less than 2 ^ 31 bytes from `start`, a multiple of four inside it, on, of `len`
-- bytes that are there, or up to the end for 0: what CRCF_calc_crc_soft computes with its table, four bits at a time, is the
-- remainder, from 0xffffffff on, of the division of the words of the part by 0x04C11DB7 bit by bit, the
-- highest bit of each word first.
pub calc_crc_soft-divided :
    (file : List ℕ) (start len : ℕ)
    → AllBytes file
    → start < length file
    → start % 4 ≡ 0
    → start + len ≤ length file
    → length file < 2 ^ 31
    → let size = if not (len == 0) then len else length file - start in
      calc_crc_soft file start len ≡ ok (divided (2 ^ 32 - 1) (words (take size (drop start file))))
calc_crc_soft-divided file start len bytes inside aligned there range =
    let size = if not (len == 0) then len else length file - start in
    let part = take size (drop start file) in
    let small =
      words-AllWords part (AllBytes-take size (drop start file) (AllBytes-drop start file bytes)) in
    calc_crc_soft_lem file start len bytes inside aligned there range
    ∙ ap ok (crc_of-divided (2 ^ 32 - 1) (words part) (omega arith) small)
