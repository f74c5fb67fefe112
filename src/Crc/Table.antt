-- ===== src/Crc/Table.antt =====
-- The table of Crc32Fast against the polynomial division that it stands for.
use slate.Base.{
  ℕ, zero, suc, ◌+◌, ◌*◌, ◌%◌, ◌^◌, ◌<◌, ◌≡◌, ◌∙◌, ap, refl, arith, bit_xor, leb, if◌then◌else◌,
  get_or, List, [], ◌∷◌,
}
use slate.Crc.{crc_table}

-- One bit of the division by 0x04C11DB7, the most significant first.
abbrev pub bit_step : ℕ → ℕ
bit_step crc =
    if leb (2 ^ 31) crc then bit_xor ((crc * 2) % 2 ^ 32) 79764919 else (crc * 2) % 2 ^ 32

abbrev pub four_bits : ℕ → ℕ
four_bits crc = bit_step (bit_step (bit_step (bit_step crc)))

-- What is left of the nibbles from `i` on.
abbrev table_from : ℕ → ℕ → List ℕ
table_from zero i = []
table_from (suc n) i = four_bits (i * 2 ^ 28) ∷ table_from n (suc i)

crc_table-table_from : crc_table ≡ table_from 16 0
crc_table-table_from = refl

get_or-table_from : (n i k : ℕ) → k < n → get_or (table_from n i) k 0 ≡ four_bits ((i + k) * 2 ^ 28)
get_or-table_from zero i k h = absurd (omega arith)
get_or-table_from (suc n) i zero h =
    let same : i ≡ i + 0 = omega arith in ap (λ j. four_bits (j * 2 ^ 28)) same
get_or-table_from (suc n) i (suc k) h =
    let same : suc i + k ≡ i + suc k = omega arith in
    get_or-table_from n (suc i) k (omega arith) ∙ ap (λ j. four_bits (j * 2 ^ 28)) same

-- The entry of each nibble is what four bits of the division by 0x04C11DB7 leave of it.
pub crc_table_lem :
    (nibble : ℕ) → nibble < 16 → get_or crc_table nibble 0 ≡ four_bits (nibble * 2 ^ 28)
crc_table_lem nibble h =
    let same : 0 + nibble ≡ nibble = omega arith in
    ap (λ t. get_or t nibble 0) crc_table-table_from
    ∙ get_or-table_from 16 0 nibble h
    ∙ ap (λ j. four_bits (j * 2 ^ 28)) same
