-- ===== src/Crc/Tests.antt =====
-- The CRC of five bytes from the fourth on.
use slate.Base.{AllBytes, ℕ, ◌-◌, ◌^◌, ◌≡◌, refl, arith, List, [], ◌∷◌}
use slate.Crc.Bitwise.{divided, calc_crc_soft-divided}
use slate.Crc.{ok, calc_crc_soft}
use slate.Crc.Segment.{words, crc_of, calc_crc_soft_lem}

abbrev nine_bytes : List ℕ
nine_bytes = 1 ∷ 2 ∷ 3 ∷ 4 ∷ 5 ∷ 6 ∷ 7 ∷ 8 ∷ 9 ∷ []

nine_bytes-AllBytes : AllBytes nine_bytes
nine_bytes-AllBytes = omega arith

calc_crc_soft_lem_example :
    calc_crc_soft nine_bytes 4 0 ≡ ok (crc_of (2 ^ 32 - 1) (words (5 ∷ 6 ∷ 7 ∷ 8 ∷ 9 ∷ [])))
calc_crc_soft_lem_example =
    calc_crc_soft_lem nine_bytes 4 0 nine_bytes-AllBytes (omega arith) refl (omega arith)
      (omega arith)

calc_crc_soft-divided_example :
    calc_crc_soft nine_bytes 4 0 ≡ ok (divided (2 ^ 32 - 1) (words (5 ∷ 6 ∷ 7 ∷ 8 ∷ 9 ∷ [])))
calc_crc_soft-divided_example =
    calc_crc_soft-divided nine_bytes 4 0 nine_bytes-AllBytes (omega arith) refl (omega arith)
      (omega arith)
