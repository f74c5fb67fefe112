-- ===== src/Crc/Stream/Tests.antt =====
-- CRCF_calc_crc on a file of nine bytes.
use slate.Base.{◌%◌, ◌/◌, ◌≡◌, refl, arith, some, [], ◌∷◌, length, negsuc}
use slate.Crc.{ok, calc_crc_soft, crc32_fast, rounds, round}
use slate.Crc.Stream.{
  Stdio, ran, success, enoent, crcf_fsize, crcf_fseek, crcf_calc_crc, stream_crc, stream_loop,
  stream_tail,
}
use slate.Crc.Stream.Regular.{Agrees, calc_crc-refines}
use slate.Crc.Stream.Delivered.{delivered, asked, sought, success-delivered}
use slate.Crc.Stream.Memory.{Open, seek, read, in_memory, laws}

abbrev nine : Open
nine = record { bytes = 1 ∷ 2 ∷ 3 ∷ 4 ∷ 5 ∷ 6 ∷ 7 ∷ 8 ∷ 9 ∷ []; offset = 3 }

calc_crc-refines_example :
    Agrees in_memory laws nine.bytes 3 9 77
      (calc_crc_soft nine.bytes 4 0)
      (crcf_calc_crc in_memory (some nine) 4 0 77)
calc_crc-refines_example =
    calc_crc-refines in_memory laws nine nine.bytes 3 4 0 77 (refl, refl) (omega arith)
      (omega arith)

abbrev at_end : Open
at_end = record { bytes = nine.bytes; offset = 9 }

-- The last five bytes.
last_five : crcf_calc_crc in_memory (some nine) 4 0 77 ≡ ran success 185063172 at_end
unfolding crcf_calc_crc stream_crc crcf_fsize crcf_fseek stream_loop stream_tail crc32_fast rounds
    round
last_five = refl

success-delivered_example :
    (calc_crc_soft
        (delivered in_memory
          (asked in_memory nine 4 0 / 4)
          (asked in_memory nine 4 0 % 4)
          (sought in_memory nine 4))
        0
        0
      ≡ ok 185063172)
    × (length (
          delivered in_memory
            (asked in_memory nine 4 0 / 4)
            (asked in_memory nine 4 0 % 4)
            (sought in_memory nine 4))
        ≡ asked in_memory nine 4 0)
success-delivered_example = success-delivered in_memory nine 4 0 77 185063172 at_end last_five

-- A file whose position cannot be told is taken for an empty one, and the CRC is left alone.
abbrev silent : Stdio Open
silent = record { ftell = λ f. negsuc 0; fseek = seek; fread = read }

no_position : crcf_calc_crc silent (some nine) 4 0 77 ≡ ran enoent 77 nine
unfolding crcf_calc_crc stream_crc crcf_fsize
no_position = refl
