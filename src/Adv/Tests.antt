-- ===== src/Adv/Tests.antt =====
-- Reports: a flags field with the value 6 behind a name field "A".
use slate.Base.{◌≡◌, refl, inr, arith, true, some, List, [], ◌∷◌}
use slate.Adv.{eir_parse_name, named, value, fault, flags, fields_loop, read_flags}
use slate.Adv.Fields.{Field, AllFields, HasFlagByte, read_flags_lem}
use slate.Adv.NameField.{eir_parse_name_lem}
use slate.Adv.Bounds.{read_flags-malformed}

abbrev name_then_flags : List Field
name_then_flags =
    record { type = 9; payload = b'A' ∷ [] } ∷ record { type = 1; payload = 6 ∷ [] } ∷ []

name_then_flags-HasFlagByte : AllFields HasFlagByte name_then_flags
name_then_flags-HasFlagByte = (λ e. omega arith, (λ e. omega arith, tt))

read_flags_lem_example :
    read_flags true (some (2 ∷ 9 ∷ b'A' ∷ 2 ∷ 1 ∷ 6 ∷ 99 ∷ [])) 6 ≡ some (value (flags 6))
read_flags_lem_example = read_flags_lem name_then_flags (99 ∷ []) name_then_flags-HasFlagByte

read_flags-malformed_example :
    read_flags true (some (2 ∷ 9 ∷ b'A' ∷ 2 ∷ 1 ∷ 6 ∷ 200 ∷ 1 ∷ 7 ∷ [])) 8 ≡ some (value (flags 6))
read_flags-malformed_example =
    read_flags-malformed name_then_flags 200 (1 ∷ []) (7 ∷ []) name_then_flags-HasFlagByte
      (inr (omega arith))

-- A length byte that reaches one byte behind the report is followed.
one_behind : read_flags true (some (2 ∷ 1 ∷ 6 ∷ [])) 2 ≡ some (value (flags 6))
unfolding read_flags fields_loop
one_behind = refl

-- The three bytes alone: the last field's type is read behind the report.
over_read : read_flags true (some (1 ∷ 9 ∷ 1 ∷ [])) 3 ≡ some fault
unfolding read_flags fields_loop
over_read = refl

abbrev flags_then_name : List Field
flags_then_name =
    record { type = 1; payload = 6 ∷ [] } ∷ record { type = 9; payload = b'A' ∷ [] } ∷ []

eir_parse_name_lem_example :
    eir_parse_name (2 ∷ 1 ∷ 6 ∷ 2 ∷ 9 ∷ b'A' ∷ 99 ∷ []) 6 29 ≡ some (value (named (b'A' ∷ [])))
eir_parse_name_lem_example = eir_parse_name_lem flags_then_name (99 ∷ []) 29
