-- ===== src/Adv.antt =====
-- src/main.c, the parsing of advertising reports: eir_parse_name, read_flags, check_report_filter
-- and slate_research.  A report is the memory from its first byte on and its length; a read past the
-- memory is a fault.
pub mod Fields
pub mod NameField
pub mod Bounds
mod Tests
use slate.Base.{
  ℕ, zero, suc, ◌+◌, ◌-◌, ◌/◌, ◌%◌, Bool, true, false, not, ◌&&◌, ◌||◌, Option, none, some, List,
  [], ◌∷◌, ltb, ◌==◌, if◌then◌else◌, get_elem?,
}
use text.Mathlib.Text.{◌==◌ as str_eq}
use Prim.Native.String.{String}

pub data Parsed {ℓ} (R : Type ℓ) : Type ℓ where
  value : R → Parsed R
  fault : Parsed R

-- The while loop of read_flags and of eir_parse_name: both walk over (length, type, bytes) fields.
-- `visit offset len type` is the loop's test of the type, and `none` goes on to the next field.
module _ {ℓ} {R : Type ℓ} (mem : List ℕ) (size : ℕ) (dflt : R)
    (visit : ℕ → ℕ → ℕ → Option (Parsed R)) where
  unfoldable pub fields_loop : ℕ → ℕ → Option (Parsed R)
  fields_loop zero offset = none
  fields_loop (suc fuel) offset = elim (ltb offset size) [
    | false ↦ some (value dflt)
    | true ↦ elim (get_elem? mem offset) [
      | none ↦ some fault
      | some len ↦ elim (len == 0 || ltb size (len + offset)) [
        | true ↦ some (value dflt)
        | false ↦ elim (get_elem? mem (offset + 1)) [
          | none ↦ some fault
          | some type ↦ elim (visit offset len type) [
            | some r ↦ some r
            | none ↦ fields_loop fuel (offset + (1 + len))
          ]
        ]
      ]
    ]
  ]

-- 0 with the flags, or -ENOENT, or -EINVAL
pub data Flags : Type 0 where
  flags : ℕ → Flags
  enoent einval : Flags

abbrev pub flags_ad_type : ℕ
flags_ad_type = 1

-- `*flags = data[offset + 2]`
abbrev pub flags_at : List ℕ → ℕ → Parsed Flags
flags_at mem i = elim (get_elem? mem i) [ none ↦ fault | some b ↦ value (flags b) ]

abbrev pub visit_flags : List ℕ → ℕ → ℕ → ℕ → Option (Parsed Flags)
visit_flags mem offset len type =
    if type == flags_ad_type then some (flags_at mem (offset + 2)) else none

-- `none` for the memory is a NULL pointer; so is `false` for the place of the flags.
unfoldable pub read_flags : Bool → Option (List ℕ) → ℕ → Option (Parsed Flags)
read_flags false mem size = some (value einval)
read_flags true none size = some (value einval)
read_flags true (some mem) size = fields_loop mem size enoent (visit_flags mem) (suc size) 0

-- The name in the report, or "(unknown)".
pub data Name : Type 0 where
  named : List ℕ → Name
  unknown : Name

-- memcpy of `n` bytes from index `i`
abbrev pub read_bytes : List ℕ → ℕ → ℕ → Option (List ℕ)
read_bytes mem zero i = some []
read_bytes mem (suc n) i = elim (get_elem? mem i) [
  | none ↦ none
  | some b ↦ elim (read_bytes mem n (suc i)) [ none ↦ none | some bs ↦ some (b ∷ bs) ]
]

abbrev pub name_at : List ℕ → ℕ → ℕ → Parsed Name
name_at mem n i = elim (read_bytes mem n i) [ none ↦ fault | some bs ↦ value (named bs) ]

-- EIR_NAME_SHORT and EIR_NAME_COMPLETE
abbrev pub visit_name : List ℕ → ℕ → ℕ → ℕ → ℕ → Option (Parsed Name)
visit_name mem buf_len offset field_len type =
    if type == 8 || type == 9
    then if ltb buf_len (field_len - 1)
      then some (value unknown)
      else some (name_at mem (field_len - 1) (offset + 2))
    else none

unfoldable pub eir_parse_name : List ℕ → ℕ → ℕ → Option (Parsed Name)
eir_parse_name mem eir_len buf_len =
    fields_loop mem eir_len unknown (visit_name mem buf_len) (suc eir_len) 0

-- FLAGS_LIMITED_MODE_BIT is 1 and FLAGS_GENERAL_MODE_BIT 2, so their union is the low two bits.
unfoldable pub flags_pass : ℕ → Flags → Bool
flags_pass procedure (flags f) =
    if procedure == b'l'
    then not (f % 2 == 0)
    else if procedure == b'g'
    then not (f % 4 == 0)
    else false
flags_pass procedure enoent = false
flags_pass procedure einval = false

abbrev pub passes : ℕ → Option (Parsed Flags) → Option (Parsed Bool)
passes procedure none = none
passes procedure (some fault) = some fault
passes procedure (some (value f)) = some (value (flags_pass procedure f))

unfoldable pub check_report_filter : ℕ → List ℕ → ℕ → Option (Parsed Bool)
unfolding read_flags flags_pass
check_report_filter procedure mem length =
    if procedure == 0
    then some (value true)
    else passes procedure (read_flags true (some mem) length)

-- `*out_research_success`
unfoldable pub slate_research : Option String → String → Bool
slate_research none slate_addr = false
slate_research (some addr) slate_addr = str_eq addr slate_addr
