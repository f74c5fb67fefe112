-- ===== src/Adv/Fields.antt =====
-- The parsers on a well formed report: a sequence of fields, each its length, its type, its bytes.
use slate.Base.{
  ℕ, zero, suc, ◌+◌, ◌≤◌, ◌<◌, ◌≡◌, refl, sym, ap, ◌∙◌, true, false, ◌||◌, Bool-cases, inl, inr,
  Option-cases, ◌⊎◌, Option, none, some, List, [], ◌∷◌, ◌++◌, append_assoc, arith, ltb, ◌==◌,
  if◌then◌else◌, length, length-append, get_elem?,
}
use slate.Adv.{
  Parsed, value, fields_loop, Flags, flags, enoent, flags_ad_type, flags_at, visit_flags,
  read_flags,
}

pub record Field : Type 0 where
  pub type : ℕ
  pub payload : List ℕ

abbrev pub encode_field : Field → List ℕ
encode_field f = suc (length f.payload) ∷ f.type ∷ f.payload

abbrev pub encode : List Field → List ℕ
encode [] = []
encode (f ∷ fs) = encode_field f ++ encode fs

pub get_elem?-append :
    (xs ys : List ℕ) (i n : ℕ) → n ≡ length xs + i → get_elem? (xs ++ ys) n ≡ get_elem? ys i
get_elem?-append [] ys i n h = let e : n ≡ i = omega arith in rw e
get_elem?-append (x ∷ xs) ys i zero h = absurd (omega arith)
get_elem?-append (x ∷ xs) ys i (suc n) h = get_elem?-append xs ys i n (omega arith)

-- Every field satisfies `P`.
abbrev pub AllFields : (Field → Type 0) → List Field → Type 0
AllFields P [] = Unit
AllFields P (f ∷ fs) = P f × AllFields P fs

module _ {ℓ} {R : Type ℓ} (Sane : Field → Type 0) (dflt : R) (want : Field → Option R) where
  -- What is looked for: the first field that gives something.
  abbrev pub find : List Field → R
  find [] = dflt
  find (f ∷ fs) = elim (want f) [ none ↦ find fs | some r ↦ r ]

  module _ (mem : List ℕ) (size : ℕ) (visit : ℕ → ℕ → ℕ → Option (Parsed R)) where
    -- `visit` reads the field that stands at an offset.
    abbrev pub Visits : Type ℓ
    Visits =
        (before : List ℕ) (f : Field) (rest : List ℕ)
        → Sane f
        → before ++ (encode_field f ++ rest) ≡ mem
        → visit (length before) (suc (length f.payload)) f.type
          ≡ elim (want f) [ none ↦ none | some r ↦ some (value r) ]

    -- One round on a field that fits.
    fields_loop-field :
        (before rest : List ℕ) (f : Field) (fuel : ℕ)
        → before ++ (encode_field f ++ rest) ≡ mem
        → length before + length (encode_field f) ≤ size
        → fields_loop mem size dflt visit (suc fuel) (length before)
          ≡ elim (visit (length before) (suc (length f.payload)) f.type) [
            | some r ↦ some r
            | none ↦
                fields_loop mem size dflt visit fuel (length before + (1 + suc (length f.payload)))
          ]
    unfolding fields_loop
    fields_loop-field before rest f fuel m s =
        let inside : ltb (length before) size ≡ true = ground arith in
        let len : get_elem? mem (length before) ≡ some (suc (length f.payload)) =
          rw (← m)
            (get_elem?-append before (encode_field f ++ rest) 0 (length before) (omega arith)) in
        let fits : (suc (length f.payload) == 0
              || ltb size (suc (length f.payload) + length before))
            ≡ false =
          ground arith in
        let type : get_elem? mem (length before + 1) ≡ some f.type =
          rw (← m) (
            get_elem?-append before (encode_field f ++ rest) 1 (length before + 1) (omega arith)) in
        rw (inside, fields_loop) (rw len (rw fits (rw type)))

    -- The walk over fields that end at `end`, where it stops.
    pub fields_loop-find :
        (fs : List Field) (before tail : List ℕ) (end fuel : ℕ)
        → Visits
        → AllFields Sane fs
        → before ++ (encode fs ++ tail) ≡ mem
        → length before + length (encode fs) ≡ end
        → end ≤ size
        → ((left : ℕ) → fields_loop mem size dflt visit (suc left) end ≡ some (value dflt))
        → length fs < fuel
        → fields_loop mem size dflt visit fuel (length before) ≡ some (value (find fs))
    fields_loop-find fs before tail end zero v a m s i stop h = absurd (omega arith)
    fields_loop-find [] before tail end (suc fuel) v a m s i stop h =
        let e : length before ≡ end = omega arith in
        ap (fields_loop mem size dflt visit (suc fuel)) e ∙ stop fuel
    fields_loop-find (f ∷ fs) before tail end (suc fuel) v (a, as') m s i stop h =
        let split : before ++ (encode_field f ++ (encode fs ++ tail)) ≡ mem =
          ap (λ l. before ++ l) (sym (append_assoc (encode_field f) (encode fs) tail)) ∙ m in
        let whole = length-append (encode_field f) (encode fs) in
        let next = before ++ encode_field f in
        let moved : length next ≡ length before + (1 + suc (length f.payload)) =
          omega (arith, length-append before (encode_field f)) in
        let later =
          fields_loop-find fs next tail end fuel v as'
            (append_assoc before (encode_field f) (encode fs ++ tail) ∙ split) (omega arith) i stop
            (omega arith) in
        fields_loop-field before (encode fs ++ tail) f fuel split (omega arith)
        ∙ rw (v before f (encode fs ++ tail) a split) (elim (Option-cases (want f)) [
          | inl e ↦ rw (e, find) (ap (fields_loop mem size dflt visit fuel) (sym moved) ∙ later)
          | inr (r, e) ↦ rw (e, find) refl
        ])

    -- The walk stops at the end of the report.
    pub stops_at_size :
        (left : ℕ) → fields_loop mem size dflt visit (suc left) size ≡ some (value dflt)
    unfolding fields_loop
    stops_at_size left = let e : ltb size size ≡ false = ground arith in rw (e, fields_loop)

    -- It stops at a field without bytes, and at one that ends more than one byte behind the report.
    pub stops_at_bad :
        (left offset l : ℕ)
        → offset < size
        → get_elem? mem offset ≡ some l
        → (l ≡ 0) ⊎ (size < l + offset)
        → fields_loop mem size dflt visit (suc left) offset ≡ some (value dflt)
    unfolding fields_loop
    stops_at_bad left offset l inside at_l bad =
        let e : ltb offset size ≡ true = ground arith in
        let b : (l == 0 || ltb size (l + offset)) ≡ true = ground arith in
        rw (e, fields_loop) (rw at_l (rw b refl))

-- The first byte of the first field of type 1.
abbrev pub flag_byte : List ℕ → Option Flags
flag_byte [] = none
flag_byte (b ∷ _) = some (flags b)

abbrev pub want_flags : Field → Option Flags
want_flags f = if f.type == flags_ad_type then flag_byte f.payload else none

-- A flags field has a byte.
abbrev pub HasFlagByte : Field → Type 0
HasFlagByte f = f.type ≡ flags_ad_type → 0 < length f.payload

-- The byte at offset + 2 is the first of the field's.
flags_at-first :
    (before : List ℕ) (l t : ℕ) (payload rest : List ℕ)
    → 0 < length payload
    → some (flags_at (before ++ ((l ∷ t ∷ payload) ++ rest)) (length before + 2))
      ≡ elim (flag_byte payload) [ none ↦ none | some r ↦ some (value r) ]
flags_at-first before l t [] rest h = absurd (omega arith)
flags_at-first before l t (b ∷ bs) rest h =
    rw
      (
        get_elem?-append before ((l ∷ t ∷ (b ∷ bs)) ++ rest) 2 (length before + 2) (omega arith),
        flags_at,
      )
      refl

pub visit_flags-Visits :
    (mem : List ℕ) (size : ℕ) → Visits HasFlagByte enoent want_flags mem size (visit_flags mem)
visit_flags-Visits mem size before f rest sane m = elim (Bool-cases (f.type == flags_ad_type)) [
  | inr e ↦ rw e refl
  | inl e ↦
      rw (e, ← m)
        (flags_at-first before (suc (length f.payload)) f.type f.payload rest (sane (ground arith)))
]

pub length-encode : (fs : List Field) → length fs ≤ length (encode fs)
length-encode [] = omega arith
length-encode (f ∷ fs) =
    let rest = length-encode fs in
    let whole = length-append (encode_field f) (encode fs) in omega arith

-- On a report that is a sequence of fields, whose flags fields have a byte, read_flags returns the
-- first byte of the first field of type 1, and -ENOENT if there is none, whatever memory follows.
pub read_flags_lem :
    (fs : List Field) (tail : List ℕ)
    → AllFields HasFlagByte fs
    → read_flags true (some (encode fs ++ tail)) (length (encode fs))
      ≡ some (value (find HasFlagByte enoent want_flags fs))
unfolding read_flags
read_flags_lem fs tail a =
    let mem = encode fs ++ tail in
    let size = length (encode fs) in
    fields_loop-find HasFlagByte enoent want_flags mem size (visit_flags mem) fs [] tail size
      (suc size) (visit_flags-Visits mem size) a refl (omega arith) (omega arith)
      (stops_at_size HasFlagByte enoent want_flags mem size (visit_flags mem))
      (omega (arith, length-encode fs))
