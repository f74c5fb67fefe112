-- ===== src/Adv/NameField.antt =====
-- eir_parse_name on a report that is a sequence of fields.
use slate.Base.{
  ℕ, suc, ◌+◌, ◌-◌, ◌≡◌, refl, ◌∙◌, Bool, ◌||◌, Bool-cases, inl, inr, Option, none, some, List, [],
  ◌∷◌, ◌++◌, append_assoc, arith, ltb, ◌==◌, if◌then◌else◌, length, length-append, get_elem?,
}
use slate.Adv.{value, Name, named, unknown, read_bytes, name_at, visit_name, eir_parse_name}
use slate.Adv.Fields.{
  Field, encode, AllFields, find, Visits, get_elem?-append, fields_loop-find, stops_at_size,
  length-encode,
}

-- memcpy of a part gives that part.
read_bytes-append :
    (before part rest mem : List ℕ) (i : ℕ)
    → before ++ (part ++ rest) ≡ mem
    → i ≡ length before
    → read_bytes mem (length part) i ≡ some part
read_bytes-append before [] rest mem i m e = refl
read_bytes-append before (b ∷ bs) rest mem i m e =
    let first : get_elem? mem i ≡ some b =
      rw (← m) (get_elem?-append before ((b ∷ bs) ++ rest) 0 i (omega arith)) in
    let next : read_bytes mem (length bs) (suc i) ≡ some bs =
      read_bytes-append (before ++ (b ∷ [])) bs rest mem (suc i)
        (append_assoc before (b ∷ []) (bs ++ rest) ∙ m)
        (omega (arith, length-append before (b ∷ []))) in
    rw (first, read_bytes) (rw next refl)

-- EIR_NAME_SHORT or EIR_NAME_COMPLETE
abbrev pub is_name : Field → Bool
is_name f = f.type == 8 || f.type == 9

-- A name that is too long for the buffer is not taken.
abbrev pub fitting : ℕ → List ℕ → Name
fitting buf_len name = if ltb buf_len (length name) then unknown else named name

abbrev pub want_name : ℕ → Field → Option Name
want_name buf_len f = if is_name f then some (fitting buf_len f.payload) else none

-- Every field will do.
abbrev pub AnyField : Field → Type 0
AnyField f = Unit

any_fields : (fs : List Field) → AllFields AnyField fs
any_fields [] = tt
any_fields (f ∷ fs) = (tt, any_fields fs)

visit_name-Visits :
    (mem : List ℕ) (size buf_len : ℕ)
    → Visits AnyField unknown (want_name buf_len) mem size (visit_name mem buf_len)
visit_name-Visits mem size buf_len before f rest sane m =
    let part : read_bytes mem (length f.payload) (length before + 2) ≡ some f.payload =
      read_bytes-append (before ++ (suc (length f.payload) ∷ f.type ∷ [])) f.payload rest mem
        (length before + 2)
        (append_assoc before (suc (length f.payload) ∷ f.type ∷ []) (f.payload ++ rest) ∙ m)
        (omega (arith, length-append before (suc (length f.payload) ∷ f.type ∷ []))) in
    let at : name_at mem (length f.payload) (length before + 2) ≡ value (named f.payload) =
      rw (part, name_at) refl in
    let one : suc (length f.payload) - 1 ≡ length f.payload = omega arith in
    elim (Bool-cases (is_name f)) [
      | inr e ↦ rw e refl
      | inl e ↦ elim (Bool-cases (ltb buf_len (length f.payload))) [
        | inl long ↦ rw e (rw one (rw long refl))
        | inr short ↦ rw e (rw one (rw short (rw at refl)))
      ]
    ]

-- On a report that is a sequence of fields, eir_parse_name returns the bytes of the first field of
-- type 8 or 9, or "(unknown)" if there is none or its name is longer than the buffer, whatever memory
-- follows.
pub eir_parse_name_lem :
    (fs : List Field) (tail : List ℕ) (buf_len : ℕ)
    → eir_parse_name (encode fs ++ tail) (length (encode fs)) buf_len
      ≡ some (value (find AnyField unknown (want_name buf_len) fs))
unfolding eir_parse_name
eir_parse_name_lem fs tail buf_len =
    let mem = encode fs ++ tail in
    let size = length (encode fs) in
    fields_loop-find AnyField unknown (want_name buf_len) mem size (visit_name mem buf_len) fs []
      tail size (suc size) (visit_name-Visits mem size buf_len) (any_fields fs) refl (omega arith)
      (omega arith)
      (stops_at_size AnyField unknown (want_name buf_len) mem size (visit_name mem buf_len))
      (omega (arith, length-encode fs))
