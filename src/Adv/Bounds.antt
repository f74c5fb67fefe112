-- ===== src/Adv/Bounds.antt =====
-- The field walk of read_flags on a malformed report: where it gives up.
use slate.Base.{
  ℕ, suc, ◌+◌, ◌<◌, ◌≡◌, refl, ◌⊎◌, inl, inr, true, some, List, [], ◌∷◌, ◌++◌, arith, length,
}
use slate.Adv.{value, enoent, visit_flags, read_flags}
use slate.Adv.Fields.{
  Field, encode, AllFields, HasFlagByte, find, want_flags, get_elem?-append, fields_loop-find,
  stops_at_bad, visit_flags-Visits, length-encode,
}

-- On a report of fields, whose flags fields have a byte, and then a length byte that is 0 or reaches more
-- than one byte behind the report, read_flags returns what it returns of the fields before it, the
-- flags or -ENOENT, whatever stands behind that length byte and behind the report.
pub read_flags-malformed :
    (fs : List Field) (l : ℕ) (junk tail : List ℕ)
    → AllFields HasFlagByte fs
    → (l ≡ 0) ⊎ (length junk + 1 < l)
    → read_flags true
        (some (encode fs ++ (l ∷ (junk ++ tail))))
        (length (encode fs) + suc (length junk))
      ≡ some (value (find HasFlagByte enoent want_flags fs))
unfolding read_flags
read_flags-malformed fs l junk tail a bad =
    let mem = encode fs ++ (l ∷ (junk ++ tail)) in
    let end = length (encode fs) in
    let size = end + suc (length junk) in
    let at_l = get_elem?-append (encode fs) (l ∷ (junk ++ tail)) 0 end (omega arith) in
    let behind : (l ≡ 0) ⊎ (size < l + end) = elim bad [
      | inl z ↦ inl z
      | inr far ↦ inr (omega arith)
    ] in
    let stop = λ (left : ℕ).
      stops_at_bad HasFlagByte enoent want_flags mem size (visit_flags mem) left end l (omega arith)
        at_l behind in
    fields_loop-find HasFlagByte enoent want_flags mem size (visit_flags mem) fs []
      (l ∷ (junk ++ tail)) end (suc size) (visit_flags-Visits mem size) a refl (omega arith)
      (omega arith) stop (omega (arith, length-encode fs))
