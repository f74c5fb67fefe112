-- ===== src/Central/Main/Address.antt =====
-- src/main.c, parse_given_address: which texts its regular expression accepts.  regcomp and regexec are
-- the C library's: the expression is written as POSIX parses it, `|` last and `^` and `$` inside its sides.
pub mod Search
mod Tests
use slate.Base.{
  ℕ, ◌+◌, ◌-◌, ◌≤◌, ◌≡◌, ◌⊎◌, inl, inr, refl, sym, ap, ◌∙◌, arith, Bool, true, false, ◌&&◌, ◌||◌,
  Bool-cases, List, [], ◌∷◌, ◌++◌, append-nil, leb, ◌==◌, length, length-append, length-take,
  length-drop, take, drop, take-append, drop-append, take-append-drop, ℤ, pos, negsuc,
}
use mathlib.Core.Path.{subst}
use mathlib.Core.Logic.{◌↔◌}
use slate.Central.Scan.{Machine}
use slate.Central.Main.{parse_given_address}

-- [a-fA-F0-9]
abbrev pub is_hex : ℕ → Bool
is_hex c = (leb b'a' c && leb c b'f') || ((leb b'A' c && leb c b'F') || (leb b'0' c && leb c b'9'))

-- [a-fA-F0-9:]
abbrev pub is_hex_or_colon : ℕ → Bool
is_hex_or_colon c = is_hex c || c == b':'

-- The part of the extended regular expressions that the source uses: a class with a count, `^`, `$`, `|`.
pub data Ere : Type 0 where
  repeated : (ℕ → Bool) → ℕ → Ere
  at_start at_end : Ere → Ere
  either : Ere → Ere → Ere

-- "^[a-fA-F0-9:]{17}|[a-fA-F0-9]{12}$"
abbrev pub str_regex : Ere
str_regex = either (at_start (repeated is_hex_or_colon 17)) (at_end (repeated is_hex 12))

abbrev pub AllOf : (ℕ → Bool) → List ℕ → Type 0
AllOf p [] = Unit
AllOf p (c ∷ cs) = (p c ≡ true) × AllOf p cs

-- Whether an expression matches the part of a text between `before` and `after`.
abbrev pub Matches : Ere → List ℕ → List ℕ → List ℕ → Type 0
Matches (repeated p n) before part after = (length part ≡ n) × AllOf p part
Matches (at_start e) before part after = (before ≡ []) × Matches e before part after
Matches (at_end e) before part after = (after ≡ []) × Matches e before part after
Matches (either a b) before part after = Matches a before part after ⊎ Matches b before part after

-- regexec finds a match if a part of the text is one.
pub record IsRegexec (regexec : Ere → List ℕ → Bool) : Type 0 where
  pub finds :
      (e : Ere) (before part after : List ℕ)
      → Matches e before part after
      → regexec e (before ++ (part ++ after)) ≡ true
  pub found :
      (e : Ere) (text : List ℕ)
      → regexec e text ≡ true
      → (before : List ℕ) × (part : List ℕ) × (after : List ℕ) × (before ++ (part ++ after) ≡ text)
        × Matches e before part after

-- The text begins with 17 hexadecimals or colons, or ends in 12 hexadecimals.
abbrev pub Accepted : List ℕ → Type 0
Accepted text =
    ((17 ≤ length text) × AllOf is_hex_or_colon (take 17 text))
    ⊎ ((12 ≤ length text) × AllOf is_hex (drop (length text - 12) text))

module _ (regexec : Ere → List ℕ → Bool) (r : IsRegexec regexec) where
  matched-Accepted : (text : List ℕ) → regexec str_regex text ≡ true → Accepted text
  matched-Accepted text e =
      let (before, part, after, whole, m) = r.found str_regex text e in
      elim m [
        | inl (b, (n, all)) ↦
            let begins : part ++ after ≡ text = ap (λ l. l ++ (part ++ after)) (sym b) ∙ whole in
            let front : take 17 text ≡ part =
              ap (take 17) (sym begins) ∙ take-append part after 17 n in
            let size = ap length begins in
            inl (
              omega (arith, length-append part after),
              subst (AllOf is_hex_or_colon) (sym front) all,
            )
        | inr (a, (n, all)) ↦
            let ends : before ++ part ≡ text =
              ap (λ l. before ++ l) (sym (append-nil part) ∙ ap (λ l. part ++ l) (sym a)) ∙ whole in
            let size = ap length ends in
            let sum = length-append before part in
            let back : drop (length text - 12) text ≡ part =
              ap (drop (length text - 12)) (sym ends)
              ∙ drop-append before part (length text - 12) (omega arith) in
            inr (omega arith, subst (AllOf is_hex) (sym back) all)
      ]

  Accepted-matched : (text : List ℕ) → Accepted text → regexec str_regex text ≡ true
  Accepted-matched text (inl (n, all)) =
      subst (λ l. regexec str_regex l ≡ true) (take-append-drop 17 text)
        (r.finds str_regex [] (take 17 text) (drop 17 text)
          (inl (refl, (omega (arith, length-take 17 text), all))))
  Accepted-matched text (inr (n, all)) =
      let k = length text - 12 in
      let whole : take k text ++ (drop k text ++ []) ≡ text =
        ap (λ l. take k text ++ l) (append-nil (drop k text)) ∙ take-append-drop k text in
      subst (λ l. regexec str_regex l ≡ true) whole
        (r.finds str_regex (take k text) (drop k text) []
          (inr (refl, (omega (arith, length-drop k text), all))))

  returns_zero : (b : Bool) (m : Machine) → ((parse_given_address true b m).0 ≡ pos 0) ↔ (b ≡ true)
  unfolding parse_given_address
  returns_zero true m = (λ e. refl, λ e. refl)
  returns_zero false m = (λ e. absurd (ground arith), λ e. absurd (ground arith))

  -- When the expression compiles, parse_given_address returns 0 for exactly the texts that begin with 17
  -- hexadecimals or colons or end in 12 hexadecimals, whatever stands behind or in front of them.
  pub parse_given_address-Accepted :
      (text : List ℕ) (m : Machine)
      → ((parse_given_address true (regexec str_regex text) m).0 ≡ pos 0) ↔ Accepted text
  parse_given_address-Accepted text m =
      let (there, back) = returns_zero (regexec str_regex text) m in
      (λ e. matched-Accepted text (there e), λ a. back (Accepted-matched text a))
