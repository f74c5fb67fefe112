-- ===== src/Central/Main/Address/Search.antt =====
-- A regexec that tries every part of a text, for the runs of parse_given_address of src/main.c.
use slate.Base.{
  ℕ, ◌≡◌, ◌⊎◌, inl, inr, refl, sym, ap, ◌∙◌, arith, Bool, true, false, ◌&&◌, ◌||◌, Bool-cases, List,
  [], ◌∷◌, ◌++◌, append-nil, append_assoc, ◌==◌, length,
}
use mathlib.Core.Path.{subst}
use slate.Central.Main.Address.{Ere, repeated, at_start, at_end, either, AllOf, Matches, IsRegexec}

unfoldable pub all_of : (ℕ → Bool) → List ℕ → Bool
all_of p [] = true
all_of p (c ∷ cs) = p c && all_of p cs

is_nil : List ℕ → Bool
is_nil [] = true
is_nil (c ∷ cs) = false

pub all_of-AllOf : (p : ℕ → Bool) (l : List ℕ) → all_of p l ≡ true → AllOf p l
unfolding all_of
all_of-AllOf p [] e = tt
all_of-AllOf p (c ∷ cs) e = elim (Bool-cases (p c)) [
  | inl y ↦ (y, all_of-AllOf p cs (ground arith))
  | inr n ↦ absurd (ground arith)
]

AllOf-all_of : (p : ℕ → Bool) (l : List ℕ) → AllOf p l → all_of p l ≡ true
unfolding all_of
AllOf-all_of p [] h = refl
AllOf-all_of p (c ∷ cs) (y, h) = rw (y, AllOf-all_of p cs h)

is_nil-eq : (l : List ℕ) → is_nil l ≡ true → l ≡ []
unfolding is_nil
is_nil-eq [] e = refl
is_nil-eq (c ∷ cs) e = absurd (ground arith)

eq-is_nil : (l : List ℕ) → l ≡ [] → is_nil l ≡ true
unfolding is_nil
eq-is_nil l e = rw e

and_parts : (a b : Bool) → (a && b) ≡ true → (a ≡ true) × (b ≡ true)
and_parts true true e = (refl, refl)
and_parts true false e = absurd (ground arith)
and_parts false b e = absurd (ground arith)

or_parts : (a b : Bool) → (a || b) ≡ true → (a ≡ true) ⊎ (b ≡ true)
or_parts true b e = inl refl
or_parts false b e = inr e

or_left : (a b : Bool) → a ≡ true → (a || b) ≡ true
or_left true b e = refl
or_left false b e = absurd (ground arith)

or_right : (a b : Bool) → b ≡ true → (a || b) ≡ true
or_right true b e = refl
or_right false b e = e

matcher : Ere → List ℕ → List ℕ → List ℕ → Bool
matcher (repeated p n) before part after = (length part == n) && all_of p part
matcher (at_start e) before part after = is_nil before && matcher e before part after
matcher (at_end e) before part after = is_nil after && matcher e before part after
matcher (either a b) before part after = matcher a before part after || matcher b before part after

matcher-Matches :
    (e : Ere) (before part after : List ℕ)
    → matcher e before part after ≡ true
    → Matches e before part after
unfolding matcher
matcher-Matches (repeated p n) before part after h =
    let (l, a) = and_parts (length part == n) (all_of p part) h in
    (ground arith, all_of-AllOf p part a)
matcher-Matches (at_start e) before part after h =
    let (b, m) = and_parts (is_nil before) (matcher e before part after) h in
    (is_nil-eq before b, matcher-Matches e before part after m)
matcher-Matches (at_end e) before part after h =
    let (b, m) = and_parts (is_nil after) (matcher e before part after) h in
    (is_nil-eq after b, matcher-Matches e before part after m)
matcher-Matches (either a b) before part after h =
    elim (or_parts (matcher a before part after) (matcher b before part after) h) [
      | inl l ↦ inl (matcher-Matches a before part after l)
      | inr r ↦ inr (matcher-Matches b before part after r)
    ]

Matches-matcher :
    (e : Ere) (before part after : List ℕ)
    → Matches e before part after
    → matcher e before part after ≡ true
unfolding matcher
Matches-matcher (repeated p n) before part after (l, a) =
    let same : (length part == n) ≡ true = ground arith in rw (same, AllOf-all_of p part a)
Matches-matcher (at_start e) before part after (b, m) =
    rw (eq-is_nil before b, Matches-matcher e before part after m)
Matches-matcher (at_end e) before part after (b, m) =
    rw (eq-is_nil after b, Matches-matcher e before part after m)
Matches-matcher (either a b) before part after (inl l) =
    or_left (matcher a before part after) _ (Matches-matcher a before part after l)
Matches-matcher (either a b) before part after (inr r) =
    or_right (matcher a before part after) _ (Matches-matcher b before part after r)

-- The parts that begin behind `before`, longer and longer.
grow : Ere → List ℕ → List ℕ → List ℕ → Bool
grow e before part [] = matcher e before part []
grow e before part (c ∷ cs) = matcher e before part (c ∷ cs) || grow e before (part ++ (c ∷ [])) cs

search_from : Ere → List ℕ → List ℕ → Bool
search_from e before [] = grow e before [] []
search_from e before (c ∷ cs) = grow e before [] (c ∷ cs) || search_from e (before ++ (c ∷ [])) cs

pub search_all : Ere → List ℕ → Bool
search_all e text = search_from e [] text

grow_found :
    (e : Ere) (before part after : List ℕ)
    → grow e before part after ≡ true
    → (part' : List ℕ) × (after' : List ℕ) × (part' ++ after' ≡ part ++ after)
      × Matches e before part' after'
unfolding grow
grow_found e before part [] h = (part, [], refl, matcher-Matches e before part [] h)
grow_found e before part (c ∷ cs) h =
    elim (or_parts (matcher e before part (c ∷ cs)) (grow e before (part ++ (c ∷ [])) cs) h) [
      | inl here ↦ (part, c ∷ cs, refl, matcher-Matches e before part (c ∷ cs) here)
      | inr later ↦
          let (part', after', same, m) = grow_found e before (part ++ (c ∷ [])) cs later in
          (part', after', same ∙ append_assoc part (c ∷ []) cs, m)
    ]

grow_here :
    (e : Ere) (before part after : List ℕ)
    → matcher e before part after ≡ true
    → grow e before part after ≡ true
unfolding grow
grow_here e before part [] h = h
grow_here e before part (c ∷ cs) h = or_left (matcher e before part (c ∷ cs)) _ h

grow_finds :
    (e : Ere) (before part more after : List ℕ)
    → Matches e before (part ++ more) after
    → grow e before part (more ++ after) ≡ true
unfolding grow
grow_finds e before part [] after m = grow_here e before part after (
    Matches-matcher e before part after (subst (λ l. Matches e before l after) (append-nil part) m))
grow_finds e before part (c ∷ more) after m =
    or_right (matcher e before part (c ∷ (more ++ after))) _ (
      grow_finds e before (part ++ (c ∷ [])) more after
        (subst (λ l. Matches e before l after) (sym (append_assoc part (c ∷ []) more)) m))

search_found :
    (e : Ere) (before text : List ℕ)
    → search_from e before text ≡ true
    → (b : List ℕ) × (part : List ℕ) × (after : List ℕ) × (b ++ (part ++ after) ≡ before ++ text)
      × Matches e b part after
unfolding search_from
search_found e before [] h =
    let (part, after, same, m) = grow_found e before [] [] h in
    (before, part, after, ap (λ l. before ++ l) same, m)
search_found e before (c ∷ cs) h =
    elim (or_parts (grow e before [] (c ∷ cs)) (search_from e (before ++ (c ∷ [])) cs) h) [
      | inl here ↦
          let (part, after, same, m) = grow_found e before [] (c ∷ cs) here in
          (before, part, after, ap (λ l. before ++ l) same, m)
      | inr later ↦
          let (b, part, after, same, m) = search_found e (before ++ (c ∷ [])) cs later in
          (b, part, after, same ∙ append_assoc before (c ∷ []) cs, m)
    ]

search_here :
    (e : Ere) (before text : List ℕ)
    → grow e before [] text ≡ true
    → search_from e before text ≡ true
unfolding search_from
search_here e before [] h = h
search_here e before (c ∷ cs) h = or_left (grow e before [] (c ∷ cs)) _ h

search_finds :
    (e : Ere) (before more part after : List ℕ)
    → Matches e (before ++ more) part after
    → search_from e before (more ++ (part ++ after)) ≡ true
unfolding search_from
search_finds e before [] part after m =
    search_here e before (part ++ after) (
      grow_finds e before [] part after (subst (λ l. Matches e l part after) (append-nil before) m))
search_finds e before (c ∷ more) part after m =
    or_right (grow e before [] (c ∷ (more ++ (part ++ after)))) _ (
      search_finds e (before ++ (c ∷ [])) more part after
        (subst (λ l. Matches e l part after) (sym (append_assoc before (c ∷ []) more)) m))

pub search_all-IsRegexec : IsRegexec search_all
unfolding search_all
search_all-IsRegexec = record {
  finds = λ e before part after m. search_finds e [] before part after m;
  found = λ e text h. search_found e [] text h;
}
