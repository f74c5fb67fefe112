-- ===== src/Base/Digits.antt =====
-- The binary operations on native numbers that stand on an operation on digits.
use Prim.Native.Nat.{
  ℕ, zero, suc, ◌+◌, ◌-◌, ◌*◌, ◌/◌, ◌%◌, ◌^◌, ◌≤◌, ◌<◌, max, bit_or, bit_xor, differ, digits,
  bitwise, bit_or-bitwise, bit_xor-bitwise,
}
use mathlib.Core.Path.{◌≡◌, refl, sym, ap, ◌∙◌}
use native.Mathlib.Omega.{arith}
use native.Mathlib.Nat.{pow-suc}

-- The recursion on digits, with a count of at least `x`.
module _ (f : ℕ → ℕ → ℕ) where
  abbrev counted : ℕ → ℕ → ℕ → ℕ
  counted count x y = digits (λ d. d) f count x y

  -- One count more changes nothing.
  counted-suc : (x y count : ℕ) → x ≤ count → counted (suc count) x y ≡ counted count x y
  counted-suc x y zero enough = let none : x ≡ 0 = omega arith in rw none refl
  counted-suc zero y (suc count) enough = refl
  counted-suc (suc x) y (suc count) enough =
      let later = counted-suc (suc x / 2) (y / 2) count (omega arith) in
      ap (λ d. d * 2 + f (suc x % 2) (y % 2)) later

  counted-add : (extra x y : ℕ) → counted (extra + x) x y ≡ counted x x y
  counted-add zero x y = let same : 0 + x ≡ x = omega arith in ap (λ c. counted c x y) same
  counted-add (suc extra) x y =
      let same : suc extra + x ≡ suc (extra + x) = omega arith in
      ap (λ c. counted c x y) same
      ∙ counted-suc x y (extra + x) (omega arith)
      ∙ counted-add extra x y

  -- The lowest digit, when a 0 leaves the other digit.
  bitwise_step :
      (x y : ℕ)
      → ((d : ℕ) → f 0 d ≡ d)
      → bitwise (λ d. d) f x y ≡ bitwise (λ d. d) f (x / 2) (y / 2) * 2 + f (x % 2) (y % 2)
  bitwise_step zero y neutral = omega (arith, neutral (y % 2))
  bitwise_step (suc x) y neutral =
      let half = suc x / 2 in
      let count : (x - half) + half ≡ x = omega arith in
      ap (λ d. d * 2 + f (suc x % 2) (y % 2))
        (ap (λ c. counted c half (y / 2)) (sym count) ∙ counted-add (x - half) half (y / 2))

pub bit_xor-differ : (a b : ℕ) → bit_xor a b ≡ bit_xor (a / 2) (b / 2) * 2 + differ (a % 2) (b % 2)
bit_xor-differ a b = omega (
  arith,
  bit_xor-bitwise a b,
  bit_xor-bitwise (a / 2) (b / 2),
  bitwise_step differ a b (λ s. refl),
)

bit_or-max : (a b : ℕ) → bit_or a b ≡ bit_or (a / 2) (b / 2) * 2 + max (a % 2) (b % 2)
bit_or-max a b = omega (
  arith,
  bit_or-bitwise a b,
  bit_or-bitwise (a / 2) (b / 2),
  bitwise_step max a b (λ s. omega arith),
)

-- `|` needs no more digits than its arguments.
pub bit_or_bound : (k a b : ℕ) → a < 2 ^ k → b < 2 ^ k → bit_or a b < 2 ^ k
bit_or_bound zero a b h l =
    let e : b ≡ 0 = omega arith in let e' : a ≡ 0 = omega arith in rw (e, e') (omega arith)
bit_or_bound (suc k) a b h l = omega (
  arith,
  bit_or-max a b,
  pow-suc 2 k,
  bit_or_bound k (a / 2) (b / 2) (omega (arith, pow-suc 2 k)) (omega (arith, pow-suc 2 k)),
)
