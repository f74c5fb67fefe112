-- ===== src/Base/Xor.antt =====
-- The exclusive or of native numbers, from its law on the lowest digit.
use Prim.Native.Nat.{
  ℕ, zero, suc, ◌+◌, ◌*◌, ◌/◌, ◌%◌, ◌^◌, ◌≤◌, ◌<◌, bit_xor, differ, bit_xor-bitwise,
}
use slate.Base.Digits.{bit_xor-differ}
use mathlib.Core.Path.{◌≡◌, refl, sym, ap, ◌∙◌}
use native.Mathlib.Omega.{arith}
use native.Mathlib.Nat.{pow-suc, one-le-pow}

zero-bit_xor : (b : ℕ) → bit_xor 0 b ≡ b
zero-bit_xor b = bit_xor-bitwise 0 b

differ-digits : (r s : ℕ) → r < 2 → s < 2 → differ r s ≡ (r + s) % 2
differ-digits zero zero h k = refl
differ-digits zero (suc zero) h k = refl
differ-digits (suc zero) zero h k = refl
differ-digits (suc zero) (suc zero) h k = refl
differ-digits (suc (suc r)) s h k = absurd (omega arith)
differ-digits zero (suc (suc s)) h k = absurd (omega arith)
differ-digits (suc zero) (suc (suc s)) h k = absurd (omega arith)

bit_xor_step : (a b : ℕ) → bit_xor a b ≡ bit_xor (a / 2) (b / 2) * 2 + (a + b) % 2
bit_xor_step a b =
    omega (arith, bit_xor-differ a b, differ-digits (a % 2) (b % 2) (omega arith) (omega arith))

half-bit_xor : (a b : ℕ) → bit_xor a b / 2 ≡ bit_xor (a / 2) (b / 2)
half-bit_xor a b = omega (arith, bit_xor_step a b)

-- The last two of three may be exchanged.
bit_xor_swap_fuel :
    (n a b c : ℕ) → a ≤ n → b ≤ n → c ≤ n → bit_xor (bit_xor a b) c ≡ bit_xor (bit_xor a c) b
bit_xor_swap_fuel zero zero zero zero h k l = refl
bit_xor_swap_fuel zero (suc a) b c h k l = absurd (omega arith)
bit_xor_swap_fuel zero zero (suc b) c h k l = absurd (omega arith)
bit_xor_swap_fuel zero zero zero (suc c) h k l = absurd (omega arith)
bit_xor_swap_fuel (suc n) a b c h k l =
    let ih =
      bit_xor_swap_fuel n (a / 2) (b / 2) (c / 2) (omega arith) (omega arith) (omega arith) in
    omega (
      arith,
      bit_xor_step (bit_xor a b) c,
      bit_xor_step (bit_xor a c) b,
      bit_xor_step a b,
      bit_xor_step a c,
      ap (λ x. bit_xor x (c / 2)) (half-bit_xor a b),
      ap (λ x. bit_xor x (b / 2)) (half-bit_xor a c),
      ih,
    )

pub bit_xor_swap : (a b c : ℕ) → bit_xor (bit_xor a b) c ≡ bit_xor (bit_xor a c) b
bit_xor_swap a b c = bit_xor_swap_fuel (a + b + c) a b c (omega arith) (omega arith) (omega arith)

pub bit_xor-zero : (a : ℕ) → bit_xor a 0 ≡ a
bit_xor-zero a = ap (λ x. bit_xor x 0) (sym (zero-bit_xor a)) ∙ bit_xor_swap 0 a 0 ∙ zero-bit_xor a

pub bit_xor_comm : (a b : ℕ) → bit_xor a b ≡ bit_xor b a
bit_xor_comm a b =
    ap (λ x. bit_xor x b) (sym (zero-bit_xor a))
    ∙ bit_xor_swap 0 a b
    ∙ ap (λ x. bit_xor x a) (zero-bit_xor b)

-- The digits above those of `b`.
pub bit_xor_fields :
    (k q a b : ℕ) → a < 2 ^ k → b < 2 ^ k → bit_xor (q * 2 ^ k + a) b ≡ q * 2 ^ k + bit_xor a b
bit_xor_fields zero q a b h l =
    let none : a ≡ 0 = omega arith in
    let none' : b ≡ 0 = omega arith in
    rw (none, none') (omega (arith, bit_xor-zero (q * 2 ^ 0 + 0)))
bit_xor_fields (suc k) q a b h l =
    let p : q * 2 ^ suc k ≡ 2 * (q * 2 ^ k) = omega (arith, ap (λ (t : ℕ). q * t) (pow-suc 2 k)) in
    let low : (q * 2 ^ suc k + a) / 2 ≡ q * 2 ^ k + a / 2 = omega arith in
    omega (
      arith,
      bit_xor_step (q * 2 ^ suc k + a) b,
      bit_xor_step a b,
      ap (λ x. bit_xor x (b / 2)) low,
      pow-suc 2 k,
      bit_xor_fields k q (a / 2) (b / 2) (omega (arith, pow-suc 2 k)) (omega (arith, pow-suc 2 k)),
    )

-- It needs no more digits than its arguments.
pub bit_xor_bound : (k a b : ℕ) → a < 2 ^ k → b < 2 ^ k → bit_xor a b < 2 ^ k
bit_xor_bound zero a b h l =
    let e : b ≡ 0 = omega arith in let e' : a ≡ 0 = omega arith in rw (e, e') (omega arith)
bit_xor_bound (suc k) a b h l = omega (
  arith,
  bit_xor_step a b,
  pow-suc 2 k,
  bit_xor_bound k (a / 2) (b / 2) (omega (arith, pow-suc 2 k)) (omega (arith, pow-suc 2 k)),
)

pub bit_xor_double : (a b : ℕ) → bit_xor (a * 2) (b * 2) ≡ bit_xor a b * 2
bit_xor_double a b =
    let ha : a * 2 / 2 ≡ a = omega arith in
    let hb : b * 2 / 2 ≡ b = omega arith in
    omega
      (arith, bit_xor_step (a * 2) (b * 2), ap (λ x. bit_xor x (b * 2 / 2)) ha, ap (bit_xor a) hb)

pub split-bit_xor : (k q r : ℕ) → r < 2 ^ k → q * 2 ^ k + r ≡ bit_xor (q * 2 ^ k) r
split-bit_xor k q r h = omega (
  arith,
  bit_xor_fields k q 0 r (one-le-pow k 2 (omega arith)) h,
  zero-bit_xor r,
  ap (λ x. bit_xor x r) (let e : q * 2 ^ k + 0 ≡ q * 2 ^ k = omega arith in e),
)
