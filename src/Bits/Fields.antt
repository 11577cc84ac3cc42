-- ===== src/Bits/Fields.antt =====
-- Fields of a word: shifts and low masks pass through `&` and `|`, and a low mask is a remainder.
use native.Mathlib.Nat.{pow-suc, one-le-pow, div-div-eq-div-mul, div-add-mod}
use micron.Base.{
  ℕ, zero, suc, ◌+◌, ◌-◌, ◌*◌, ◌/◌, ◌%◌, ◌^◌, ◌<◌, bit_and, bit_or, ◌≡◌, ap, ap₂, sym, ◌∙◌, arith,
}
use micron.Bits.{bit_or_step, bit_and_step, bit_and-of_zero, bit_or-of_zero}

pub div-pow-suc : (a k : ℕ) → a / 2 ^ suc k ≡ a / 2 / 2 ^ k
div-pow-suc a k =
    ap (λ t. a / t) (omega (arith, pow-suc 2 k)) ∙ sym (div-div-eq-div-mul a 2 (2 ^ k))

pub mod-pow-suc : (a k : ℕ) → a % 2 ^ suc k ≡ (a / 2) % 2 ^ k * 2 + a % 2
mod-pow-suc a k = omega (
  arith,
  ap₂ (λ (s t : ℕ). s * t) two_pow (div-pow-suc a k),
  div-add-mod a (2 ^ suc k),
  div-add-mod (a / 2) (2 ^ k),
)
  where
    two_pow : 2 ^ suc k ≡ 2 * 2 ^ k
    two_pow = omega (arith, pow-suc 2 k)

one : (n : ℕ) → n / 2 ^ 0 ≡ n
one n = omega arith

pub div-bit_and : (k a b : ℕ) → bit_and a b / 2 ^ k ≡ bit_and (a / 2 ^ k) (b / 2 ^ k)
div-bit_and zero a b = omega (arith, ap₂ bit_and (one a) (one b))
div-bit_and (suc k) a b =
    div-pow-suc (bit_and a b) k
    ∙ ap (λ t. t / 2 ^ k) (omega (arith, bit_and_step a b))
    ∙ div-bit_and k (a / 2) (b / 2)
    ∙ ap₂ bit_and (sym (div-pow-suc a k)) (sym (div-pow-suc b k))

pub div-bit_or : (k a b : ℕ) → bit_or a b / 2 ^ k ≡ bit_or (a / 2 ^ k) (b / 2 ^ k)
div-bit_or zero a b = omega (arith, ap₂ bit_or (one a) (one b))
div-bit_or (suc k) a b =
    div-pow-suc (bit_or a b) k
    ∙ ap (λ t. t / 2 ^ k) (omega (arith, bit_or_step a b))
    ∙ div-bit_or k (a / 2) (b / 2)
    ∙ ap₂ bit_or (sym (div-pow-suc a k)) (sym (div-pow-suc b k))

pub mod-bit_and : (k a b : ℕ) → bit_and a b % 2 ^ k ≡ bit_and (a % 2 ^ k) (b % 2 ^ k)
mod-bit_and zero a b = ground (arith, bit_and-of_zero 0)
mod-bit_and (suc k) a b = ground (
  arith,
  mod-pow-suc (bit_and a b) k,
  mod-pow-suc a k,
  mod-pow-suc b k,
  bit_and_step a b,
  bit_and_step (a % 2 ^ suc k) (b % 2 ^ suc k),
  mod-bit_and k (a / 2) (b / 2),
)

pub mod-bit_or : (k a b : ℕ) → bit_or a b % 2 ^ k ≡ bit_or (a % 2 ^ k) (b % 2 ^ k)
mod-bit_or zero a b = ground arith
mod-bit_or (suc k) a b = ground (
  arith,
  mod-pow-suc (bit_or a b) k,
  mod-pow-suc a k,
  mod-pow-suc b k,
  bit_or_step a b,
  bit_or_step (a % 2 ^ suc k) (b % 2 ^ suc k),
  mod-bit_or k (a / 2) (b / 2),
)

-- A mask of `k` low bits is the remainder by `2 ^ k`.
pub bit_and_mask : (k a : ℕ) → bit_and a (2 ^ k - 1) ≡ a % 2 ^ k
bit_and_mask zero a = omega (arith, bit_and-of_zero a)
bit_and_mask (suc k) a = ground (
  arith,
  bit_and_step a (2 ^ suc k - 1),
  pow-suc 2 k,
  one-le-pow k 2,
  mod-pow-suc a k,
  bit_and_mask k (a / 2),
)

-- A mask that is shifted up acts on the bits from there on.
pub bit_and_shifted : (k a m : ℕ) → bit_and a (m * 2 ^ k) ≡ bit_and (a / 2 ^ k) m * 2 ^ k
bit_and_shifted zero a m = omega (arith, ap (bit_and a) mul_one, ap (λ t. bit_and t m) (one a))
  where
    mul_one : m * 2 ^ 0 ≡ m
    mul_one = omega arith
bit_and_shifted (suc k) a m = omega (
  arith,
  bit_and_step a (m * 2 ^ suc k),
  half,
  ap (λ t. bit_and (a / 2) t) half,
  bit_and_shifted k (a / 2) m,
  ap (λ (t : ℕ). m * t) (pow-suc 2 k),
  ap₂ (λ (s t : ℕ). bit_and s m * t) (div-pow-suc a k) (pow-suc 2 k),
)
  where
    half : m * 2 ^ suc k / 2 ≡ m * 2 ^ k
    half = omega (arith, ap (λ (t : ℕ). m * t) (pow-suc 2 k))

-- A multiple of a power of two and a number below the power have no bit in common.
pub bit_or_fields : (k high low : ℕ) → low < 2 ^ k → bit_or (high * 2 ^ k) low ≡ high * 2 ^ k + low
bit_or_fields zero high low small =
    ap₂ bit_or whole nothing_low
    ∙ bit_or-of_zero high
    ∙ sym (ap₂ (λ (s t : ℕ). s + t) whole nothing_low ∙ no_more high)
  where
    whole : high * 2 ^ 0 ≡ high
    whole = omega arith

    nothing_low : low ≡ 0
    nothing_low = omega arith

    no_more : (n : ℕ) → n + 0 ≡ n
    no_more n = omega arith
bit_or_fields (suc k) high low small = ground (
  arith,
  pow-suc 2 k,
  bit_or_fields k high (low / 2),
  ap (λ (t : ℕ). high * t) (pow-suc 2 k),
  bit_or_step (high * 2 ^ suc k) low,
)
