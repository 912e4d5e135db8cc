-- ===== src/Base/Bits.antt =====
-- The bit operations at variables. The one law is that they act on high and low fields apart;
-- masks, tests of a bit and disjoint fields are instances.
use Prim.Native.Nat.{
  ℕ, zero, suc, ◌+◌, ◌-◌, ◌*◌, ◌/◌, ◌%◌, ◌^◌, ◌≤◌, ◌<◌, min, max, bit_and, bit_or, bit_xor, digits,
  differ, bit_and-bitwise, bit_or-bitwise, bit_xor-bitwise,
}
use mathlib.Core.Path.{◌≡◌, refl, ap}
use native.Mathlib.Nat.{pow-suc, one-le-pow}
use native.Mathlib.Omega.{arith}

-- `digits` is the recursion on binary digits that a native operation stands for; the first number
-- is its fuel, and any that reaches `a` gives one result.
module _ (z : ℕ → ℕ) (f : ℕ → ℕ → ℕ) where
  digits_enough : (n m a b : ℕ) → a ≤ n → a ≤ m → digits z f n a b ≡ digits z f m a b
  digits_enough zero zero a b p q = refl
  digits_enough (suc n) zero zero b p q = refl
  digits_enough zero (suc m) zero b p q = refl
  digits_enough zero (suc m) (suc a) b p q = absurd (omega arith)
  digits_enough (suc n) zero (suc a) b p q = absurd (omega arith)
  digits_enough (suc n) (suc m) zero b p q = refl
  digits_enough (suc n) (suc m) (suc a) b p q =
      omega (arith, digits_enough n m (suc a / 2) (b / 2) (omega arith) (omega arith))

  digits_lowest :
      (a b : ℕ)
      → digits z f (suc a) (suc a) b
        ≡ digits z f (suc a / 2) (suc a / 2) (b / 2) * 2 + f (suc a % 2) (b % 2)
  digits_lowest a b =
      omega (arith, digits_enough a (suc a / 2) (suc a / 2) (b / 2) (omega arith) (omega arith))

-- What the lowest digits of the arguments give, and the rest.
pub bit_and_lowest : (a b : ℕ) → bit_and a b ≡ bit_and (a / 2) (b / 2) * 2 + min (a % 2) (b % 2)
bit_and_lowest zero b = simp bit_and-bitwise (omega arith)
bit_and_lowest (suc a) b = simp bit_and-bitwise (digits_lowest (λ _. 0) min a b)

pub bit_or_lowest : (a b : ℕ) → bit_or a b ≡ bit_or (a / 2) (b / 2) * 2 + max (a % 2) (b % 2)
bit_or_lowest zero b = simp bit_or-bitwise (omega arith)
bit_or_lowest (suc a) b = simp bit_or-bitwise (digits_lowest (λ y. y) max a b)

pub bit_xor_lowest : (a b : ℕ) → bit_xor a b ≡ bit_xor (a / 2) (b / 2) * 2 + differ (a % 2) (b % 2)
bit_xor_lowest zero b = simp bit_xor-bitwise (omega arith)
bit_xor_lowest (suc a) b = simp bit_xor-bitwise (digits_lowest (λ y. y) differ a b)

module _ (op f : ℕ → ℕ → ℕ)
    (lowest : (a b : ℕ) → op a b ≡ op (a / 2) (b / 2) * 2 + f (a % 2) (b % 2)) where
  op_zero : op 0 0 ≡ 0
  op_zero = omega (arith, lowest 0 0)

  double_shift : (q k : ℕ) → q * 2 ^ suc k ≡ 2 * (q * 2 ^ k)
  double_shift q k = omega (arith, ap (λ (t : ℕ). q * t) (pow-suc 2 k))

  op_fields :
      (k q q' r r' : ℕ)
      → r < 2 ^ k
      → r' < 2 ^ k
      → op (q * 2 ^ k + r) (q' * 2 ^ k + r') ≡ op q q' * 2 ^ k + op r r'
  op_fields zero q q' r r' h h' = ground (arith, op_zero)
  op_fields (suc k) q q' r r' h h' = ground (
    arith,
    lowest (q * 2 ^ suc k + r) (q' * 2 ^ suc k + r'),
    lowest r r',
    double_shift q k,
    double_shift q' k,
    double_shift (op q q') k,
    pow-suc 2 k,
    op_fields k q q' (r / 2) (r' / 2),
  )

pub bit_and-zero : (n : ℕ) → bit_and n 0 ≡ 0
bit_and-zero n = up_to n n (omega arith)
  where
    up_to : (k a : ℕ) → a ≤ k → bit_and a 0 ≡ 0
    up_to k zero h = refl
    up_to zero (suc a) h = absurd (omega arith)
    up_to (suc k) (suc a) h =
        omega (arith, bit_and_lowest (suc a) 0, up_to k (suc a / 2) (omega arith))

pub zero-bit_and : (n : ℕ) → bit_and 0 n ≡ 0
zero-bit_and n = bit_and-bitwise 0 n

pub bit_or-zero : (n : ℕ) → bit_or n 0 ≡ n
bit_or-zero n = up_to n n (omega arith)
  where
    up_to : (k a : ℕ) → a ≤ k → bit_or a 0 ≡ a
    up_to k zero h = refl
    up_to zero (suc a) h = absurd (omega arith)
    up_to (suc k) (suc a) h =
        omega (arith, bit_or_lowest (suc a) 0, up_to k (suc a / 2) (omega arith))

pub zero-bit_or : (n : ℕ) → bit_or 0 n ≡ n
zero-bit_or n = bit_or-bitwise 0 n

pub zero-bit_xor : (n : ℕ) → bit_xor 0 n ≡ n
zero-bit_xor n = bit_xor-bitwise 0 n

differ_self : (n : ℕ) → differ n n ≡ 0
differ_self zero = refl
differ_self (suc n) = differ_self n

differ-zero : (n : ℕ) → differ n 0 ≡ n
differ-zero zero = refl
differ-zero (suc n) = refl

differ-lt : (a b : ℕ) → a < 2 → b < 2 → differ a b < 2
differ-lt zero b h h' = h'
differ-lt (suc a) zero h h' = h
differ-lt (suc a) (suc b) h h' = differ-lt a b (omega arith) (omega arith)

pub bit_xor_self : (n : ℕ) → bit_xor n n ≡ 0
bit_xor_self n = up_to n n (omega arith)
  where
    up_to : (k a : ℕ) → a ≤ k → bit_xor a a ≡ 0
    up_to k zero h = refl
    up_to zero (suc a) h = absurd (omega arith)
    up_to (suc k) (suc a) h = omega (
      arith,
      bit_xor_lowest (suc a) (suc a),
      differ_self (suc a % 2),
      up_to k (suc a / 2) (omega arith),
    )

pub bit_xor-zero : (n : ℕ) → bit_xor n 0 ≡ n
bit_xor-zero n = up_to n n (omega arith)
  where
    up_to : (k a : ℕ) → a ≤ k → bit_xor a 0 ≡ a
    up_to k zero h = refl
    up_to zero (suc a) h = absurd (omega arith)
    up_to (suc k) (suc a) h = omega (
      arith,
      bit_xor_lowest (suc a) 0,
      differ-zero (suc a % 2),
      up_to k (suc a / 2) (omega arith),
    )

bit_and_ones : (k r : ℕ) → r < 2 ^ k → bit_and r (2 ^ k - 1) ≡ r
bit_and_ones zero r h = ground (arith, bit_and-zero r)
bit_and_ones (suc k) r h =
    ground
      (arith, bit_and_lowest r (2 ^ suc k - 1), pow-suc 2 k, one-le-pow k 2, bit_and_ones k (r / 2))

-- A mask of `k` ones keeps the remainder by `2 ^ k`.
pub bit_and_mask : (k n : ℕ) → bit_and n (2 ^ k - 1) ≡ n % 2 ^ k
bit_and_mask k n = ground (
  arith,
  op_fields bit_and min bit_and_lowest k (n / 2 ^ k) 0 (n % 2 ^ k) (2 ^ k - 1),
  one-le-pow k 2,
  bit_and-zero (n / 2 ^ k),
  bit_and_ones k (n % 2 ^ k),
)

-- `|` of a value shifted by `k` and one below `2 ^ k` is their sum.
pub bit_or_disjoint : (k q r : ℕ) → r < 2 ^ k → bit_or (q * 2 ^ k) r ≡ q * 2 ^ k + r
bit_or_disjoint k q r h = ground (
  arith,
  op_fields bit_or max bit_or_lowest k q 0 0 r,
  one-le-pow k 2,
  bit_or-zero q,
  zero-bit_or r,
)

-- The test of bit `k` of a word of `k + 1` bits.
pub bit_and_top_clear : (k n : ℕ) → n < 2 ^ k → bit_and n (2 ^ k) ≡ 0
bit_and_top_clear k n h = ground (
  arith,
  op_fields bit_and min bit_and_lowest k 0 1 n 0,
  one-le-pow k 2,
  zero-bit_and 1,
  bit_and-zero n,
)

-- `^` with a value shifted by `k` changes the high field only.
pub bit_xor_high :
    (k q r q' : ℕ) → r < 2 ^ k → bit_xor (q * 2 ^ k + r) (q' * 2 ^ k) ≡ bit_xor q q' * 2 ^ k + r
bit_xor_high k q r q' h =
    ground
      (arith, op_fields bit_xor differ bit_xor_lowest k q q' r 0, one-le-pow k 2, bit_xor-zero r)

pub bit_xor_lt : (k a b : ℕ) → a < 2 ^ k → b < 2 ^ k → bit_xor a b < 2 ^ k
bit_xor_lt zero a b h h' = ground (arith, op_zero bit_xor differ bit_xor_lowest)
bit_xor_lt (suc k) a b h h' = ground (
  arith,
  bit_xor_lowest a b,
  differ-lt (a % 2) (b % 2),
  pow-suc 2 k,
  bit_xor_lt k (a / 2) (b / 2),
)
