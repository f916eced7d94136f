-- ===== src/Clock/Bits.antt =====
-- The bit operations of `pack` and of the two components, as arithmetic: the shifted milliseconds
-- leave the low bits free, and the mask takes them out.
use Prim.Native.Nat.{max, min, bit_or, bit_and, digits, bit_or-bitwise, bit_and-bitwise}
use native.Mathlib.Nat.{pow-suc, le_refl}
use qsqlite_sync_engine.Prelude.{
  ℕ, zero, suc, ◌+◌, ◌*◌, ◌/◌, ◌%◌, ◌^◌, ◌≤◌, ◌<◌, ◌≡◌, refl, ap, arith,
}

-- half of a multiple of a power
half_multiple : (k x a r : ℕ) → a ≡ x * 2 ^ suc k + r → a / 2 ≡ x * 2 ^ k + r / 2
half_multiple k x a r e =
    let p : x * 2 ^ suc k ≡ x * (2 ^ k * 2) = ap (λ t. x * t) (pow-suc 2 k) in
    let q : x * (2 ^ k * 2) ≡ x * 2 ^ k * 2 = omega arith in omega (arith, e, p, q)

-- `c` stands for a multiple of `2 ^ k`, the loop of `bit_or` for any count that is enough.
or_free_bits :
    (k count c x y : ℕ)
    → c ≡ x * 2 ^ k
    → c ≤ count
    → y < 2 ^ k
    → digits (λ b. b) max count c y ≡ c + y
or_free_bits k zero zero x y e h l = omega arith
or_free_bits k (suc count) zero x y e h l = omega arith
or_free_bits k zero (suc c) x y e h l = absurd (omega arith)
or_free_bits zero (suc count) (suc c) x y e h l =
    let none_left : y / 2 < 2 ^ 0 = omega arith in
    let rest =
      or_free_bits zero count (suc c / 2) (suc c / 2) (y / 2) (omega arith) (omega arith)
        none_left in
    omega (arith, rest)
or_free_bits (suc k) (suc count) (suc c) x y e h l =
    let below : y / 2 < 2 ^ k = omega (arith, pow-suc 2 k) in
    let shifted : suc c / 2 ≡ x * 2 ^ k =
      omega (arith, half_multiple k x (suc c) 0 (omega arith)) in
    let even : suc c % 2 ≡ 0 = omega (arith, e, ap (λ (t : ℕ). x * t) (pow-suc 2 k)) in
    let rest = or_free_bits k count (suc c / 2) x (y / 2) shifted (omega arith) below in
    omega (arith, rest, even)

-- A number below `2 ^ k` fills the low bits that a shift by `k` leaves free.
pub bit_or_low : (k x y : ℕ) → y < 2 ^ k → bit_or (x * 2 ^ k) y ≡ x * 2 ^ k + y
bit_or_low k x y l = omega (
  arith,
  bit_or-bitwise (x * 2 ^ k) y,
  or_free_bits k (x * 2 ^ k) (x * 2 ^ k) x y refl (le_refl _) l,
)

-- `m` is a mask of `k` ones, `r` what it takes of the number `c`.
and_ones :
    (k count c x r m : ℕ)
    → c ≡ x * 2 ^ k + r
    → r < 2 ^ k
    → m + 1 ≡ 2 ^ k
    → c ≤ count
    → digits (λ b. zero) min count c m ≡ r
and_ones k zero zero x r m e l ones h = omega arith
and_ones k (suc count) zero x r m e l ones h = omega arith
and_ones k zero (suc c) x r m e l ones h = absurd (omega arith)
and_ones zero (suc count) (suc c) x r m e l ones h =
    let rest =
      and_ones zero count (suc c / 2) (suc c / 2) 0 (m / 2) (omega arith) (omega arith)
        (omega arith) (omega arith) in
    omega (arith, rest)
and_ones (suc k) (suc count) (suc c) x r m e l ones h =
    let p = pow-suc 2 k in
    let parity : suc c % 2 ≡ r % 2 = omega (arith, e, ap (λ (t : ℕ). x * t) p) in
    let rest =
      and_ones k count (suc c / 2) x (r / 2) (m / 2) (half_multiple k x (suc c) r e)
        (omega (arith, p)) (omega (arith, p)) (omega arith) in
    omega (arith, rest, parity, p)

-- The mask of the low sixteen bits takes the remainder.
pub bit_and_mask : (a : ℕ) → bit_and a 65535 ≡ a % 65536
bit_and_mask a =
    let split : a ≡ a / 65536 * 2 ^ 16 + a % 65536 = omega arith in
    omega (
      arith,
      bit_and-bitwise a 65535,
      and_ones 16 a a (a / 65536) (a % 65536) 65535 split (omega arith) refl (le_refl a),
    )
