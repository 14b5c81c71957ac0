-- ===== src/Structures/Order/Mask.antt =====
-- `&` with a mask (src/structures/seg_queue.rs): it is no more than the mask, and with one less than
-- a power of 2 it is the remainder by the power.
use Prim.Native.Nat.{bit_and, bit_and-bitwise, digits, min}
use rustcurrent.Prelude.{
  ℕ, zero, suc, ◌+◌, ◌-◌, ◌*◌, ◌/◌, ◌%◌, ◌^◌, ◌<◌, ◌≤◌, ◌≡◌, sym, ap, ◌∙◌, arith,
}
use mathlib.Core.Path.{subst}
use native.Mathlib.Nat.{mod-lt, mod-eq_of_lt, add-mul-mod_self_left, div-add-mod, pow-succ'}

-- The digits of `&`, with `n` of them to go.
abbrev pub and_from : (n a b : ℕ) → ℕ
and_from n a b = digits (λ b. zero) min n a b

and_from_le : (n a b : ℕ) → and_from n a b ≤ b
and_from_le zero a b = omega arith
and_from_le (suc n) zero b = omega arith
and_from_le (suc n) (suc a) b = omega (arith, and_from_le n (suc a / 2) (b / 2))

pub bit_and_le : (a b : ℕ) → bit_and a b ≤ b
bit_and_le a b = subst (λ x. x ≤ b) (sym (bit_and-bitwise a b)) (and_from_le a a b)

mod_double : (a p : ℕ) → 0 < p → a % (2 * p) ≡ (a / 2) % p * 2 + a % 2
mod_double a p pos =
    let q : ℕ = (a / 2) / p in
    let r : ℕ = (a / 2) % p * 2 + a % 2 in
    let parts = div-add-mod (a / 2) p in
    let digit_small : (a / 2) % p < p = mod-lt (a / 2) pos in
    let small : r < 2 * p = omega (arith, digit_small) in
    let split : a ≡ r + 2 * p * q = grind (arith, parts) in
    ap (λ x. x % (2 * p)) split ∙ add-mul-mod_self_left r (2 * p) q ∙ mod-eq_of_lt small

pub pow_pos : (w : ℕ) → 0 < 2 ^ w
pow_pos zero = omega arith
pow_pos (suc w) = omega (arith, pow-succ' 2 w, pow_pos w)

and_from-mask : (n w a : ℕ) → a ≤ n → and_from n a (2 ^ w - 1) ≡ a % 2 ^ w
and_from-mask zero w zero h = sym (mod-eq_of_lt (pow_pos w))
and_from-mask zero w (suc a) h = absurd (omega arith)
and_from-mask (suc n) w zero h = sym (mod-eq_of_lt (pow_pos w))
and_from-mask (suc n) zero (suc a) h = omega (arith, and_from_le (suc n) (suc a) 0)
and_from-mask (suc n) (suc w) (suc a) h =
    let double : 2 ^ suc w ≡ 2 * 2 ^ w = omega (arith, pow-succ' 2 w) in
    let rest : (2 ^ suc w - 1) / 2 ≡ 2 ^ w - 1 = omega (arith, pow_pos w) in
    let last : (2 ^ suc w - 1) % 2 ≡ 1 = omega (arith, pow_pos w) in
    let ih = and_from-mask n w (suc a / 2) (omega arith) in
    rw (rest, last, ih, double) (omega (arith, mod_double (suc a) (2 ^ w) (pow_pos w)))

-- For a size that is a power of 2, `& (size - 1)` is the remainder by the size.
pub bit_and-mask : (k w c : ℕ) → k ≡ 2 ^ w → bit_and c (k - 1) ≡ c % k
bit_and-mask k w c e = rw e (bit_and-bitwise c (2 ^ w - 1) ∙ and_from-mask c w c (omega arith))
