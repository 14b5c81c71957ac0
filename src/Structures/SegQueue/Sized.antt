-- ===== src/Structures/SegQueue/Sized.antt =====
-- Which sizes the constructor of the segmented queue takes.
use Prim.Native.Nat.{bit_and, bit_and-bitwise}
use native.Mathlib.Nat.{pow-succ'}
use rustcurrent.Prelude.{
  ℕ, zero, suc, ◌+◌, ◌-◌, ◌*◌, ◌/◌, ◌%◌, ◌^◌, ◌<◌, ◌≤◌, ◌≡◌, refl, sym, ap, ◌∙◌, ◌⊎◌, inl, inr,
  arith, returns, panics, ◌==◌, ==_iff, Bool-cases,
}
use rustcurrent.Structures.Order.Mask.{and_from, pow_pos}
use rustcurrent.Structures.SegQueue.{built, complement, new_seg_queue}

abbrev pub IsPower : ℕ → Type 0
IsPower k = (w : ℕ) × (k ≡ 2 ^ w)

double : (w : ℕ) → 2 ^ suc w ≡ 2 * 2 ^ w
double w = omega (arith, pow-succ' 2 w)

-- A number and its complement have no digit in common.
and_from-complement : (n v j : ℕ) → j ≤ n → j < 2 ^ v → and_from n j (2 ^ v - 1 - j) ≡ 0
and_from-complement zero v j h small = refl
and_from-complement (suc n) v zero h small = refl
and_from-complement (suc n) zero (suc a) h small = absurd (omega arith)
and_from-complement (suc n) (suc v) (suc a) h small =
    let half : (2 ^ suc v - 1 - suc a) / 2 ≡ 2 ^ v - 1 - suc a / 2 =
      omega (arith, double v, small) in
    let digit : (2 ^ suc v - 1 - suc a) % 2 ≡ 1 - suc a % 2 = omega (arith, double v, small) in
    let rest = and_from-complement n v (suc a / 2) (omega arith) (omega (arith, double v, small)) in
    rw (half, digit, rest) (omega arith)

-- The lowest digit 1 of a number is all of it only when the number is a power of 2.
and_from-IsPower :
    (n v k : ℕ) → k ≤ n → 0 < k → k < 2 ^ v → and_from n k (2 ^ v - k) ≡ k → IsPower k
and_from-IsPower n v zero h pos small e = absurd (omega arith)
and_from-IsPower zero v (suc a) h pos small e = absurd (omega arith)
and_from-IsPower (suc n) zero (suc a) h pos small e = absurd (omega arith)
and_from-IsPower (suc n) (suc v) (suc a) h pos small e = elim (Bool-cases (suc a % 2 == 0)) [
  | inl even ↦
      let zero_digit : suc a % 2 ≡ 0 = (==_iff (suc a % 2) 0).0 even in
      let half : (2 ^ suc v - suc a) / 2 ≡ 2 ^ v - suc a / 2 =
        omega (arith, double v, small, zero_digit) in
      let same : and_from n (suc a / 2) (2 ^ v - suc a / 2) ≡ suc a / 2 =
        ap (λ b. and_from n (suc a / 2) b) (sym half) ∙ omega (arith, e, zero_digit) in
      let (w, power) =
        and_from-IsPower n v (suc a / 2) (omega arith) (omega (arith, zero_digit))
          (omega (arith, double v, small)) same in
      (suc w, omega (arith, double w, power, zero_digit))
  | inr odd ↦
      let one_digit : suc a % 2 ≡ 1 = ground arith in
      let half : (2 ^ suc v - suc a) / 2 ≡ 2 ^ v - 1 - suc a / 2 =
        omega (arith, double v, small, one_digit) in
      let apart : and_from n (suc a / 2) ((2 ^ suc v - suc a) / 2) ≡ 0 =
        ap (λ b. and_from n (suc a / 2) b) half
        ∙ and_from-complement n v (suc a / 2) (omega arith) (omega (arith, double v, small)) in
      (0, omega (arith, e, apart))
]

and_from-power : (n v w k : ℕ) → k ≡ 2 ^ w → k ≤ n → k < 2 ^ v → and_from n k (2 ^ v - k) ≡ k
and_from-power n v w zero e h small = absurd (omega (arith, pow_pos w))
and_from-power zero v w (suc a) e h small = absurd (omega arith)
and_from-power (suc n) zero w (suc a) e h small = absurd (omega arith)
and_from-power (suc n) (suc v) zero (suc a) e h small =
    let half : (2 ^ suc v - suc a) / 2 ≡ 2 ^ v - 1 - suc a / 2 = omega (arith, double v, small) in
    let digit : (2 ^ suc v - suc a) % 2 ≡ 1 = omega (arith, double v, small) in
    let apart =
      and_from-complement n v (suc a / 2) (omega arith) (omega (arith, double v, small)) in
    rw (half, digit, apart) (omega arith)
and_from-power (suc n) (suc v) (suc w) (suc a) e h small =
    let half : (2 ^ suc v - suc a) / 2 ≡ 2 ^ v - suc a / 2 =
      omega (arith, double v, double w, small) in
    let digit : suc a % 2 ≡ 0 = omega (arith, double w) in
    let rest =
      and_from-power n v w (suc a / 2) (omega (arith, double w)) (omega arith)
        (omega (arith, double v, small)) in
    rw (half, rest) (omega (arith, digit))

-- The test of the constructor, for a word that is not 0.
tested :
    (k : ℕ)
    → 0 < k
    → k < 2 ^ 64
    → bit_and k (complement ((k + 2 ^ 64 - 1) % 2 ^ 64)) ≡ and_from k k (2 ^ 64 - k)
tested k pos small =
    let mask : complement ((k + 2 ^ 64 - 1) % 2 ^ 64) ≡ 2 ^ 64 - k = omega arith in
    ap (λ b. bit_and k b) mask ∙ bit_and-bitwise k (2 ^ 64 - k)

-- For a size of a word that is not 0, the constructor returns the queue with one segment of this size when the
-- size is a power of 2, and panics when it is not.
pub new_seg_queue-sized :
    {T : Type 0} (k : ℕ)
    → 0 < k
    → k < 2 ^ 64
    → (IsPower k × (new_seg_queue {T = T} k ≡ returns (built k)))
      ⊎ (¬ (IsPower k) × (new_seg_queue {T = T} k ≡ panics))
new_seg_queue-sized k pos small =
    let test = tested k pos small in
    elim (Bool-cases (bit_and k (complement ((k + 2 ^ 64 - 1) % 2 ^ 64)) == k)) [
      | inl same ↦ inl (
        and_from-IsPower k 64 k (omega arith) pos small (sym test ∙ (==_iff _ k).0 same),
        rw same refl,
      )
      | inr other ↦ inr (
        (λ (w, power).
            let same = (==_iff _ k).1 (test ∙ and_from-power k 64 w k power (omega arith) small) in
            cc),
        rw other refl,
      )
    ]
