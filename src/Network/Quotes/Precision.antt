-- ===== src/Network/Quotes/Precision.antt =====
-- The quotient of two numbers to 28 digits, rounded up to stroops (`infrastructure/billing/stellar.py`).
use native.Mathlib.Nat.{
  pow-le-pow_right, pow-succ', one-le-pow, le_of_mul-le-mul_right, mul-lt-mul_of_pos_right,
  mul-le-mul_right, div-mul-le_self,
}
use code_zard.Prelude.{
  ◌∙◌, ℕ, zero, suc, ◌+◌, ◌-◌, ◌*◌, ◌/◌, ◌^◌, ◌≤◌, ◌<◌, ◌==◌, false, ◌≡◌, refl, sym, ap, arith,
  Bool-cases, inl, inr, leb, ltb,
}
use code_zard.Prelude.Rounding.{digits_in, round_half_even, round_up}
use code_zard.Prelude.Rounding.Bounds.{round_half_even_lem, round_up_lem, ten_pow_add, digits_in-le}
use code_zard.Network.Amounts.{places_below, quotient, stroops}

module _ (a b fine coarse q n : ℕ) where
  cancelled :
      0 < coarse
      → q * coarse ≤ n * (coarse * fine)
      → n * (coarse * fine) < q * coarse + coarse * fine
      → (q ≤ n * fine) × (n * fine < q + fine)
  cancelled hc under over = (
    le_of_mul-le-mul_right {m = q} {n = n * fine} {k = coarse} (grind arith) hc,
    elim (Bool-cases (ltb (n * fine) (q + fine))) [
      | inl less ↦ ground arith
      | inr more ↦
          absurd
            (grind (arith, mul-le-mul_right {m = q + fine} {n = n * fine} coarse (ground arith)))
    ],
  )

  -- Rounding a fraction to a fine enough unit, and the result up to a coarser one, covers the fraction
  -- and exceeds it by less than the coarse unit.
  refined_up :
      0 < b
      → 0 < coarse
      → b < 2 * fine
      → 2 * (q * b) ≤ 2 * (a * (coarse * fine)) + b
      → 2 * (a * (coarse * fine)) ≤ 2 * (q * b) + b
      → q * coarse ≤ n * (coarse * fine)
      → n * (coarse * fine) < q * coarse + coarse * fine
      → (a * coarse ≤ n * b) × (n * b < a * coarse + b)
  refined_up hb hc close low high under over =
      let (least, most) = cancelled hc under over in
      let least_b : q * b ≤ n * fine * b = mul-le-mul_right b least in
      let most_b : (n * fine + 1) * b ≤ (q + fine) * b = mul-le-mul_right b (omega arith) in
      (
        elim (Bool-cases (leb (a * coarse) (n * b))) [
          | inl covers ↦ ground arith
          | inr short ↦
              absurd (
                grind
                  (arith, mul-le-mul_right {m = n * b + 1} {n = a * coarse} fine (ground arith)))
        ],
        elim (Bool-cases (ltb (n * b) (a * coarse + b))) [
          | inl close_by ↦ ground arith
          | inr far ↦
              absurd (
                grind
                  (arith, mul-le-mul_right {m = a * coarse + b} {n = n * b} fine (ground arith)))
        ],
      )

tenfold : (a k : ℕ) → a * 10 ^ suc k ≡ a * 10 * 10 ^ k
tenfold a k = rw (pow-succ' 10 k) (grind arith)

places_below-le : (fuel a b : ℕ) → b ≤ a * 10 ^ fuel → b ≤ a * 10 ^ places_below fuel a b
unfolding places_below
places_below-le zero a b h = h
places_below-le (suc fuel) a b h = elim (Bool-cases (leb b a)) [
  | inl reached ↦ let enough : b ≤ a = ground arith in rw reached (omega (arith, enough))
  | inr below ↦
      rw (below, tenfold a (places_below fuel (a * 10) b))
        (places_below-le fuel (a * 10) b (rw (tenfold a fuel) at h))
]

le-ten_pow : (n : ℕ) → n < 10 ^ n
le-ten_pow zero = omega arith
le-ten_pow (suc n) = omega (arith, pow-succ' 10 n, le-ten_pow n)

module _ (a b : ℕ) (some_a : 0 < a) (some_b : 0 < b) (bounded : a < 2 * 10 ^ 20) where
  -- The scale of a quotient leaves room for rounding to the nearest.
  abbrev RoomAt : ℕ → Type 0
  RoomAt s = (quotient a b ≡ (round_half_even (a * 10 ^ (7 + s)) b, 7 + s)) × (b < 2 * 10 ^ s)

  below_one : digits_in (a / b) (a / b) ≡ 0 → RoomAt (20 + places_below b a b)
  unfolding quotient
  below_one none_before =
      let z = places_below b a b in
      let reaches : b ≤ a * 10 ^ z =
        places_below-le b a b
          (grind (arith, le-ten_pow b, mul-le-mul_right {m = 1} {n = a} (10 ^ b) some_a)) in
      let split : 10 ^ (20 + z) ≡ 10 ^ 20 * 10 ^ z = ten_pow_add 20 z in
      let more : a * 10 ^ z < 2 * 10 ^ 20 * 10 ^ z =
        mul-lt-mul_of_pos_right bounded (one-le-pow z 10 (omega arith)) in
      let same_scale : 7 + (20 + z) ≡ 27 + z = omega arith in
      (rw (none_before, same_scale) refl, rw split (grind arith))

  whole_pos : (size : ℕ) → digits_in (a / b) (a / b) ≡ size → 0 < size → 0 < a / b
  unfolding digits_in
  whole_pos size is_size some_size = elim (Bool-cases (a / b == 0)) [
    | inr more ↦ ground arith
    | inl none_before ↦
        let nothing : a / b ≡ 0 = ground arith in
        absurd (omega (arith, is_size, ap (λ (x : ℕ). digits_in x x) nothing))
  ]

  above_one : (size : ℕ) → digits_in (a / b) (a / b) ≡ size → 0 < size → RoomAt (21 - size)
  unfolding quotient
  above_one size is_size some_size =
      let w = a / b in
      let positive : 0 < w = whole_pos size is_size some_size in
      let lower : 10 ^ size ≤ 10 * w = rw (← is_size) (digits_in-le w w positive) in
      let below : w * b ≤ a = div-mul-le_self a b in
      let small : w ≤ a = grind arith in
      let room : size ≤ 21 = elim (Bool-cases (leb size 21)) [
        | inl fits ↦ ground arith
        | inr large ↦ absurd (
            omega
              (arith, pow-le-pow_right {n = 10} (omega arith) {i = 22} {j = size} (ground arith)))
      ] in
      let split : 10 ^ (21 - size) * 10 ^ size ≡ 10 ^ 21 =
        let whole : (21 - size) + size ≡ 21 = omega arith in
        sym (ten_pow_add (21 - size) size) ∙ ap (λ (x : ℕ). 10 ^ x) whole in
      let close : b * 10 ^ size < 2 * 10 ^ 21 = grind (arith, mul-le-mul_right b lower) in
      let same_scale : 7 + (21 - size) ≡ 28 - size = omega arith in
      let some_digits : (size == 0) ≡ false = ground arith in
      let fits : ltb 28 size ≡ false = ground arith in
      (
        rw (is_size, some_digits, fits, same_scale) refl,
        elim (Bool-cases (ltb b (2 * 10 ^ (21 - size)))) [
          | inl less ↦ ground arith
          | inr not_less ↦ absurd (
              grind (
                arith,
                mul-le-mul_right {m = 2 * 10 ^ (21 - size)} {n = b} (10 ^ size) (ground arith),
              ))
        ],
      )

  room_lem : (s : ℕ) × RoomAt s
  room_lem = elim (Bool-cases (digits_in (a / b) (a / b) == 0)) [
    | inl none_before ↦ (20 + places_below b a b, below_one (ground arith))
    | inr more ↦ (21 - digits_in (a / b) (a / b), above_one _ refl (ground arith))
  ]

  -- The quotient to 28 digits, rounded up to stroops, covers the fraction by less than a stroop.
  pub quotient_covers :
      let (q, s) = quotient a b in
      (a * 10 ^ 7 ≤ stroops q (10 ^ s) * b) × (stroops q (10 ^ s) * b < a * 10 ^ 7 + b)
  quotient_covers =
      let (s, (is_quotient, close)) = room_lem in
      let fine = 10 ^ s in
      let unit : 10 ^ (7 + s) ≡ 10 ^ 7 * fine = ten_pow_add 7 s in
      let q = round_half_even (a * (10 ^ 7 * fine)) b in
      let (low, high) = round_half_even_lem (a * (10 ^ 7 * fine)) b some_b in
      let (under, over) =
        round_up_lem (q * 10 ^ 7) (10 ^ 7 * fine) (omega (arith, one-le-pow s 10 (omega arith))) in
      rw (is_quotient, unit)
        (refined_up a b fine (10 ^ 7) q (round_up (q * 10 ^ 7) (10 ^ 7 * fine)) some_b (omega arith)
          close low high under over)
