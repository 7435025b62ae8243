-- ===== src/LibTool/Powers.antt =====
-- Rubbish_cycler/MonitorServer/src/Lib_tool.cpp: the loop of cs_pow computes a power, modulo 2^32.
use terry.Base.{
  ℕ, zero, suc, ◌+◌, ◌-◌, ◌*◌, ◌/◌, ◌%◌, ◌^◌, ◌≡◌, ◌≤◌, ◌<◌, refl, sym, ◌∙◌, ap, arith, u32_mod,
  if◌then◌else◌, ltb, lt→ltb, ge→ltb, dec_lt,
}
use native.Mathlib.Nat.{
  pow-zero, mul-one, pow-suc, pow-succ', mod-add-div', add-mul-mod_self_right, mod-eq_of_lt,
  pow-le-pow_right, mul-mod_left, add-mul, mul_assoc, mul_right_comm,
}
use terry.LibTool.{pow_from, cs_pow}

mul_mod : (x y m : ℕ) → x % m * y % m ≡ x * y % m
mul_mod x y m =
    let halves = add-mul (x % m) (x / m * m) y in
    let turned = ap (λ z. x % m * y + z) (mul_right_comm (x / m) m y) in
    let split : x % m * y + x / m * y * m ≡ x * y =
      sym (halves ∙ turned) ∙ ap (λ z. z * y) (mod-add-div' x m) in
    sym (add-mul-mod_self_right (x % m * y) (x / m * y) m) ∙ ap (λ z. z % m) split

pow_from_eq :
    (count base ret : ℕ) → ret < u32_mod → pow_from count base ret ≡ ret * base ^ count % u32_mod
unfolding pow_from
pow_from_eq zero base ret h =
    let same : ret * base ^ 0 ≡ ret = ap (λ z. ret * z) (pow-zero base) ∙ mul-one ret in
    sym (ap (λ z. z % u32_mod) same ∙ mod-eq_of_lt h)
pow_from_eq (suc count) base ret h =
    pow_from_eq count base (ret * base % u32_mod) (omega arith)
    ∙ mul_mod (ret * base) (base ^ count) u32_mod
    ∙ ap (λ z. z % u32_mod)
        (mul_assoc ret base (base ^ count) ∙ ap (λ z. ret * z) (sym (pow-succ' base count)))

-- For an exponent of 16 bits and a base of 8 bits: cs_pow is the power modulo 2^32.
pub cs_pow_lem :
    (value base : ℕ) → value < 2 ^ 16 → base < 2 ^ 8 → cs_pow value base ≡ base ^ value % u32_mod
unfolding cs_pow
cs_pow_lem value base v b =
    rw (mod-eq_of_lt v, mod-eq_of_lt b)
      (pow_from_eq value base 1 (omega arith) ∙ ap (λ z. z % u32_mod) (omega arith))

pow_high : (k : ℕ) → 2 ^ (k + 32) ≡ 2 ^ k * u32_mod
pow_high zero = refl
pow_high (suc k) =
    let turn : suc k + 32 ≡ suc (k + 32) = omega arith in
    ap (λ z. 2 ^ z) turn
    ∙ pow-suc 2 (k + 32)
    ∙ ap (λ z. z * 2) (pow_high k)
    ∙ mul_right_comm (2 ^ k) u32_mod 2
    ∙ ap (λ z. z * u32_mod) (sym (pow-suc 2 k))

pub below_32 : (k : ℕ) → k < 32 → 2 ^ k < u32_mod
below_32 k h =
    let few : k ≤ 31 = omega arith in
    let two : 0 < 2 = omega arith in
    let le : 2 ^ k ≤ 2 ^ 31 = pow-le-pow_right two few in omega (arith, le)

-- A power of two in 32 bits.
pub cs_pow_two :
    (value : ℕ) → value < 2 ^ 16 → cs_pow value 2 ≡ (if ltb value 32 then 2 ^ value else 0)
cs_pow_two value v = cs_pow_lem value 2 v (omega arith) ∙ elim (dec_lt value 32) [
  | yes low ↦ rw (lt→ltb value 32 low) (mod-eq_of_lt (below_32 value low))
  | no high ↦ rw (ge→ltb value 32 (omega arith)) (
      let back : value - 32 + 32 ≡ value = omega arith in
      ap (λ z. 2 ^ z % u32_mod) (sym back)
      ∙ ap (λ z. z % u32_mod) (pow_high (value - 32))
      ∙ mul-mod_left (2 ^ (value - 32)) u32_mod)
]
