-- ===== src/LibTool/Logs.antt =====
-- Rubbish_cycler/MonitorServer/src/Lib_tool.cpp: when the loop of cs_log ends, and when it does not.
use terry.Base.{
  ℕ, zero, suc, ◌+◌, ◌%◌, ◌^◌, ◌≡◌, ◌≢◌, ◌≤◌, ◌<◌, refl, ◌∙◌, ap, inl, inr, true, false, arith,
  if◌then◌else◌, ltb, leb, ◌==◌, lt→ltb, ge→ltb, dec_lt, ℕ_discrete, out_of_fuel, Returns, returns,
  Bool-cases, ==_iff,
}
use terry.Base.Int.{ℤ, pos, negsuc}
use native.Mathlib.Nat.{pow-le-pow_right, mod-eq_of_lt}
use terry.LibTool.{cs_pow, log_from, cs_log}
use terry.LibTool.Powers.{cs_pow_two}

-- The exponent of a power of two, and -1 for every other number.
pub data IsLog (value : ℕ) : ℤ → Type 0 where
  exact : (k : ℕ) → value ≡ 2 ^ k → IsLog value (pos k)
  no_power : ((k : ℕ) → value ≢ 2 ^ k) → IsLog value (negsuc 0)

-- What `pow_value` is at the start of a round.
data IsLast (i : ℕ) : ℕ → Type 0 where
  first : i ≡ 0 → IsLast i 0
  later : (j : ℕ) → i ≡ j + 1 → j < 32 → IsLast i (2 ^ j)

pub two_le : (j k : ℕ) → j ≤ k → 2 ^ j ≤ 2 ^ k
two_le j k h = let two : 0 < 2 = omega arith in pow-le-pow_right two h

-- The power that a round computes, while it has 32 bits.
next_power : (i : ℕ) → i < 32 → cs_pow i 2 ≡ 2 ^ i
next_power i h = cs_pow_two i (omega arith) ∙ rw (lt→ltb i 32 h) refl

-- The number of rounds is below 32 as long as the loop goes on.
few_rounds : (i p value : ℕ) → IsLast i p → p ≤ value → value < 2 ^ 31 → i < 32
few_rounds i p value (first e) le small = omega arith
few_rounds i p value (later j e b) le small = elim (dec_lt j 31) [
  | yes low ↦ omega arith
  | no high ↦ absurd (omega (arith, two_le 31 j (omega arith)))
]

past_powers :
    (i p value : ℕ)
    → IsLast i p
    → value < p
    → ((k : ℕ) → k < i → value ≢ 2 ^ k)
    → (k : ℕ) → value ≢ 2 ^ k
past_powers i p value (first e) h before k = λ same. omega arith
past_powers i p value (later j e b) h before k = elim (dec_lt k i) [
  | yes low ↦ before k low
  | no high ↦ λ same. omega (arith, two_le j k (omega arith))
]

round_bound : (i p : ℕ) → IsLast i p → ¬ (i ≡ 33)
round_bound i p (first e) = λ h. omega arith
round_bound i p (later j e b) = λ h. omega arith

one_more :
    (value i : ℕ)
    → (value == 2 ^ i) ≡ false
    → ((k : ℕ) → k < i → value ≢ 2 ^ k)
    → (k : ℕ) → k < i + 1
    → value ≢ 2 ^ k
one_more value i miss before k h = elim (ℕ_discrete k i) [
  | yes last ↦ λ same. let hit : value ≡ 2 ^ i = same ∙ ap (λ x. 2 ^ x) last in ground arith
  | no lower ↦ before k (omega arith)
]

log_from-IsLog :
    (fuel value i p : ℕ)
    → value < 2 ^ 31
    → i + fuel ≡ 33
    → IsLast i p
    → ((k : ℕ) → k < i → value ≢ 2 ^ k)
    → Returns (IsLog value) (log_from fuel value 2 i p)
unfolding log_from
log_from-IsLog zero value i p small total last before =
    absurd (round_bound i p last (omega (arith, total)))
log_from-IsLog (suc fuel) value i p small total last before = elim (Bool-cases (leb p value)) [
  | inr over ↦ rw over (returns (no_power (past_powers i p value last (ground arith) before)))
  | inl under ↦
      let few = few_rounds i p value last (ground arith) small in
      let next = next_power i few in
      elim (Bool-cases (value == 2 ^ i)) [
        | inl hit ↦ rw (under, next, hit) (returns (exact i ((==_iff value (2 ^ i)).0 hit)))
        | inr miss ↦
            rw (under, next, miss)
              (log_from-IsLog fuel value (i + 1) (2 ^ i) small (omega arith) (later i refl few)
                (one_more value i miss before))
      ]
]

-- For every number below 2^31: cs_log with base 2 ends after at most 33 rounds, and returns the
-- exponent of a power of two and -1 for every other number.
pub cs_log-IsLog : (value : ℕ) → value < 2 ^ 31 → Returns (IsLog value) (cs_log 33 value 2)
unfolding cs_log
cs_log-IsLog value small =
    log_from-IsLog 33 value 0 0 small refl (first refl) (λ k h. absurd (omega arith))

low_power : (i : ℕ) → cs_pow i 2 ≤ 2 ^ 31
unfolding cs_pow
low_power i =
    let v = i % 2 ^ 16 in
    let small : v < 2 ^ 16 = omega arith in
    let same : cs_pow i 2 ≡ cs_pow v 2 = rw (mod-eq_of_lt small) refl in
    rw (same, cs_pow_two v small) (low_case v)
  where
    low_case : (v : ℕ) → (if ltb v 32 then 2 ^ v else 0) ≤ 2 ^ 31
    low_case v = elim (dec_lt v 32) [
      | yes low ↦ rw (lt→ltb v 32 low) (two_le v 31 (omega arith))
      | no high ↦ rw (ge→ltb v 32 (omega arith)) (omega arith)
    ]

log_from-runs_on :
    (fuel value i p : ℕ) → 2 ^ 31 < value → p ≤ 2 ^ 31 → log_from fuel value 2 i p ≡ out_of_fuel
unfolding log_from
log_from-runs_on zero value i p large low = refl
log_from-runs_on (suc fuel) value i p large low =
    let under : leb p value ≡ true = ground arith in
    let next = low_power i in
    let miss : (value == cs_pow i 2) ≡ false = ground (arith, next) in
    rw (under, miss) (log_from-runs_on fuel value (i + 1) (cs_pow i 2) large next)

-- For every number above 2^31: no number of rounds is enough for cs_log with base 2, since the powers
-- in 32 bits stay below it.
pub cs_log-runs_on : (fuel value : ℕ) → 2 ^ 31 < value → cs_log fuel value 2 ≡ out_of_fuel
unfolding cs_log
cs_log-runs_on fuel value large = log_from-runs_on fuel value 0 0 large (omega arith)
