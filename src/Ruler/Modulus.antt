-- ===== src/Ruler/Modulus.antt =====
-- Rubbish_cycler/MonitorServer/src/RulerManager.h and Lib_tool.cpp: the modulus that the server's start
-- computes from the number of buckets, and the number that the manager computes from it.
use terry.Base.{
  ℕ, ◌^◌, ◌≡◌, ◌<◌, refl, sym, ◌∙◌, ap, arith, lt→ltb, dec_lt, ok, Returns, returns, Returns-inv,
}
use terry.Base.Int.{ℤ, pos}
use terry.LibTool.{cs_pow, cs_log}
use terry.LibTool.Powers.{cs_pow_two}
use terry.LibTool.Logs.{IsLog, exact, no_power, cs_log-IsLog, two_le}
use terry.Ruler.{RuleType, mu_ruler, su_ruler, other_type, RulerManager, set_current_mod}
use terry.Ruler.Moves.{own, IsKept, mu_kept, su_kept}

-- The exponent of a number that is a power of two.
log_power : (value k : ℕ) {r : ℤ} → IsLog value r → r ≡ pos k → value ≡ 2 ^ k
log_power value k (exact j e) same = let e' : j ≡ k = cc in e ∙ ap (λ x. 2 ^ x) e'
log_power value k (no_power h) same = cc

log_value : (value k : ℕ) → value < 2 ^ 31 → cs_log 33 value 2 ≡ ok (pos k) → value ≡ 2 ^ k
log_value value k small e =
    let (r, run, good) = Returns-inv (cs_log-IsLog value small) in
    let same : r ≡ pos k = cc in log_power value k good same

small_exponent : (value k : ℕ) → value < 2 ^ 31 → value ≡ 2 ^ k → k < 31
small_exponent value k small e = elim (dec_lt k 31) [
  | yes low ↦ low
  | no high ↦ absurd (omega (arith, two_le 31 k (omega arith), e))
]

buckets_back : (value k : ℕ) → value < 2 ^ 31 → value ≡ 2 ^ k → cs_pow k 2 ≡ value
buckets_back value k small power =
    let low = small_exponent value k small power in
    cs_pow_two k (omega arith) ∙ rw (lt→ltb k 32 (omega arith)) (sym power)

-- For a number of buckets below 2^31 whose modulus cs_log finds, and the MU or the SU rules: setting
-- that modulus returns, and the manager has the modulus and computes the number of buckets again.
pub set_current_mod-cs_log :
    (type : RuleType) (value k : ℕ) (m : RulerManager)
    → IsKept type
    → value < 2 ^ 31
    → cs_log 33 value 2 ≡ ok (pos k)
    → Returns
        (λ after.
          ((own type after).current_bucket_number ≡ value) × ((own type after).current_mod ≡ k))
        (set_current_mod type k m)
unfolding set_current_mod
set_current_mod-cs_log mu_ruler value k m mu_kept small found =
    let power = log_value value k small found in returns (buckets_back value k small power, refl)
set_current_mod-cs_log su_ruler value k m su_kept small found =
    let power = log_value value k small found in returns (buckets_back value k small power, refl)
set_current_mod-cs_log other_type value k m kept small found = elim kept [ ]
