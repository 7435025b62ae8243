-- ===== src/LibTool.antt =====
-- Rubbish_cycler/MonitorServer/src/Lib_tool.cpp: the powers and the logarithms of the rules' moduli.
pub mod Powers
pub mod Logs
mod Tests
use terry.Base.{
  ℕ, zero, suc, ◌+◌, ◌*◌, ◌%◌, ◌^◌, leb, ◌==◌, if◌then◌else◌, Run, ok, out_of_fuel, u32_mod,
}
use terry.Base.Int.{ℤ, pos, negsuc}

-- The loop of cs_pow.
unfoldable pub pow_from : ℕ → ℕ → ℕ → ℕ
pow_from zero base ret = ret
pow_from (suc count) base ret = pow_from count base (ret * base % u32_mod)

-- The parameters are a uint16_t and a uint8_t.
unfoldable pub cs_pow : ℕ → ℕ → ℕ
cs_pow value base = pow_from (value % 2 ^ 16) (base % 2 ^ 8) 1

-- The loop of cs_log, and its result.
unfoldable pub log_from : ℕ → ℕ → ℕ → ℕ → ℕ → Run ℤ
log_from zero value base i pow_value = out_of_fuel
log_from (suc fuel) value base i pow_value =
    let next = cs_pow i base in
    let rest = log_from fuel value base (i + 1) next in
    if leb pow_value value then (if value == next then ok (pos i) else rest) else ok (negsuc 0)

unfoldable pub cs_log : ℕ → ℕ → ℕ → Run ℤ
cs_log fuel value base = log_from fuel value base 0 0
