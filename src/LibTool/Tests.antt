-- ===== src/LibTool/Tests.antt =====
-- Runs of the powers and logarithms on small inputs.
use terry.Base.{◌+◌, ◌^◌, ◌≡◌, refl, arith, ok, out_of_fuel, Returns}
use terry.Base.Int.{pos, negsuc}
use terry.LibTool.{pow_from, cs_pow, log_from, cs_log}
use terry.LibTool.Logs.{IsLog, cs_log-IsLog, cs_log-runs_on}

program : Unit {0}
unfolding pow_from cs_pow log_from cs_log
program = tt

cs_log_8 : cs_log 33 8 2 ≡ ok (pos 3)
unfolding program
cs_log_8 = refl

cs_log_6 : cs_log 33 6 2 ≡ ok (negsuc 0)
unfolding program
cs_log_6 = refl

cs_log-IsLog_example : Returns (IsLog 8) (cs_log 33 8 2)
cs_log-IsLog_example = cs_log-IsLog 8 (omega arith)

cs_log-runs_on_example : cs_log 1000 (2 ^ 31 + 1) 2 ≡ out_of_fuel
cs_log-runs_on_example = cs_log-runs_on 1000 (2 ^ 31 + 1) (omega arith)
