-- ===== src/Ruler.antt =====
-- Rubbish_cycler/MonitorServer/src/RulerManager.cpp and RulerManager.h: the class RulerManager, with
-- the table of the bucket rules and the table of the orders for the MU and the SU nodes. The arrays
-- of two elements are the fields `mu` and `su`; OTHER_TYPE is outside of them.
pub mod Orders
pub mod Extension
pub mod Spoiled
pub mod Moves
pub mod Modulus
mod Tests
use terry.Base.{
  ℕ, zero, suc, ◌+◌, ◌*◌, ◌%◌, Bool, true, false, Option, none, some, List, [], ◌∷◌, ltb, leb, ◌==◌,
  ◌||◌, if◌then◌else◌, length, get_or, Run, ok, fault, ◌>>=◌, u32_mod,
}
use terry.Base.Int.{ℤ, pos, negsuc}
use terry.LibTool.{cs_pow}
use terry.Base.Vector
use terry.Base.Vector.{Vector, empty, capacity}

-- RULE_TYPE
pub data RuleType : Type 0 where
  mu_ruler su_ruler other_type : RuleType

-- OP_CMD
pub data OpCmd : Type 0 where
  migration_cmd extent_cmd undefined_cmd : OpCmd

-- HashRule; `ip` has max_ip_num elements.
pub record HashRule : Type 0 where
  pub bucket_nr : ℕ
  pub ip : List ℕ

pub record MigrationInfo : Type 0 where
  pub bucket_nr : ℕ
  pub src_ip : ℕ
  pub dest_ip : ℕ

pub record ExtentInfo : Type 0 where
  pub new_mod : ℕ

-- The union in OrderRule, by the member that was written; `no_order` where none was.
pub data Order : Type 0 where
  migration : MigrationInfo → Order
  extent : ExtentInfo → Order
  no_order : Order

pub record OrderRule : Type 0 where
  pub cmd : OpCmd
  pub version : ℕ
  pub order : Order

abbrev pub max_ip_num : ℕ
max_ip_num = 5

abbrev pub invalid_ip : ℕ
invalid_ip = 0

abbrev pub init_vec_size : ℕ
init_vec_size = 512

-- What the manager keeps for one type of nodes.
pub record Rules : Type 0 where
  pub current_version : ℕ
  pub current_mod : ℕ
  pub current_bucket_number : ℕ
  pub hash_table : Vector HashRule
  pub order_table : Vector OrderRule

pub record RulerManager : Type 0 where
  pub mu : Rules
  pub su : Rules
  -- Whether set_dead_line has been called, which sends the process a SIGINT.
  pub is_dying : Bool

-- The constructor.
abbrev pub new_rules : Rules
new_rules = record {
  current_version = 0;
  current_mod = 0;
  current_bucket_number = 0;
  hash_table = empty;
  order_table = empty;
}

unfoldable pub new : RulerManager
new = record { mu = new_rules; su = new_rules; is_dying = false }

-- The elements for a type of the arrays of two.
abbrev pub rules_of : RuleType → RulerManager → Run Rules
rules_of mu_ruler m = ok m.mu
rules_of su_ruler m = ok m.su
rules_of other_type m = fault

abbrev pub set_rules : RuleType → Rules → RulerManager → RulerManager
set_rules mu_ruler r m = record m { mu = r }
set_rules su_ruler r m = record m { su = r }
set_rules other_type r m = m

abbrev pub set_dead_line : RulerManager → RulerManager
set_dead_line m = record m { is_dying = true }

-- init_rule for the tables of one type.
unfoldable pub init_tables : Rules → Run Rules
init_tables r = do
  orders ←
      Vector.write 0 (record { cmd = undefined_cmd; version = 0; order = no_order })
        (Vector.reserve init_vec_size r.order_table)
  ok (record r { order_table = orders; hash_table = Vector.reserve init_vec_size r.hash_table })

unfoldable pub init_rule : RulerManager → Run RulerManager
init_rule m = do su ← init_tables m.su; mu ← init_tables m.mu; ok (record m { mu = mu; su = su })

-- `clear` of both tables, and the counters.
unfoldable pub cleared : Rules → Rules
cleared r = record {
  current_version = 0;
  current_mod = 0;
  current_bucket_number = 0;
  hash_table = Vector.clear r.hash_table;
  order_table = Vector.clear r.order_table;
}

unfoldable pub init_system_rule : RuleType → RulerManager → RulerManager
init_system_rule mu_ruler m = record m { mu = cleared m.mu }
init_system_rule su_ruler m = record m { su = cleared m.su }
init_system_rule other_type m = m

unfoldable pub set_current_version : RuleType → ℕ → RulerManager → Run RulerManager
set_current_version type new_version m = do
  r ← rules_of type m
  ok (set_rules type (record r { current_version = new_version }) m)

unfoldable pub set_current_mod : RuleType → ℕ → RulerManager → Run RulerManager
set_current_mod type new_mod m = do
  r ← rules_of type m
  let buckets = cs_pow new_mod 2
  ok (set_rules type (record r { current_mod = new_mod; current_bucket_number = buckets }) m)

unfoldable pub should_init : RuleType → RulerManager → Run Bool
should_init type m = do r ← rules_of type m; ok (r.current_bucket_number == 0)

-- The rule, or `none` where the call returns -1.
unfoldable pub get_hash_rule : ℕ → RuleType → RulerManager → Run (RulerManager × Option HashRule)
get_hash_rule bucket_nr type m = do
  r ← rules_of type m
  if leb r.current_bucket_number bucket_nr then ok (m, none) else (do
    rule ← Vector.read bucket_nr r.hash_table
    ok (if rule.bucket_nr == bucket_nr then m else set_dead_line m, some rule))

-- The order, or `none` where the call returns -1.
unfoldable pub get_order_rule : ℕ → RuleType → RulerManager → Run (RulerManager × Option OrderRule)
get_order_rule version type m = do
  r ← rules_of type m
  if version == 0 || ltb r.current_version version then ok (m, none) else (do
    rule ← Vector.read version r.order_table
    ok (if rule.version == version then m else set_dead_line m, some rule))

-- The two additions to a table differ in the test whether the memory is large enough.
unfoldable pub add_new_hash_item : HashRule → RuleType → RulerManager → Run RulerManager
add_new_hash_item rule mu_ruler m = do
  let index = rule.bucket_nr
  let table = m.mu.hash_table
  let room =
      if leb (capacity table) index then Vector.reserve ((index * 2 + 1) % u32_mod) table else table
  written ← Vector.write index rule room
  ok (record m { mu = record m.mu { hash_table = written } })
add_new_hash_item rule su_ruler m = do
  let index = rule.bucket_nr
  let table = m.su.hash_table
  let room =
      if ltb (capacity table) index then Vector.reserve ((index * 2 + 1) % u32_mod) table else table
  written ← Vector.write index rule room
  ok (record m { su = record m.su { hash_table = written } })
add_new_hash_item rule other_type m = ok m

unfoldable pub add_new_order_item : OrderRule → RuleType → RulerManager → Run RulerManager
add_new_order_item rule mu_ruler m = do
  let index = rule.version
  let table = m.mu.order_table
  let room =
      if leb (capacity table) index then Vector.reserve ((index * 2 + 1) % u32_mod) table else table
  written ← Vector.write index rule room
  ok (record m { mu = record m.mu { order_table = written } })
add_new_order_item rule su_ruler m = do
  let index = rule.version
  let table = m.su.order_table
  let room =
      if leb (capacity table) index then Vector.reserve ((index * 2 + 1) % u32_mod) table else table
  written ← Vector.write index rule room
  ok (record m { su = record m.su { order_table = written } })
add_new_order_item rule other_type m = ok m
