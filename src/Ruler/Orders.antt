-- ===== src/Ruler/Orders.antt =====
-- Rubbish_cycler/MonitorServer/src/RulerManager.cpp: the migration of a bucket, the extension that
-- doubles the buckets, and the rules and orders that are set from outside.
use terry.Base.{
  ℕ, zero, suc, ◌+◌, ◌*◌, ◌%◌, Bool, true, false, Option, none, some, List, [], ◌∷◌, ltb, ◌==◌,
  if◌then◌else◌, length, drop, ◌^◌, Run, ok, fault, ◌>>=◌, u32_mod,
}
use terry.Base.Vector
use terry.Base.Vector.{Vector, empty, capacity}
use terry.Ruler.{
  RuleType, mu_ruler, su_ruler, other_type, OpCmd, migration_cmd, extent_cmd, undefined_cmd,
  HashRule, MigrationInfo, ExtentInfo, Order, migration, extent, no_order, OrderRule, max_ip_num,
  invalid_ip, RulerManager, rules_of, set_rules, set_dead_line, add_new_hash_item,
  add_new_order_item,
}

-- The loop over the addresses of a rule, and whether it has replaced one.
unfoldable pub replace_ip : ℕ → ℕ → List ℕ → List ℕ × Bool
replace_ip src dest [] = ([], false)
replace_ip src dest (ip ∷ ips) =
    let (rest, flag) = replace_ip src dest ips in
    if ip == invalid_ip
    then (ip ∷ ips, false)
    else if ip == src
    then (dest ∷ rest, true)
    else (ip ∷ rest, flag)

-- The rest of modify_rule_by_migration, from its loop on.
unfoldable pub move_rule :
    MigrationInfo → HashRule → Vector HashRule → Run (Option (Vector HashRule))
move_rule info rule table =
    let (ips, flag) = replace_ip info.src_ip info.dest_ip rule.ip in
    if flag
    then (do
      written ← Vector.write info.bucket_nr (record rule { ip = ips }) table
      ok (some written))
    else ok none

-- The result is whether the call succeeded: `true` for 0, `false` for -1. For another type the rule
-- has no address.
unfoldable pub modify_rule_by_migration :
    MigrationInfo → RuleType → RulerManager → Run (RulerManager × Bool)
modify_rule_by_migration info su_ruler m = do
  rule ← Vector.read info.bucket_nr m.su.hash_table
  if rule.bucket_nr == info.bucket_nr
      then (do
        changed ← move_rule info rule m.su.hash_table
        ok (elim changed [
          | none ↦ (m, false)
          | some table ↦ (record m { su = record m.su { hash_table = table } }, true)
        ]))
      else ok (set_dead_line m, false)
modify_rule_by_migration info mu_ruler m = do
  rule ← Vector.read info.bucket_nr m.mu.hash_table
  let checked = if rule.bucket_nr == info.bucket_nr then m else set_dead_line m
  changed ← move_rule info rule m.mu.hash_table
  ok (elim changed [
    | none ↦ (checked, false)
    | some table ↦ (record checked { mu = record m.mu { hash_table = table } }, true)
  ])
modify_rule_by_migration info other_type m = ok (m, false)

-- `m_current_version[type]++`
unfoldable pub next_version : RuleType → RulerManager → Run RulerManager
next_version type m = do
  r ← rules_of type m
  ok (set_rules type (record r { current_version = (r.current_version + 1) % u32_mod }) m)

unfoldable pub new_migration_order : ℕ → ℕ → ℕ → RuleType → RulerManager → Run RulerManager
new_migration_order bucket_nr src_ip dest_ip type m = do
  let info : MigrationInfo = record { bucket_nr = bucket_nr; src_ip = src_ip; dest_ip = dest_ip }
  (modified, done) ← modify_rule_by_migration info type m
  if done
      then (do
        r ← rules_of type modified
        let rule : OrderRule = record {
          cmd = migration_cmd;
          version = (r.current_version + 1) % u32_mod;
          order = migration info;
        }
        added ← add_new_order_item rule mu_ruler modified
        next_version type added)
      else ok modified

-- The loop of modify_rule_by_extent for the SU nodes, from bucket `i` on for `count` buckets.
unfoldable pub extend_su : ℕ → ℕ → ℕ → RulerManager → Run RulerManager
extend_su bucket_num zero i m = ok m
extend_su bucket_num (suc count) i m = do
  rule ← Vector.read i m.su.hash_table
  added ← add_new_hash_item (record rule { bucket_nr = i + bucket_num }) su_ruler m
  extend_su bucket_num count (i + 1) added

-- The loop for the MU nodes, which pushes each rule to the table and then adds it.
unfoldable pub extend_mu : ℕ → ℕ → ℕ → RulerManager → Run RulerManager
extend_mu bucket_num zero i m = ok m
extend_mu bucket_num (suc count) i m = do
  rule ← Vector.read i m.mu.hash_table
  let next : HashRule = record rule { bucket_nr = i + bucket_num }
  pushed ← Vector.push_back next m.mu.hash_table
  added ← add_new_hash_item next mu_ruler (record m { mu = record m.mu { hash_table = pushed } })
  extend_mu bucket_num count (i + 1) added

-- The rounds of the loops, whose bound is an `int`.
abbrev pub rounds : ℕ → ℕ
rounds bucket_num = if ltb bucket_num (2 ^ 31) then bucket_num else 0

unfoldable pub modify_rule_by_extent : RuleType → RulerManager → Run RulerManager
modify_rule_by_extent mu_ruler m =
    extend_mu m.mu.current_bucket_number (rounds m.mu.current_bucket_number) 0 m
modify_rule_by_extent su_ruler m =
    extend_su m.su.current_bucket_number (rounds m.su.current_bucket_number) 0 m
modify_rule_by_extent other_type m = fault

unfoldable pub new_extent_order : RuleType → RulerManager → Run RulerManager
new_extent_order type m = do
  before ← rules_of type m
  let info : ExtentInfo = record { new_mod = (before.current_mod + 1) % u32_mod }
  modified ← modify_rule_by_extent type m
  let rule : OrderRule = record {
    cmd = extent_cmd;
    version = (before.current_version + 1) % u32_mod;
    order = extent info;
  }
  added ← add_new_order_item rule type modified
  r ← rules_of type added
  ok (
      set_rules type
        (record r {
          current_version = (r.current_version + 1) % u32_mod;
          current_mod = (r.current_mod + 1) % u32_mod;
          current_bucket_number = r.current_bucket_number * 2 % u32_mod;
        })
        added)

-- The `num` first addresses, and INVALID_IP for the rest; a read outside of the caller's array is a
-- fault.
unfoldable pub padded_ips : ℕ → ℕ → List ℕ → Run (List ℕ)
padded_ips zero num ip_array = ok []
padded_ips (suc count) zero ip_array = do
  rest ← padded_ips count zero ip_array
  ok (invalid_ip ∷ rest)
padded_ips (suc count) (suc num) [] = fault
padded_ips (suc count) (suc num) (ip ∷ ip_array) = do
  rest ← padded_ips count num ip_array
  ok (ip ∷ rest)

-- `none` is a null pointer; a negative `num` acts as 0.
unfoldable pub set_hash_rule : ℕ → Option (List ℕ) → ℕ → RuleType → RulerManager → Run RulerManager
set_hash_rule bucket_nr none num type m = ok m
set_hash_rule bucket_nr (some ip_array) num type m = if ltb max_ip_num num then ok m else (do
  ips ← padded_ips max_ip_num num ip_array
  add_new_hash_item (record { bucket_nr = bucket_nr; ip = ips }) type m)

-- A number of 32 bits in the bytes of a string, the lowest byte first.
abbrev pub u32_from : List ℕ → ℕ
u32_from (a ∷ b ∷ c ∷ d ∷ rest) = a + b * 0x100 + c * 0x1_0000 + d * 0x100_0000
u32_from _ = 0

-- The content as an order, or `none` where it is too short.
unfoldable pub order_from : OpCmd → List ℕ → Option Order
order_from migration_cmd content =
    if ltb (length content) 12
    then none
    else some (
        migration (record {
          bucket_nr = u32_from content;
          src_ip = u32_from (drop 4 content);
          dest_ip = u32_from (drop 8 content);
        }))
order_from extent_cmd content =
    if ltb (length content) 4 then none else some (extent (record { new_mod = u32_from content }))
order_from undefined_cmd content = some no_order

unfoldable pub set_order_rule : ℕ → OpCmd → List ℕ → RuleType → RulerManager → Run RulerManager
set_order_rule version cmd content type m = elim (order_from cmd content) [
  | none ↦ ok m
  | some order ↦ add_new_order_item (record { cmd = cmd; version = version; order = order }) type m
]

-- The loop of get_dup_num.
abbrev pub count_valid : List ℕ → ℕ
count_valid [] = 0
count_valid (ip ∷ ips) = if ip == invalid_ip then count_valid ips else suc (count_valid ips)

unfoldable pub get_dup_num : RuleType → RulerManager → Run ℕ
get_dup_num mu_ruler m = do rule ← Vector.read 0 m.mu.hash_table; ok (count_valid rule.ip)
get_dup_num _ m = do rule ← Vector.read 0 m.su.hash_table; ok (count_valid rule.ip)
