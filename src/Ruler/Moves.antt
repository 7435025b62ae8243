-- ===== src/Ruler/Moves.antt =====
-- Rubbish_cycler/MonitorServer/src/RulerManager.cpp: what the migration of a bucket does to its rule and
-- to the orders.
use terry.Base.{
  ℕ, ◌+◌, ◌%◌, ◌≡◌, ◌≢◌, ◌<◌, refl, inl, inr, Bool, true, false, ◌||◌, none, some, List, [], ◌∷◌,
  ◌++◌, map, ◌==◌, if◌then◌else◌, arith, ok, u32_mod, Returns, returns, Returns-map, Bool-cases,
  ==_iff,
}
use terry.Base.Vector.{
  Vector, capacity, cell, written, read-ok, write-ok, cell-written_hit, cell-written_miss,
  cell-inside,
}
use terry.Ruler.{
  RuleType, mu_ruler, su_ruler, other_type, HashRule, MigrationInfo, OrderRule, migration_cmd,
  migration, Rules, RulerManager, invalid_ip,
}
use terry.Ruler.Orders.{
  replace_ip, move_rule, modify_rule_by_migration, next_version, new_migration_order,
}
use terry.Ruler.Spoiled.{add_order-ok}

-- The addresses of a rule end before the first INVALID_IP.
abbrev pub used : List ℕ → List ℕ
used [] = []
used (ip ∷ ips) = if ip == invalid_ip then [] else ip ∷ used ips

abbrev pub unused : List ℕ → List ℕ
unused [] = []
unused (ip ∷ ips) = if ip == invalid_ip then ip ∷ ips else unused ips

abbrev pub holds : ℕ → List ℕ → Bool
holds src [] = false
holds src (ip ∷ ips) = (ip == src) || holds src ips

abbrev pub swap_ip : ℕ → ℕ → ℕ → ℕ
swap_ip src dest ip = if ip == src then dest else ip

replace_ip_eq :
    (src dest : ℕ) (ips : List ℕ)
    → replace_ip src dest ips
      ≡ (map (swap_ip src dest) (used ips) ++ unused ips, holds src (used ips))
unfolding replace_ip
replace_ip_eq src dest [] = refl
replace_ip_eq src dest (ip ∷ ips) = elim (Bool-cases (ip == invalid_ip)) [
  | inl ends ↦ rw (ends) refl
  | inr goes ↦ elim (Bool-cases (ip == src)) [
    | inl hit ↦ rw (goes, hit, replace_ip_eq src dest ips) refl
    | inr miss ↦ rw (goes, miss, replace_ip_eq src dest ips) refl
  ]
]

-- The rules for a type, and those for the other one.
abbrev pub own : RuleType → RulerManager → Rules
own mu_ruler m = m.mu
own _ m = m.su

abbrev pub other : RuleType → RulerManager → Rules
other mu_ruler m = m.su
other _ m = m.mu

-- The rule of the bucket after the migration.
abbrev pub moved_rule : MigrationInfo → HashRule → HashRule
moved_rule info rule = record rule {
  ip = map (swap_ip info.src_ip info.dest_ip) (used rule.ip) ++ unused rule.ip;
}

pub record IsMoved (info : MigrationInfo) (type : RuleType) (rule : HashRule)
    (m after : RulerManager) : Type 0 where
  pub moved : cell (own type after).hash_table info.bucket_nr ≡ some (moved_rule info rule)
  pub rules_kept :
      (j : ℕ)
      → j ≢ info.bucket_nr
      → cell (own type after).hash_table j ≡ cell (own type m).hash_table j
  pub version : (own type after).current_version ≡ (own type m).current_version + 1
  pub order :
      cell after.mu.order_table ((own type m).current_version + 1)
      ≡ some (record {
        cmd = migration_cmd;
        version = (own type m).current_version + 1;
        order = migration info;
      })
  pub orders_kept :
      (v : ℕ)
      → v ≢ (own type m).current_version + 1
      → cell after.mu.order_table v ≡ cell m.mu.order_table v
  pub su_orders : after.su.order_table ≡ m.su.order_table
  pub other_rules : (other type after).hash_table ≡ (other type m).hash_table
  pub other_version : (other type after).current_version ≡ (other type m).current_version
  pub alive : after.is_dying ≡ m.is_dying

-- A migration succeeds if the rule has the source among its addresses.
pub data Migrated (info : MigrationInfo) (type : RuleType) (rule : HashRule)
    (m after : RulerManager) : Type 0 where
  done :
      holds info.src_ip (used rule.ip) ≡ true
      → IsMoved info type rule m after
      → Migrated info type rule m after
  refused : holds info.src_ip (used rule.ip) ≡ false → after ≡ m → Migrated info type rule m after

move_rule-done :
    (info : MigrationInfo) (rule : HashRule) (table : Vector HashRule)
    → info.bucket_nr < capacity table
    → holds info.src_ip (used rule.ip) ≡ true
    → move_rule info rule table ≡ ok (some (written info.bucket_nr (moved_rule info rule) table))
unfolding move_rule
move_rule-done info rule table h found =
    rw
      (
        replace_ip_eq info.src_ip info.dest_ip rule.ip,
        found,
        write-ok info.bucket_nr (moved_rule info rule) table h,
      )
      refl

move_rule-refused :
    (info : MigrationInfo) (rule : HashRule) (table : Vector HashRule)
    → holds info.src_ip (used rule.ip) ≡ false
    → move_rule info rule table ≡ ok none
unfolding move_rule
move_rule-refused info rule table h = rw (replace_ip_eq info.src_ip info.dest_ip rule.ip, h) refl

-- The manager with another table of rules for a type.
abbrev with_own : RuleType → Vector HashRule → RulerManager → RulerManager
with_own mu_ruler table m = record m { mu = record m.mu { hash_table = table } }
with_own _ table m = record m { su = record m.su { hash_table = table } }

-- The types for which the manager keeps rules.
pub data IsKept : RuleType → Type 0 where
  mu_kept : IsKept mu_ruler
  su_kept : IsKept su_ruler

module _ (info : MigrationInfo) (rule : HashRule) (m : RulerManager) where
  modify-done :
      {type : RuleType}
      → IsKept type
      → cell (own type m).hash_table info.bucket_nr ≡ some rule
      → rule.bucket_nr ≡ info.bucket_nr
      → holds info.src_ip (used rule.ip) ≡ true
      → modify_rule_by_migration info type m
        ≡ ok (
          with_own type (written info.bucket_nr (moved_rule info rule) (own type m).hash_table) m,
          true,
        )
  unfolding modify_rule_by_migration
  modify-done mu_kept here nr found =
      let table = m.mu.hash_table in
      let inside = cell-inside table info.bucket_nr here in
      let same : (rule.bucket_nr == info.bucket_nr) ≡ true =
        (==_iff rule.bucket_nr info.bucket_nr).1 nr in
      rw (read-ok info.bucket_nr table here, move_rule-done info rule table inside found, same) refl
  modify-done su_kept here nr found =
      let table = m.su.hash_table in
      let inside = cell-inside table info.bucket_nr here in
      let same : (rule.bucket_nr == info.bucket_nr) ≡ true =
        (==_iff rule.bucket_nr info.bucket_nr).1 nr in
      rw (read-ok info.bucket_nr table here, same, move_rule-done info rule table inside found) refl

  modify-refused :
      {type : RuleType}
      → IsKept type
      → cell (own type m).hash_table info.bucket_nr ≡ some rule
      → rule.bucket_nr ≡ info.bucket_nr
      → holds info.src_ip (used rule.ip) ≡ false
      → modify_rule_by_migration info type m ≡ ok (m, false)
  unfolding modify_rule_by_migration
  modify-refused mu_kept here nr h =
      let same : (rule.bucket_nr == info.bucket_nr) ≡ true =
        (==_iff rule.bucket_nr info.bucket_nr).1 nr in
      rw
        (
          read-ok info.bucket_nr m.mu.hash_table here,
          move_rule-refused info rule m.mu.hash_table h,
          same,
        )
        refl
  modify-refused su_kept here nr h =
      let same : (rule.bucket_nr == info.bucket_nr) ≡ true =
        (==_iff rule.bucket_nr info.bucket_nr).1 nr in
      rw
        (
          read-ok info.bucket_nr m.su.hash_table here,
          same,
          move_rule-refused info rule m.su.hash_table h,
        )
        refl

abbrev order_of : MigrationInfo → ℕ → OrderRule
order_of info version = record { cmd = migration_cmd; version = version; order = migration info }

module _ (info : MigrationInfo) (rule : HashRule) (m : RulerManager) where
  recorded_mu :
      cell m.mu.hash_table info.bucket_nr ≡ some rule
      → rule.bucket_nr ≡ info.bucket_nr
      → m.mu.current_version + 1 < capacity m.mu.order_table
      → m.mu.current_version + 1 < u32_mod
      → holds info.src_ip (used rule.ip) ≡ true
      → Returns
          (IsMoved info mu_ruler rule m)
          (new_migration_order info.bucket_nr info.src_ip info.dest_ip mu_ruler m)
  unfolding new_migration_order next_version
  recorded_mu here nr room v32 found =
      let next = m.mu.current_version + 1 in
      let table = m.mu.hash_table in
      let inside = cell-inside table info.bucket_nr here in
      let after = moved_rule info rule in
      let fits : next % u32_mod ≡ next = omega arith in
      let added =
        add_order-ok (order_of info next) (with_own mu_ruler (written info.bucket_nr after table) m)
          room in
      rw (modify-done info rule m mu_kept here nr found, fits, added, fits)
        (returns (record {
          moved = cell-written_hit info.bucket_nr after table info.bucket_nr inside refl;
          rules_kept = λ j. cell-written_miss info.bucket_nr after table j inside;
          version = refl;
          order = cell-written_hit next (order_of info next) m.mu.order_table next room refl;
          orders_kept = λ v. cell-written_miss next (order_of info next) m.mu.order_table v room;
          su_orders = refl;
          other_rules = refl;
          other_version = refl;
          alive = refl;
        }))

  recorded_su :
      cell m.su.hash_table info.bucket_nr ≡ some rule
      → rule.bucket_nr ≡ info.bucket_nr
      → m.su.current_version + 1 < capacity m.mu.order_table
      → m.su.current_version + 1 < u32_mod
      → holds info.src_ip (used rule.ip) ≡ true
      → Returns
          (IsMoved info su_ruler rule m)
          (new_migration_order info.bucket_nr info.src_ip info.dest_ip su_ruler m)
  unfolding new_migration_order next_version
  recorded_su here nr room v32 found =
      let next = m.su.current_version + 1 in
      let table = m.su.hash_table in
      let inside = cell-inside table info.bucket_nr here in
      let after = moved_rule info rule in
      let fits : next % u32_mod ≡ next = omega arith in
      let added =
        add_order-ok (order_of info next) (with_own su_ruler (written info.bucket_nr after table) m)
          room in
      rw (modify-done info rule m su_kept here nr found, fits, added, fits)
        (returns (record {
          moved = cell-written_hit info.bucket_nr after table info.bucket_nr inside refl;
          rules_kept = λ j. cell-written_miss info.bucket_nr after table j inside;
          version = refl;
          order = cell-written_hit next (order_of info next) m.mu.order_table next room refl;
          orders_kept = λ v. cell-written_miss next (order_of info next) m.mu.order_table v room;
          su_orders = refl;
          other_rules = refl;
          other_version = refl;
          alive = refl;
        }))

-- For the MU or the SU rules, a bucket whose cell holds its rule, memory for one more order in the MU
-- table and a version below the top of 32 bits: a migration order returns. If the source is among the
-- rule's addresses, then the rule has the destination in its place and the rest as before, the other
-- rules are kept, the version of that type grows by one, and the order is written under the new version
-- to the table of the MU orders, also for an SU migration; the SU orders and the rules and the version
-- of the other type are kept. If it is not, the manager is as before.
pub new_migration_order-Migrated :
    (info : MigrationInfo) (type : RuleType) (rule : HashRule) (m : RulerManager)
    → IsKept type
    → cell (own type m).hash_table info.bucket_nr ≡ some rule
    → rule.bucket_nr ≡ info.bucket_nr
    → (own type m).current_version + 1 < capacity m.mu.order_table
    → (own type m).current_version + 1 < u32_mod
    → Returns
        (Migrated info type rule m)
        (new_migration_order info.bucket_nr info.src_ip info.dest_ip type m)
unfolding new_migration_order
new_migration_order-Migrated info mu_ruler rule m mu_kept here nr room v32 =
    elim (Bool-cases (holds info.src_ip (used rule.ip))) [
      | inl found ↦
          Returns-map (recorded_mu info rule m here nr room v32 found) (λ after. done found)
      | inr lost ↦
          rw (modify-refused info rule m mu_kept here nr lost) (returns (refused lost refl))
    ]
new_migration_order-Migrated info su_ruler rule m su_kept here nr room v32 =
    elim (Bool-cases (holds info.src_ip (used rule.ip))) [
      | inl found ↦
          Returns-map (recorded_su info rule m here nr room v32 found) (λ after. done found)
      | inr lost ↦
          rw (modify-refused info rule m su_kept here nr lost) (returns (refused lost refl))
    ]
new_migration_order-Migrated info other_type rule m kept here nr room v32 = elim kept [ ]
