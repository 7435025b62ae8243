-- ===== src/Ruler/Tests.antt =====
-- Runs of the rule manager on two buckets.
use terry.Base.{
  ℕ, zero, suc, ◌≡◌, ◌<◌, refl, arith, true, false, none, some, [], ◌∷◌, ok, fault, Returns,
}
use terry.Base.Int.{pos}
use terry.LibTool.{pow_from, cs_pow, log_from, cs_log}
use terry.Ruler.{
  mu_ruler, su_ruler, HashRule, MigrationInfo, OrderRule, undefined_cmd, no_order, Rules,
  RulerManager, get_hash_rule, set_current_mod,
}
use terry.Ruler.Orders.{new_migration_order, new_extent_order}
use terry.Ruler.Extension.{IsRuled, IsExtended, new_extent_order-IsExtended}
use terry.Ruler.Spoiled.{new_extent_order-full, new_extent_order-spoils}
use terry.Ruler.Moves.{own, su_kept, Migrated, new_migration_order-Migrated}
use terry.Ruler.Modulus.{set_current_mod-cs_log}

program : Unit {0}
unfolding pow_from cs_pow log_from cs_log
program = tt

-- The rule of a bucket on the nodes 7 and 9.
abbrev rule_on : ℕ → HashRule
rule_on nr = record { bucket_nr = nr; ip = 7 ∷ 9 ∷ 0 ∷ 0 ∷ 0 ∷ [] }

abbrev order_0 : OrderRule
order_0 = record { cmd = undefined_cmd; version = 0; order = no_order }

-- Two buckets and no order, with room.
abbrev roomy : Rules
roomy = record {
  current_version = 0;
  current_mod = 1;
  current_bucket_number = 2;
  hash_table = record { size = 0; cells = some (rule_on 0) ∷ some (rule_on 1) ∷ none ∷ none ∷ [] };
  order_table = record { size = 0; cells = some order_0 ∷ none ∷ [] };
}

abbrev tiny : RulerManager
tiny = record { mu = roomy; su = roomy; is_dying = false }

-- The same without room for more buckets.
abbrev packed : RulerManager
packed = record tiny {
  su = record roomy {
    hash_table = record { size = 0; cells = some (rule_on 0) ∷ some (rule_on 1) ∷ [] };
  };
}

tiny-IsRuled : IsRuled 2 roomy.hash_table
tiny-IsRuled zero h = (rule_on 0, refl, refl)
tiny-IsRuled (suc zero) h = (rule_on 1, refl, refl)
tiny-IsRuled (suc (suc i)) h = absurd (omega arith)

packed-IsRuled : IsRuled 2 packed.su.hash_table
packed-IsRuled zero h = (rule_on 0, refl, refl)
packed-IsRuled (suc zero) h = (rule_on 1, refl, refl)
packed-IsRuled (suc (suc i)) h = absurd (omega arith)

new_extent_order-IsExtended_example : Returns (IsExtended tiny) (new_extent_order su_ruler tiny)
new_extent_order-IsExtended_example =
    new_extent_order-IsExtended tiny tiny-IsRuled (omega arith) (omega arith) (omega arith)
      (omega arith) (omega arith)

new_extent_order-full_example : new_extent_order su_ruler packed ≡ fault
new_extent_order-full_example =
    new_extent_order-full packed packed-IsRuled (omega arith) (omega arith) refl

new_extent_order-spoils_example :
    Returns
      (λ after.
        (i : ℕ) → i < 2 → Returns (λ r. r.0.is_dying ≡ true) (get_hash_rule i mu_ruler after))
      (new_extent_order mu_ruler tiny)
new_extent_order-spoils_example =
    new_extent_order-spoils tiny tiny-IsRuled (omega arith) (omega arith) refl (omega arith)
      (omega arith) (omega arith)

-- Bucket 1 moves from node 9 to node 5.
abbrev move_1 : MigrationInfo
move_1 = record { bucket_nr = 1; src_ip = 9; dest_ip = 5 }

new_migration_order-Migrated_example :
    Returns (Migrated move_1 su_ruler (rule_on 1) tiny) (new_migration_order 1 9 5 su_ruler tiny)
new_migration_order-Migrated_example =
    new_migration_order-Migrated move_1 su_ruler (rule_on 1) tiny su_kept refl refl (omega arith)
      (omega arith)

cs_log_8 : cs_log 33 8 2 ≡ ok (pos 3)
unfolding program
cs_log_8 = refl

set_current_mod-cs_log_example :
    Returns
      (λ after.
        ((own su_ruler after).current_bucket_number ≡ 8) × ((own su_ruler after).current_mod ≡ 3))
      (set_current_mod su_ruler 3 tiny)
set_current_mod-cs_log_example =
    set_current_mod-cs_log su_ruler 8 3 tiny su_kept (omega arith) cs_log_8
