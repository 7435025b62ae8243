-- ===== src/Ruler/Extension.antt =====
-- Rubbish_cycler/MonitorServer/src/RulerManager.cpp: what an extension does to the rules of the SU
-- nodes.
use terry.Base.{
  ℕ, zero, suc, ◌+◌, ◌-◌, ◌*◌, ◌%◌, ◌^◌, ◌≡◌, ◌≢◌, ◌≤◌, ◌<◌, refl, sym, ◌∙◌, ap, false, some, ltb,
  leb, arith, length-set, ok, u32_mod, Returns, returns, lt→ltb, ge→ltb, dec_lt, ℕ_discrete,
}
use mathlib.Core.Path.{subst}
use terry.Base.Vector.{
  Vector, capacity, cell, written, read-ok, write-ok, cell-written_hit, cell-written_miss,
}
use terry.Ruler.{
  su_ruler, HashRule, OrderRule, extent_cmd, extent, RulerManager, add_new_hash_item,
  add_new_order_item,
}
use terry.Ruler.Orders.{extend_su, rounds, modify_rule_by_extent, new_extent_order}

-- The cells of the buckets 0 to n - 1 hold their rules.
abbrev pub IsRuled : ℕ → Vector HashRule → Type 0
IsRuled n table =
    (i : ℕ) → i < n → (rule : HashRule) × (cell table i ≡ some rule) × (rule.bucket_nr ≡ i)

pub ap_some {ℓ} : {A : Type ℓ} {a b : A} → some a ≡ some b → a ≡ b
ap_some e = cc

-- The table when the buckets below `i` have been doubled.
record Doubling (n i : ℕ) (before table : Vector HashRule) : Type 0 where
  same_capacity : capacity table ≡ capacity before
  same_size : table.size ≡ before.size
  low : (j : ℕ) → j < n → cell table j ≡ cell before j
  high :
      (j : ℕ) (rule : HashRule)
      → j < i
      → cell before j ≡ some rule
      → cell table (j + n) ≡ some (record rule { bucket_nr = j + n })

Doubling-start : (n : ℕ) (table : Vector HashRule) → Doubling n 0 table table
Doubling-start n table = record {
  same_capacity = refl;
  same_size = refl;
  low = λ j h. refl;
  high = λ j rule h e. absurd (omega arith);
}

Doubling-next :
    (n i : ℕ) (before table : Vector HashRule) (rule : HashRule)
    → i + n < capacity before
    → i < n
    → cell before i ≡ some rule
    → Doubling n i before table
    → Doubling n (i + 1) before (written (i + n) (record rule { bucket_nr = i + n }) table)
Doubling-next n i before table rule room small here d =
    let inside : i + n < capacity table = omega (arith, d.same_capacity) in
    let next : HashRule = record rule { bucket_nr = i + n } in
    record {
      same_capacity = length-set table.cells (i + n) (some next) ∙ d.same_capacity;
      same_size = d.same_size;
      low = λ j h. cell-written_miss (i + n) next table j inside (λ e. omega arith) ∙ d.low j h;
      high = λ j r h e. elim (ℕ_discrete j i) [
        | yes same ↦
            let rules : rule ≡ r = ap_some (sym here ∙ rw (← same) e) in
            let hit = cell-written_hit (i + n) next table (j + n) inside (ap (λ x. x + n) same) in
            hit ∙ rw (same, rules) refl
        | no other ↦
            cell-written_miss (i + n) next table (j + n) inside (λ e. other (omega arith))
            ∙ d.high j r (omega arith) e
      ];
    }

Doubling-IsRuled :
    (n : ℕ) (before table : Vector HashRule)
    → IsRuled n before
    → Doubling n n before table
    → IsRuled (n + n) table
Doubling-IsRuled n before table ruled d i h = elim (dec_lt i n) [
  | yes low ↦ let (rule, here, nr) = ruled i low in (rule, d.low i low ∙ here, nr)
  | no high ↦
      let (rule, here, nr) = ruled (i - n) (omega arith) in
      let back : i - n + n ≡ i = omega arith in
      (
        record rule { bucket_nr = i },
        subst (λ x. cell table x ≡ some (record rule { bucket_nr = x })) back
            (d.high (i - n) rule (omega arith) here),
        refl,
      )
]

-- The manager with another SU table.
abbrev with_su : Vector HashRule → RulerManager → RulerManager
with_su table m = record m { su = record m.su { hash_table = table } }

add_su-ok :
    (rule : HashRule) (m : RulerManager)
    → rule.bucket_nr < capacity m.su.hash_table
    → add_new_hash_item rule su_ruler m
      ≡ ok (with_su (written rule.bucket_nr rule m.su.hash_table) m)
unfolding add_new_hash_item
add_su-ok rule m h =
    let fits : ltb (capacity m.su.hash_table) rule.bucket_nr ≡ false =
      ge→ltb (capacity m.su.hash_table) rule.bucket_nr (omega arith) in
    rw (fits, write-ok rule.bucket_nr rule m.su.hash_table h) refl

module _ (n : ℕ) (before : Vector HashRule) (ruled : IsRuled n before)
    (room : n + n ≤ capacity before) where
  extend_su-Doubling :
      (count i : ℕ) (m : RulerManager)
      → i + count ≡ n
      → Doubling n i before m.su.hash_table
      → (table : Vector HashRule) × (extend_su n count i m ≡ ok (with_su table m))
        × Doubling n n before table
  unfolding extend_su
  extend_su-Doubling zero i m total d = (
    m.su.hash_table,
    refl,
    subst (λ x. Doubling n x before m.su.hash_table) (omega (arith, total)) d,
  )
  extend_su-Doubling (suc count) i m total d =
      let (rule, here, nr) = ruled i (omega arith) in
      let next : HashRule = record rule { bucket_nr = i + n } in
      let inside : i + n < capacity m.su.hash_table = omega (arith, d.same_capacity, room) in
      let got = read-ok i m.su.hash_table (d.low i (omega arith) ∙ here) in
      let grown =
        Doubling-next n i before m.su.hash_table rule (omega arith) (omega arith) here d in
      let (table, run, done) =
        extend_su-Doubling count (i + 1) (with_su (written (i + n) next m.su.hash_table) m)
          (omega arith) grown in
      (table, rw (got, add_su-ok next m inside) run, done)

add_order-ok :
    (rule : OrderRule) (m : RulerManager)
    → rule.version < capacity m.su.order_table
    → add_new_order_item rule su_ruler m
      ≡ ok (record m {
        su = record m.su { order_table = written rule.version rule m.su.order_table };
      })
unfolding add_new_order_item
add_order-ok rule m h =
    let fits : leb (capacity m.su.order_table) rule.version ≡ false = ground arith in
    rw (fits, write-ok rule.version rule m.su.order_table h) refl

-- The SU rules after an extension of `m`.
pub record IsExtended (m after : RulerManager) : Type 0 where
  pub rest_kept : after ≡ record m { su = after.su }
  pub version : after.su.current_version ≡ m.su.current_version + 1
  pub modulus : after.su.current_mod ≡ m.su.current_mod + 1
  pub doubled :
      after.su.current_bucket_number ≡ m.su.current_bucket_number + m.su.current_bucket_number
  pub ruled : IsRuled after.su.current_bucket_number after.su.hash_table
  pub old_rules :
      (i : ℕ) → i < m.su.current_bucket_number → cell after.su.hash_table i ≡ cell m.su.hash_table i
  pub new_rules :
      (i : ℕ) (rule : HashRule)
      → i < m.su.current_bucket_number
      → cell m.su.hash_table i ≡ some rule
      → cell after.su.hash_table (i + m.su.current_bucket_number)
        ≡ some (record rule { bucket_nr = i + m.su.current_bucket_number })
  pub order :
      cell after.su.order_table (m.su.current_version + 1)
      ≡ some (record {
        cmd = extent_cmd;
        version = m.su.current_version + 1;
        order = extent (record { new_mod = m.su.current_mod + 1 });
      })
  pub old_orders :
      (v : ℕ) → v ≢ m.su.current_version + 1 → cell after.su.order_table v ≡ cell m.su.order_table v

-- For SU rules that hold every bucket, with fewer than 2^31 buckets and memory for twice as many,
-- memory for one more order, and counters below the top of 32 bits: an extension returns. The version
-- and the modulus grow by one and the buckets double; each of the buckets holds its rule, the old ones
-- theirs and bucket i + n that of bucket i with its own number; the order of the new version is the
-- extension to the new modulus, and the other orders, the MU rules and the rest are kept.
pub new_extent_order-IsExtended :
    (m : RulerManager)
    → IsRuled m.su.current_bucket_number m.su.hash_table
    → m.su.current_bucket_number < 2 ^ 31
    → m.su.current_bucket_number + m.su.current_bucket_number ≤ capacity m.su.hash_table
    → m.su.current_version + 1 < capacity m.su.order_table
    → m.su.current_version + 1 < u32_mod
    → m.su.current_mod + 1 < u32_mod
    → Returns (IsExtended m) (new_extent_order su_ruler m)
unfolding new_extent_order modify_rule_by_extent
new_extent_order-IsExtended m ruled small room order_room v32 mod32 =
    let n = m.su.current_bucket_number in
    let all : rounds n ≡ n = rw (lt→ltb n (2 ^ 31) small) refl in
    let next = m.su.current_version + 1 in
    let rule : OrderRule = record {
      cmd = extent_cmd;
      version = next;
      order = extent (record { new_mod = m.su.current_mod + 1 });
    } in
    let (table, run, done) =
      extend_su-Doubling n m.su.hash_table ruled room n 0 m (omega arith)
        (Doubling-start n m.su.hash_table) in
    let version_fits : next % u32_mod ≡ next = omega arith in
    let mod_fits : (m.su.current_mod + 1) % u32_mod ≡ m.su.current_mod + 1 = omega arith in
    let twice : n * 2 % u32_mod ≡ n + n = omega arith in
    rw
      (
        all,
        run,
        version_fits,
        mod_fits,
        add_order-ok rule (with_su table m) order_room,
        version_fits,
        mod_fits,
        twice,
      )
      (returns (record {
        rest_kept = refl;
        version = refl;
        modulus = refl;
        doubled = refl;
        ruled = Doubling-IsRuled n m.su.hash_table table ruled done;
        old_rules = done.low;
        new_rules = λ i r h e. done.high i r h e;
        order = cell-written_hit next rule m.su.order_table next order_room refl;
        old_orders = λ v other. cell-written_miss next rule m.su.order_table v order_room other;
      }))
