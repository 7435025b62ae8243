-- ===== src/Ruler/Spoiled.antt =====
-- Rubbish_cycler/MonitorServer/src/RulerManager.cpp: how an extension goes wrong, for the MU nodes and
-- for the SU nodes when their table is full.
use terry.Base.{
  ℕ, zero, suc, ◌+◌, ◌*◌, ◌%◌, ◌^◌, ◌≡◌, ◌≢◌, ◌≤◌, ◌<◌, refl, sym, ◌∙◌, true, false, some, ltb, leb,
  ◌==◌, arith, length-set, ok, fault, u32_mod, Returns, returns, lt→ltb, ℕ_discrete,
}
use mathlib.Core.Path.{subst}
use terry.Base.Vector
use terry.Base.Vector.{
  Vector, capacity, cell, written, read-ok, write-ok, write-past, cell-written_hit,
  cell-written_miss,
}
use terry.Ruler.{
  mu_ruler, su_ruler, HashRule, OrderRule, extent_cmd, extent, RulerManager, add_new_hash_item,
  add_new_order_item, get_hash_rule,
}
use terry.Ruler.Orders.{extend_su, extend_mu, rounds, modify_rule_by_extent, new_extent_order}
use terry.Ruler.Extension.{IsRuled, ap_some}

rounds_all : (n : ℕ) → n < 2 ^ 31 → rounds n ≡ n
rounds_all n small = rw (lt→ltb n (2 ^ 31) small) refl

full_loop :
    (n count : ℕ) (m : RulerManager)
    → count ≡ n
    → 0 < n
    → IsRuled n m.su.hash_table
    → capacity m.su.hash_table ≡ n
    → extend_su n count 0 m ≡ fault
unfolding extend_su add_new_hash_item
full_loop n zero m e pos ruled full = absurd (omega arith)
full_loop n (suc count) m e pos ruled full =
    let (rule, here, nr) = ruled 0 pos in
    let next : HashRule = record rule { bucket_nr = 0 + n } in
    let no_move : ltb (capacity m.su.hash_table) (0 + n) ≡ false = ground arith in
    rw
      (
        read-ok 0 m.su.hash_table here,
        no_move,
        write-past (0 + n) next m.su.hash_table (omega arith),
      )
      refl

-- For SU rules that hold every bucket, at least one and fewer than 2^31, in a table whose memory is
-- full: the extension writes one place past the memory.
pub new_extent_order-full :
    (m : RulerManager)
    → IsRuled m.su.current_bucket_number m.su.hash_table
    → 0 < m.su.current_bucket_number
    → m.su.current_bucket_number < 2 ^ 31
    → capacity m.su.hash_table ≡ m.su.current_bucket_number
    → new_extent_order su_ruler m ≡ fault
unfolding new_extent_order modify_rule_by_extent
new_extent_order-full m ruled pos small full =
    let n = m.su.current_bucket_number in
    rw (rounds_all n small, full_loop n n m refl pos ruled full) refl

-- The MU table when the buckets below `i` have been pushed and added.
record Shifting (n i : ℕ) (before table : Vector HashRule) : Type 0 where
  same_capacity : capacity table ≡ capacity before
  pushed : table.size ≡ i
  rest : (j : ℕ) → i ≤ j → j < n → cell table j ≡ cell before j
  wrong :
      (j : ℕ) (rule : HashRule)
      → j < i
      → cell before j ≡ some rule
      → cell table j ≡ some (record rule { bucket_nr = j + n })

-- The two writes of one round.
abbrev twice_written : ℕ → ℕ → HashRule → Vector HashRule → Vector HashRule
twice_written n i next table = written (i + n) next (record (written i next table) { size = i + 1 })

Shifting-next :
    (n i : ℕ) (before table : Vector HashRule) (rule : HashRule)
    → i + n < capacity before
    → i < n
    → cell before i ≡ some rule
    → Shifting n i before table
    → Shifting n (i + 1) before (twice_written n i (record rule { bucket_nr = i + n }) table)
Shifting-next n i before table rule room small here d =
    let next : HashRule = record rule { bucket_nr = i + n } in
    let once : Vector HashRule = record (written i next table) { size = i + 1 } in
    let inside : i < capacity table = omega (arith, d.same_capacity) in
    let once_cap : capacity once ≡ capacity table = length-set table.cells i (some next) in
    let inside_once : i + n < capacity once = omega (arith, d.same_capacity, once_cap) in
    let far =
      λ (j : ℕ) (h : j < n). cell-written_miss (i + n) next once j inside_once (λ e. omega arith) in
    record {
      same_capacity = length-set once.cells (i + n) (some next) ∙ once_cap ∙ d.same_capacity;
      pushed = refl;
      rest = λ j low h.
          far j h
          ∙ cell-written_miss i next table j inside (λ e. omega arith)
          ∙ d.rest j (omega arith) h;
      wrong = λ j r h e. elim (ℕ_discrete j i) [
        | yes same ↦
            let rules : rule ≡ r = ap_some (sym here ∙ rw (← same) e) in
            far j (omega arith)
            ∙ cell-written_hit i next table j inside same
            ∙ rw (same, rules) refl
        | no other ↦
            far j (omega arith)
            ∙ cell-written_miss i next table j inside other
            ∙ d.wrong j r (omega arith) e
      ];
    }

-- The manager with another MU table.
abbrev with_mu : Vector HashRule → RulerManager → RulerManager
with_mu table m = record m { mu = record m.mu { hash_table = table } }

push_back-ok :
    (next : HashRule) (table : Vector HashRule) (i : ℕ)
    → table.size ≡ i
    → i < capacity table
    → Vector.push_back next table ≡ ok (record (written i next table) { size = i + 1 })
unfolding Vector.push_back
push_back-ok next table i at h =
    subst (λ x. Vector.push_back next table ≡ ok (record (written x next table) { size = x + 1 }))
      at (rw (roomy, write-ok table.size next table (omega arith)) refl)
  where
    roomy : (table.size == capacity table) ≡ false
    roomy = ground arith

add_mu-ok :
    (rule : HashRule) (m : RulerManager)
    → rule.bucket_nr < capacity m.mu.hash_table
    → add_new_hash_item rule mu_ruler m
      ≡ ok (with_mu (written rule.bucket_nr rule m.mu.hash_table) m)
unfolding add_new_hash_item
add_mu-ok rule m h =
    let fits : leb (capacity m.mu.hash_table) rule.bucket_nr ≡ false = ground arith in
    rw (fits, write-ok rule.bucket_nr rule m.mu.hash_table h) refl

module _ (n : ℕ) (before : Vector HashRule) (ruled : IsRuled n before)
    (room : n + n ≤ capacity before) where
  extend_mu-Shifting :
      (count i : ℕ) (m : RulerManager)
      → i + count ≡ n
      → Shifting n i before m.mu.hash_table
      → (table : Vector HashRule) × (extend_mu n count i m ≡ ok (with_mu table m))
        × Shifting n n before table
  unfolding extend_mu
  extend_mu-Shifting zero i m total d = (
    m.mu.hash_table,
    refl,
    subst (λ x. Shifting n x before m.mu.hash_table) (omega (arith, total)) d,
  )
  extend_mu-Shifting (suc count) i m total d =
      let (rule, here, nr) = ruled i (omega arith) in
      let next : HashRule = record rule { bucket_nr = i + n } in
      let table = m.mu.hash_table in
      let once : Vector HashRule = record (written i next table) { size = i + 1 } in
      let inside : i < capacity table = omega (arith, d.same_capacity, room) in
      let inside_once : i + n < capacity once =
        omega (arith, d.same_capacity, room, length-set table.cells i (some next)) in
      let got = read-ok i table (d.rest i (omega arith) (omega arith) ∙ here) in
      let grown = Shifting-next n i before table rule (omega arith) (omega arith) here d in
      let (last, run, done) =
        extend_mu-Shifting count (i + 1) (with_mu (twice_written n i next table) m) (omega arith)
          grown in
      (
        last,
        rw
            (
              got,
              push_back-ok next table i d.pushed inside,
              add_mu-ok next (with_mu once m) inside_once,
            )
            run,
        done,
      )

pub add_order-ok :
    (rule : OrderRule) (m : RulerManager)
    → rule.version < capacity m.mu.order_table
    → add_new_order_item rule mu_ruler m
      ≡ ok (record m {
        mu = record m.mu { order_table = written rule.version rule m.mu.order_table };
      })
unfolding add_new_order_item
add_order-ok rule m h =
    let fits : leb (capacity m.mu.order_table) rule.version ≡ false = ground arith in
    rw (fits, write-ok rule.version rule m.mu.order_table h) refl

-- A rule of another bucket in the cell of a bucket ends the process.
wrong_rule :
    (m : RulerManager) (i : ℕ) (rule : HashRule)
    → i < m.mu.current_bucket_number
    → cell m.mu.hash_table i ≡ some rule
    → rule.bucket_nr ≢ i
    → Returns (λ r. r.0.is_dying ≡ true) (get_hash_rule i mu_ruler m)
unfolding get_hash_rule
wrong_rule m i rule h here wrong =
    let known : leb m.mu.current_bucket_number i ≡ false = ground arith in
    let differ : (rule.bucket_nr == i) ≡ false = ground arith in
    rw (known, read-ok i m.mu.hash_table here, differ) (returns refl)

-- For MU rules that hold every bucket, at least one and fewer than 2^31, in a table that was filled
-- as the start of the server fills it, by index and with size 0, with memory for twice as many and for
-- one more order: an extension returns, and after it asking for the rule of any of the old buckets
-- calls set_dead_line, which ends the process.
pub new_extent_order-spoils :
    (m : RulerManager)
    → IsRuled m.mu.current_bucket_number m.mu.hash_table
    → 0 < m.mu.current_bucket_number
    → m.mu.current_bucket_number < 2 ^ 31
    → m.mu.hash_table.size ≡ 0
    → m.mu.current_bucket_number + m.mu.current_bucket_number ≤ capacity m.mu.hash_table
    → m.mu.current_version + 1 < capacity m.mu.order_table
    → m.mu.current_version + 1 < u32_mod
    → Returns
        (λ after.
          (i : ℕ)
          → i < m.mu.current_bucket_number
          → Returns (λ r. r.0.is_dying ≡ true) (get_hash_rule i mu_ruler after))
        (new_extent_order mu_ruler m)
unfolding new_extent_order modify_rule_by_extent
new_extent_order-spoils m ruled pos small unused room order_room v32 =
    let n = m.mu.current_bucket_number in
    let next = m.mu.current_version + 1 in
    let new_mod = (m.mu.current_mod + 1) % u32_mod in
    let rule : OrderRule = record {
      cmd = extent_cmd;
      version = next;
      order = extent (record { new_mod = new_mod });
    } in
    let start : Shifting n 0 m.mu.hash_table m.mu.hash_table = record {
      same_capacity = refl;
      pushed = unused;
      rest = λ j low h. refl;
      wrong = λ j r h. absurd (omega arith);
    } in
    let (table, run, done) =
      extend_mu-Shifting n m.mu.hash_table ruled room n 0 m (omega arith) start in
    let version_fits : next % u32_mod ≡ next = omega arith in
    let twice : n * 2 % u32_mod ≡ n + n = omega arith in
    rw
      (rounds_all n small, run, version_fits, add_order-ok rule (with_mu table m) order_room, twice)
      (returns (λ i h.
        let (old, here, nr) = ruled i h in
        wrong_rule _ i (record old { bucket_nr = i + n }) (omega arith) (done.wrong i old h here)
          (λ e. omega arith)))
