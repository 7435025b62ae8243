-- ===== src/Heartbeat/Migration.antt =====
-- Rubbish_cycler/MonitorServer/src/HB_manager.cpp: what IP_is_valid_for_migration decides.
use terry.Base.{
  ℕ, zero, suc, ◌≡◌, ◌↔◌, inl, inr, refl, Bool, true, false, not, ◌&&◌, ◌||◌, Option, none, some,
  List, [], ◌∷◌, ◌==◌, get_elem?, arith, ==_iff, Bool-cases, Option-cases,
}
use terry.Base.Maps
use terry.Base.Maps.{Entries}
use terry.Ruler.{RuleType, mu_ruler, su_ruler, other_type, MigrationInfo}
use terry.Heartbeat.{
  BucketInfo, NodeInfo, HbManager, loads_of, set_loads, both_found, has_bucket, empty_node,
  ip_is_valid_for_migration,
}

-- A bucket list has an entry with the number.
abbrev pub HoldsBucket : ℕ → List BucketInfo → Type 0
HoldsBucket nr buckets =
    (i : ℕ) × (b : BucketInfo) × (get_elem? buckets i ≡ some b) × (b.bucket_nr ≡ nr)

-- Both nodes send heartbeats, and the bucket is on the source and not on the destination.
pub record CanMove (info : MigrationInfo) (nodes : Entries NodeInfo) : Type 0 where
  pub source : NodeInfo
  pub dest : NodeInfo
  pub source_found : Maps.find info.src_ip nodes ≡ some source
  pub dest_found : Maps.find info.dest_ip nodes ≡ some dest
  pub held : HoldsBucket info.bucket_nr source.bucket_list
  pub not_held : ¬ HoldsBucket info.bucket_nr dest.bucket_list

abbrev is_some {ℓ} : {A : Type ℓ} → Option A → Bool
is_some none = false
is_some (some a) = true

both_found_eq :
    (info : MigrationInfo) (nodes : Entries NodeInfo) (src dst : Bool)
    → src && dst ≡ false
    → both_found info nodes src dst
      ≡ (src || is_some (Maps.find info.src_ip nodes))
        && (dst || is_some (Maps.find info.dest_ip nodes))
unfolding both_found Maps.find
both_found_eq info [] src dst h = ground arith
both_found_eq info (e ∷ nodes) src dst h = ground (
  arith,
  both_found_eq info nodes true dst,
  both_found_eq info nodes src true,
  both_found_eq info nodes src dst,
)

has_bucket_sound :
    (nr : ℕ) (buckets : List BucketInfo) → has_bucket nr buckets ≡ true → HoldsBucket nr buckets
unfolding has_bucket
has_bucket_sound nr [] h = cc
has_bucket_sound nr (b ∷ buckets) h = elim (Bool-cases (b.bucket_nr == nr)) [
  | inl same ↦ (0, b, refl, (==_iff b.bucket_nr nr).0 same)
  | inr other ↦ let (i, x, at, e) = has_bucket_sound nr buckets (ground arith) in (suc i, x, at, e)
]

has_bucket_complete :
    (nr : ℕ) (buckets : List BucketInfo) (i : ℕ) (b : BucketInfo)
    → get_elem? buckets i ≡ some b
    → b.bucket_nr ≡ nr
    → has_bucket nr buckets ≡ true
unfolding has_bucket
has_bucket_complete nr [] i b at e = cc
has_bucket_complete nr (x ∷ buckets) zero b at e = ground arith
has_bucket_complete nr (x ∷ buckets) (suc i) b at e =
    ground (arith, has_bucket_complete nr buckets i b at e)

lacks_bucket :
    (nr : ℕ) (buckets : List BucketInfo) → has_bucket nr buckets ≡ false → ¬ HoldsBucket nr buckets
lacks_bucket nr buckets h = λ (i, b, at, e). ground (arith, has_bucket_complete nr buckets i b at e)

not_holds_false :
    (nr : ℕ) (buckets : List BucketInfo) → ¬ HoldsBucket nr buckets → has_bucket nr buckets ≡ false
not_holds_false nr buckets h = elim (Bool-cases (has_bucket nr buckets)) [
  | inl held ↦ absurd (h (has_bucket_sound nr buckets held))
  | inr free ↦ free
]

set_loads_same : (type : RuleType) (m : HbManager) → set_loads type (loads_of type m) m ≡ m
set_loads_same mu_ruler m = refl
set_loads_same su_ruler m = refl
set_loads_same other_type m = refl

-- The decision on the two nodes, where both are found.
decide_move : MigrationInfo → NodeInfo → NodeInfo → Bool
decide_move info source dest =
    has_bucket info.bucket_nr source.bucket_list && not (has_bucket info.bucket_nr dest.bucket_list)

move_found :
    (type : RuleType) (info : MigrationInfo) (m : HbManager) (source dest : NodeInfo)
    → Maps.find info.src_ip (loads_of type m) ≡ some source
    → Maps.find info.dest_ip (loads_of type m) ≡ some dest
    → ip_is_valid_for_migration type info m ≡ (m, decide_move info source dest)
unfolding ip_is_valid_for_migration decide_move
move_found type info m source dest s d =
    let both : both_found info (loads_of type m) false false ≡ true =
      rw (both_found_eq info (loads_of type m) false false refl, s, d) refl in
    let first = Maps.at_found info.src_ip empty_node source (loads_of type m) s in
    let second = Maps.at_found info.dest_ip empty_node dest (loads_of type m) d in
    rw (both, first, second, set_loads_same type m) refl

move_missing :
    (type : RuleType) (info : MigrationInfo) (m : HbManager)
    → (is_some (Maps.find info.src_ip (loads_of type m))
        && is_some (Maps.find info.dest_ip (loads_of type m)))
      ≡ false
    → ip_is_valid_for_migration type info m ≡ (m, false)
unfolding ip_is_valid_for_migration
move_missing type info m h =
    let some_missing = both_found_eq info (loads_of type m) false false refl in
    rw (some_missing, h) refl

decide_move_iff :
    (info : MigrationInfo) (nodes : Entries NodeInfo) (source dest : NodeInfo)
    → Maps.find info.src_ip nodes ≡ some source
    → Maps.find info.dest_ip nodes ≡ some dest
    → (decide_move info source dest ≡ true) ↔ CanMove info nodes
unfolding decide_move
decide_move_iff info nodes source dest s d = (
  λ h. record {
    source = source;
    dest = dest;
    source_found = s;
    dest_found = d;
    held = has_bucket_sound info.bucket_nr source.bucket_list (ground arith);
    not_held = lacks_bucket info.bucket_nr dest.bucket_list (ground arith);
  },
  λ c.
      let from : source ≡ c.source = cc in
      let to : dest ≡ c.dest = cc in
      let held : HoldsBucket info.bucket_nr source.bucket_list = rw from c.held in
      let free : ¬ HoldsBucket info.bucket_nr dest.bucket_list = rw to c.not_held in
      let (i, b, at, e) = held in
      let taken = has_bucket_complete info.bucket_nr source.bucket_list i b at e in
      rw (taken, not_holds_false info.bucket_nr dest.bucket_list free) refl,
)

-- For every manager, migration order and type: IP_is_valid_for_migration leaves the manager as it
-- is, and answers `true` exactly if both nodes have an entry in the map of that type (the map of the
-- SU nodes for a type that is not MU_RULER), the source node's bucket list has the bucket and the
-- destination's has not.
pub ip_is_valid_for_migration_lem :
    (type : RuleType) (info : MigrationInfo) (m : HbManager)
    → ((ip_is_valid_for_migration type info m).0 ≡ m)
      × (((ip_is_valid_for_migration type info m).1 ≡ true) ↔ CanMove info (loads_of type m))
ip_is_valid_for_migration_lem type info m =
    elim (Option-cases (Maps.find info.src_ip (loads_of type m))) [
      | inl none_s ↦ missing (rw none_s refl) (λ c. ground (arith, none_s, c.source_found))
      | inr (source, s) ↦ elim (Option-cases (Maps.find info.dest_ip (loads_of type m))) [
        | inl none_d ↦ missing (rw (s, none_d) refl) (λ c. ground (arith, none_d, c.dest_found))
        | inr (dest, d) ↦
            rw (move_found type info m source dest s d)
              (refl, decide_move_iff info (loads_of type m) source dest s d)
      ]
    ]
  where
    missing :
        (is_some (Maps.find info.src_ip (loads_of type m))
            && is_some (Maps.find info.dest_ip (loads_of type m)))
          ≡ false
        → ¬ CanMove info (loads_of type m)
        → ((ip_is_valid_for_migration type info m).0 ≡ m)
          × (((ip_is_valid_for_migration type info m).1 ≡ true) ↔ CanMove info (loads_of type m))
    missing h never = rw (move_missing type info m h) (refl, ((λ e. cc), (λ c. absurd (never c))))
