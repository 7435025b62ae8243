-- ===== src/Timer/Manager/Links.antt =====
-- timer/Timer_manager.cpp: how the index map, the timers' own indices and the timers of the heap
-- belong together, and what adding and removing a timer does to that.
use terry.Base.{
  ℕ, suc, ◌+◌, ◌≤◌, ◌<◌, ◌≡◌, ◌≢◌, refl, sym, ap, ◌∙◌, ◌⊎◌, inl, inr, some, none, List, [], ◌∷◌,
  Perm, arith, Option, Option-cases, ℕ_discrete,
}
use mathlib.Core.Path.{fun_ext}
use mathlib.Core.Logic.Or
use mathlib.Core.List.{
  Mem, Mem-prop, mem-cons, mem-cons_self, mem-cons_of_mem, not-mem-nil, Nodup, Nodup-cons,
  Nodup-nil,
}
use mathlib.Core.List.Perm
use native.Mathlib.Bridge.{le_prop}
pub use terry.Base.Maps.{update_hit, update_miss}
use terry.Timer.Manager.{update}

-- The address that the map holds for the index of the timer at an address.
abbrev pub owner_of : (ℕ → Option ℕ) → (ℕ → Option ℕ) → ℕ → Option ℕ
owner_of index active a = elim (index a) [ none ↦ none | some i ↦ active i ]

-- `index` gives the index of the timer at an address, `active` is the map, and `owned` lists the
-- addresses of the timers.
pub record IsLinked (index active : ℕ → Option ℕ) (next_index next_address : ℕ) (owned : List ℕ)
    : Type 0 where
  pub nodup : Nodup owned
  pub live : (a : ℕ) → Mem a owned → owner_of index active a ≡ some a
  pub back : (i a : ℕ) → active i ≡ some a → Mem a owned
  pub named : (i a : ℕ) → active i ≡ some a → index a ≡ some i
  pub bounded : (i a : ℕ) → active i ≡ some a → i ≤ next_index
  pub fresh : (a : ℕ) → Mem a owned → a < next_address

-- An entry of the updated map is the new one or an old one.
update_entry :
    (f : ℕ → Option ℕ) (k : ℕ) (v : Option ℕ) (x : ℕ) {b : ℕ}
    → update f k v x ≡ some b
    → ((x ≡ k) × (v ≡ some b)) ⊎ ((x ≢ k) × (f x ≡ some b))
update_entry f k v x e = elim (ℕ_discrete x k) [
  | yes hit ↦ inl (hit, sym (update_hit f k v x hit) ∙ e)
  | no miss ↦ inr (miss, sym (update_miss f k v x miss) ∙ e)
]

option_set : {x y : Option ℕ} → IsProp (x ≡ y)
option_set = hlevel

-- The timer's index, from the map's entry for it.
pub owner_of-some :
    (index active : ℕ → Option ℕ) (a : ℕ) {b : ℕ}
    → owner_of index active a ≡ some b
    → (i : ℕ) × (index a ≡ some i) × (active i ≡ some b)
owner_of-some index active a e = elim (Option-cases (index a)) [
  | inl missing ↦ absurd (ground arith)
  | inr (i, found) ↦ (i, found, ground arith)
]

pub owner_of-intro :
    (index active : ℕ → Option ℕ) (a i b : ℕ)
    → index a ≡ some i
    → active i ≡ some b
    → owner_of index active a ≡ some b
owner_of-intro index active a i b found entry = rw (found, owner_of) entry

module _ {index active : ℕ → Option ℕ} {next_index next_address : ℕ} where
  pub IsLinked-perm :
      {owned others : List ℕ}
      → Perm owned others
      → IsLinked index active next_index next_address owned
      → IsLinked index active next_index next_address others
  IsLinked-perm p l = record {
    nodup = Perm.nodup p l.nodup;
    live = λ a m. l.live a ((Perm.mem_iff p).1 m);
    back = λ i a e. (Perm.mem_iff p).0 (l.back i a e);
    named = l.named;
    bounded = l.bounded;
    fresh = λ a m. l.fresh a ((Perm.mem_iff p).1 m);
  }

  -- Only the indices of the timers matter.
  pub IsLinked-index :
      {other : ℕ → Option ℕ} {owned : List ℕ}
      → ((a : ℕ) → other a ≡ index a)
      → IsLinked index active next_index next_address owned
      → IsLinked other active next_index next_address owned
  IsLinked-index same l = rw (fun_ext same) l

  module _ (owned : List ℕ) (l : IsLinked index active next_index next_address owned) where
    -- The next index is free.
    pub next-free : active (next_index + 1) ≡ none
    next-free = elim (Option-cases (active (next_index + 1))) [
      | inl free ↦ free
      | inr (a, taken) ↦ absurd (omega (arith, l.bounded (next_index + 1) a taken))
    ]

    new-not-mem : ¬ Mem next_address owned
    new-not-mem m = omega (arith, l.fresh next_address m)

    abbrev index' : ℕ → Option ℕ
    index' = update index next_address (some (next_index + 1))

    abbrev active' : ℕ → Option ℕ
    active' = update active (next_index + 1) (some next_address)

    old_index : (a : ℕ) → Mem a owned → owner_of index' active' a ≡ some a
    old_index a m =
        let (i, found, entry) = owner_of-some index active a (l.live a m) in
        let below : i ≤ next_index = l.bounded i a entry in
        let older : a < next_address = l.fresh a m in
        owner_of-intro index' active' a i a
          (update_miss index next_address _ a (omega arith) ∙ found)
          (update_miss active (next_index + 1) _ i (omega arith) ∙ entry)

    new_index : (a : ℕ) → a ≡ next_address → owner_of index' active' a ≡ some a
    new_index a e =
        owner_of-intro index' active' a (next_index + 1) a (update_hit index next_address _ a e)
          (update_hit active (next_index + 1) _ (next_index + 1) refl ∙ ap some (sym e))

    new_back : (i a : ℕ) → active' i ≡ some a → Mem a (next_address ∷ owned)
    new_back i a e = elim (update_entry active (next_index + 1) (some next_address) i e) [
      | inl (hit, at) ↦ let same : a ≡ next_address = ground arith in rw same mem-cons_self
      | inr (miss, old) ↦ mem-cons_of_mem next_address (l.back i a old)
    ]

    new_named : (i a : ℕ) → active' i ≡ some a → index' a ≡ some i
    new_named i a e = elim (update_entry active (next_index + 1) (some next_address) i e) [
      | inl (hit, at) ↦
          let same : a ≡ next_address = ground arith in
          update_hit index next_address (some (next_index + 1)) a same ∙ ap some (sym hit)
      | inr (miss, old) ↦
          let older : a < next_address = l.fresh a (l.back i a old) in
          update_miss index next_address _ a (omega arith) ∙ l.named i a old
    ]

    new_bounded : (i a : ℕ) → active' i ≡ some a → i ≤ next_index + 1
    new_bounded i a e = elim (update_entry active (next_index + 1) (some next_address) i e) [
      | inl (hit, at) ↦ omega arith
      | inr (miss, old) ↦ omega (arith, l.bounded i a old)
    ]

    -- A timer at the next address, under the next index.
    pub IsLinked-insert :
        IsLinked index' active' (next_index + 1) (suc next_address) (next_address ∷ owned)
    IsLinked-insert = record {
      nodup = Nodup-cons.1 (new-not-mem, l.nodup);
      live = λ a m. Or.elim option_set (mem-cons.0 m) (new_index a) (old_index a);
      back = new_back;
      named = new_named;
      bounded = new_bounded;
      fresh = λ a m.
          Or.elim le_prop (mem-cons.0 m) (λ e. omega arith) (λ n. omega (arith, l.fresh a n));
    }

module _ {index active : ℕ → Option ℕ} {next_index next_address : ℕ} (a i : ℕ) (owned : List ℕ)
    (l : IsLinked index active next_index next_address (a ∷ owned)) (at : index a ≡ some i) where
  kept_live :
      (b : ℕ) → Mem b owned → owner_of (update index a none) (update active i none) b ≡ some b
  kept_live b m =
      let (j, found, entry) = owner_of-some index active a (l.live a mem-cons_self) in
      let (k, found', entry') = owner_of-some index active b (l.live b (mem-cons_of_mem a m)) in
      let apart : b ≢ a = λ e. (Nodup-cons.0 l.nodup).0 (rw e at m) in
      let other : k ≢ i = λ e. apart (ground arith) in
      owner_of-intro (update index a none) (update active i none) b k b
        (update_miss index a none b apart ∙ found') (update_miss active i none k other ∙ entry')

  kept_entry : (k b : ℕ) → update active i none k ≡ some b → (k ≢ i) × (active k ≡ some b)
  kept_entry k b e = elim (update_entry active i none k e) [
    | inl (hit, gone) ↦ absurd (ground arith)
    | inr kept ↦ kept
  ]

  kept_apart : (k b : ℕ) → update active i none k ≡ some b → b ≢ a
  kept_apart k b e same =
      let (other, entry) = kept_entry k b e in other (ground (arith, l.named k b entry))

  -- A timer leaves: its object and its entry of the map.
  pub IsLinked-remove :
      IsLinked (update index a none) (update active i none) next_index next_address owned
  IsLinked-remove = record {
    nodup = (Nodup-cons.0 l.nodup).1;
    live = kept_live;
    back = λ k b e.
        Or.elim Mem-prop (mem-cons.0 (l.back k b (kept_entry k b e).1))
          (λ same. absurd (kept_apart k b e same)) (λ m. m);
    named =
        λ k b e. update_miss index a none b (kept_apart k b e) ∙ l.named k b (kept_entry k b e).1;
    bounded = λ k b e. l.bounded k b (kept_entry k b e).1;
    fresh = λ b m. l.fresh b (mem-cons_of_mem a m);
  }

-- The manager that has no timers.
pub IsLinked-empty : IsLinked (λ a. none) (λ i. none) 0 0 []
IsLinked-empty = record {
  nodup = Nodup-nil;
  live = λ a m. absurd (not-mem-nil m);
  back = λ i a e. cc;
  named = λ i a e. cc;
  bounded = λ i a e. absurd (ground arith);
  fresh = λ a m. absurd (not-mem-nil m);
}
