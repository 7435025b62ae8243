-- ===== src/AgentManager/Create.antt =====
-- common/AgentManager.cpp: a new agent in the map.
use terry.Base.{
  ℕ, zero, suc, ◌+◌, ◌%◌, ◌^◌, ◌≡◌, ◌≢◌, ◌<◌, ◌⊎◌, inl, inr, refl, sym, ap, ◌∙◌, false, none, some,
  ◌==◌, if◌then◌else◌, arith, Returns, returns, Bool-cases, Option-cases, ℕ_discrete,
}
use mathlib.Core.Path.{subst}
use terry.Base.Maps.{Entries, update_hit, update_miss, find, insert, find-insert, find-insert_ne}
use terry.AgentManager.{
  AgentManager, max_index, next_index, generate_index, set_agent_index, add_tries, add_agent,
  create_agent,
}

-- Each entry of the map is an agent that is not deleted and has its key as index, and the last index
-- given is below the largest.
pub record IsOwned (m : AgentManager) : Type 0 where
  pub live :
      (index agent : ℕ) → find index m.m_tcp_agent_map ≡ some agent → m.agents agent ≡ some index
  pub small : m.m_index < max_index

-- The index after another one: the largest is never given, and the first comes again.
abbrev pub following : ℕ → ℕ
following index = if index + 1 == 0xFFFF_FFFE then 1 else index + 1

-- The index, and those that come after it, are all in the map.
abbrev pub AreTaken : ℕ → ℕ → Entries ℕ → Type 0
AreTaken zero index map = Unit
AreTaken (suc n) index map =
    ((other : ℕ) × (find index map ≡ some other)) × AreTaken n (following index) map

-- The agent is in the map under its index, or, where the indices of all `tries` are taken, the map is
-- as before.
abbrev pub IsEntered : ℕ → ℕ → ℕ → AgentManager → AgentManager → Type 0
IsEntered tries index agent m after =
    ((i : ℕ) × (after.agents agent ≡ some i) × (find i after.m_tcp_agent_map ≡ some agent))
    ⊎ (AreTaken tries index m.m_tcp_agent_map × (after.m_tcp_agent_map ≡ m.m_tcp_agent_map))

-- What an addition leaves, when `index` is tried first.
pub record IsAdded (tries index agent : ℕ) (m after : AgentManager) : Type 0 where
  pub owned : IsOwned after
  pub kept :
      (index other : ℕ)
      → find index m.m_tcp_agent_map ≡ some other
      → find index after.m_tcp_agent_map ≡ some other
  pub entered : IsEntered tries index agent m after

-- The agent is in no entry.
abbrev IsOutside : ℕ → AgentManager → Type 0
IsOutside agent m = (index : ℕ) → find index m.m_tcp_agent_map ≢ some agent

indexed-IsOwned :
    (agent index : ℕ) (m : AgentManager)
    → IsOwned m
    → IsOutside agent m
    → IsOwned (set_agent_index agent index m)
indexed-IsOwned agent index m o out = record {
  live = λ i a e.
      (let other : a ≢ agent = λ same. out i (e ∙ ap some same) in
        update_miss m.agents agent (some index) a other ∙ o.live i a e);
  small = o.small;
}

next_index-small : (i : ℕ) → i < max_index → (next_index i < max_index) × (next_index i ≢ 0)
next_index-small i h = elim (Bool-cases ((i + 1) % 2 ^ 32 == max_index)) [
  | inl last ↦ rw last (omega arith, λ e. omega (arith, e))
  | inr below ↦
      let unwrapped : (i + 1) % 2 ^ 32 ≡ i + 1 = omega arith in
      rw below (ground (arith, unwrapped), λ e. omega (arith, unwrapped, e))
]

next_index-following : (i : ℕ) → i < max_index → next_index i ≡ following i
next_index-following i h =
    let unwrapped : (i + 1) % 2 ^ 32 ≡ i + 1 = omega arith in rw unwrapped refl

generated-IsOwned : (m : AgentManager) → IsOwned m → IsOwned (generate_index m)
unfolding generate_index
generated-IsOwned m o = record { live = o.live; small = (next_index-small m.m_index o.small).0 }

some_same : {x y : ℕ} → some x ≡ some y → x ≡ y
some_same e = cc

add_tries-IsAdded :
    (tries index agent : ℕ) (m : AgentManager)
    → IsOwned m
    → IsOutside agent m
    → m.agents agent ≡ some index
    → index ≡ m.m_index
    → IsAdded tries index agent m (add_tries tries index agent m).0
unfolding add_tries generate_index
add_tries-IsAdded zero index agent m o out at last = record {
  owned = o;
  kept = λ i a e. e;
  entered = inr (tt, refl);
}
add_tries-IsAdded (suc tries) index agent m o out at last =
    elim (Option-cases (find index m.m_tcp_agent_map)) [
      | inl vacant ↦
          let entry = find-insert index agent m.m_tcp_agent_map vacant in
          rw (vacant, add_tries)
            (record {
              owned = record {
                live = λ i a e. elim (ℕ_discrete i index) [
                  | yes same ↦
                      let key : find index (insert index agent m.m_tcp_agent_map) ≡ some a =
                        (ap (λ k. find k (insert index agent m.m_tcp_agent_map)) (sym same) ∙ e) in
                      let who : agent ≡ a = some_same (sym entry ∙ key) in
                      ap m.agents (sym who) ∙ at ∙ ap some (sym same)
                  | no other ↦
                      o.live i a (sym (find-insert_ne index i agent m.m_tcp_agent_map other) ∙ e)
                ];
                small = o.small;
              };
              kept = λ i a e. elim (ℕ_discrete i index) [
                | yes same ↦ absurd (
                    let wrong = sym vacant ∙ ap (λ k. find k m.m_tcp_agent_map) (sym same) ∙ e in
                    cc)
                | no other ↦ find-insert_ne index i agent m.m_tcp_agent_map other ∙ e
              ];
              entered = inl (index, at, entry);
            })
      | inr (old, taken) ↦
          let next : AgentManager =
            set_agent_index agent (next_index m.m_index) (generate_index m) in
          let moved : IsOwned next =
            indexed-IsOwned agent (next_index m.m_index) (generate_index m) (generated-IsOwned m o)
              out in
          let rest =
            add_tries-IsAdded tries (next_index m.m_index) agent next moved out
              (update_hit m.agents agent (some (next_index m.m_index)) agent refl) refl in
          let same : next_index m.m_index ≡ following index =
            next_index-following m.m_index o.small ∙ ap following (sym last) in
          rw (taken, add_tries)
            (record {
              owned = rest.owned;
              kept = rest.kept;
              entered = elim rest.entered [
                | inl there ↦ inl there
                | inr (others, kept) ↦ inr (
                  ((old, taken), subst (λ i. AreTaken tries i m.m_tcp_agent_map) same others),
                  kept,
                )
              ];
            })
    ]

-- For a new agent, that is memory not in use, and a manager in which each entry is an agent with its
-- index: createAgent returns the agent, every entry is kept, all are again agents with their indices,
-- and the agent is in the map under its index or, where the ten indices that come after the last one
-- given are all in use, the map is as before.
pub create_agent-IsAdded :
    (agent : ℕ) (m : AgentManager)
    → IsOwned m
    → m.agents agent ≡ none
    → Returns
        (λ (r : AgentManager × ℕ). (r.1 ≡ agent) × IsAdded 10 (following m.m_index) agent m r.0)
        (create_agent agent m)
unfolding create_agent add_agent generate_index
create_agent-IsAdded agent m o unused =
    let outside : IsOutside agent m =
      λ i e. (let live = o.live i agent e in let wrong : none ≡ some i = sym unused ∙ live in cc) in
    let index = next_index m.m_index in
    let start : AgentManager = set_agent_index agent index (generate_index m) in
    let started : IsOwned start =
      indexed-IsOwned agent index (generate_index m) (generated-IsOwned m o) outside in
    let has_index = update_hit m.agents agent (some index) agent refl in
    let not_zero : (index == 0) ≡ false =
      (let ne = (next_index-small m.m_index o.small).1 in ground (arith, ne)) in
    let added = add_tries-IsAdded 10 index agent start started outside has_index refl in
    let same : index ≡ following m.m_index = next_index-following m.m_index o.small in
    rw (has_index, not_zero)
      (returns (
        refl,
        record {
          owned = added.owned;
          kept = added.kept;
          entered =
              subst (λ i. IsEntered 10 i agent m (add_tries 10 index agent start).0) same
                added.entered;
        },
      ))
