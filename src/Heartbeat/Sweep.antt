-- ===== src/Heartbeat/Sweep.antt =====
-- Rubbish_cycler/MonitorServer/src/HB_manager.cpp: what check_heartbeat_timeout removes and keeps.
use terry.Base.{
  ℕ, ◌+◌, ◌≡◌, ◌≢◌, refl, sym, ◌∙◌, ap, inl, inr, Bool, true, false, ◌&&◌, Option, none, some, List,
  [], ◌∷◌, ◌==◌, if◌then◌else◌, length, arith, ==_iff, ==_refl, Bool-cases, Returns, returns,
  Returns-bind,
}
use terry.Base.Int.{ℤ}
use terry.Base.Maps
use terry.Base.Maps.{Entries, IsAscending, update}
use terry.Heartbeat.{
  Env, HeartbeatAgent, HbManager, clear_node_info, is_listed, is_expired, remove_agent, sweep,
}
use terry.Heartbeat.Consistent.{IsDistinct, IsNamed, clear_node_info-Cleared}

-- An agent lives at the address, and its last message is too old.
abbrev pub gone_at : (ℕ → Option HeartbeatAgent) → ℕ → ℤ → ℕ → Bool
gone_at memory now timeout a = elim (memory a) [
  | none ↦ false
  | some agent ↦ is_expired now timeout agent
]

abbrev pub survivors : (ℕ → Option HeartbeatAgent) → ℕ → ℤ → List ℕ → List ℕ
survivors memory now timeout [] = []
survivors memory now timeout (a ∷ list) =
    if gone_at memory now timeout a
    then survivors memory now timeout list
    else a ∷ survivors memory now timeout list

module _ (env : Env) (now : ℕ) (timeout : ℤ) (ips : ℕ → Bool)
    (memory : ℕ → Option HeartbeatAgent) where
  -- What the loop does with the agents that it has still to visit.
  pub record Swept (list : List ℕ) (m : HbManager) (result : List ℕ × HbManager) : Type 0 where
    pub kept : result.0 ≡ survivors memory now timeout list
    pub counted : result.1.m_closed_agent_num + length result.0 ≡ m.m_closed_agent_num + length list
    pub left :
        (a : ℕ)
        → result.1.agents a
          ≡ (if is_listed a list && gone_at memory now timeout a then none else m.agents a)
    pub listed : result.1.m_heartbeat_agent_list ≡ m.m_heartbeat_agent_list
    pub sent : result.1.replies ≡ m.replies
    pub mu_ascending : IsAscending m.m_mu_last_load → IsAscending result.1.m_mu_last_load
    pub su_ascending : IsAscending m.m_su_last_load → IsAscending result.1.m_su_last_load
    pub mu_kept :
        (ip : ℕ)
        → ips ip ≡ false
        → Maps.find ip result.1.m_mu_last_load ≡ Maps.find ip m.m_mu_last_load
    pub su_kept :
        (ip : ℕ)
        → ips ip ≡ false
        → Maps.find ip result.1.m_su_last_load ≡ Maps.find ip m.m_su_last_load

  -- The agents to visit are still as they were.
  abbrev IsPending : List ℕ → HbManager → Type 0
  IsPending list m =
      (a : ℕ)
      → is_listed a list ≡ true
      → (agent : HeartbeatAgent) × (memory a ≡ some agent) × (m.agents a ≡ some agent)

  -- `ips` holds the addresses of the agents that the loop removes.
  abbrev pub NamesGone : List ℕ → Type 0
  NamesGone list =
      (a : ℕ) (agent : HeartbeatAgent)
      → is_listed a list ≡ true
      → memory a ≡ some agent
      → is_expired now timeout agent ≡ true
      → IsNamed env ips agent

  module _ (a : ℕ) (list : List ℕ) (m : HbManager) (agent : HeartbeatAgent)
      (fresh : is_listed a list ≡ false) (found : memory a ≡ some agent) where
    gone_at_a : gone_at memory now timeout a ≡ is_expired now timeout agent
    gone_at_a = rw (found, gone_at) refl

    keep-Swept :
        (result : List ℕ × HbManager)
        → is_expired now timeout agent ≡ false
        → Swept list m result
        → Swept (a ∷ list) m (a ∷ result.0, result.1)
    keep-Swept result stays s = record {
      kept = rw (gone_at_a, stays, s.kept) refl;
      counted = omega (arith, s.counted);
      left = λ b. elim (Bool-cases (a == b)) [
        | inl hit ↦
            let same : a ≡ b = (==_iff a b).0 hit in
            let gone : gone_at memory now timeout b ≡ false = rw (← same) (gone_at_a ∙ stays) in
            let off : is_listed b list ≡ false = rw (← same) fresh in
            rw (s.left b, hit, gone, off) refl
        | inr miss ↦ rw (s.left b, miss) refl
      ];
      listed = s.listed;
      sent = s.sent;
      mu_ascending = s.mu_ascending;
      su_ascending = s.su_ascending;
      mu_kept = s.mu_kept;
      su_kept = s.su_kept;
    }

    drop-Swept :
        (result : List ℕ × HbManager)
        → is_expired now timeout agent ≡ true
        → IsNamed env ips agent
        → Swept list (remove_agent env a agent m) result
        → Swept (a ∷ list) m result
    unfolding remove_agent
    drop-Swept result goes named s =
        let c = clear_node_info-Cleared env ips agent m named in
        record {
          kept = rw (gone_at_a, goes, s.kept) refl;
          counted = omega (arith, s.counted, c.closed);
          left = λ b. elim (Bool-cases (a == b)) [
            | inl hit ↦
                let same : a ≡ b = (==_iff a b).0 hit in
                let gone : gone_at memory now timeout b ≡ true = rw (← same) (gone_at_a ∙ goes) in
                let off : is_listed b list ≡ false = rw (← same) fresh in
                rw (s.left b, hit, gone, off)
                  (Maps.update_hit (clear_node_info env agent m).agents a none b (sym same))
            | inr miss ↦
                let other : b ≢ a = λ same. ground (arith, miss, ==_iff a b) in
                let at_b : (remove_agent env a agent m).agents b ≡ m.agents b =
                  Maps.update_miss (clear_node_info env agent m).agents a none b other
                  ∙ ap (λ f. f b) c.memory in
                rw (s.left b, miss, at_b) refl
          ];
          listed = s.listed ∙ c.listed;
          sent = s.sent ∙ c.sent;
          mu_ascending = λ h. s.mu_ascending (c.mu_ascending h);
          su_ascending = λ h. s.su_ascending (c.su_ascending h);
          mu_kept = λ ip h. s.mu_kept ip h ∙ c.mu_kept ip h;
          su_kept = λ ip h. s.su_kept ip h ∙ c.su_kept ip h;
        }

  IsPending-rest :
      (a : ℕ) (list : List ℕ) (m : HbManager) → IsPending (a ∷ list) m → IsPending list m
  IsPending-rest a list m p = λ b on. p b (ground arith)

  remove_agent-IsPending :
      (a : ℕ) (list : List ℕ) (m : HbManager) (agent : HeartbeatAgent)
      → is_listed a list ≡ false
      → IsNamed env ips agent
      → IsPending list m
      → IsPending list (remove_agent env a agent m)
  unfolding remove_agent
  remove_agent-IsPending a list m agent fresh named p = λ b on.
      let (x, was, here) = p b on in
      let other : b ≢ a = λ same. let off : is_listed b list ≡ false = rw same fresh in cc in
      let c = clear_node_info-Cleared env ips agent m named in
      let kept = Maps.update_miss (clear_node_info env agent m).agents a none b other in
      (x, was, kept ∙ ap (λ f. f b) c.memory ∙ here)

  pub sweep-Swept :
      (list : List ℕ) (m : HbManager)
      → IsDistinct list
      → IsPending list m
      → NamesGone list
      → Returns (Swept list m) (sweep env now timeout list m)
  unfolding sweep
  sweep-Swept [] m d p n = returns (record {
    kept = refl;
    counted = refl;
    left = λ a. refl;
    listed = refl;
    sent = refl;
    mu_ascending = λ h. h;
    su_ascending = λ h. h;
    mu_kept = λ ip h. refl;
    su_kept = λ ip h. refl;
  })
  sweep-Swept (a ∷ list) m d p n =
      let head : is_listed a (a ∷ list) ≡ true = rw (==_refl a) refl in
      let (agent, was, here) = p a head in
      let names : NamesGone list = λ b x on. n b x (ground arith) in
      elim (Bool-cases (is_expired now timeout agent)) [
        | inl goes ↦
            let named = n a agent head was goes in
            let pending =
              remove_agent-IsPending a list m agent d.0 named (IsPending-rest a list m p) in
            rw (here, goes)
              (Returns-bind (sweep-Swept list (remove_agent env a agent m) d.1 pending names)
                (λ result s. returns (drop-Swept a list m agent d.0 was result goes named s)))
        | inr stays ↦
            rw (here, stays)
              (Returns-bind (sweep-Swept list m d.1 (IsPending-rest a list m p) names)
                (λ result s. returns (keep-Swept a list m agent d.0 was result stays s)))
      ]
