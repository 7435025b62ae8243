-- ===== src/Heartbeat/Check.antt =====
-- Rubbish_cycler/MonitorServer/src/HB_manager.cpp: check_heartbeat_timeout as a whole, on a manager
-- whose list and memory agree.
use terry.Base.{
  ℕ, ◌+◌, ◌≡◌, refl, ◌∙◌, inl, inr, Bool, true, false, not, ◌&&◌, Option, none, some, List, [], ◌∷◌,
  ◌==◌, if◌then◌else◌, length, arith, ==_iff, ==_refl, Bool-cases, Option-cases, Returns, returns,
  Returns-bind, Returns-some,
}
use terry.Base.Int.{ℤ}
use terry.Base.Maps
use terry.Base.Maps.{Entries, IsAscending, update}
use terry.Heartbeat.{Env, HeartbeatAgent, HbManager, is_listed, check_heartbeat_timeout}
use terry.Heartbeat.Consistent.{is_some, IsDistinct, IsConsistent}
use terry.Heartbeat.Sweep.{gone_at, survivors, NamesGone, Swept, sweep-Swept}

module _ (memory : ℕ → Option HeartbeatAgent) (now : ℕ) (timeout : ℤ) where
  at_head :
      (b : ℕ) (list : List ℕ)
      → is_listed b (survivors memory now timeout list)
        ≡ is_listed b list && not (gone_at memory now timeout b)
      → is_listed b (survivors memory now timeout (b ∷ list))
        ≡ is_listed b (b ∷ list) && not (gone_at memory now timeout b)
  at_head b list h = elim (Bool-cases (gone_at memory now timeout b)) [
    | inl gone ↦ rw (gone, h, gone, ==_refl b) (ground arith)
    | inr stays ↦ rw (stays, ==_refl b) refl
  ]

  is_listed-survivors :
      (b : ℕ) (list : List ℕ)
      → is_listed b (survivors memory now timeout list)
        ≡ is_listed b list && not (gone_at memory now timeout b)
  is_listed-survivors b [] = refl
  is_listed-survivors b (a ∷ list) = elim (Bool-cases (a == b)) [
    | inl hit ↦
        let same : a ≡ b = (==_iff a b).0 hit in
        rw same (at_head b list (is_listed-survivors b list))
    | inr miss ↦ elim (Bool-cases (gone_at memory now timeout a)) [
      | inl gone ↦ rw (gone, miss) (is_listed-survivors b list)
      | inr stays ↦ rw (stays, miss) (is_listed-survivors b list)
    ]
  ]

  survivors-IsDistinct :
      (list : List ℕ) → IsDistinct list → IsDistinct (survivors memory now timeout list)
  survivors-IsDistinct [] d = tt
  survivors-IsDistinct (a ∷ list) d = elim (Bool-cases (gone_at memory now timeout a)) [
    | inl gone ↦ rw gone (survivors-IsDistinct list d.1)
    | inr stays ↦
        rw stays (rw (is_listed-survivors a list, d.0) refl, survivors-IsDistinct list d.1)
  ]

pub left_live :
    (o : Option HeartbeatAgent) (gone : Bool)
    → is_some o && not gone ≡ is_some (if gone then none else o)
left_live none true = refl
left_live none false = refl
left_live (some a) true = refl
left_live (some a) false = refl

-- What a check of the timeouts does.
pub record Checked (now : ℕ) (timeout : ℤ) (ips : ℕ → Bool) (m : HbManager)
    (result : HbManager × Option (ℕ × ℕ)) : Type 0 where
  pub closed : ℕ
  pub answer : result.1 ≡ some (closed, length result.0.m_heartbeat_agent_list)
  pub total :
      closed + length result.0.m_heartbeat_agent_list
      ≡ m.m_closed_agent_num + length m.m_heartbeat_agent_list
  pub reset : result.0.m_closed_agent_num ≡ 0
  pub kept :
      result.0.m_heartbeat_agent_list ≡ survivors m.agents now timeout m.m_heartbeat_agent_list
  pub left :
      (a : ℕ) → result.0.agents a ≡ (if gone_at m.agents now timeout a then none else m.agents a)
  pub consistent : IsConsistent result.0
  pub sent : result.0.replies ≡ m.replies
  pub mu_kept :
      (ip : ℕ)
      → ips ip ≡ false
      → Maps.find ip result.0.m_mu_last_load ≡ Maps.find ip m.m_mu_last_load
  pub su_kept :
      (ip : ℕ)
      → ips ip ≡ false
      → Maps.find ip result.0.m_su_last_load ≡ Maps.find ip m.m_su_last_load

-- The agent at a listed address.
pub all_live :
    (m : HbManager)
    → IsConsistent m
    → (a : ℕ) → is_listed a m.m_heartbeat_agent_list ≡ true
    → (agent : HeartbeatAgent) × (m.agents a ≡ some agent) × (m.agents a ≡ some agent)
all_live m c a on = elim (Option-cases (m.agents a)) [
  | inl empty ↦ ground (arith, c.live a)
  | inr (agent, e) ↦ (agent, e, e)
]

module _ (env : Env) (now : ℕ) (timeout : ℤ) (ips : ℕ → Bool) (m : HbManager)
    (c : IsConsistent m) where
  unlisted :
      (a : ℕ)
      → is_listed a m.m_heartbeat_agent_list ≡ false
      → gone_at m.agents now timeout a ≡ false
  unlisted a off = elim (Option-cases (m.agents a)) [
    | inl empty ↦ rw (empty, gone_at) refl
    | inr (agent, e) ↦ ground (arith, c.live a)
  ]

  Swept-Checked :
      (result : List ℕ × HbManager)
      → Swept env now timeout ips m.agents m.m_heartbeat_agent_list m result
      → Checked now timeout ips m (
        record result.1 { m_heartbeat_agent_list = result.0; m_closed_agent_num = 0 },
        some (result.1.m_closed_agent_num, length result.0),
      )
  Swept-Checked result s = record {
    closed = result.1.m_closed_agent_num;
    answer = refl;
    total = s.counted;
    reset = refl;
    kept = s.kept;
    left = left;
    consistent = record {
      distinct =
          rw s.kept (survivors-IsDistinct m.agents now timeout m.m_heartbeat_agent_list c.distinct);
      live = live;
      mu_ascending = s.mu_ascending c.mu_ascending;
      su_ascending = s.su_ascending c.su_ascending;
    };
    sent = s.sent;
    mu_kept = s.mu_kept;
    su_kept = s.su_kept;
  }
    where
      left :
          (a : ℕ)
          → result.1.agents a ≡ (if gone_at m.agents now timeout a then none else m.agents a)
      left a = elim (Bool-cases (is_listed a m.m_heartbeat_agent_list)) [
        | inl on ↦ s.left a ∙ rw on refl
        | inr off ↦ s.left a ∙ rw (off, unlisted a off) refl
      ]

      live : (a : ℕ) → is_listed a result.0 ≡ is_some (result.1.agents a)
      live a =
          rw
            (
              s.kept,
              left a,
              is_listed-survivors m.agents now timeout a m.m_heartbeat_agent_list,
              c.live a,
            )
            (left_live (m.agents a) (gone_at m.agents now timeout a))

-- For a consistent manager and a clock that reads `now`, with `ips` any set that holds the addresses
-- of the agents whose last message is too old: the check returns. The agents that stay listed are
-- those that are not too old, in their order, and exactly those that are too old leave the memory. It
-- answers how many agents have closed since the last check, with those that it removed, and how many
-- are left, and sets the counter back to 0. The manager is consistent again, no reply is sent, and the
-- entries of the nodes outside `ips` are kept in both maps.
pub check_heartbeat_timeout_lem :
    (env : Env) (timeout : ℤ) (ips : ℕ → Bool) (m : HbManager) (now : ℕ)
    → env.now ≡ some now
    → IsConsistent m
    → NamesGone env now timeout ips m.agents m.m_heartbeat_agent_list
    → Returns (Checked now timeout ips m) (check_heartbeat_timeout env timeout m)
unfolding check_heartbeat_timeout
check_heartbeat_timeout_lem env timeout ips m now clock c names =
    Returns-some env.now now _ _ clock (
      Returns-bind
        (sweep-Swept env now timeout ips m.agents m.m_heartbeat_agent_list m c.distinct
          (all_live m c) names)
        (λ result s. returns (Swept-Checked env now timeout ips m c result s)))
