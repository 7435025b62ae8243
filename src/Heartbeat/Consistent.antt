-- ===== src/Heartbeat/Consistent.antt =====
-- Rubbish_cycler/MonitorServer/src/HB_manager.cpp: what holds of the manager between two events, and
-- what clearing a node's information keeps.
use terry.Base.{
  ℕ, ◌≡◌, ◌≢◌, refl, inl, inr, Bool, true, false, Option, none, some, List, [], ◌∷◌, Option-cases,
}
use terry.Base.Maps
use terry.Base.Maps.{Entries, IsAscending, update}
use terry.Heartbeat.{
  Env, HeartbeatAgent, HbManager, new, string_to_int_ip, clear_ip, clear_node_info, is_listed,
}

abbrev pub is_some {ℓ} : {A : Type ℓ} → Option A → Bool
is_some none = false
is_some (some a) = true

abbrev pub IsDistinct : List ℕ → Type 0
IsDistinct [] = Unit
IsDistinct (a ∷ list) = (is_listed a list ≡ false) × IsDistinct list

-- The agents in memory are those of the list, once each, and the keys of both maps ascend.
pub record IsConsistent (m : HbManager) : Type 0 where
  pub distinct : IsDistinct m.m_heartbeat_agent_list
  pub live : (a : ℕ) → is_listed a m.m_heartbeat_agent_list ≡ is_some (m.agents a)
  pub mu_ascending : IsAscending m.m_mu_last_load
  pub su_ascending : IsAscending m.m_su_last_load

pub new-IsConsistent : IsConsistent new
unfolding new
new-IsConsistent = record { distinct = tt; live = λ a. refl; mu_ascending = tt; su_ascending = tt }

-- What an agent that is gone may change: the maps, which stay in order and keep the entries of the
-- other nodes.
pub record Cleared (ips : ℕ → Bool) (m after : HbManager) : Type 0 where
  pub listed : after.m_heartbeat_agent_list ≡ m.m_heartbeat_agent_list
  pub memory : after.agents ≡ m.agents
  pub closed : after.m_closed_agent_num ≡ m.m_closed_agent_num
  pub sent : after.replies ≡ m.replies
  pub mu_ascending : IsAscending m.m_mu_last_load → IsAscending after.m_mu_last_load
  pub su_ascending : IsAscending m.m_su_last_load → IsAscending after.m_su_last_load
  pub mu_kept :
      (ip : ℕ) → ips ip ≡ false → Maps.find ip after.m_mu_last_load ≡ Maps.find ip m.m_mu_last_load
  pub su_kept :
      (ip : ℕ) → ips ip ≡ false → Maps.find ip after.m_su_last_load ≡ Maps.find ip m.m_su_last_load

Cleared-refl : (ips : ℕ → Bool) (m : HbManager) → Cleared ips m m
Cleared-refl ips m = record {
  listed = refl;
  memory = refl;
  closed = refl;
  sent = refl;
  mu_ascending = λ h. h;
  su_ascending = λ h. h;
  mu_kept = λ ip h. refl;
  su_kept = λ ip h. refl;
}

other_node : (ips : ℕ → Bool) {gone ip : ℕ} → ips gone ≡ true → ips ip ≡ false → ip ≢ gone
other_node ips h other = λ same. cc

pub clear_ip-Cleared :
    (ips : ℕ → Bool) (gone : ℕ) (m : HbManager) → ips gone ≡ true → Cleared ips m (clear_ip gone m)
unfolding clear_ip
clear_ip-Cleared ips gone m h = elim (Option-cases (Maps.find gone m.m_su_last_load)) [
  | inr (info, su) ↦
      rw (su, clear_ip)
        (record {
          listed = refl;
          memory = refl;
          closed = refl;
          sent = refl;
          mu_ascending = λ h. h;
          su_ascending = Maps.erase-IsAscending gone m.m_su_last_load;
          mu_kept = λ ip h. refl;
          su_kept =
              λ ip other. Maps.find-erase_ne gone ip m.m_su_last_load (other_node ips h other);
        })
  | inl su ↦ elim (Option-cases (Maps.find gone m.m_mu_last_load)) [
    | inr (info, mu) ↦
        rw (su, mu, clear_ip)
          (record {
            listed = refl;
            memory = refl;
            closed = refl;
            sent = refl;
            su_ascending = λ h. h;
            mu_ascending = Maps.erase-IsAscending gone m.m_mu_last_load;
            su_kept = λ ip h. refl;
            mu_kept =
                λ ip other. Maps.find-erase_ne gone ip m.m_mu_last_load (other_node ips h other);
          })
    | inl mu ↦ rw (su, mu, clear_ip) (Cleared-refl ips m)
  ]
]

-- The agent's address, as the manager reads it, is one of `ips`.
abbrev pub IsNamed : Env → (ℕ → Bool) → HeartbeatAgent → Type 0
IsNamed env ips agent = (ip : ℕ) → string_to_int_ip env agent.oppo_ip 0 ≡ some ip → ips ip ≡ true

pub clear_node_info-Cleared :
    (env : Env) (ips : ℕ → Bool) (agent : HeartbeatAgent) (m : HbManager)
    → IsNamed env ips agent
    → Cleared ips m (clear_node_info env agent m)
unfolding clear_node_info
clear_node_info-Cleared env ips agent m h =
    elim (Option-cases (string_to_int_ip env agent.oppo_ip 0)) [
      | inl failed ↦ rw (failed, clear_node_info) (Cleared-refl ips m)
      | inr (ip, got) ↦ rw (got, clear_node_info) (clear_ip-Cleared ips ip m (h ip got))
    ]
