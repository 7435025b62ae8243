-- ===== src/Heartbeat/Writes.antt =====
-- Rubbish_cycler/MonitorServer/src/HB_manager.cpp: how init_node_heartbeat_info and
-- update_last_bucket_load change the entry of one node, and nothing else.
use terry.Base.{
  ℕ, ◌≡◌, ◌≢◌, refl, inl, inr, Option, none, some, List, [], ◌∷◌, Option-cases, at_option,
  match_some,
}
use terry.Base.Maps
use terry.Base.Maps.{Entries, update}
use terry.Heartbeat.{
  NodeInfo, BucketInfo, Env, HeartbeatAgent, HbManager, HeartbeatType, mu_heartbeat, su_heartbeat,
  string_to_int_ip, init_node_heartbeat_info, update_last_bucket_load, set_limit, set_buckets,
}
use terry.Heartbeat.Agent.{
  update_time_stamp, reply_request, init_node, update_node, bucket_vec, heartbeat_ack,
  handshake_ack, cs_ok, msg_mu_cs_heartbeat_handshake, msg_su_cs_heartbeat_handshake,
  msg_mu_cs_heartbeat, msg_su_cs_heartbeat,
}
use terry.Heartbeat.Handlers.{stamped}

-- The two types of nodes that have a load.
pub data NodeType : Type 0 where
  mu_node su_node : NodeType

abbrev pub type_of : NodeType → HeartbeatType
type_of mu_node = mu_heartbeat
type_of su_node = su_heartbeat

abbrev pub handshake_cmd : NodeType → ℕ
handshake_cmd mu_node = msg_mu_cs_heartbeat_handshake
handshake_cmd su_node = msg_su_cs_heartbeat_handshake

abbrev pub heartbeat_cmd : NodeType → ℕ
heartbeat_cmd mu_node = msg_mu_cs_heartbeat
heartbeat_cmd su_node = msg_su_cs_heartbeat

-- The map for nodes of a type, and the other one.
abbrev pub own_loads : NodeType → HbManager → Entries NodeInfo
own_loads mu_node m = m.m_mu_last_load
own_loads su_node m = m.m_su_last_load

abbrev pub other_loads : NodeType → HbManager → Entries NodeInfo
other_loads mu_node m = m.m_su_last_load
other_loads su_node m = m.m_mu_last_load

-- A handler has written one entry of one map, and sent one reply.
pub record Wrote (node : NodeType) (ip a : ℕ) (agent : HeartbeatAgent) (entry : Option NodeInfo)
    (ack : ℕ) (m after : HbManager) : Type 0 where
  pub entry_is : Maps.find ip (own_loads node after) ≡ entry
  pub entries_kept :
      (other : ℕ)
      → other ≢ ip
      → Maps.find other (own_loads node after) ≡ Maps.find other (own_loads node m)
  pub other_kept : other_loads node after ≡ other_loads node m
  pub list_kept : after.m_heartbeat_agent_list ≡ m.m_heartbeat_agent_list
  pub memory : after.agents ≡ update m.agents a (some agent)
  pub replied : after.replies ≡ record { cmd = ack; error = cs_ok } ∷ m.replies

-- The bucket list that a handshake leaves: that of an earlier entry, or none.
abbrev pub buckets_before : Option NodeInfo → List BucketInfo
buckets_before none = []
buckets_before (some info) = info.bucket_list

pub find-set_limit :
    (ip load : ℕ) (nodes : Entries NodeInfo)
    → Maps.find ip (set_limit ip load nodes)
      ≡ some (record { storage_limit = load; bucket_list = buckets_before (Maps.find ip nodes) })
unfolding set_limit
find-set_limit ip load nodes = elim (Option-cases (Maps.find ip nodes)) [
  | inl missing ↦ rw (missing, set_limit) (Maps.find-insert ip _ nodes missing)
  | inr (info, found) ↦ rw (found, set_limit) (Maps.find-assign ip _ info nodes found)
]

find-set_limit_ne :
    (ip load other : ℕ) (nodes : Entries NodeInfo)
    → other ≢ ip
    → Maps.find other (set_limit ip load nodes) ≡ Maps.find other nodes
unfolding set_limit
find-set_limit_ne ip load other nodes h = elim (Option-cases (Maps.find ip nodes)) [
  | inl missing ↦ rw (missing, set_limit) (Maps.find-insert_ne ip other _ nodes h)
  | inr (info, found) ↦ rw (found, set_limit) (Maps.find-assign_ne ip other _ nodes h)
]

find-set_buckets :
    (ip : ℕ) (buckets : List BucketInfo) (nodes : Entries NodeInfo) (info : NodeInfo)
    → Maps.find ip nodes ≡ some info
    → Maps.find ip (set_buckets ip buckets nodes) ≡ some (record info { bucket_list = buckets })
unfolding set_buckets
find-set_buckets ip buckets nodes info found =
    rw (found, set_buckets) (Maps.find-assign ip _ info nodes found)

find-set_buckets_ne :
    (ip other : ℕ) (buckets : List BucketInfo) (nodes : Entries NodeInfo)
    → other ≢ ip
    → Maps.find other (set_buckets ip buckets nodes) ≡ Maps.find other nodes
unfolding set_buckets
find-set_buckets_ne ip other buckets nodes h = elim (Option-cases (Maps.find ip nodes)) [
  | inl missing ↦ rw (missing, set_buckets) refl
  | inr (info, found) ↦ rw (found, set_buckets) (Maps.find-assign_ne ip other _ nodes h)
]

-- The new time and type leave the address.
pub stamped_ip :
    (env : Env) (type : HeartbeatType) (agent : HeartbeatAgent)
    → (stamped env type agent).oppo_ip ≡ agent.oppo_ip
unfolding update_time_stamp
stamped_ip env type agent =
    at_option (λ (x : HeartbeatAgent). x.oppo_ip ≡ agent.oppo_ip) env.now _ _ refl (λ now. refl)

module _ (env : Env) (ip a : ℕ) (agent : HeartbeatAgent) (m : HbManager)
    (resolved : string_to_int_ip env agent.oppo_ip 0 ≡ some ip) where
  -- The manager with the agent in memory as the handler has changed it.
  abbrev kept : HbManager
  kept = record m { agents = update m.agents a (some agent) }

  pub init_node-Wrote :
      (node : NodeType) (limit : ℕ)
      → Wrote node ip a agent
          (some (record {
            storage_limit = limit;
            bucket_list = buckets_before (Maps.find ip (own_loads node m));
          }))
          (handshake_ack (type_of node))
          m
          (reply_request
            (handshake_ack (type_of node))
            cs_ok
            (init_node env (type_of node) agent limit kept))
  unfolding init_node_heartbeat_info
  init_node-Wrote mu_node limit =
      rw
        (match_some (string_to_int_ip env agent.oppo_ip 0) ip kept
          (λ x. record kept { m_mu_last_load = set_limit x limit m.m_mu_last_load }) resolved)
        (record {
          entry_is = find-set_limit ip limit m.m_mu_last_load;
          entries_kept = λ other. find-set_limit_ne ip limit other m.m_mu_last_load;
          other_kept = refl;
          list_kept = refl;
          memory = refl;
          replied = refl;
        })
  init_node-Wrote su_node limit =
      rw
        (match_some (string_to_int_ip env agent.oppo_ip 0) ip kept
          (λ x. record kept { m_su_last_load = set_limit x limit m.m_su_last_load }) resolved)
        (record {
          entry_is = find-set_limit ip limit m.m_su_last_load;
          entries_kept = λ other. find-set_limit_ne ip limit other m.m_su_last_load;
          other_kept = refl;
          list_kept = refl;
          memory = refl;
          replied = refl;
        })

  pub update_node-Wrote :
      (node : NodeType) (items : List (ℕ × ℕ)) (info : NodeInfo)
      → Maps.find ip (own_loads node m) ≡ some info
      → Wrote node ip a agent
          (some (record info { bucket_list = bucket_vec items }))
          (heartbeat_ack (type_of node))
          m
          (reply_request
            (heartbeat_ack (type_of node))
            cs_ok
            (update_node env (type_of node) agent items kept))
  unfolding update_last_bucket_load
  update_node-Wrote mu_node items info found =
      rw
        (match_some (string_to_int_ip env agent.oppo_ip 0) ip kept
          (λ x. record kept { m_mu_last_load = set_buckets x (bucket_vec items) m.m_mu_last_load })
          resolved)
        (record {
          entry_is = find-set_buckets ip (bucket_vec items) m.m_mu_last_load info found;
          entries_kept = λ other. find-set_buckets_ne ip other (bucket_vec items) m.m_mu_last_load;
          other_kept = refl;
          list_kept = refl;
          memory = refl;
          replied = refl;
        })
  update_node-Wrote su_node items info found =
      rw
        (match_some (string_to_int_ip env agent.oppo_ip 0) ip kept
          (λ x. record kept { m_su_last_load = set_buckets x (bucket_vec items) m.m_su_last_load })
          resolved)
        (record {
          entry_is = find-set_buckets ip (bucket_vec items) m.m_su_last_load info found;
          entries_kept = λ other. find-set_buckets_ne ip other (bucket_vec items) m.m_su_last_load;
          other_kept = refl;
          list_kept = refl;
          memory = refl;
          replied = refl;
        })
