-- ===== src/Heartbeat/Loads.antt =====
-- Rubbish_cycler/MonitorServer/src/HeartbeatAgent.cpp and HB_manager.cpp: what a node tells the
-- manager by its handshake and its heartbeats is what the manager records for its address.
use terry.Base.{
  ℕ, ◌≡◌, ◌≢◌, ◌≤◌, refl, ◌∙◌, ap, Bool, false, some, List, ◌∷◌, ◌==◌, if◌then◌else◌, length, take,
  Run, ok, ◌>>=◌, Returns, returns, Returns-bind, Returns-map, match_some,
}
use terry.Base.Maps
use terry.Base.Maps.{Entries, update}
use terry.Heartbeat.{
  NodeInfo, Env, HeartbeatAgent, HbManager, Reply, rs_heartbeat, string_to_int_ip,
}
use terry.Heartbeat.Agent.{
  InReq, read_back, do_heartbeat, do_heartbeat_handshake, load_heartbeat, reply_request, init_node,
  update_node, buckets_in, limit_in, is_rs, bucket_vec, heartbeat_ack, handshake_ack, cs_ok,
  msg_mu_cs_heartbeat_handshake, msg_su_cs_heartbeat_handshake, msg_mu_cs_heartbeat,
  msg_su_cs_heartbeat, msg_rs_cs_heartbeat,
}
use terry.Heartbeat.Handlers.{stamped, begun, begin_ok}
use terry.Heartbeat.Writes.{
  NodeType, mu_node, su_node, type_of, handshake_cmd, heartbeat_cmd, own_loads, other_loads, Wrote,
  buckets_before, stamped_ip, init_node-Wrote, update_node-Wrote,
}

-- The switch of readBack on the commands of the nodes.
abbrev switch :
    (cmd : ℕ) (shaken beaten : NodeType → Run (HbManager × Bool))
    (rs other : Run (HbManager × Bool))
    → Run (HbManager × Bool)
switch cmd shaken beaten rs other =
    if cmd == msg_mu_cs_heartbeat_handshake
    then shaken mu_node
    else if cmd == msg_su_cs_heartbeat_handshake
    then shaken su_node
    else if cmd == msg_mu_cs_heartbeat
    then beaten mu_node
    else if cmd == msg_su_cs_heartbeat
    then beaten su_node
    else if cmd == msg_rs_cs_heartbeat
    then rs
    else other

module _ (shaken beaten : NodeType → Run (HbManager × Bool))
    (rs other : Run (HbManager × Bool)) where
  switch_handshake :
      (node : NodeType) (cmd : ℕ)
      → cmd ≡ handshake_cmd node
      → switch cmd shaken beaten rs other ≡ shaken node
  switch_handshake mu_node cmd e = rw e refl
  switch_handshake su_node cmd e = rw e refl

  switch_heartbeat :
      (node : NodeType) (cmd : ℕ)
      → cmd ≡ heartbeat_cmd node
      → switch cmd shaken beaten rs other ≡ beaten node
  switch_heartbeat mu_node cmd e = rw e refl
  switch_heartbeat su_node cmd e = rw e refl

not_rs : (node : NodeType) → is_rs (type_of node) ≡ false
not_rs mu_node = refl
not_rs su_node = refl

-- A request of a living agent, whose address `inet_pton` reads.
module _ (env : Env) (a ip : ℕ) (m : HbManager) (agent : HeartbeatAgent)
    (here : m.agents a ≡ some agent) (resolved : string_to_int_ip env agent.oppo_ip 0 ≡ some ip)
    (node : NodeType) (req : InReq) (fits : req.length_of_body ≤ length req.io_buf) where
  still : string_to_int_ip env (stamped env (type_of node) agent).oppo_ip 0 ≡ some ip
  still = rw (stamped_ip env (type_of node) agent) resolved

  read_back_handshake :
      (limit : ℕ)
      → req.cmd ≡ handshake_cmd node
      → limit_in env (type_of node) (take req.length_of_body req.io_buf) ≡ some limit
      → read_back env req a m
        ≡ ok (
            reply_request (handshake_ack (type_of node)) cs_ok (
              init_node env
                (type_of node)
                (stamped env (type_of node) agent)
                limit
                (begun env (type_of node) a agent m)))
  unfolding read_back do_heartbeat_handshake
  read_back_handshake limit is_cmd parsed =
      ap (λ run. run >>= λ r. ok r.0)
        (switch_handshake (λ n. do_heartbeat_handshake env (type_of n) req a m)
          (λ n. do_heartbeat env (type_of n) req a m) (do_heartbeat env rs_heartbeat req a m)
          (ok (m, false)) node req.cmd is_cmd)
      ∙ rw (begin_ok env (type_of node) req a m agent here fits) (
          ap (λ (r : HbManager × Bool). ok r.0)
            (match_some (limit_in env (type_of node) (take req.length_of_body req.io_buf)) limit _ _
              parsed))

  read_back_heartbeat :
      (items : List (ℕ × ℕ))
      → req.cmd ≡ heartbeat_cmd node
      → buckets_in env (type_of node) (take req.length_of_body req.io_buf) ≡ some items
      → read_back env req a m
        ≡ ok (
            reply_request (heartbeat_ack (type_of node)) cs_ok (
              update_node env
                (type_of node)
                (stamped env (type_of node) agent)
                items
                (begun env (type_of node) a agent m)))
  unfolding read_back do_heartbeat load_heartbeat
  read_back_heartbeat items is_cmd parsed =
      ap (λ run. run >>= λ r. ok r.0)
        (switch_heartbeat (λ n. do_heartbeat_handshake env (type_of n) req a m)
          (λ n. do_heartbeat env (type_of n) req a m) (do_heartbeat env rs_heartbeat req a m)
          (ok (m, false)) node req.cmd is_cmd)
      ∙ rw (begin_ok env (type_of node) req a m agent here fits, not_rs node)
          (ap (λ (r : HbManager × Bool). ok r.0)
            (match_some (buckets_in env (type_of node) (take req.length_of_body req.io_buf)) items _
                _ parsed
              ∙ match_some (string_to_int_ip env (stamped env (type_of node) agent).oppo_ip 0) ip _
                  _ still))

  handshake-Wrote :
      (limit : ℕ)
      → req.cmd ≡ handshake_cmd node
      → limit_in env (type_of node) (take req.length_of_body req.io_buf) ≡ some limit
      → Returns
          (Wrote node ip a
            (stamped env (type_of node) agent)
            (some (record {
              storage_limit = limit;
              bucket_list = buckets_before (Maps.find ip (own_loads node m));
            }))
            (handshake_ack (type_of node))
            m)
          (read_back env req a m)
  handshake-Wrote limit is_cmd parsed =
      rw (read_back_handshake limit is_cmd parsed)
        (returns (init_node-Wrote env ip a (stamped env (type_of node) agent) m still node limit))

  heartbeat-Wrote :
      (items : List (ℕ × ℕ)) (info : NodeInfo)
      → req.cmd ≡ heartbeat_cmd node
      → buckets_in env (type_of node) (take req.length_of_body req.io_buf) ≡ some items
      → Maps.find ip (own_loads node m) ≡ some info
      → Returns
          (Wrote node ip a
            (stamped env (type_of node) agent)
            (some (record info { bucket_list = bucket_vec items }))
            (heartbeat_ack (type_of node))
            m)
          (read_back env req a m)
  heartbeat-Wrote items info is_cmd parsed found = rw (read_back_heartbeat items is_cmd parsed) (
      returns (
        update_node-Wrote env ip a (stamped env (type_of node) agent) m still node items info
          found))

-- What a handshake and a heartbeat leave.
pub record Recorded (node : NodeType) (ip limit : ℕ) (items : List (ℕ × ℕ)) (m after : HbManager)
    : Type 0 where
  pub entry_is :
      Maps.find ip (own_loads node after)
      ≡ some (record { storage_limit = limit; bucket_list = bucket_vec items })
  pub entries_kept :
      (other : ℕ)
      → other ≢ ip
      → Maps.find other (own_loads node after) ≡ Maps.find other (own_loads node m)
  pub other_kept : other_loads node after ≡ other_loads node m
  pub list_kept : after.m_heartbeat_agent_list ≡ m.m_heartbeat_agent_list
  pub replied :
      after.replies
      ≡ record { cmd = heartbeat_ack (type_of node); error = cs_ok }
        ∷ record { cmd = handshake_ack (type_of node); error = cs_ok }
        ∷ m.replies

-- For an MU or an SU node whose agent is in memory and whose address `inet_pton` reads both times, a
-- handshake request and then a heartbeat request, both as long as their headers say and both parsed:
-- the two calls of readBack return, the node's map holds for its address exactly the storage limit of
-- the handshake and the buckets of the heartbeat, whatever it held before, the other entries, the
-- other map and the list are kept, and the two requests are acknowledged with CS_OK in their order.
pub read_back-Recorded :
    (env env' : Env) (a ip : ℕ) (m : HbManager) (agent : HeartbeatAgent) (node : NodeType)
    (shake beat : InReq) (limit : ℕ) (items : List (ℕ × ℕ))
    → m.agents a ≡ some agent
    → string_to_int_ip env agent.oppo_ip 0 ≡ some ip
    → string_to_int_ip env' agent.oppo_ip 0 ≡ some ip
    → shake.cmd ≡ handshake_cmd node
    → shake.length_of_body ≤ length shake.io_buf
    → limit_in env (type_of node) (take shake.length_of_body shake.io_buf) ≡ some limit
    → beat.cmd ≡ heartbeat_cmd node
    → beat.length_of_body ≤ length beat.io_buf
    → buckets_in env' (type_of node) (take beat.length_of_body beat.io_buf) ≡ some items
    → Returns (Recorded node ip limit items m) (read_back env shake a m >>= read_back env' beat a)
read_back-Recorded env env' a ip m agent node shake beat limit items here res res' cmd fits parsed
      cmd' fits' parsed' =
    Returns-bind (handshake-Wrote env a ip m agent here res node shake fits limit cmd parsed)
      (λ m₁ w.
        let agent₁ = stamped env (type_of node) agent in
        let here₁ : m₁.agents a ≡ some agent₁ =
          ap (λ f. f a) w.memory ∙ Maps.update_hit m.agents a (some agent₁) a refl in
        let res₁ : string_to_int_ip env' agent₁.oppo_ip 0 ≡ some ip =
          rw (stamped_ip env (type_of node) agent) res' in
        Returns-map
          (heartbeat-Wrote env' a ip m₁ agent₁ here₁ res₁ node beat fits' items _ cmd' parsed'
            w.entry_is)
          (λ m₂ v. record {
            entry_is = v.entry_is;
            entries_kept = λ other h. v.entries_kept other h ∙ w.entries_kept other h;
            other_kept = v.other_kept ∙ w.other_kept;
            list_kept = v.list_kept ∙ w.list_kept;
            replied =
                v.replied
                ∙ ap
                    (λ (l : List Reply).
                      record { cmd = heartbeat_ack (type_of node); error = cs_ok } ∷ l)
                    w.replied;
          }))
