-- ===== src/Heartbeat/Handlers.antt =====
-- Rubbish_cycler/MonitorServer/src/HeartbeatAgent.cpp: the handlers of the requests keep what holds
-- of the manager.
use terry.Base.{
  ℕ, ◌≡◌, ◌≤◌, refl, inl, inr, Bool, true, Option, none, some, List, ◌==◌, leb, if◌then◌else◌,
  length, take, arith, ==_iff, Bool-cases, Run, ok, Returns, returns, Returns-bind, at_option,
  at_if,
}
use terry.Base.Maps.{IsAscending, update}
use terry.Ruler.{RuleType, mu_ruler, su_ruler, other_type}
use terry.Heartbeat.{
  BucketInfo, Env, HeartbeatAgent, HbManager, HeartbeatType, mu_heartbeat, su_heartbeat,
  rs_heartbeat, unknown_heartbeat, string_to_int_ip, init_node_heartbeat_info,
  update_last_bucket_load,
}
use terry.Heartbeat.Agent.{
  InReq, begin, read_back, do_heartbeat, do_heartbeat_handshake, load_heartbeat, reply_request,
  init_node, update_node, buckets_in, limit_in, is_rs, bucket_vec, update_time_stamp, heartbeat_ack,
  cs_error, msg_mu_cs_heartbeat_handshake, msg_su_cs_heartbeat_handshake, msg_mu_cs_heartbeat,
  msg_su_cs_heartbeat, msg_rs_cs_heartbeat,
}
use terry.Heartbeat.Consistent.{is_some, IsConsistent}
use terry.Heartbeat.Listed.{set_limit-IsAscending, set_buckets-IsAscending}

-- The agent lives, and the request has the length of its header.
abbrev pub IsFit : InReq → ℕ → HbManager → Type 0
IsFit req a m = (is_some (m.agents a) ≡ true) × (req.length_of_body ≤ length req.io_buf)

-- The agents and the list are as before, so only the maps have to be looked at.
pub refilled :
    (m after : HbManager)
    → IsConsistent m
    → after.m_heartbeat_agent_list ≡ m.m_heartbeat_agent_list
    → ((a : ℕ) → is_some (after.agents a) ≡ is_some (m.agents a))
    → IsAscending after.m_mu_last_load
    → IsAscending after.m_su_last_load
    → IsConsistent after
refilled m after c same live mu su = record {
  distinct = rw same c.distinct;
  live = λ a. rw (same, live a) (c.live a);
  mu_ascending = mu;
  su_ascending = su;
}

reply_request-IsConsistent :
    (cmd error : ℕ) (m : HbManager) → IsConsistent m → IsConsistent (reply_request cmd error m)
reply_request-IsConsistent cmd error m c =
    refilled m _ c refl (λ a. refl) c.mu_ascending c.su_ascending

init_node_heartbeat_info-IsConsistent :
    (env : Env) (type : RuleType) (hbt : HeartbeatAgent) (load : ℕ) (m : HbManager)
    → IsConsistent m
    → IsConsistent (init_node_heartbeat_info env type hbt load m)
unfolding init_node_heartbeat_info
init_node_heartbeat_info-IsConsistent env mu_ruler hbt load m c =
    at_option IsConsistent (string_to_int_ip env hbt.oppo_ip 0) m _ c (λ ip.
      let mu = set_limit-IsAscending ip load m.m_mu_last_load c.mu_ascending in
      refilled m _ c refl (λ a. refl) mu c.su_ascending)
init_node_heartbeat_info-IsConsistent env su_ruler hbt load m c =
    at_option IsConsistent (string_to_int_ip env hbt.oppo_ip 0) m _ c (λ ip.
      let su = set_limit-IsAscending ip load m.m_su_last_load c.su_ascending in
      refilled m _ c refl (λ a. refl) c.mu_ascending su)
init_node_heartbeat_info-IsConsistent env other_type hbt load m c =
    at_option IsConsistent (string_to_int_ip env hbt.oppo_ip 0) m _ c (λ ip. c)

update_last_bucket_load-IsConsistent :
    (env : Env) (type : RuleType) (hbt : HeartbeatAgent) (buckets : List BucketInfo) (m : HbManager)
    → IsConsistent m
    → IsConsistent (update_last_bucket_load env type hbt buckets m)
unfolding update_last_bucket_load
update_last_bucket_load-IsConsistent env mu_ruler hbt buckets m c =
    at_option IsConsistent (string_to_int_ip env hbt.oppo_ip 0) m _ c (λ ip.
      let mu = set_buckets-IsAscending ip buckets m.m_mu_last_load c.mu_ascending in
      refilled m _ c refl (λ a. refl) mu c.su_ascending)
update_last_bucket_load-IsConsistent env su_ruler hbt buckets m c =
    at_option IsConsistent (string_to_int_ip env hbt.oppo_ip 0) m _ c (λ ip.
      let su = set_buckets-IsAscending ip buckets m.m_su_last_load c.su_ascending in
      refilled m _ c refl (λ a. refl) c.mu_ascending su)
update_last_bucket_load-IsConsistent env other_type hbt buckets m c =
    at_option IsConsistent (string_to_int_ip env hbt.oppo_ip 0) m _ c (λ ip. c)

init_node-IsConsistent :
    (env : Env) (type : HeartbeatType) (hbt : HeartbeatAgent) (limit : ℕ) (m : HbManager)
    → IsConsistent m
    → IsConsistent (init_node env type hbt limit m)
init_node-IsConsistent env mu_heartbeat hbt limit m c =
    init_node_heartbeat_info-IsConsistent env mu_ruler hbt limit m c
init_node-IsConsistent env su_heartbeat hbt limit m c =
    init_node_heartbeat_info-IsConsistent env su_ruler hbt limit m c
init_node-IsConsistent env rs_heartbeat hbt limit m c = c
init_node-IsConsistent env unknown_heartbeat hbt limit m c = c

update_node-IsConsistent :
    (env : Env) (type : HeartbeatType) (hbt : HeartbeatAgent) (buckets : List (ℕ × ℕ))
    (m : HbManager)
    → IsConsistent m
    → IsConsistent (update_node env type hbt buckets m)
update_node-IsConsistent env mu_heartbeat hbt buckets m c =
    update_last_bucket_load-IsConsistent env mu_ruler hbt (bucket_vec buckets) m c
update_node-IsConsistent env su_heartbeat hbt buckets m c =
    update_last_bucket_load-IsConsistent env su_ruler hbt (bucket_vec buckets) m c
update_node-IsConsistent env rs_heartbeat hbt buckets m c = c
update_node-IsConsistent env unknown_heartbeat hbt buckets m c = c

-- The agent after the first steps of a handler.
abbrev pub stamped : Env → HeartbeatType → HeartbeatAgent → HeartbeatAgent
stamped env type agent = record (update_time_stamp env agent) { m_type = type }

-- The manager after the first steps of a handler.
abbrev pub begun : Env → HeartbeatType → ℕ → HeartbeatAgent → HbManager → HbManager
begun env type a agent m = record m { agents = update m.agents a (some (stamped env type agent)) }

pub begin_ok :
    (env : Env) (type : HeartbeatType) (req : InReq) (a : ℕ) (m : HbManager)
    (agent : HeartbeatAgent)
    → m.agents a ≡ some agent
    → req.length_of_body ≤ length req.io_buf
    → begin env type req a m
      ≡ ok (take req.length_of_body req.io_buf, stamped env type agent, begun env type a agent m)
unfolding begin
begin_ok env type req a m agent here fits =
    let whole : leb req.length_of_body (length req.io_buf) ≡ true = ground arith in
    rw (whole, here) refl

begun-IsConsistent :
    (env : Env) (type : HeartbeatType) (a : ℕ) (agent : HeartbeatAgent) (m : HbManager)
    → m.agents a ≡ some agent
    → IsConsistent m
    → IsConsistent (begun env type a agent m)
begun-IsConsistent env type a agent m here c =
    refilled m _ c refl live c.mu_ascending c.su_ascending
  where
    live : (b : ℕ) → is_some ((begun env type a agent m).agents b) ≡ is_some (m.agents b)
    live b = elim (Bool-cases (b == a)) [
      | inl hit ↦ let same : b ≡ a = (==_iff b a).0 hit in rw (hit, same, here) refl
      | inr miss ↦ rw miss refl
    ]

-- A handler gets its agent.
pub agent_of :
    (o : Option HeartbeatAgent) → is_some o ≡ true → (agent : HeartbeatAgent) × (o ≡ some agent)
agent_of none h = cc
agent_of (some agent) h = (agent, refl)

-- A handler leaves a consistent manager.
abbrev LeavesConsistent : HbManager × Bool → Type 0
LeavesConsistent result = IsConsistent result.0

do_heartbeat_handshake-LeavesConsistent :
    (env : Env) (type : HeartbeatType) (req : InReq) (a : ℕ) (m : HbManager)
    → IsConsistent m
    → IsFit req a m
    → Returns LeavesConsistent (do_heartbeat_handshake env type req a m)
unfolding do_heartbeat_handshake
do_heartbeat_handshake-LeavesConsistent env type req a m c adm =
    let (agent, here) = agent_of (m.agents a) adm.0 in
    let ready = begun-IsConsistent env type a agent m here c in
    rw (begin_ok env type req a m agent here adm.1) (
      returns (
        at_option LeavesConsistent (limit_in env type (take req.length_of_body req.io_buf)) _ _
          (reply_request-IsConsistent _ _ (begun env type a agent m) ready)
          (λ limit.
            reply_request-IsConsistent _ _ _ (init_node-IsConsistent env type _ limit _ ready))))

load_heartbeat-LeavesConsistent :
    (env : Env) (type : HeartbeatType) (input : List ℕ) (agent : HeartbeatAgent) (m : HbManager)
    → IsConsistent m
    → LeavesConsistent (load_heartbeat env type input agent m)
unfolding load_heartbeat
load_heartbeat-LeavesConsistent env type input agent m c =
    let failed = reply_request-IsConsistent (heartbeat_ack type) cs_error m c in
    at_option LeavesConsistent (buckets_in env type input) _ _ failed (λ buckets.
      at_option LeavesConsistent (string_to_int_ip env agent.oppo_ip 0) _ _ failed (λ ip.
        reply_request-IsConsistent _ _ _ (update_node-IsConsistent env type agent buckets m c)))

do_heartbeat-LeavesConsistent :
    (env : Env) (type : HeartbeatType) (req : InReq) (a : ℕ) (m : HbManager)
    → IsConsistent m
    → IsFit req a m
    → Returns LeavesConsistent (do_heartbeat env type req a m)
unfolding do_heartbeat
do_heartbeat-LeavesConsistent env type req a m c adm =
    let (agent, here) = agent_of (m.agents a) adm.0 in
    let ready = begun-IsConsistent env type a agent m here c in
    rw (begin_ok env type req a m agent here adm.1) (
      returns (
        at_if LeavesConsistent (is_rs type) _ _
          (reply_request-IsConsistent _ _ (begun env type a agent m) ready)
          (load_heartbeat-LeavesConsistent env type _ (stamped env type agent) _ ready)))

pub read_back-IsConsistent :
    (env : Env) (req : InReq) (a : ℕ) (m : HbManager)
    → IsConsistent m
    → IsFit req a m
    → Returns IsConsistent (read_back env req a m)
unfolding read_back
read_back-IsConsistent env req a m c adm =
    Returns-bind
      (case msg_mu_cs_heartbeat_handshake (shaken mu_heartbeat) (
        case msg_su_cs_heartbeat_handshake (shaken su_heartbeat) (
          case msg_mu_cs_heartbeat (beaten mu_heartbeat) (
            case msg_su_cs_heartbeat (beaten su_heartbeat)
              (case msg_rs_cs_heartbeat (beaten rs_heartbeat) (returns c))))))
      (λ result fine. returns fine)
  where
    shaken :
        (type : HeartbeatType) → Returns LeavesConsistent (do_heartbeat_handshake env type req a m)
    shaken type = do_heartbeat_handshake-LeavesConsistent env type req a m c adm

    beaten : (type : HeartbeatType) → Returns LeavesConsistent (do_heartbeat env type req a m)
    beaten type = do_heartbeat-LeavesConsistent env type req a m c adm

    case :
        (cmd : ℕ) {left right : Run (HbManager × Bool)}
        → Returns LeavesConsistent left
        → Returns LeavesConsistent right
        → Returns LeavesConsistent (if req.cmd == cmd then left else right)
    case cmd l r = at_if (Returns LeavesConsistent) (req.cmd == cmd) _ _ l r
