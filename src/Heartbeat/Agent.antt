-- ===== src/Heartbeat/Agent.antt =====
-- Rubbish_cycler/MonitorServer/src/HeartbeatAgent.cpp: the agent of one heartbeat connection, with
-- the commands of common/protocol/cstore.protocol.h. The agent's own part of TCPAgent::recycler, which
-- closes the socket, is outside of the model; a deleted agent leaves the memory.
use terry.Base.{
  ℕ, Bool, true, false, Option, none, some, List, [], ◌∷◌, leb, ◌==◌, if◌then◌else◌, take, length,
  Run, ok, fault, ◌>>=◌, or_fault,
}
use terry.Base.Int.{ℤ, pos, negsuc}
use terry.Base.Maps.{update}
use terry.Ruler.{mu_ruler, su_ruler}
use terry.Heartbeat.{
  HeartbeatType, mu_heartbeat, su_heartbeat, rs_heartbeat, unknown_heartbeat, BucketInfo, Env,
  HeartbeatAgent, HbManager, add_heartbeat_agent, heartbeat_closed, string_to_int_ip,
  init_node_heartbeat_info, update_last_bucket_load,
}

-- The command and the length of a request's header, and its `ioBuf`.
pub record InReq : Type 0 where
  pub cmd : ℕ
  pub length_of_body : ℕ
  pub io_buf : List ℕ

abbrev pub msg_rs_cs_heartbeat : ℕ
msg_rs_cs_heartbeat = 0x0200_0010

abbrev pub msg_rs_cs_heartbeat_ack : ℕ
msg_rs_cs_heartbeat_ack = 0x0200_0011

abbrev pub msg_mu_cs_heartbeat_handshake : ℕ
msg_mu_cs_heartbeat_handshake = 0x0201_0010

abbrev pub msg_mu_cs_heartbeat_handshake_ack : ℕ
msg_mu_cs_heartbeat_handshake_ack = 0x0201_0011

abbrev pub msg_mu_cs_heartbeat : ℕ
msg_mu_cs_heartbeat = 0x0201_0020

abbrev pub msg_mu_cs_heartbeat_ack : ℕ
msg_mu_cs_heartbeat_ack = 0x0201_0021

abbrev pub msg_su_cs_heartbeat_handshake : ℕ
msg_su_cs_heartbeat_handshake = 0x0202_0010

abbrev pub msg_su_cs_heartbeat_handshake_ack : ℕ
msg_su_cs_heartbeat_handshake_ack = 0x0202_0011

abbrev pub msg_su_cs_heartbeat : ℕ
msg_su_cs_heartbeat = 0x0202_0020

abbrev pub msg_su_cs_heartbeat_ack : ℕ
msg_su_cs_heartbeat_ack = 0x0202_0021

abbrev pub cs_ok : ℕ
cs_ok = 0x1000_0000

abbrev pub cs_error : ℕ
cs_error = 0x1000_0001

-- The constructor and `init`, for an agent that `new` has put at an address.
unfoldable pub init : Env → ℕ → List ℕ → HbManager → HbManager
init env a ip m =
    let stamp : ℤ = elim env.now [ none ↦ negsuc 0 | some now ↦ pos now ] in
    let agent : HeartbeatAgent = record {
      oppo_ip = ip;
      m_time_stamp = stamp;
      m_type = unknown_heartbeat;
    } in
    add_heartbeat_agent a (record m { agents = update m.agents a (some agent) })

-- Closing the socket is outside, so the manager is all that the call changes.
unfoldable pub recycler : Env → ℕ → HbManager → Run HbManager
recycler env a m = heartbeat_closed env a m

unfoldable pub update_time_stamp : Env → HeartbeatAgent → HeartbeatAgent
update_time_stamp env agent = elim env.now [
  | none ↦ agent
  | some now ↦ record agent { m_time_stamp = pos now }
]

-- The first steps of both handlers: the data, and the agent with its new time and type.
unfoldable pub begin :
    Env → HeartbeatType → InReq → ℕ → HbManager → Run (List ℕ × HeartbeatAgent × HbManager)
begin env type req a m = do
  input ←
      if leb req.length_of_body (length req.io_buf)
      then ok (take req.length_of_body req.io_buf)
      else fault
  agent ← or_fault (m.agents a)
  let stamped : HeartbeatAgent = record (update_time_stamp env agent) { m_type = type }
  ok (input, stamped, record m { agents = update m.agents a (some stamped) })

abbrev pub reply_request : ℕ → ℕ → HbManager → HbManager
reply_request cmd error m = record m { replies = record { cmd = cmd; error = error } ∷ m.replies }

-- `cmd_ack` of each handler.
abbrev pub handshake_ack : HeartbeatType → ℕ
handshake_ack mu_heartbeat = msg_mu_cs_heartbeat_handshake_ack
handshake_ack su_heartbeat = msg_su_cs_heartbeat_handshake_ack
handshake_ack _ = 0

abbrev pub heartbeat_ack : HeartbeatType → ℕ
heartbeat_ack mu_heartbeat = msg_mu_cs_heartbeat_ack
heartbeat_ack su_heartbeat = msg_su_cs_heartbeat_ack
heartbeat_ack _ = 0

-- `storage_limit`, unless the parser fails.
abbrev pub limit_in : Env → HeartbeatType → List ℕ → Option ℕ
limit_in env mu_heartbeat input = env.mu_handshake input
limit_in env su_heartbeat input = env.su_handshake input
limit_in env _ input = some 0

abbrev pub init_node : Env → HeartbeatType → HeartbeatAgent → ℕ → HbManager → HbManager
init_node env mu_heartbeat agent limit m = init_node_heartbeat_info env mu_ruler agent limit m
init_node env su_heartbeat agent limit m = init_node_heartbeat_info env su_ruler agent limit m
init_node env _ agent limit m = m

-- The result is whether the call succeeded: `true` for 0, `false` for -1.
unfoldable pub do_heartbeat_handshake :
    Env → HeartbeatType → InReq → ℕ → HbManager → Run (HbManager × Bool)
do_heartbeat_handshake env type req a m = do
  (input, agent, begun) ← begin env type req a m
  ok (elim (limit_in env type input) [
    | none ↦ (reply_request (handshake_ack type) cs_error begun, false)
    | some limit ↦
        (reply_request (handshake_ack type) cs_ok (init_node env type agent limit begun), true)
  ])

-- The loop of update_last_bucket_load over the Bucket_Item values.
unfoldable pub bucket_vec : List (ℕ × ℕ) → List BucketInfo
bucket_vec [] = []
bucket_vec (item ∷ list) = record { bucket_nr = item.0; bucket_load = item.1 } ∷ bucket_vec list

-- `bucket_item_list`, unless the parser fails.
abbrev pub buckets_in : Env → HeartbeatType → List ℕ → Option (List (ℕ × ℕ))
buckets_in env mu_heartbeat input = env.mu_heartbeats input
buckets_in env su_heartbeat input = env.su_heartbeats input
buckets_in env _ input = some []

abbrev pub update_node : Env → HeartbeatType → HeartbeatAgent → List (ℕ × ℕ) → HbManager → HbManager
update_node env mu_heartbeat agent buckets m =
    update_last_bucket_load env mu_ruler agent (bucket_vec buckets) m
update_node env su_heartbeat agent buckets m =
    update_last_bucket_load env su_ruler agent (bucket_vec buckets) m
update_node env _ agent buckets m = m

-- `do_heartbeat` of an agent that is not of type RS_HEARTBEAT, from its first branch on. The call
-- of string_to_int_ip in it fails only where `inet_pton` returns -1.
unfoldable pub load_heartbeat :
    Env → HeartbeatType → List ℕ → HeartbeatAgent → HbManager → HbManager × Bool
load_heartbeat env type input agent begun = elim (buckets_in env type input) [
  | none ↦ (reply_request (heartbeat_ack type) cs_error begun, false)
  | some buckets ↦ elim (string_to_int_ip env agent.oppo_ip 0) [
    | none ↦ (reply_request (heartbeat_ack type) cs_error begun, false)
    | some ip ↦
        (reply_request (heartbeat_ack type) cs_ok (update_node env type agent buckets begun), true)
  ]
]

-- `RS_HEARTBEAT == type`
abbrev pub is_rs : HeartbeatType → Bool
is_rs rs_heartbeat = true
is_rs _ = false

unfoldable pub do_heartbeat : Env → HeartbeatType → InReq → ℕ → HbManager → Run (HbManager × Bool)
do_heartbeat env type req a m = do
  (input, agent, begun) ← begin env type req a m
  ok (
      if is_rs type
      then (reply_request msg_rs_cs_heartbeat_ack cs_ok begun, true)
      else load_heartbeat env type input agent begun)

-- The switch on the command; the last branch only logs.
unfoldable pub read_back : Env → InReq → ℕ → HbManager → Run HbManager
read_back env req a m = do
  (after, done) ←
      if req.cmd == msg_mu_cs_heartbeat_handshake
      then do_heartbeat_handshake env mu_heartbeat req a m
      else if req.cmd == msg_su_cs_heartbeat_handshake
      then do_heartbeat_handshake env su_heartbeat req a m
      else if req.cmd == msg_mu_cs_heartbeat
      then do_heartbeat env mu_heartbeat req a m
      else if req.cmd == msg_su_cs_heartbeat
      then do_heartbeat env su_heartbeat req a m
      else if req.cmd == msg_rs_cs_heartbeat
      then do_heartbeat env rs_heartbeat req a m
      else ok (m, false)
  ok after
