-- ===== src/Heartbeat.antt =====
-- Rubbish_cycler/MonitorServer/src/HB_manager.cpp and HB_manager.h: the class HBManager, with the
-- memory of the agents it points to (`none` where no agent lives) and the replies that the agents
-- have sent, the last one first. What comes from outside is an `Env`: the time, `inet_pton`, and the
-- generated protocol code's parsers.
pub mod Agent
pub mod Migration
pub mod Consistent
pub mod Sweep
pub mod Check
pub mod Listed
pub mod Handlers
pub mod Writes
pub mod Loads
pub mod Events
mod Tests
use terry.Base.{
  ℕ, ◌+◌, ◌++◌, Bool, true, false, Option, none, some, List, [], ◌∷◌, ◌==◌, ◌&&◌, not,
  if◌then◌else◌, length, Run, ok, ◌>>=◌, or_fault,
}
use terry.Base.Int.{ℤ, pos, negsuc, ◌-ℤ◌, ltb_ℤ}
use terry.Base.Maps
use terry.Base.Maps.{Entries, update}
use terry.Ruler.{RuleType, mu_ruler, su_ruler, other_type, MigrationInfo}

-- HEARTBEAT_TYPE
pub data HeartbeatType : Type 0 where
  mu_heartbeat su_heartbeat rs_heartbeat unknown_heartbeat : HeartbeatType

-- Bucket_Info
pub record BucketInfo : Type 0 where
  pub bucket_nr : ℕ
  pub bucket_load : ℕ

-- Node_Info
pub record NodeInfo : Type 0 where
  pub storage_limit : ℕ
  pub bucket_list : List BucketInfo

-- What `inet_pton` returns: 1 and an address, 0, or -1.
pub data Converted : Type 0 where
  address : ℕ → Converted
  malformed : Converted
  unsupported : Converted

-- `time(NULL)` is `none` where it returns -1. A parser is `none` where ParseFromString fails;
-- it gives the storage limit of a handshake, and the bucket and bucket_load of each Bucket_Item.
pub record Env : Type 0 where
  pub now : Option ℕ
  pub inet_pton : List ℕ → Converted
  pub mu_handshake : List ℕ → Option ℕ
  pub su_handshake : List ℕ → Option ℕ
  pub mu_heartbeats : List ℕ → Option (List (ℕ × ℕ))
  pub su_heartbeats : List ℕ → Option (List (ℕ × ℕ))

-- HeartbeatAgent: the opposite IP, m_time_stamp and m_type.
pub record HeartbeatAgent : Type 0 where
  pub oppo_ip : List ℕ
  pub m_time_stamp : ℤ
  pub m_type : HeartbeatType

-- The command and the error of a reply.
pub record Reply : Type 0 where
  pub cmd : ℕ
  pub error : ℕ

pub record HbManager : Type 0 where
  pub m_mu_last_load : Entries NodeInfo
  pub m_su_last_load : Entries NodeInfo
  pub m_heartbeat_agent_list : List ℕ
  -- An int, which counts the agents that close between two checks.
  pub m_closed_agent_num : ℕ
  pub agents : ℕ → Option HeartbeatAgent
  pub replies : List Reply

-- The constructor.
unfoldable pub new : HbManager
new = record {
  m_mu_last_load = [];
  m_su_last_load = [];
  m_heartbeat_agent_list = [];
  m_closed_agent_num = 0;
  agents = λ a. none;
  replies = [];
}

-- The value of `ip` after the call, or `none` where it returns -1; the result 0 of inet_pton leaves
-- `ip` as it was.
unfoldable pub string_to_int_ip : Env → List ℕ → ℕ → Option ℕ
string_to_int_ip env ip_str ip = elim (env.inet_pton ip_str) [
  | address a ↦ some a
  | malformed ↦ some ip
  | unsupported ↦ none
]

-- A new agent is listed.
unfoldable pub add_heartbeat_agent : ℕ → HbManager → HbManager
add_heartbeat_agent hbt m = record m {
  m_heartbeat_agent_list = m.m_heartbeat_agent_list ++ hbt ∷ [];
}

-- The rest of clear_node_info, from the address on.
unfoldable pub clear_ip : ℕ → HbManager → HbManager
clear_ip ip m = elim (Maps.find ip m.m_su_last_load) [
  | some _ ↦ record m { m_su_last_load = Maps.erase ip m.m_su_last_load }
  | none ↦ elim (Maps.find ip m.m_mu_last_load) [
    | some _ ↦ record m { m_mu_last_load = Maps.erase ip m.m_mu_last_load }
    | none ↦ m
  ]
]

unfoldable pub clear_node_info : Env → HeartbeatAgent → HbManager → HbManager
clear_node_info env hbt m = elim (string_to_int_ip env hbt.oppo_ip 0) [
  | none ↦ m
  | some ip ↦ clear_ip ip m
]

-- The loop that looks for the agent in the list.
abbrev pub is_listed : ℕ → List ℕ → Bool
is_listed hbt [] = false
is_listed hbt (a ∷ list) = if a == hbt then true else is_listed hbt list

-- `erase` of the iterator that the loop found.
abbrev pub unlist : ℕ → List ℕ → List ℕ
unlist hbt [] = []
unlist hbt (a ∷ list) = if a == hbt then list else a ∷ unlist hbt list

unfoldable pub heartbeat_closed : Env → ℕ → HbManager → Run HbManager
heartbeat_closed env hbt m = do
  agent ← or_fault (m.agents hbt)
  let listed : HbManager = record m { m_heartbeat_agent_list = unlist hbt m.m_heartbeat_agent_list }
  let cleared = clear_node_info env agent listed
  ok (
      if is_listed hbt m.m_heartbeat_agent_list
      then record cleared { m_closed_agent_num = cleared.m_closed_agent_num + 1 }
      else m)

-- What init_node_heartbeat_info does to the map it has chosen.
unfoldable pub set_limit : ℕ → ℕ → Entries NodeInfo → Entries NodeInfo
set_limit ip load nodes = elim (Maps.find ip nodes) [
  | some info ↦ Maps.assign ip (record info { storage_limit = load }) nodes
  | none ↦ Maps.insert ip (record { storage_limit = load; bucket_list = [] }) nodes
]

unfoldable pub init_node_heartbeat_info :
    Env → RuleType → HeartbeatAgent → ℕ → HbManager → HbManager
init_node_heartbeat_info env type hbt load m = elim (string_to_int_ip env hbt.oppo_ip 0) [
  | none ↦ m
  | some ip ↦ elim type [
    | mu_ruler ↦ record m { m_mu_last_load = set_limit ip load m.m_mu_last_load }
    | su_ruler ↦ record m { m_su_last_load = set_limit ip load m.m_su_last_load }
    | other_type ↦ m
  ]
]

-- What update_last_bucket_load does to the map it has chosen.
unfoldable pub set_buckets : ℕ → List BucketInfo → Entries NodeInfo → Entries NodeInfo
set_buckets ip info_vec nodes = elim (Maps.find ip nodes) [
  | some info ↦ Maps.assign ip (record info { bucket_list = info_vec }) nodes
  | none ↦ nodes
]

unfoldable pub update_last_bucket_load :
    Env → RuleType → HeartbeatAgent → List BucketInfo → HbManager → HbManager
update_last_bucket_load env type hbt info_vec m = elim (string_to_int_ip env hbt.oppo_ip 0) [
  | none ↦ m
  | some ip ↦ elim type [
    | mu_ruler ↦ record m { m_mu_last_load = set_buckets ip info_vec m.m_mu_last_load }
    | su_ruler ↦ record m { m_su_last_load = set_buckets ip info_vec m.m_su_last_load }
    | other_type ↦ m
  ]
]

-- `now - agent->get_last_timestamp() >= timeout`
unfoldable pub is_expired : ℕ → ℤ → HeartbeatAgent → Bool
is_expired now timeout agent = not (ltb_ℤ (pos now -ℤ agent.m_time_stamp) timeout)

-- The branch of the loop that removes an agent, the list aside.
unfoldable pub remove_agent : Env → ℕ → HeartbeatAgent → HbManager → HbManager
remove_agent env a agent m =
    let cleared = clear_node_info env agent m in
    record cleared {
      agents = update cleared.agents a none;
      m_closed_agent_num = cleared.m_closed_agent_num + 1;
    }

-- The loop over the agents that `it` has still to visit, with those that stay in the list.
unfoldable pub sweep : Env → ℕ → ℤ → List ℕ → HbManager → Run (List ℕ × HbManager)
sweep env now timeout [] m = ok ([], m)
sweep env now timeout (a ∷ list) m = do
  agent ← or_fault (m.agents a)
  let gone = is_expired now timeout agent
  (kept, swept) ← sweep env now timeout list (if gone then remove_agent env a agent m else m)
  ok (if gone then kept else a ∷ kept, swept)

-- The result and the value of `num`, or `none` for -1.
unfoldable pub check_heartbeat_timeout : Env → ℤ → HbManager → Run (HbManager × Option (ℕ × ℕ))
check_heartbeat_timeout env timeout m = elim env.now [
  | none ↦ ok (m, none)
  | some now ↦ do
    (kept, swept) ← sweep env now timeout m.m_heartbeat_agent_list m
    ok (
      record swept { m_heartbeat_agent_list = kept; m_closed_agent_num = 0 },
      some (swept.m_closed_agent_num, length kept),
    )
]

-- The map that IP_is_valid_for_migration reads.
abbrev pub loads_of : RuleType → HbManager → Entries NodeInfo
loads_of mu_ruler m = m.m_mu_last_load
loads_of su_ruler m = m.m_su_last_load
loads_of other_type m = m.m_su_last_load

abbrev pub set_loads : RuleType → Entries NodeInfo → HbManager → HbManager
set_loads mu_ruler nodes m = record m { m_mu_last_load = nodes }
set_loads su_ruler nodes m = record m { m_su_last_load = nodes }
set_loads other_type nodes m = record m { m_su_last_load = nodes }

-- The loop over the map, whether it ends by its `break`.
unfoldable pub both_found : MigrationInfo → Entries NodeInfo → Bool → Bool → Bool
both_found info [] src_valid dst_valid = false
both_found info (e ∷ nodes) src_valid dst_valid =
    let src = if not src_valid && (e.0 == info.src_ip) then true else src_valid in
    let dst = if not dst_valid && (e.0 == info.dest_ip) then true else dst_valid in
    if src && dst then true else both_found info nodes src dst

-- The loops over the bucket lists, whether they end by their `break`.
unfoldable pub has_bucket : ℕ → List BucketInfo → Bool
has_bucket nr [] = false
has_bucket nr (b ∷ buckets) = if b.bucket_nr == nr then true else has_bucket nr buckets

-- A value-initialized Node_Info.
abbrev pub empty_node : NodeInfo
empty_node = record { storage_limit = 0; bucket_list = [] }

unfoldable pub ip_is_valid_for_migration : RuleType → MigrationInfo → HbManager → HbManager × Bool
ip_is_valid_for_migration type info m =
    let (node, first) = Maps.at info.src_ip empty_node (loads_of type m) in
    let (dest_node, second) = Maps.at info.dest_ip empty_node first in
    if both_found info (loads_of type m) false false
    then (
      set_loads type second m,
      has_bucket info.bucket_nr node.bucket_list
          && not (has_bucket info.bucket_nr dest_node.bucket_list),
    )
    else (m, false)
