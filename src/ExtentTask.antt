-- ===== src/ExtentTask.antt =====
-- Rubbish_cycler/MonitorServer/src/Extent_task.cpp and Extent_task.h: the task that tells the nodes to
-- extend their buckets. What a call makes others do is the list of its actions, in order. That an agent
-- is created and has taken the command over is the matter of an `Env`.
pub mod Rounds
pub mod Stuck
mod Tests
use terry.Base.{
  ℕ, zero, suc, Bool, true, false, not, Option, none, some, List, [], ◌∷◌, ◌++◌, ◌==◌, ◌||◌,
  if◌then◌else◌, map, Run, ok, ◌>>=◌, ◌>>◌,
}
use terry.Base.Maps.{Entries, find, insert, erase}
use terry.Ruler.{RuleType, mu_ruler, su_ruler, other_type, ExtentInfo}

-- EXTENT_STATE
pub data ExtentState : Type 0 where
  free extenting retry : ExtentState

-- RET_TYPE
pub data RetType : Type 0 where
  successfully connect_error write_error unknown_error : RetType

-- The header of an answer.
pub record AckHeader : Type 0 where
  pub cmd : ℕ
  pub error : ℕ

pub record ExtentTask : Type 0 where
  pub m_father_agent_index : ℕ
  pub m_type : RuleType
  pub m_ext_info : ExtentInfo
  pub m_extent_agent_list : List ℕ
  pub m_retry_agent_list : List ℕ
  pub m_index_ip_map : Entries ℕ
  pub m_state : ExtentState

-- delete_SC_agent, do_last_work, delete_extent_task, and new_extent_order of the rule manager.
pub data Action : Type 0 where
  delete_agent : ℕ → Action
  last_work : Bool → Action
  delete_task : Action
  new_order : RuleType → Action

-- What comes of an agent for an address: there is none with a command to send, its `init` fails, or it
-- takes the command over; with the index of the agent.
pub data Connection : Type 0 where
  no_agent : Connection
  init_failed connected : ℕ → Connection

-- The agents that are created; and what a read of an entry that is erased gives, from what it was.
pub record Env : Type 0 where
  pub connects : ℕ → Connection
  pub erased : ℕ → Run ℕ

-- The task after a call, unless it has been deleted, and the actions.
abbrev pub Result : Type 0
Result = Option ExtentTask × List Action

abbrev pub msg_cs_mu_extent_bucket_ack : ℕ
msg_cs_mu_extent_bucket_ack = 0x0301_0023

abbrev pub msg_cs_su_extent_bucket_ack : ℕ
msg_cs_su_extent_bucket_ack = 0x0400_0021

abbrev pub mu_ok : ℕ
mu_ok = 0

abbrev pub su_ok : ℕ
su_ok = 0x0200_0000

unfoldable pub new : ℕ → RuleType → ExtentInfo → ExtentTask
new agent_index type info = record {
  m_father_agent_index = agent_index;
  m_type = type;
  m_ext_info = info;
  m_extent_agent_list = [];
  m_retry_agent_list = [];
  m_index_ip_map = [];
  m_state = free;
}

abbrev pub is_extenting : ExtentState → Bool
is_extenting extenting = true
is_extenting _ = false

-- The loop of can_exec_migration over the retry list.
unfoldable pub no_conflict : ℕ → ℕ → Entries ℕ → List ℕ → Bool
no_conflict src dest ips [] = true
no_conflict src dest ips (agent ∷ agents) = elim (find agent ips) [
  | none ↦ no_conflict src dest ips agents
  | some node_ip ↦
      if src == node_ip || dest == node_ip then false else no_conflict src dest ips agents
]

unfoldable pub can_exec_migration : ℕ → ℕ → ExtentTask → Bool
can_exec_migration src dest t =
    if is_extenting t.m_state
    then false
    else no_conflict src dest t.m_index_ip_map t.m_retry_agent_list

unfoldable pub init : ExtentTask → ExtentTask
init t = record t { m_state = extenting }

-- The index where the call returns 0, and the actions.
unfoldable pub create_agent_and_init : Env → ℕ → ExtentTask → ExtentTask × Option ℕ × List Action
create_agent_and_init env node_ip t = elim (env.connects node_ip) [
  | no_agent ↦ (t, none, [])
  | init_failed index ↦ (t, none, delete_agent index ∷ [])
  | connected index ↦
      (record t { m_index_ip_map = insert index node_ip t.m_index_ip_map }, some index, [])
]

abbrev pub push_extent : Option ℕ → ExtentTask → ExtentTask
push_extent none t = t
push_extent (some index) t = record t { m_extent_agent_list = t.m_extent_agent_list ++ index ∷ [] }

-- The loop of done_modify_rule over the nodes with a heartbeat.
unfoldable pub create_all : Env → List ℕ → ExtentTask → ExtentTask × List Action
create_all env [] t = (t, [])
create_all env (node_ip ∷ ips) t =
    let (next, index, now) = create_agent_and_init env node_ip t in
    let (last, later) = create_all env ips (push_extent index next) in (last, now ++ later)

unfoldable pub done_modify_rule : Env → Bool → List ℕ → ExtentTask → ExtentTask × List Action
done_modify_rule env ret ips t =
    let (after, actions) = create_all env ips t in
    if not ret then (t, last_work false ∷ []) else (after, new_order t.m_type ∷ actions)

-- The list without the first such index, and whether there was one.
unfoldable pub remove_first : ℕ → List ℕ → List ℕ × Bool
remove_first agent [] = ([], false)
remove_first agent (index ∷ agents) =
    let (rest, found) = remove_first agent agents in
    if agent == index then (agents, true) else (index ∷ rest, found)

unfoldable pub remove_agent_from_extent_list : ℕ → ExtentTask → ExtentTask × Bool
remove_agent_from_extent_list agent t =
    let (rest, found) = remove_first agent t.m_extent_agent_list in
    (record t { m_extent_agent_list = rest }, found)

unfoldable pub remove_agent_from_retry_list : ℕ → ExtentTask → ExtentTask × Bool
remove_agent_from_retry_list agent t =
    let (rest, found) = remove_first agent t.m_retry_agent_list in
    (record t { m_retry_agent_list = rest }, found)

abbrev pub recycled : ℕ → Bool → List Action
recycled agent recycle = if recycle then delete_agent agent ∷ [] else []

-- What the destructor makes others do.
abbrev pub destroyed : ExtentTask → List Action
destroyed t = map delete_agent t.m_extent_agent_list

-- The end of agent_exec_extent_back, for an agent of the first round and of a later one, which deletes
-- the task with the last agent that is tried again.
abbrev pub first_back : List Action → List ℕ → ExtentTask → Result
first_back actions [] t = (some (record t { m_state = retry }), actions ++ last_work true ∷ [])
first_back actions (_ ∷ _) t = (some t, actions)

abbrev pub later_back : List Action → List ℕ → ExtentTask → Result
later_back actions [] t = (none, actions ++ delete_task ∷ destroyed t)
later_back actions (_ ∷ _) t = (some t, actions)

unfoldable pub agent_exec_extent_back : ℕ → Bool → ExtentTask → Result
agent_exec_extent_back agent recycle t =
    let (first, in_extent) = remove_agent_from_extent_list agent t in
    let (later, in_retry) = remove_agent_from_retry_list agent first in
    let actions = recycled agent recycle in
    if in_extent
    then first_back actions first.m_extent_agent_list first
    else if in_retry
    then later_back actions later.m_retry_agent_list later
    else (some later, [])

unfoldable pub give_up_this_node : ℕ → ExtentTask → ExtentTask
give_up_this_node agent t = (remove_agent_from_retry_list agent t).0

-- The rest of retry_do_extent, with what create_agent_and_init has given.
abbrev pub push_retry : ℕ → ExtentTask × Option ℕ × List Action → ExtentTask
push_retry agent (t, none, _) = give_up_this_node agent t
push_retry agent (t, some index, _) = record t {
  m_retry_agent_list = t.m_retry_agent_list ++ index ∷ [];
}

unfoldable pub retry_do_extent : Env → ℕ → ExtentTask → Run Result
retry_do_extent env agent t =
    let first = (remove_agent_from_extent_list agent t).0 in
    let later = (remove_agent_from_retry_list agent first).0 in
    elim (find agent later.m_index_ip_map) [
      | none ↦ ok (some (give_up_this_node agent later), delete_agent agent ∷ [])
      | some ip ↦ do
        let without = record later { m_index_ip_map = erase agent later.m_index_ip_map }
        node_ip ← env.erased ip
        let created = create_agent_and_init env node_ip without
        ok (some (push_retry agent created), delete_agent agent ∷ created.2)
    ]

-- Whether parse_callback_ret returns 0.
abbrev pub parse_callback_ret : Option AckHeader → RetType → Bool
parse_callback_ret _ unknown_error = false
parse_callback_ret _ connect_error = false
parse_callback_ret _ write_error = false
parse_callback_ret none successfully = false
parse_callback_ret (some _) successfully = true

abbrev pub is_ack : RuleType → Option AckHeader → Bool
is_ack type none = false
is_ack mu_ruler (some h) = if h.cmd == msg_cs_mu_extent_bucket_ack then h.error == mu_ok else false
is_ack _ (some h) = if h.cmd == msg_cs_su_extent_bucket_ack then h.error == su_ok else false

-- The private data is the index of the agent, and null for 0. The test for an unknown error comes
-- after parse_callback_ret has turned it down.
unfoldable pub done_extent_ack : Env → Option AckHeader → RetType → ℕ → ExtentTask → Run Result
done_extent_ack env req type agent t =
    let again = retry_do_extent env agent t in
    if agent == 0
    then ok (some t, [])
    else if not (parse_callback_ret req type)
    then again
    else if is_ack t.m_type req
    then ok (agent_exec_extent_back agent true t)
    else again
