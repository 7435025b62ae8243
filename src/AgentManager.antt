-- ===== src/AgentManager.antt =====
-- common/AgentManager.cpp and AgentManager.h: the agents of the connections by their indices. An agent is
-- its address, and the memory holds the index of each agent that is not deleted. What `recycler` of
-- an agent does and returns is left out.
pub mod Create
pub mod Recycle
mod Tests
use terry.Base.{
  ℕ, zero, suc, ◌+◌, ◌-◌, ◌%◌, ◌^◌, Bool, true, false, Option, none, some, List, [], ◌∷◌, ◌++◌,
  ◌==◌, if◌then◌else◌, Run, ok, or_fault, ◌>>=◌, ◌>>◌,
}
use terry.Base.Maps.{Entries, update, find, insert, erase}

pub record AgentManager : Type 0 where
  pub m_tcp_agent_map : Entries ℕ
  pub m_recycler_list : List ℕ
  pub m_index : ℕ
  pub m_list_agent_num : ℕ
  pub agents : ℕ → Option ℕ

abbrev pub init_index : ℕ
init_index = 1

abbrev pub max_index : ℕ
max_index = 0xFFFF_FFFE

abbrev pub try_times : ℕ
try_times = 10

unfoldable pub new : (ℕ → Option ℕ) → AgentManager
new agents = record {
  m_tcp_agent_map = [];
  m_recycler_list = [];
  m_index = init_index;
  m_list_agent_num = 0;
  agents = agents;
}

abbrev pub next_index : ℕ → ℕ
next_index index = let next = (index + 1) % 2 ^ 32 in if next == max_index then init_index else next

-- The index is `m_index` after the call.
unfoldable pub generate_index : AgentManager → AgentManager
generate_index m = record m { m_index = next_index m.m_index }

abbrev pub set_agent_index : ℕ → ℕ → AgentManager → AgentManager
set_agent_index agent index m = record m { agents = update m.agents agent (some index) }

-- The loop of addAgent, and whether an insertion has succeeded.
unfoldable pub add_tries : ℕ → ℕ → ℕ → AgentManager → AgentManager × Bool
add_tries zero index agent m = (m, false)
add_tries (suc tries) index agent m =
    let next = generate_index m in
    let again = add_tries tries next.m_index agent (set_agent_index agent next.m_index next) in
    elim (find index m.m_tcp_agent_map) [
      | none ↦ (record m { m_tcp_agent_map = insert index agent m.m_tcp_agent_map }, true)
      | some _ ↦ again
    ]

-- An agent with the index 0 gets another one, but is added under 0.
unfoldable pub add_agent : ℕ → AgentManager → Run (AgentManager × Bool)
add_agent agent m = do
  index ← or_fault (m.agents agent)
  let next = generate_index m
  let indexed = set_agent_index agent next.m_index next
  ok (add_tries try_times index agent (if index == 0 then indexed else m))

-- `agent` is the address that `new` gives; what addAgent returns is not looked at.
unfoldable pub create_agent : ℕ → AgentManager → Run (AgentManager × ℕ)
create_agent agent m = do
  let next = generate_index m
  (after, added) ← add_agent agent (set_agent_index agent next.m_index next)
  ok (after, agent)

unfoldable pub delete_agent : ℕ → AgentManager → AgentManager
delete_agent index m = record m { m_tcp_agent_map = erase index m.m_tcp_agent_map }

unfoldable pub get_agent : ℕ → AgentManager → Option ℕ
get_agent index m = find index m.m_tcp_agent_map

abbrev pub add_recycler_agent : ℕ → AgentManager → AgentManager
add_recycler_agent agent m = record m {
  m_recycler_list = m.m_recycler_list ++ agent ∷ [];
  m_list_agent_num = m.m_list_agent_num + 1;
}

-- recyclerAgent with an index, which leaves the map alone, and with an agent.
unfoldable pub recycler_index : ℕ → AgentManager → Run AgentManager
recycler_index index m = elim (get_agent index m) [
  | none ↦ ok m
  | some agent ↦ (do live ← or_fault (m.agents agent); ok (add_recycler_agent agent m))
]

unfoldable pub recycler_agent : ℕ → AgentManager → Run AgentManager
recycler_agent agent m = do
  index ← or_fault (m.agents agent)
  ok (add_recycler_agent agent (delete_agent index m))

-- The loop of clean_agent.
unfoldable pub delete_all : List ℕ → (ℕ → Option ℕ) → Run (ℕ → Option ℕ)
delete_all [] memory = ok memory
delete_all (agent ∷ agents) memory = do
  live ← or_fault (memory agent)
  delete_all agents (update memory agent none)

unfoldable pub clean_agent : AgentManager → Run (AgentManager × ℕ)
clean_agent m =
    let deleted = delete_all m.m_recycler_list m.agents in
    if m.m_list_agent_num == 0
    then ok (m, 0)
    else deleted >>= λ memory. ok (
      record m { m_recycler_list = []; m_list_agent_num = 0; agents = memory },
      m.m_list_agent_num,
    )
