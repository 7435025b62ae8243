-- ===== src/AgentManager/Tests.antt =====
-- common/AgentManager.cpp: runs of the manager.
use terry.Base.{ℕ, ◌≡◌, refl, none, some, [], ◌∷◌, arith, ok, ◌>>=◌, Returns}
use terry.Base.Maps.{update, find, erase}
use terry.AgentManager.{
  AgentManager, create_agent, get_agent, recycler_index, recycler_agent, delete_all, clean_agent,
  delete_agent,
}
use terry.AgentManager.Create.{IsOwned, IsAdded, create_agent-IsAdded}
use terry.AgentManager.Recycle.{recycler_index-dangles}

-- The agent at 40 has the index 2.
abbrev one_agent : AgentManager
one_agent = record {
  m_tcp_agent_map = (2, 40) ∷ [];
  m_recycler_list = [];
  m_index = 2;
  m_list_agent_num = 0;
  agents = update (λ a. none) 40 (some 2);
}

-- The agent leaves the map, and is deleted when the manager cleans up.
recycled :
    ((do
      m ← recycler_agent 40 one_agent
      (after, number) ← clean_agent m
      ok (after.m_tcp_agent_map))
      ≡ ok [])
unfolding recycler_agent clean_agent delete_all delete_agent erase
recycled = refl

one_agent-IsOwned : IsOwned one_agent
unfolding find
one_agent-IsOwned = record { live = λ i a e. ground (arith, e); small = omega arith }

create_agent-IsAdded_example :
    Returns
      (λ (r : AgentManager × ℕ). (r.1 ≡ 41) × IsAdded 10 3 41 one_agent r.0)
      (create_agent 41 one_agent)
create_agent-IsAdded_example = create_agent-IsAdded 41 one_agent one_agent-IsOwned refl

recycler_index-dangles_example :
    Returns
      (λ (r : AgentManager × ℕ). (get_agent 2 r.0 ≡ some 40) × (r.0.agents 40 ≡ none))
      (recycler_index 2 one_agent >>= clean_agent)
unfolding get_agent find
recycler_index-dangles_example = recycler_index-dangles 2 40 one_agent refl refl refl refl
