-- ===== src/AgentManager/Recycle.antt =====
-- common/AgentManager.cpp: what recyclerAgent with an index leaves in the map.
use terry.Base.{ℕ, ◌≡◌, refl, none, some, [], ◌>>=◌, Returns, returns}
use terry.Base.Maps.{update_hit}
use terry.AgentManager.{AgentManager, get_agent, recycler_index, delete_all, clean_agent}

-- Where no agent waits to be deleted and an index is that of an agent that is not deleted: after
-- recyclerAgent with the index and clean_agent the agent is deleted, and getAgent still answers it.
pub recycler_index-dangles :
    (index agent : ℕ) (m : AgentManager)
    → m.m_recycler_list ≡ []
    → m.m_list_agent_num ≡ 0
    → get_agent index m ≡ some agent
    → m.agents agent ≡ some index
    → Returns
        (λ (r : AgentManager × ℕ). (get_agent index r.0 ≡ some agent) × (r.0.agents agent ≡ none))
        (recycler_index index m >>= clean_agent)
unfolding recycler_index clean_agent delete_all get_agent
recycler_index-dangles index agent m waiting count here live =
    rw (here, recycler_index, live, waiting, count, delete_all, live)
      (returns (here, update_hit m.agents agent none agent refl))
