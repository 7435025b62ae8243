-- ===== src/Heartbeat/Events.antt =====
-- Rubbish_cycler/MonitorServer/src/HeartbeatAgent.cpp and HB_manager.cpp: the events that reach the
-- manager, as the event loop and the timer bring them, and the invariant that all of them keep.
use terry.Base.{
  ℕ, ◌≡◌, refl, ◌∙◌, ap, inl, inr, Bool, true, false, ◌||◌, Option, none, some, List, ◌==◌,
  if◌then◌else◌, arith, Option-cases, Run, ok, ◌>>=◌, Returns, returns, Returns-bind,
}
use terry.Base.Int.{ℤ}
use terry.Base.Maps.{update}
use terry.Heartbeat.{
  Env, HeartbeatAgent, HbManager, is_listed, unlist, remove_agent, clear_node_info,
  check_heartbeat_timeout, heartbeat_closed, add_heartbeat_agent, new,
}
use terry.Heartbeat.Agent.{InReq, init, recycler, read_back}
use terry.Heartbeat.Consistent.{
  is_some, IsConsistent, new-IsConsistent, Cleared, clear_node_info-Cleared,
}
use terry.Heartbeat.Listed.{
  is_listed-append, IsDistinct-append, is_listed-unlist, unlist-IsDistinct,
}
use terry.Heartbeat.Handlers.{IsFit, agent_of, read_back-IsConsistent}
use terry.Heartbeat.Check.{check_heartbeat_timeout_lem, left_live}

-- After `recycler` of a closed connection, the event loop deletes the agent. A connection is accepted, a request arrives, a connection closes, or the timer runs out.
pub data Event : Type 0 where
  opened : ℕ → List ℕ → Event
  received : InReq → ℕ → Event
  closed : ℕ → Event
  checked : ℤ → Event

-- `new` gives a free address, a request has the length of its header, and an agent that the event
-- loop calls has not been deleted.
abbrev pub IsAdmissible : Event → HbManager → Type 0
IsAdmissible (opened a ip) m = m.agents a ≡ none
IsAdmissible (received req a) m = IsFit req a m
IsAdmissible (closed a) m = is_some (m.agents a) ≡ true
IsAdmissible (checked timeout) m = Unit

unfoldable pub handle : Env → Event → HbManager → Run HbManager
handle env (opened a ip) m = ok (init env a ip m)
handle env (received req a) m = read_back env req a m
handle env (closed a) m = do
  after ← recycler env a m
  ok (record after { agents = update after.agents a none })
handle env (checked timeout) m = do
  (after, answer) ← check_heartbeat_timeout env timeout m
  ok after

==_comm : (a b : ℕ) → (a == b) ≡ (b == a)
==_comm a b = ground arith

joined_live :
    (o : Option HeartbeatAgent) (hit : Bool) (agent : HeartbeatAgent)
    → is_some o || hit ≡ is_some (if hit then some agent else o)
joined_live none true agent = refl
joined_live none false agent = refl
joined_live (some x) true agent = refl
joined_live (some x) false agent = refl

init-IsConsistent :
    (env : Env) (a : ℕ) (ip : List ℕ) (m : HbManager)
    → IsConsistent m
    → m.agents a ≡ none
    → IsConsistent (init env a ip m)
unfolding init add_heartbeat_agent
init-IsConsistent env a ip m c free = record {
  distinct = IsDistinct-append a m.m_heartbeat_agent_list (c.live a ∙ ap is_some free) c.distinct;
  live = live;
  mu_ascending = c.mu_ascending;
  su_ascending = c.su_ascending;
}
  where
    live :
        (b : ℕ)
        → is_listed b (init env a ip m).m_heartbeat_agent_list
          ≡ is_some ((init env a ip m).agents b)
    live b =
        rw (is_listed-append b a m.m_heartbeat_agent_list, c.live b, ==_comm a b)
          (joined_live (m.agents b) (b == a) _)

-- The manager when the closed agent is out of its list.
abbrev pub without : ℕ → HbManager → HbManager
without a m = record m { m_heartbeat_agent_list = unlist a m.m_heartbeat_agent_list }

-- A closed connection does to the manager without the agent what a check does when it removes it.
closed-remove_agent :
    (env : Env) (a : ℕ) (m : HbManager) (agent : HeartbeatAgent)
    → IsConsistent m
    → m.agents a ≡ some agent
    → handle env (closed a) m ≡ ok (remove_agent env a agent (without a m))
unfolding handle recycler heartbeat_closed remove_agent
closed-remove_agent env a m agent c here = rw (here, c.live a, here) refl

remove_agent-IsConsistent :
    (env : Env) (a : ℕ) (m : HbManager) (agent : HeartbeatAgent)
    → IsConsistent m
    → IsConsistent (remove_agent env a agent (without a m))
unfolding remove_agent
remove_agent-IsConsistent env a m agent c = record {
  distinct = rw k.listed (unlist-IsDistinct a m.m_heartbeat_agent_list c.distinct);
  live = live;
  mu_ascending = k.mu_ascending c.mu_ascending;
  su_ascending = k.su_ascending c.su_ascending;
}
  where
    k : Cleared (λ ip. true) (without a m) (clear_node_info env agent (without a m))
    k = clear_node_info-Cleared env (λ ip. true) agent (without a m) (λ ip e. refl)

    live :
        (b : ℕ)
        → is_listed b (clear_node_info env agent (without a m)).m_heartbeat_agent_list
          ≡ is_some (update (clear_node_info env agent (without a m)).agents a none b)
    live b =
        rw (k.listed, k.memory, is_listed-unlist b a m.m_heartbeat_agent_list c.distinct, c.live b)
          (rw (==_comm a b) (left_live (m.agents b) (b == a)))

-- For every manager that is consistent and every event that is admissible: handling the event
-- returns, so no deleted agent is used, and leaves a consistent manager.
pub handle-IsConsistent :
    (env : Env) (event : Event) (m : HbManager)
    → IsConsistent m
    → IsAdmissible event m
    → Returns IsConsistent (handle env event m)
unfolding handle check_heartbeat_timeout
handle-IsConsistent env (opened a ip) m c adm = returns (init-IsConsistent env a ip m c adm)
handle-IsConsistent env (received req a) m c adm = read_back-IsConsistent env req a m c adm
handle-IsConsistent env (closed a) m c adm =
    let (agent, here) = agent_of (m.agents a) adm in
    rw (closed-remove_agent env a m agent c here)
      (returns (remove_agent-IsConsistent env a m agent c))
handle-IsConsistent env (checked timeout) m c adm = elim (Option-cases env.now) [
  | inl failed ↦ rw failed (returns c)
  | inr (now, clock) ↦
      Returns-bind
        (check_heartbeat_timeout_lem env timeout (λ ip. true) m now clock c
          (λ a agent on was old ip e. refl))
        (λ result k. returns k.consistent)
]

-- The states that a start of the server reaches, whatever comes from outside at each event.
pub data Reach : HbManager → Type 0 where
  start : Reach new
  step :
      {m after : HbManager} (env : Env) (event : Event)
      → Reach m
      → IsAdmissible event m
      → handle env event m ≡ ok after
      → Reach after

ok_good :
    {P : HbManager → Type 0} {run : Run HbManager} {m : HbManager}
    → Returns P run
    → run ≡ ok m
    → P m
ok_good {P} {m} (returns {value = v} good) e = let same : v ≡ m = cc in rw (← same) good

pub Reach-IsConsistent : {m : HbManager} → Reach m → IsConsistent m
Reach-IsConsistent start = new-IsConsistent
Reach-IsConsistent (step {m} env event before adm e) =
    ok_good (handle-IsConsistent env event m (Reach-IsConsistent before) adm) e

-- For every state that the server reaches from its start by admissible events, with any times, parser
-- results and addresses: the listed agents are those in memory, once each, both maps have ascending
-- keys, and the next admissible event is handled without a fault.
pub Reach-safe :
    {m : HbManager} (env : Env) (event : Event)
    → Reach m
    → IsAdmissible event m
    → IsConsistent m × Returns IsConsistent (handle env event m)
Reach-safe {m} env event r adm =
    let c = Reach-IsConsistent r in (c, handle-IsConsistent env event m c adm)
