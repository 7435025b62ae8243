-- ===== src/ExtentTask/Tests.antt =====
-- Rubbish_cycler/MonitorServer/src/Extent_task.cpp: runs of an extension.
use terry.Base.{◌+◌, ◌≡◌, ◌≢◌, ◌↔◌, refl, true, none, some, [], ◌∷◌, arith, ok, Returns, returns}
use terry.Base.Maps.{insert}
use terry.Ruler.{su_ruler}
use terry.ExtentTask.{
  extenting, successfully, connect_error, ExtentTask, delete_agent, last_work, delete_task,
  new_order, Env, connected, new, init, can_exec_migration, create_all, create_agent_and_init,
  done_modify_rule, remove_first, remove_agent_from_extent_list, remove_agent_from_retry_list,
  agent_exec_extent_back, done_extent_ack,
}
use terry.ExtentTask.Rounds.{
  IsApart, can_exec_migration-IsApart, good_ack, all_ack, finished, all_ack-finished,
}
use terry.ExtentTask.Stuck.{Ack, answers, IsUnreported, answers-last_failure}

-- The agent of the node `ip` has the index `ip + 100`; memory that is freed keeps its value.
abbrev env : Env
env = record { connects = λ ip. connected (ip + 100); erased = λ ip. ok ip }

abbrev two_nodes : ExtentTask
two_nodes = record {
  m_father_agent_index = 5;
  m_type = su_ruler;
  m_ext_info = record { new_mod = 4 };
  m_extent_agent_list = 107 ∷ 108 ∷ [];
  m_retry_agent_list = [];
  m_index_ip_map = (107, 7) ∷ (108, 8) ∷ [];
  m_state = extenting;
}

abbrev one_node : ExtentTask
one_node = record two_nodes { m_extent_agent_list = 107 ∷ [] }

abbrev failure : Ack
failure = record { header = none; type = connect_error; agent = 107 }

started :
    done_modify_rule env true (7 ∷ 8 ∷ []) (init (new 5 su_ruler (record { new_mod = 4 })))
    ≡ (two_nodes, new_order su_ruler ∷ [])
unfolding new init done_modify_rule create_all create_agent_and_init insert
started = refl

-- With a node of the first round outstanding, the success of the only node that is tried again makes
-- the task delete itself, and with it that node's agent.
deleted_early :
    done_extent_ack env
      (some (good_ack su_ruler))
      successfully
      109
      (record one_node { m_retry_agent_list = 109 ∷ [] })
    ≡ ok (none, delete_agent 109 ∷ delete_task ∷ delete_agent 107 ∷ [])
unfolding done_extent_ack agent_exec_extent_back remove_first remove_agent_from_extent_list
    remove_agent_from_retry_list
deleted_early = refl

can_exec_migration-IsApart_example :
    (can_exec_migration 7 8 two_nodes ≡ true)
    ↔ ((extenting ≢ extenting) × IsApart 7 8 ((107, 7) ∷ (108, 8) ∷ []) [])
can_exec_migration-IsApart_example = can_exec_migration-IsApart 7 8 two_nodes

all_ack-finished_example :
    all_ack env (108 ∷ 107 ∷ []) (some two_nodes)
    ≡ ok (some (finished two_nodes), delete_agent 108 ∷ delete_agent 107 ∷ last_work true ∷ [])
all_ack-finished_example =
    all_ack-finished env two_nodes 108 (107 ∷ [])
      ((λ e. omega (arith, e)), ((λ e. omega (arith, e)), tt)) (λ a. ground arith)

answers-last_failure_example :
    Returns IsUnreported (answers env (failure ∷ failure ∷ []) (some one_node))
answers-last_failure_example =
    answers-last_failure env failure (failure ∷ []) one_node (λ ip. returns tt) refl refl
      (λ e. omega (arith, e)) refl
