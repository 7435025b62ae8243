-- ===== src/TaskManager.antt =====
-- Rubbish_cycler/MonitorServer/src/Task_manager.cpp and Task_manager.h: the tasks that the monitor
-- server has at most one of, and the requests that wait for one. A pointer to a task is the task, and
-- null is `none`; an agent that waits is its address.
pub mod Script
mod Tests
use terry.Base.{ℕ, Bool, true, false, not, Option, none, some, List, [], ◌∷◌, ◌++◌}
use terry.Ruler.{RuleType, mu_ruler, su_ruler, other_type, ExtentInfo}
use terry.ExtentTask
use terry.ExtentTask.{ExtentTask}

pub record GetRuleTask : Type 0 where
  pub m_father_agent_index : ℕ
  pub m_rule_agent_index : ℕ
  pub m_type : RuleType
  pub m_is_wait_client : Bool

pub record TaskManager : Type 0 where
  pub get_mu_rule_task : Option GetRuleTask
  pub get_su_rule_task : Option GetRuleTask
  pub get_mu_rule_request_list : List ℕ
  pub get_su_rule_request_list : List ℕ
  pub g_mu_extent_task : Option ExtentTask
  pub g_su_extent_task : Option ExtentTask

unfoldable pub new : TaskManager
new = record {
  get_mu_rule_task = none;
  get_su_rule_task = none;
  get_mu_rule_request_list = [];
  get_su_rule_request_list = [];
  g_mu_extent_task = none;
  g_su_extent_task = none;
}

abbrev pub is_null {ℓ} : {A : Type ℓ} → Option A → Bool
is_null none = true
is_null (some _) = false

abbrev pub is_empty {ℓ} : {A : Type ℓ} → List A → Bool
is_empty [] = true
is_empty (_ ∷ _) = false

unfoldable pub get_get_rule_task : RuleType → TaskManager → Option GetRuleTask
get_get_rule_task mu_ruler m = m.get_mu_rule_task
get_get_rule_task su_ruler m = m.get_su_rule_task
get_get_rule_task other_type m = m.get_su_rule_task

unfoldable pub rs_is_getting_rule : RuleType → TaskManager → Bool
rs_is_getting_rule mu_ruler m = not (is_null m.get_mu_rule_task)
rs_is_getting_rule su_ruler m = not (is_null m.get_su_rule_task)
rs_is_getting_rule other_type m = not (is_null m.get_su_rule_task)

unfoldable pub rs_need_continue_update_rule : RuleType → TaskManager → Bool
rs_need_continue_update_rule mu_ruler m = not (is_empty m.get_mu_rule_request_list)
rs_need_continue_update_rule su_ruler m = not (is_empty m.get_su_rule_request_list)
rs_need_continue_update_rule other_type m = not (is_empty m.get_su_rule_request_list)

-- The constructor of GetRuleTask.
abbrev pub new_get_rule_task : ℕ → RuleType → GetRuleTask
new_get_rule_task index type = record {
  m_father_agent_index = index;
  m_rule_agent_index = 0;
  m_type = type;
  m_is_wait_client = false;
}

-- For another type nothing is tested, and the SU task is replaced.
unfoldable pub create_get_rule_task : RuleType → ℕ → TaskManager → TaskManager × Option GetRuleTask
create_get_rule_task mu_ruler index m =
    let task = new_get_rule_task index mu_ruler in
    elim m.get_mu_rule_task [
      | some _ ↦ (m, none)
      | none ↦ (record m { get_mu_rule_task = some task }, some task)
    ]
create_get_rule_task su_ruler index m =
    let task = new_get_rule_task index su_ruler in
    elim m.get_su_rule_task [
      | some _ ↦ (m, none)
      | none ↦ (record m { get_su_rule_task = some task }, some task)
    ]
create_get_rule_task other_type index m =
    let task = new_get_rule_task index other_type in
    (record m { get_su_rule_task = some task }, some task)

unfoldable pub append_new_update_request : RuleType → ℕ → TaskManager → TaskManager
append_new_update_request mu_ruler agent m = record m {
  get_mu_rule_request_list = m.get_mu_rule_request_list ++ agent ∷ [];
}
append_new_update_request _ agent m = record m {
  get_su_rule_request_list = m.get_su_rule_request_list ++ agent ∷ [];
}

unfoldable pub delete_first_update_request : RuleType → TaskManager → TaskManager × Option ℕ
delete_first_update_request mu_ruler m = elim m.get_mu_rule_request_list [
  | [] ↦ (m, none)
  | agent ∷ agents ↦ (record m { get_mu_rule_request_list = agents }, some agent)
]
delete_first_update_request _ m = elim m.get_su_rule_request_list [
  | [] ↦ (m, none)
  | agent ∷ agents ↦ (record m { get_su_rule_request_list = agents }, some agent)
]

unfoldable pub delete_get_rule_task : RuleType → TaskManager → TaskManager
delete_get_rule_task mu_ruler m = record m { get_mu_rule_task = none }
delete_get_rule_task _ m = record m { get_su_rule_task = none }

abbrev pub allows : ℕ → ℕ → Option ExtentTask → Bool
allows src dest none = true
allows src dest (some task) = ExtentTask.can_exec_migration src dest task

unfoldable pub can_exec_migration : RuleType → ℕ → ℕ → TaskManager → Bool
can_exec_migration mu_ruler src dest m = allows src dest m.g_mu_extent_task
can_exec_migration _ src dest m = allows src dest m.g_su_extent_task

unfoldable pub can_exec_extent : RuleType → TaskManager → Bool
can_exec_extent mu_ruler m = is_null m.g_mu_extent_task
can_exec_extent su_ruler m = is_null m.g_su_extent_task
can_exec_extent other_type m = false

unfoldable pub create_extent_task :
    RuleType → ℕ → ExtentInfo → TaskManager → TaskManager × Option ExtentTask
create_extent_task mu_ruler index info m =
    let task = ExtentTask.new index mu_ruler info in
    elim m.g_mu_extent_task [
      | some _ ↦ (m, none)
      | none ↦ (record m { g_mu_extent_task = some task }, some task)
    ]
create_extent_task type index info m =
    let task = ExtentTask.new index type info in
    elim m.g_su_extent_task [
      | some _ ↦ (m, none)
      | none ↦ (record m { g_su_extent_task = some task }, some task)
    ]

unfoldable pub delete_extent_task : RuleType → TaskManager → TaskManager
delete_extent_task mu_ruler m = record m { g_mu_extent_task = none }
delete_extent_task _ m = record m { g_su_extent_task = none }

unfoldable pub get_extent_task : RuleType → TaskManager → Option ExtentTask
get_extent_task mu_ruler m = m.g_mu_extent_task
get_extent_task su_ruler m = m.g_su_extent_task
get_extent_task other_type m = none
