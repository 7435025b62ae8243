-- ===== src/TaskManager/Script.antt =====
-- Rubbish_cycler/MonitorServer/src/Task_manager.cpp: the manager keeps two independent parts, one per
-- type of rule.
use terry.Base.{ℕ, ◌≡◌, refl, ap, Bool, not, Option, none, some, List, [], ◌∷◌, ◌++◌}
use terry.Ruler.{RuleType, mu_ruler, su_ruler, ExtentInfo}
use terry.ExtentTask
use terry.ExtentTask.{ExtentTask}
use terry.TaskManager.{
  GetRuleTask, TaskManager, new_get_rule_task, is_null, is_empty, rs_is_getting_rule,
  rs_need_continue_update_rule, create_get_rule_task, append_new_update_request,
  delete_first_update_request, delete_get_rule_task, allows, can_exec_migration, can_exec_extent,
  create_extent_task, delete_extent_task,
}

-- A call, less the type of rule.
pub data Op : Type 0 where
  is_getting need_continue take_request delete_rule may_extend delete_extent : Op
  create_rule : ℕ → Op
  request : ℕ → Op
  may_migrate : (src dest : ℕ) → Op
  create_extent : ℕ → ExtentInfo → Op

pub data Answer : Type 0 where
  said : Bool → Answer
  taken : Option ℕ → Answer
  rule_task : Option GetRuleTask → Answer
  extent_task : Option ExtentTask → Answer
  nothing : Answer

abbrev pub exec : RuleType → Op → TaskManager → TaskManager × Answer
exec type is_getting m = (m, said (rs_is_getting_rule type m))
exec type need_continue m = (m, said (rs_need_continue_update_rule type m))
exec type take_request m =
    let (after, agent) = delete_first_update_request type m in (after, taken agent)
exec type delete_rule m = (delete_get_rule_task type m, nothing)
exec type may_extend m = (m, said (can_exec_extent type m))
exec type delete_extent m = (delete_extent_task type m, nothing)
exec type (create_rule index) m =
    let (after, task) = create_get_rule_task type index m in (after, rule_task task)
exec type (request agent) m = (append_new_update_request type agent m, nothing)
exec type (may_migrate src dest) m = (m, said (can_exec_migration type src dest m))
exec type (create_extent index info) m =
    let (after, task) = create_extent_task type index info m in (after, extent_task task)

-- What a manager of one type of rule would keep: a slot for each task, and a queue.
pub record Part : Type 0 where
  pub rule : Option GetRuleTask
  pub requests : List ℕ
  pub extent : Option ExtentTask

abbrev pub fill {ℓ} : {A : Type ℓ} → A → Option A → Option A × Option A
fill task none = (some task, some task)
fill task (some old) = (some old, none)

abbrev pub dequeue : List ℕ → List ℕ × Option ℕ
dequeue [] = ([], none)
dequeue (agent ∷ agents) = (agents, some agent)

abbrev pub act : RuleType → Op → Part → Part × Answer
act type is_getting p = (p, said (not (is_null p.rule)))
act type need_continue p = (p, said (not (is_empty p.requests)))
act type take_request p =
    let (rest, agent) = dequeue p.requests in (record p { requests = rest }, taken agent)
act type delete_rule p = (record p { rule = none }, nothing)
act type may_extend p = (p, said (is_null p.extent))
act type delete_extent p = (record p { extent = none }, nothing)
act type (create_rule index) p =
    let (slot, task) = fill (new_get_rule_task index type) p.rule in
    (record p { rule = slot }, rule_task task)
act type (request agent) p = (record p { requests = p.requests ++ agent ∷ [] }, nothing)
act type (may_migrate src dest) p = (p, said (allows src dest p.extent))
act type (create_extent index info) p =
    let (slot, task) = fill (ExtentTask.new index type info) p.extent in
    (record p { extent = slot }, extent_task task)

abbrev pub mu_part : TaskManager → Part
mu_part m = record {
  rule = m.get_mu_rule_task;
  requests = m.get_mu_rule_request_list;
  extent = m.g_mu_extent_task;
}

abbrev pub su_part : TaskManager → Part
su_part m = record {
  rule = m.get_su_rule_task;
  requests = m.get_su_rule_request_list;
  extent = m.g_su_extent_task;
}

-- The manager of two parts.
abbrev pub whole : Part → Part → TaskManager
whole mu su = record {
  get_mu_rule_task = mu.rule;
  get_su_rule_task = su.rule;
  get_mu_rule_request_list = mu.requests;
  get_su_rule_request_list = su.requests;
  g_mu_extent_task = mu.extent;
  g_su_extent_task = su.extent;
}

abbrev part : Option GetRuleTask → List ℕ → Option ExtentTask → Part
part rule requests extent = record { rule = rule; requests = requests; extent = extent }

exec-mu_part :
    (op : Op) (rule : Option GetRuleTask) (requests : List ℕ) (extent : Option ExtentTask)
    (other : Part)
    → exec mu_ruler op (whole (part rule requests extent) other) ≡ (
        let (after, answer) = act mu_ruler op (part rule requests extent) in
        (whole after other, answer))
unfolding rs_is_getting_rule rs_need_continue_update_rule create_get_rule_task
    append_new_update_request delete_first_update_request delete_get_rule_task can_exec_migration
    can_exec_extent create_extent_task delete_extent_task
exec-mu_part is_getting r l e other = refl
exec-mu_part need_continue r l e other = refl
exec-mu_part take_request r [] e other = refl
exec-mu_part take_request r (x ∷ l) e other = refl
exec-mu_part delete_rule r l e other = refl
exec-mu_part may_extend r l e other = refl
exec-mu_part delete_extent r l e other = refl
exec-mu_part (create_rule index) none l e other = refl
exec-mu_part (create_rule index) (some r) l e other = refl
exec-mu_part (request agent) r l e other = refl
exec-mu_part (may_migrate src dest) r l e other = refl
exec-mu_part (create_extent index info) r l none other = refl
exec-mu_part (create_extent index info) r l (some e) other = refl

exec-su_part :
    (op : Op) (rule : Option GetRuleTask) (requests : List ℕ) (extent : Option ExtentTask)
    (other : Part)
    → exec su_ruler op (whole other (part rule requests extent)) ≡ (
        let (after, answer) = act su_ruler op (part rule requests extent) in
        (whole other after, answer))
unfolding rs_is_getting_rule rs_need_continue_update_rule create_get_rule_task
    append_new_update_request delete_first_update_request delete_get_rule_task can_exec_migration
    can_exec_extent create_extent_task delete_extent_task
exec-su_part is_getting r l e other = refl
exec-su_part need_continue r l e other = refl
exec-su_part take_request r [] e other = refl
exec-su_part take_request r (x ∷ l) e other = refl
exec-su_part delete_rule r l e other = refl
exec-su_part may_extend r l e other = refl
exec-su_part delete_extent r l e other = refl
exec-su_part (create_rule index) none l e other = refl
exec-su_part (create_rule index) (some r) l e other = refl
exec-su_part (request agent) r l e other = refl
exec-su_part (may_migrate src dest) r l e other = refl
exec-su_part (create_extent index info) r l none other = refl
exec-su_part (create_extent index info) r l (some e) other = refl

-- A call for a type of rule, and its answer.
pub data Call : Type 0 where
  mu su : Op → Call

pub data Reply : Type 0 where
  from_mu from_su : Answer → Reply

abbrev pub call : Call → TaskManager → TaskManager × Reply
call (mu op) m = let (after, answer) = exec mu_ruler op m in (after, from_mu answer)
call (su op) m = let (after, answer) = exec su_ruler op m in (after, from_su answer)

abbrev pub call_all : List Call → TaskManager → TaskManager × List Reply
call_all [] m = (m, [])
call_all (c ∷ calls) m =
    let (next, reply) = call c m in
    let (last, replies) = call_all calls next in (last, reply ∷ replies)

-- A sequence of calls on one part.
abbrev pub act_all : RuleType → List Op → Part → Part × List Answer
act_all type [] p = (p, [])
act_all type (op ∷ ops) p =
    let (next, answer) = act type op p in
    let (last, answers) = act_all type ops next in (last, answer ∷ answers)

-- What of a sequence is for, or from, one type.
abbrev pub mu_ops : List Call → List Op
mu_ops [] = []
mu_ops (mu op ∷ calls) = op ∷ mu_ops calls
mu_ops (su op ∷ calls) = mu_ops calls

abbrev pub su_ops : List Call → List Op
su_ops [] = []
su_ops (mu op ∷ calls) = su_ops calls
su_ops (su op ∷ calls) = op ∷ su_ops calls

abbrev pub mu_answers : List Reply → List Answer
mu_answers [] = []
mu_answers (from_mu a ∷ replies) = a ∷ mu_answers replies
mu_answers (from_su a ∷ replies) = mu_answers replies

abbrev pub su_answers : List Reply → List Answer
su_answers [] = []
su_answers (from_mu a ∷ replies) = su_answers replies
su_answers (from_su a ∷ replies) = a ∷ su_answers replies

-- What a sequence leaves and answers, when the two parts are apart.
pub record IsApart (calls : List Call) (m : TaskManager) (result : TaskManager × List Reply)
    : Type 0 where
  pub mu_after : mu_part result.0 ≡ (act_all mu_ruler (mu_ops calls) (mu_part m)).0
  pub su_after : su_part result.0 ≡ (act_all su_ruler (su_ops calls) (su_part m)).0
  pub mu_said : mu_answers result.1 ≡ (act_all mu_ruler (mu_ops calls) (mu_part m)).1
  pub su_said : su_answers result.1 ≡ (act_all su_ruler (su_ops calls) (su_part m)).1

call_all-parts :
    (calls : List Call) (left right : Part)
    → IsApart calls (whole left right) (call_all calls (whole left right))
call_all-parts [] left right = record {
  mu_after = refl;
  su_after = refl;
  mu_said = refl;
  su_said = refl;
}
call_all-parts (mu op ∷ calls) left right =
    let next = act mu_ruler op left in
    let rest = call_all-parts calls next.0 right in
    rw (exec-mu_part op left.rule left.requests left.extent right) (record {
      mu_after = rest.mu_after;
      su_after = rest.su_after;
      mu_said = ap (λ l. next.1 ∷ l) rest.mu_said;
      su_said = rest.su_said;
    })
call_all-parts (su op ∷ calls) left right =
    let next = act su_ruler op right in
    let rest = call_all-parts calls left next.0 in
    rw (exec-su_part op right.rule right.requests right.extent left) (record {
      mu_after = rest.mu_after;
      su_after = rest.su_after;
      mu_said = rest.mu_said;
      su_said = ap (λ l. next.1 ∷ l) rest.su_said;
    })

-- Whatever calls for the MU and the SU rules follow one another: the manager is left, and answers, as
-- two separate ones would, of which each takes the calls for its type and has a slot for a task of
-- each kind, filled only where it is empty, and a queue of requests.
pub call_all-IsApart : (calls : List Call) (m : TaskManager) → IsApart calls m (call_all calls m)
call_all-IsApart calls m = call_all-parts calls (mu_part m) (su_part m)
