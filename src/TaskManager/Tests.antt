-- ===== src/TaskManager/Tests.antt =====
-- Rubbish_cycler/MonitorServer/src/Task_manager.cpp: runs of the manager.
use terry.Base.{◌≡◌, refl, some, List, [], ◌∷◌}
use terry.Ruler.{su_ruler, other_type}
use terry.TaskManager.{new, new_get_rule_task, create_get_rule_task, get_get_rule_task}
use terry.TaskManager.Script.{
  create_rule, request, take_request, may_extend, create_extent, Call, mu, su, call_all, IsApart,
  call_all-IsApart,
}

abbrev calls : List Call
calls =
    mu (create_rule 5)
    ∷ mu (request 8)
    ∷ su (request 7)
    ∷ su (create_extent 6 (record { new_mod = 4 }))
    ∷ mu may_extend
    ∷ mu (request 9)
    ∷ mu take_request
    ∷ su may_extend
    ∷ []

-- A task for another type takes the place of the SU task, which nothing deletes.
lost :
    get_get_rule_task su_ruler
      (create_get_rule_task other_type 2 (create_get_rule_task su_ruler 1 new).0).0
    ≡ some (new_get_rule_task 2 other_type)
unfolding new create_get_rule_task get_get_rule_task
lost = refl

call_all-IsApart_example : IsApart calls new (call_all calls new)
call_all-IsApart_example = call_all-IsApart calls new
