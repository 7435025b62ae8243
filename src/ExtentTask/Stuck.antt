-- ===== src/ExtentTask/Stuck.antt =====
-- Rubbish_cycler/MonitorServer/src/Extent_task.cpp: the first round ends only with a good answer.
use terry.Base.{
  ℕ, ◌≡◌, ◌≢◌, inl, inr, refl, ap, ◌∙◌, Bool, true, false, ◌&&◌, ◌||◌, Returns-map, Option, none,
  some, List, [], ◌∷◌, ◌++◌, ◌==◌, if◌then◌else◌, arith, Run, ok, ◌>>=◌, Returns, returns,
  Returns-bind, All, Bool-cases, Option-cases, ==_refl,
}
use mathlib.Core.List.{append-nil}
use terry.Base.Maps.{find, insert, erase}
use terry.ExtentTask.{
  extenting, RetType, AckHeader, ExtentTask, Action, delete_agent, last_work, delete_task,
  Connection, no_agent, init_failed, connected, Env, Result, can_exec_migration,
  create_agent_and_init, remove_first, remove_agent_from_extent_list, remove_agent_from_retry_list,
  later_back, agent_exec_extent_back, give_up_this_node, push_retry, retry_do_extent,
  parse_callback_ret, is_ack, done_extent_ack,
}

-- An answer, and the index of the agent that it is for.
pub record Ack : Type 0 where
  pub header : Option AckHeader
  pub type : RetType
  pub agent : ℕ

-- A sequence of answers, with what they make others do. With the task its agents are deleted, and what
-- comes after that reaches nobody.
abbrev pub answers : Env → List Ack → Option ExtentTask → Run Result
answers env [] t = ok (t, [])
answers env (k ∷ acks) none = ok (none, [])
answers env (k ∷ acks) (some t) = do
  (next, now) ← done_extent_ack env k.header k.type k.agent t
  (last, others) ← answers env acks next
  ok (last, now ++ others)

abbrev pub is_report : Action → Bool
is_report (last_work ret) = true
is_report _ = false

-- The first round has nobody left to wait for, and is not over.
pub record IsStuck (t : ExtentTask) : Type 0 where
  pub nobody : t.m_extent_agent_list ≡ []
  pub busy : t.m_state ≡ extenting

abbrev pub is_deletion : Action → Bool
is_deletion delete_task = true
is_deletion _ = false

abbrev pub deletes : List Action → Bool
deletes [] = false
deletes (a ∷ actions) = is_deletion a || deletes actions

abbrev pub is_gone : Option ExtentTask → Bool
is_gone none = true
is_gone (some _) = false

abbrev IsLeftStuck : Option ExtentTask → Type 0
IsLeftStuck none = Unit
IsLeftStuck (some t) = IsStuck t

abbrev pub IsSilent : List Action → Type 0
IsSilent = All (λ a. is_report a ≡ false)

-- What a call leaves of a stuck task.
record StaysStuck (result : Result) : Type 0 where
  stuck : IsLeftStuck result.0
  silent : IsSilent result.1
  deleted : deletes result.1 ≡ is_gone result.0

IsSilent-append :
    (left right : List Action) → IsSilent left → IsSilent right → IsSilent (left ++ right)
IsSilent-append [] right l r = r
IsSilent-append (a ∷ left) right l r = (l.0, IsSilent-append left right l.1 r)

deletes-append :
    (left right : List Action) → deletes (left ++ right) ≡ (deletes left || deletes right)
deletes-append [] right = refl
deletes-append (a ∷ left) right =
    rw (deletes-append left right) (or_assoc (is_deletion a) (deletes left))
  where
    or_assoc : (p q : Bool) → p || (q || deletes right) ≡ (p || q) || deletes right
    or_assoc true q = refl
    or_assoc false q = refl

not_first : (agent : ℕ) (l : List ℕ) → l ≡ [] → remove_first agent l ≡ ([], false)
unfolding remove_first
not_first agent l e = ap (remove_first agent) e

back-StaysStuck :
    (agent : ℕ) (t : ExtentTask) → IsStuck t → StaysStuck (agent_exec_extent_back agent true t)
unfolding agent_exec_extent_back remove_agent_from_extent_list remove_agent_from_retry_list
back-StaysStuck agent t s =
    let e = not_first agent t.m_extent_agent_list s.nobody in
    rw e (later (remove_first agent t.m_retry_agent_list))
  where
    later :
        (r : List ℕ × Bool)
        → StaysStuck (
            let after : ExtentTask = record t {
              m_extent_agent_list = [];
              m_retry_agent_list = r.0;
            } in
            if r.1 then later_back (delete_agent agent ∷ []) r.0 after else (some after, []))
    later ([], true) = record { stuck = tt; silent = (refl, (refl, tt)); deleted = refl }
    later (x ∷ l, true) = record {
      stuck = record { nobody = refl; busy = s.busy };
      silent = (refl, tt);
      deleted = refl;
    }
    later (_, false) = record {
      stuck = record { nobody = refl; busy = s.busy };
      silent = tt;
      deleted = refl;
    }

-- What create_agent_and_init gives for a stuck task: it, and the deletion of an agent at most.
record IsCreated (r : ExtentTask × Option ℕ × List Action) : Type 0 where
  stuck : IsStuck r.0
  silent : IsSilent r.2
  deleted : deletes r.2 ≡ false

create_agent-IsCreated :
    (env : Env) (ip : ℕ) (t : ExtentTask) → IsStuck t → IsCreated (create_agent_and_init env ip t)
unfolding create_agent_and_init
create_agent-IsCreated env ip t s = by_connection (env.connects ip)
  where
    by_connection :
        (c : Connection)
        → IsCreated (elim c [
          | no_agent ↦ (t, none, [])
          | init_failed index ↦ (t, none, delete_agent index ∷ [])
          | connected index ↦
              (record t { m_index_ip_map = insert index ip t.m_index_ip_map }, some index, [])
        ])
    by_connection no_agent = record { stuck = s; silent = tt; deleted = refl }
    by_connection (init_failed index) = record { stuck = s; silent = (refl, tt); deleted = refl }
    by_connection (connected index) = record {
      stuck = record { nobody = s.nobody; busy = s.busy };
      silent = tt;
      deleted = refl;
    }

push_retry-IsStuck :
    (agent : ℕ) (r : ExtentTask × Option ℕ × List Action)
    → IsStuck r.0
    → IsStuck (push_retry agent r)
unfolding give_up_this_node remove_agent_from_retry_list
push_retry-IsStuck agent (t, none, _) s = record { nobody = s.nobody; busy = s.busy }
push_retry-IsStuck agent (t, some index, _) s = record { nobody = s.nobody; busy = s.busy }

-- A read of an erased entry gives something.
abbrev pub IsReadable : Env → Type 0
IsReadable env = (ip : ℕ) → Returns (λ (node_ip : ℕ). Unit) (env.erased ip)

-- The task when its agent is on no list.
abbrev without : ℕ → ExtentTask → ExtentTask
without agent t = record t {
  m_extent_agent_list = (remove_first agent t.m_extent_agent_list).0;
  m_retry_agent_list = (remove_first agent t.m_retry_agent_list).0;
}

-- A failure of an agent leaves a task stuck when no other is left in the first round.
retry-StaysStuck :
    (env : Env) (agent : ℕ) (t : ExtentTask)
    → IsReadable env
    → IsStuck (without agent t)
    → Returns StaysStuck (retry_do_extent env agent t)
unfolding retry_do_extent give_up_this_node remove_agent_from_extent_list
    remove_agent_from_retry_list
retry-StaysStuck env agent t reads s = elim (Option-cases (find agent t.m_index_ip_map)) [
  | inl lost ↦
      rw (lost, retry_do_extent)
        (returns (record {
          stuck = record { nobody = s.nobody; busy = s.busy };
          silent = (refl, tt);
          deleted = refl;
        }))
  | inr (ip, found) ↦
      let erased : ExtentTask = record (without agent t) {
        m_index_ip_map = erase agent t.m_index_ip_map;
      } in
      rw (found, retry_do_extent)
        (Returns-bind (reads ip) (λ node_ip _.
          let made =
            create_agent-IsCreated env node_ip erased
              (record { nobody = s.nobody; busy = s.busy }) in
          returns (record {
            stuck = push_retry-IsStuck agent (create_agent_and_init env node_ip erased) made.stuck;
            silent = (refl, made.silent);
            deleted = made.deleted;
          })))
]

ack-StaysStuck :
    (env : Env) (k : Ack) (t : ExtentTask)
    → IsReadable env
    → IsStuck t
    → Returns StaysStuck (done_extent_ack env k.header k.type k.agent t)
unfolding done_extent_ack
ack-StaysStuck env k t reads s =
    let again : Returns StaysStuck (retry_do_extent env k.agent t) =
      retry-StaysStuck env k.agent t reads (record {
        nobody = ap (λ (r : List ℕ × Bool). r.0) (not_first k.agent t.m_extent_agent_list s.nobody);
        busy = s.busy;
      }) in
    elim (Bool-cases (k.agent == 0)) [
      | inl null ↦ rw null (returns (record { stuck = s; silent = tt; deleted = refl }))
      | inr agent ↦ elim (Bool-cases (parse_callback_ret k.header k.type)) [
        | inr bad ↦ rw (agent, bad) again
        | inl parsed ↦ elim (Bool-cases (is_ack t.m_type k.header)) [
          | inl good ↦ rw (agent, parsed, good) (returns (back-StaysStuck k.agent t s))
          | inr bad ↦ rw (agent, parsed, bad) again
        ]
      ]
    ]

StaysStuck-append :
    (now : List Action) (t : ExtentTask) (r : Result)
    → StaysStuck (some t, now)
    → StaysStuck r
    → StaysStuck (r.0, now ++ r.1)
StaysStuck-append now t r n l = record {
  stuck = l.stuck;
  silent = IsSilent-append now r.1 n.silent l.silent;
  deleted = deletes-append now r.1 ∙ rw n.deleted l.deleted;
}

-- Nothing happens for a task that is gone.
answers_gone : (env : Env) (acks : List Ack) → answers env acks none ≡ ok (none, [])
answers_gone env [] = refl
answers_gone env (k ∷ acks) = refl

-- What comes after a call that has left a stuck task.
StaysStuck-then :
    (env : Env) (acks : List Ack) (next : Result)
    → ((t : ExtentTask) → IsStuck t → Returns StaysStuck (answers env acks (some t)))
    → StaysStuck next
    → Returns StaysStuck (answers env acks next.0 >>= λ r. ok (r.0, next.1 ++ r.1))
StaysStuck-then env acks (none, now) rest n = rw (answers_gone env acks, append-nil now) (returns n)
StaysStuck-then env acks (some t, now) rest n =
    Returns-bind (rest t n.stuck) (λ r l. returns (StaysStuck-append now t r n l))

answers-StaysStuck :
    (env : Env) (acks : List Ack) (t : ExtentTask)
    → IsReadable env
    → IsStuck t
    → Returns StaysStuck (answers env acks (some t))
answers-StaysStuck env [] t reads s = returns (record { stuck = s; silent = tt; deleted = refl })
answers-StaysStuck env (k ∷ acks) t reads s =
    Returns-bind (ack-StaysStuck env k t reads s)
      (λ next n. StaysStuck-then env acks next (λ t' s'. answers-StaysStuck env acks t' reads s') n)

-- An answer that the task does not take for a success.
abbrev pub IsFailure : ExtentTask → Ack → Type 0
IsFailure t k = (parse_callback_ret k.header k.type && is_ack t.m_type k.header) ≡ false

-- A migration is refused by a task that is there.
abbrev pub IsRefused : Option ExtentTask → Type 0
IsRefused none = Unit
IsRefused (some t) = (src dest : ℕ) → can_exec_migration src dest t ≡ false

IsLeftStuck-IsRefused : (o : Option ExtentTask) → IsLeftStuck o → IsRefused o
unfolding can_exec_migration
IsLeftStuck-IsRefused none s = tt
IsLeftStuck-IsRefused (some t) s = λ src dest. let e = s.busy in rw e refl

-- What a sequence of answers leaves: no result has been reported, the task is gone exactly if it has
-- deleted itself, and refuses every migration as long as it is there.
pub record IsUnreported (r : Result) : Type 0 where
  pub silent : IsSilent r.1
  pub deleted : deletes r.1 ≡ is_gone r.0
  pub refused : IsRefused r.0

-- Where the agent of the last outstanding answer of the first round reports a failure, whatever answers
-- come after it, and if a read of an erased entry gives something: every call returns and none reports a
-- result. The task refuses every migration until it deletes itself, which it may do when a node that is
-- tried again succeeds.
pub answers-last_failure :
    (env : Env) (k : Ack) (acks : List Ack) (t : ExtentTask)
    → IsReadable env
    → t.m_extent_agent_list ≡ k.agent ∷ []
    → t.m_state ≡ extenting
    → k.agent ≢ 0
    → IsFailure t k
    → Returns IsUnreported (answers env (k ∷ acks) (some t))
unfolding done_extent_ack remove_first
answers-last_failure env k acks t reads last busy is_index failure =
    let s : IsStuck (without k.agent t) = record {
      nobody = ap (λ l. (remove_first k.agent l).0) last ∙ rw (==_refl k.agent) refl;
      busy = busy;
    } in
    let agent : (k.agent == 0) ≡ false = ground arith in
    let first : Returns StaysStuck (done_extent_ack env k.header k.type k.agent t) =
      elim (Bool-cases (parse_callback_ret k.header k.type)) [
        | inr bad ↦ rw (agent, bad) (retry-StaysStuck env k.agent t reads s)
        | inl parsed ↦
            let bad : is_ack t.m_type k.header ≡ false = ground arith in
            rw (agent, parsed, bad) (retry-StaysStuck env k.agent t reads s)
      ] in
    Returns-map
      (Returns-bind first (λ next n.
        StaysStuck-then env acks next (λ t' s'. answers-StaysStuck env acks t' reads s') n))
      (λ r l. record {
        silent = l.silent;
        deleted = l.deleted;
        refused = IsLeftStuck-IsRefused r.0 l.stuck;
      })
