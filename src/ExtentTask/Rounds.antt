-- ===== src/ExtentTask/Rounds.antt =====
-- Rubbish_cycler/MonitorServer/src/Extent_task.cpp: the answers of the first round, and the test for a
-- migration.
use terry.Base.{
  ℕ, Option, none, suc, ◌+◌, ◌≡◌, ◌≢◌, ◌↔◌, ◌<◌, inl, inr, refl, sym, ap, ◌∙◌, true, false, some,
  List, [], ◌∷◌, ◌++◌, ◌==◌, ◌||◌, if◌then◌else◌, arith, map, Run, ok, fault, ◌>>=◌, All,
  Bool-cases, Option-cases, ==_iff, ==_refl,
}
use terry.Base.Maps.{Entries, find}
use terry.Ruler.{RuleType, mu_ruler, su_ruler, other_type}
use terry.ExtentTask.{
  ExtentState, free, extenting, retry, successfully, AckHeader, ExtentTask, delete_agent, last_work,
  Env, Result, msg_cs_mu_extent_bucket_ack, msg_cs_su_extent_bucket_ack, mu_ok, su_ok, is_extenting,
  no_conflict, can_exec_migration, remove_first, remove_agent_from_extent_list,
  remove_agent_from_retry_list, first_back, agent_exec_extent_back, is_ack, done_extent_ack,
}

-- No node of an agent on the list is the source or the destination.
abbrev pub IsApart : ℕ → ℕ → Entries ℕ → List ℕ → Type 0
IsApart src dest ips = All (λ agent. (ip : ℕ) → find agent ips ≡ some ip → (src ≢ ip) × (dest ≢ ip))

no_conflict-IsApart :
    (src dest : ℕ) (ips : Entries ℕ) (agents : List ℕ)
    → (no_conflict src dest ips agents ≡ true) ↔ IsApart src dest ips agents
unfolding no_conflict
no_conflict-IsApart src dest ips [] = ((λ h. tt), (λ h. refl))
no_conflict-IsApart src dest ips (agent ∷ agents) =
    let (sound, complete) = no_conflict-IsApart src dest ips agents in
    elim (Option-cases (find agent ips)) [
      | inl lost ↦
          rw (lost, no_conflict) ((λ h. ((λ ip e. absurd cc), sound h)), (λ h. complete h.1))
      | inr (ip, found) ↦ elim (Bool-cases (src == ip || dest == ip)) [
        | inl clash ↦
            rw (found, no_conflict, clash)
              ((λ h. absurd cc), (λ h. (let apart = h.0 ip refl in absurd (ground (arith, apart)))))
        | inr clear ↦
            rw (found, no_conflict, clear)
              (
                (λ h. (
                  (λ other e. (let same : ip ≡ other = cc in (ground arith, ground arith))),
                  sound h,
                )),
                (λ h. complete h.1),
              )
      ]
    ]

-- A migration is admitted exactly if the first round is over and neither its source nor its
-- destination is the node of an agent that is tried again.
pub can_exec_migration-IsApart :
    (src dest : ℕ) (t : ExtentTask)
    → (can_exec_migration src dest t ≡ true)
      ↔ ((t.m_state ≢ extenting) × IsApart src dest t.m_index_ip_map t.m_retry_agent_list)
unfolding can_exec_migration
can_exec_migration-IsApart src dest t = elim (Bool-cases (is_extenting t.m_state)) [
  | inl busy ↦ rw busy ((λ h. absurd cc), (λ h. absurd (h.0 (is_extenting_sound t.m_state busy))))
  | inr done ↦
      let (sound, complete) = no_conflict-IsApart src dest t.m_index_ip_map t.m_retry_agent_list in
      rw done ((λ h. ((λ e. (let wrong = ap is_extenting e in cc)), sound h)), (λ h. complete h.1))
]
  where
    is_extenting_sound : (s : ExtentState) → is_extenting s ≡ true → s ≡ extenting
    is_extenting_sound free h = cc
    is_extenting_sound extenting h = refl
    is_extenting_sound retry h = cc

-- How often an index stands in a list.
abbrev pub count : ℕ → List ℕ → ℕ
count a [] = 0
count a (b ∷ l) = if a == b then suc (count a l) else count a l

-- The same indices, each as often, in any order.
abbrev pub IsReordered : List ℕ → List ℕ → Type 0
IsReordered l m = (a : ℕ) → count a l ≡ count a m

IsReordered-nil : (l : List ℕ) → IsReordered l [] → l ≡ []
IsReordered-nil [] h = refl
IsReordered-nil (a ∷ l) h = let here = h a in let same = ==_refl a in absurd (ground arith)

remove_first-found : (a : ℕ) (l : List ℕ) → 0 < count a l → (remove_first a l).1 ≡ true
unfolding remove_first
remove_first-found a [] h = absurd (omega arith)
remove_first-found a (b ∷ l) h = elim (Bool-cases (a == b)) [
  | inl same ↦ rw same refl
  | inr other ↦ rw other (remove_first-found a l (rw other at h))
]

count-remove_first :
    (a b : ℕ) (l : List ℕ)
    → 0 < count a l
    → count b l ≡ (if b == a then 1 else 0) + count b (remove_first a l).0
unfolding remove_first
count-remove_first a b [] h = absurd (omega arith)
count-remove_first a b (c ∷ l) h = elim (Bool-cases (a == c)) [
  | inl same ↦ let e : a ≡ c = (==_iff a c).0 same in rw same (count_head e)
  | inr other ↦
      let rest = count-remove_first a b l (rw other at h) in rw other (ground (arith, rest))
]
  where
    count_head :
        a ≡ c
        → (if b == c then suc (count b l) else count b l) ≡ (if b == a then 1 else 0) + count b l
    count_head e = rw e (ground arith)

count-rest :
    (a : ℕ) (acks l : List ℕ)
    → IsReordered l (a ∷ acks)
    → 0 < count a l
    → IsReordered (remove_first a l).0 acks
count-rest a acks l h inside b =
    let here = h b in let removed = count-remove_first a b l inside in ground (arith, here, removed)

-- The answer of a node of the type that has extended its buckets.
abbrev pub good_ack : RuleType → AckHeader
good_ack mu_ruler = record { cmd = msg_cs_mu_extent_bucket_ack; error = mu_ok }
good_ack _ = record { cmd = msg_cs_su_extent_bucket_ack; error = su_ok }

good_ack-is_ack : (type : RuleType) → is_ack type (some (good_ack type)) ≡ true
good_ack-is_ack mu_ruler = refl
good_ack-is_ack su_ruler = refl
good_ack-is_ack other_type = refl

-- The nodes answer one after the other, all of them well; an answer for a task that is deleted is a
-- fault.
abbrev pub all_ack : Env → List ℕ → Option ExtentTask → Run Result
all_ack env [] t = ok (t, [])
all_ack env (a ∷ acks) none = fault
all_ack env (a ∷ acks) (some t) = do
  (next, now) ← done_extent_ack env (some (good_ack t.m_type)) successfully a t
  (last, others) ← all_ack env acks next
  ok (last, now ++ others)

good_step :
    (env : Env) (a : ℕ) (t : ExtentTask)
    → a ≢ 0
    → done_extent_ack env (some (good_ack t.m_type)) successfully a t
      ≡ ok (agent_exec_extent_back a true t)
unfolding done_extent_ack
good_step env a t h =
    let agent : (a == 0) ≡ false = ground arith in rw (agent, good_ack-is_ack t.m_type) refl

first_step :
    (a : ℕ) (t : ExtentTask)
    → (remove_first a t.m_extent_agent_list).1 ≡ true
    → agent_exec_extent_back a true t
      ≡ first_back
          (delete_agent a ∷ [])
          (remove_first a t.m_extent_agent_list).0
          (record t { m_extent_agent_list = (remove_first a t.m_extent_agent_list).0 })
unfolding agent_exec_extent_back remove_agent_from_extent_list remove_agent_from_retry_list
first_step a t h = rw h refl

-- The end of a first round.
abbrev pub finished : ExtentTask → ExtentTask
finished t = record t { m_extent_agent_list = []; m_state = retry }

some_left :
    (b : ℕ) (l acks : List ℕ)
    → IsReordered l (b ∷ acks)
    → (x : ℕ) × (rest : List ℕ) × (l ≡ x ∷ rest)
some_left b [] acks h = let here = h b in let same = ==_refl b in absurd (ground arith)
some_left b (x ∷ rest) acks h = (x, rest, refl)

module _ (env : Env) (a : ℕ) (t : ExtentTask) (is_index : a ≢ 0)
    (found : (remove_first a t.m_extent_agent_list).1 ≡ true) where
  -- The answer when `l` are the agents that are left.
  ack_step :
      (l : List ℕ)
      → (remove_first a t.m_extent_agent_list).0 ≡ l
      → done_extent_ack env (some (good_ack t.m_type)) successfully a t
        ≡ ok (first_back (delete_agent a ∷ []) l (record t { m_extent_agent_list = l }))
  ack_step l left =
      good_step env a t is_index
      ∙ ap ok (
          first_step a t found
          ∙ ap (λ l. first_back (delete_agent a ∷ []) l (record t { m_extent_agent_list = l }))
              left)

-- In whatever order the agents of the first round answer that their node has extended its buckets:
-- each agent is deleted when it answers, and the result is reported once, as a success, after the
-- last answer; then the task is there, no agent is left and the task is in the state of the later rounds.
pub all_ack-finished :
    (env : Env) (t : ExtentTask) (a : ℕ) (acks : List ℕ)
    → All (λ x. x ≢ 0) (a ∷ acks)
    → IsReordered t.m_extent_agent_list (a ∷ acks)
    → all_ack env (a ∷ acks) (some t)
      ≡ ok (some (finished t), map delete_agent (a ∷ acks) ++ last_work true ∷ [])
all_ack-finished env t a [] nz same =
    let here = same a in
    let inside : 0 < count a t.m_extent_agent_list = (let e = ==_refl a in ground (arith, here)) in
    let found = remove_first-found a t.m_extent_agent_list inside in
    let gone =
      IsReordered-nil (remove_first a t.m_extent_agent_list).0
        (count-rest a [] t.m_extent_agent_list same inside) in
    rw (ack_step env a t nz.0 found [] gone) refl
all_ack-finished env t a (b ∷ acks) nz same =
    let here = same a in
    let inside : 0 < count a t.m_extent_agent_list = (let e = ==_refl a in ground (arith, here)) in
    let found = remove_first-found a t.m_extent_agent_list inside in
    let others = count-rest a (b ∷ acks) t.m_extent_agent_list same inside in
    let (x, l, left) = some_left b (remove_first a t.m_extent_agent_list).0 acks others in
    let next : ExtentTask = record t { m_extent_agent_list = x ∷ l } in
    let rest = all_ack-finished env next b acks nz.1 (λ c. ap (count c) (sym left) ∙ others c) in
    rw (ack_step env a t nz.0 found (x ∷ l) left, rest) refl
