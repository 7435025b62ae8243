-- ===== src/BufferManager/Queue/Drain.antt =====
-- common/BufferManager.cpp: what a write leaves in the queue, and that each buffer is freed once.
use terry.Base.{
  ℕ, zero, suc, ◌-◌, ◌≤◌, ◌≡◌, refl, sym, ap, ◌∙◌, true, some, none, List, [], ◌∷◌, ◌++◌, Bool,
  Perm, arith, ltb, leb, if◌then◌else◌, Option, length, drop, replicate, length-append,
}
use mathlib.Core.List.{append-nil, append_assoc}
use mathlib.Core.List.Perm
use terry.Base.{All, middle-perm}
use terry.BufferManager.Frame.{if_both, All-snoc}
use terry.BufferManager.Queue.{
  IovReq, WriteQueue, Written, sent, try_again, release, drain, write_dynamic, write,
}

-- The bytes of the requests that are still to be sent.
abbrev pub pending : List IovReq → List ℕ
pending [] = []
pending (r ∷ rest) = r.m_iov ++ pending rest

abbrev pub buffers : List IovReq → List ℕ
buffers [] = []
buffers (r ∷ rest) = r.m_buffer ∷ buffers rest

-- Only the first request may have been cut, and m_last_iov is its buffer then.
abbrev pub IsCutFirst : Option ℕ → List IovReq → Type 0
IsCutFirst last [] = last ≡ none
IsCutFirst last (r ∷ rest) =
    All (λ s. s.m_complete ≡ true) rest × (last ≡ (if r.m_complete then none else some r.m_buffer))

-- The tasks that wait for an answer, one for each request; `none` is the agent itself.
abbrev pub tasks : List IovReq → List (Option ℕ)
tasks [] = []
tasks (r ∷ rest) = r.m_task ∷ tasks rest

-- One call of writeBack after another, with success, for each of the tasks.
abbrev pub answers : List (Option ℕ) → List (Option ℕ × Bool) → List (Option ℕ × Bool)
answers [] told = told
answers (task ∷ rest) told = answers rest ((task, true) ∷ told)

-- What a write of `ret` bytes leaves of the queue `q` with the requests `list`.
pub record IsSent (ret : ℕ) (list : List IovReq) (q d : WriteQueue) : Type 0 where
  pub left : pending d.m_iov_list ≡ drop ret (pending list)
  pub cut : IsCutFirst d.m_last_iov d.m_iov_list
  pub owned : Perm (d.freed ++ buffers d.m_iov_list) (q.freed ++ buffers list)
  pub gone : List (Option ℕ)
  pub split : tasks list ≡ gone ++ tasks d.m_iov_list
  pub told : d.told ≡ answers gone q.told

drop_past : (n : ℕ) (xs ys : List ℕ) → length xs ≤ n → drop n (xs ++ ys) ≡ drop (n - length xs) ys
drop_past n [] ys h = let e : n - 0 ≡ n = omega arith in rw e refl
drop_past zero (x ∷ xs) ys h = absurd (omega arith)
drop_past (suc n) (x ∷ xs) ys h =
    let e : suc n - suc (length xs) ≡ n - length xs = omega arith in
    rw e (drop_past n xs ys (omega arith))

drop_within : (n : ℕ) (xs ys : List ℕ) → n ≤ length xs → drop n (xs ++ ys) ≡ drop n xs ++ ys
drop_within zero xs ys h = refl
drop_within (suc n) [] ys h = absurd (omega arith)
drop_within (suc n) (x ∷ xs) ys h = drop_within n xs ys (omega arith)

-- The buffer of a request that has been sent is freed, and nothing is cut any more.
abbrev IsReleased : IovReq → WriteQueue → WriteQueue → Type 0
IsReleased r q p = (p.freed ≡ r.m_buffer ∷ q.freed) × (p.m_last_iov ≡ none) × (p.told ≡ q.told)

release-IsReleased :
    (r : IovReq) (rest : List IovReq) (q : WriteQueue)
    → IsCutFirst q.m_last_iov (r ∷ rest)
    → IsReleased r q (release r q)
unfolding release
release-IsReleased r rest q (_, last) =
    if_both (IsReleased r q) r.m_complete (λ whole. (refl, rw whole at last, refl))
      λ cut. let e : q.m_last_iov ≡ some r.m_buffer = rw cut at last in rw e (refl, refl, refl)

next-IsCutFirst : (rest : List IovReq) → All (λ r. r.m_complete ≡ true) rest → IsCutFirst none rest
next-IsCutFirst [] all = refl
next-IsCutFirst (r ∷ rest) (whole, all) = (all, ground arith)

drain-IsSent :
    (ret : ℕ) (list : List IovReq) (q : WriteQueue)
    → IsCutFirst q.m_last_iov list
    → ret ≤ length (pending list)
    → IsSent ret list q (drain ret list q)
unfolding drain
drain-IsSent ret [] q first h =
    let e : ret ≡ 0 = omega arith in
    record { left = rw e refl; cut = first; owned = Perm.rfl; gone = []; split = refl; told = refl }
drain-IsSent ret (r ∷ rest) q first h =
    if_both (IsSent ret (r ∷ rest) q) (ltb 0 ret)
      (λ some_sent.
        if_both (IsSent ret (r ∷ rest) q) (leb (length r.m_iov) ret)
          (λ all.
            let (freed, last, told) = release-IsReleased r rest q first in
            let later =
              drain-IsSent (ret - length r.m_iov) rest
                (record (release r q) { told = (r.m_task, true) ∷ (release r q).told })
                (rw last (next-IsCutFirst rest first.0))
                (ground (arith, length-append r.m_iov (pending rest))) in
            record {
              left = later.left ∙ sym (drop_past ret r.m_iov (pending rest) (ground arith));
              cut = later.cut;
              owned =
                  Perm.trans later.owned
                    (rw freed (Perm.symm (middle-perm q.freed (buffers rest) r.m_buffer)));
              gone = r.m_task ∷ later.gone;
              split = ap (◌∷◌ r.m_task) later.split;
              told = later.told ∙ ap (λ t. answers later.gone ((r.m_task, true) ∷ t)) told;
            })
          (λ part. record {
            left = sym (drop_within ret r.m_iov (pending rest) (ground arith));
            cut = (
              first.0,
              if_both (λ o. o ≡ some r.m_buffer) r.m_complete (λ whole. refl)
                  (λ cut. rw cut at first.1),
            );
            owned = Perm.rfl;
            gone = [];
            split = refl;
            told = refl;
          }))
      (λ none_sent.
        let e : ret ≡ 0 = ground arith in
        record {
          left = rw e refl;
          cut = first;
          owned = Perm.rfl;
          gone = [];
          split = refl;
          told = refl;
        })

-- Let only the first request of the queue be cut, and let `writev` take `n` of the bytes that it is
-- given, after any number of calls that EINTR or EWOULDBLOCK interrupts. BufferManager::write then
-- returns `n`: what is still to be sent is what was, without its first `n` bytes; the freed buffers
-- and those of the queue are together the same as before; the requests that have left the queue are
-- its first ones, and writeBack has been called with success for the task of each of them, in their
-- order and once, and for no other; and again only the first request is cut.
pub write-IsSent :
    (tries n : ℕ) (others : List Written) (q : WriteQueue)
    → IsCutFirst q.m_last_iov q.m_iov_list
    → n ≤ length (pending q.m_iov_list)
    → (d : WriteQueue) × (write (replicate tries try_again ++ sent n ∷ others) q ≡ some (d, some n))
      × IsSent n q.m_iov_list q d
unfolding write
write-IsSent zero n others q first h =
    (drain n q.m_iov_list q, refl, drain-IsSent n q.m_iov_list q first h)
write-IsSent (suc tries) n others q first h = write-IsSent tries n others q first h

pending-append : (xs ys : List IovReq) → pending (xs ++ ys) ≡ pending xs ++ pending ys
pending-append [] ys = refl
pending-append (r ∷ xs) ys =
    ap (◌++◌ r.m_iov) (pending-append xs ys) ∙ sym (append_assoc r.m_iov (pending xs) (pending ys))

-- A request that is queued comes after the bytes that wait, and cuts none.
pub write_dynamic-pending :
    (buffer : ℕ) (bytes : List ℕ) (task : Option ℕ) (q : WriteQueue)
    → IsCutFirst q.m_last_iov q.m_iov_list
    → (pending (write_dynamic buffer bytes task q).m_iov_list ≡ pending q.m_iov_list ++ bytes)
      × IsCutFirst q.m_last_iov (write_dynamic buffer bytes task q).m_iov_list
unfolding write_dynamic
write_dynamic-pending buffer bytes task q first =
    let r : IovReq = record {
      m_buffer = buffer;
      m_iov = bytes;
      m_complete = true;
      m_task = task;
    } in
    (
      pending-append q.m_iov_list (r ∷ []) ∙ ap (◌++◌ (pending q.m_iov_list)) (append-nil bytes),
      queued q.m_iov_list first,
    )
  where
    queued :
        (list : List IovReq)
        → IsCutFirst q.m_last_iov list
        → IsCutFirst q.m_last_iov (
            list
            ++ record { m_buffer = buffer; m_iov = bytes; m_complete = true; m_task = task } ∷ [])
    queued [] last = (tt, last)
    queued (s ∷ list) (all, last) = (All-snoc (λ s. s.m_complete ≡ true) list _ all refl, last)
