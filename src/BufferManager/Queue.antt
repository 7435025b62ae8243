-- ===== src/BufferManager/Queue.antt =====
-- common/BufferManager.cpp: the side of the class BufferManager that writes. A request's buffer is
-- its address, the bytes that are still to be sent, and whether it is whole. What `writev` returns
-- is given: `sent n`, or an error that is EINTR or EWOULDBLOCK, or another one. The agent is set,
-- and no buffer is NULL. `freed` collects the addresses that `delete []` has been called with, the
-- last one first, and `told` the calls of writeBack, with the task or with none for the agent's.
pub mod Drain
pub mod Clear
use terry.Base.{
  ℕ, zero, suc, ◌-◌, Bool, true, false, Option, some, none, List, [], ◌∷◌, ◌++◌, ltb, leb,
  if◌then◌else◌, length, drop,
}

pub record IovReq : Type 0 where
  pub m_buffer : ℕ
  pub m_iov : List ℕ
  pub m_complete : Bool
  pub m_task : Option ℕ

pub record WriteQueue : Type 0 where
  pub m_last_iov : Option ℕ
  pub m_iov_list : List IovReq
  pub freed : List ℕ
  pub told : List (Option ℕ × Bool)

-- What one call of `writev` returns.
pub data Written : Type 0 where
  sent : ℕ → Written
  try_again other_error : Written

unfoldable pub write_dynamic : ℕ → List ℕ → Option ℕ → WriteQueue → WriteQueue
write_dynamic buffer bytes task q = record q {
  m_iov_list =
      q.m_iov_list
      ++ record { m_buffer = buffer; m_iov = bytes; m_complete = true; m_task = task } ∷ [];
}

-- `delete []` of the buffer of a request that has been sent.
unfoldable pub release : IovReq → WriteQueue → WriteQueue
release r q =
    if r.m_complete then record q { freed = r.m_buffer ∷ q.freed } else elim q.m_last_iov [
      | none ↦ q
      | some buffer ↦ record q { m_last_iov = none; freed = buffer ∷ q.freed }
    ]

-- The loop of write over the requests `list`, where `ret` bytes have been sent.
unfoldable pub drain : ℕ → List IovReq → WriteQueue → WriteQueue
drain ret [] q = record q { m_iov_list = [] }
drain ret (r ∷ rest) q =
    let released = release r q in
    let next =
      drain (ret - length r.m_iov) rest
        (record released { told = (r.m_task, true) ∷ released.told }) in
    let kept = record r { m_iov = drop ret r.m_iov; m_complete = false } in
    let cut = record q {
      m_last_iov = if r.m_complete then some r.m_buffer else q.m_last_iov;
      m_iov_list = kept ∷ rest;
    } in
    if ltb 0 ret
    then (if leb (length r.m_iov) ret then next else cut)
    else record q { m_iov_list = r ∷ rest }

-- handleWriteError.
unfoldable pub handle_write_error : WriteQueue → WriteQueue
handle_write_error q = record q { told = tell q.m_iov_list q.told }
  where
    tell : List IovReq → List (Option ℕ × Bool) → List (Option ℕ × Bool)
    tell [] told = told
    tell (r ∷ rest) told = tell rest ((r.m_task, false) ∷ told)

-- write, with an agent, for what the calls of `writev` return: how many bytes have been sent, or
-- `none` for FAILED. The calls are repeated until one ends the loop.
unfoldable pub write : List Written → WriteQueue → Option (WriteQueue × Option ℕ)
write [] q = none
write (sent n ∷ calls) q = some (drain n q.m_iov_list q, some n)
write (try_again ∷ calls) q = write calls q
write (other_error ∷ calls) q = some (handle_write_error q, none)

-- The loop of clear, and of the destructor, over the requests that are whole.
unfoldable pub free_whole : List IovReq → List ℕ → List ℕ
free_whole [] freed = freed
free_whole (r ∷ rest) freed = free_whole rest (if r.m_complete then r.m_buffer ∷ freed else freed)

-- clear; the destructor does the same.
unfoldable pub clear : WriteQueue → WriteQueue
clear q =
    let freed = free_whole q.m_iov_list q.freed in
    elim q.m_last_iov [
      | none ↦ record q { m_iov_list = []; freed = freed }
      | some buffer ↦ record q { m_last_iov = none; m_iov_list = []; freed = buffer ∷ freed }
    ]
