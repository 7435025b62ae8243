-- ===== src/BufferManager/Queue/Clear.antt =====
-- common/BufferManager.cpp: clear frees every buffer of the queue once.
use terry.Base.{
  ℕ, ◌≡◌, refl, ap, inl, inr, Bool, true, false, some, none, List, [], ◌∷◌, ◌++◌, Perm, arith,
  if◌then◌else◌, Option, Bool-cases,
}
use mathlib.Core.List.{append-nil}
use mathlib.Core.List.Perm
use terry.Base.{All, middle-perm}
use terry.BufferManager.Queue.{IovReq, WriteQueue, free_whole, clear}
use terry.BufferManager.Queue.Drain.{IsCutFirst, buffers}

free_whole-perm :
    (list : List IovReq) (freed : List ℕ)
    → All (λ r. r.m_complete ≡ true) list
    → Perm (free_whole list freed) (freed ++ buffers list)
unfolding free_whole
free_whole-perm [] freed all = rw (append-nil freed) Perm.rfl
free_whole-perm (r ∷ rest) freed (whole, all) = rw whole (
    Perm.trans (free_whole-perm rest (r.m_buffer ∷ freed) all)
      (Perm.symm (middle-perm freed (buffers rest) r.m_buffer)))

-- The queue is empty, and every buffer of it has been freed once more.
pub record IsCleared (q d : WriteQueue) : Type 0 where
  pub empty : d.m_iov_list ≡ []
  pub last : d.m_last_iov ≡ none
  pub freed : Perm d.freed (q.freed ++ buffers q.m_iov_list)

All-whole : (list : List IovReq) → IsCutFirst none list → All (λ r. r.m_complete ≡ true) list
All-whole [] first = tt
All-whole (r ∷ rest) (all, e) = elim (Bool-cases r.m_complete) [
  | inl whole ↦ (whole, all)
  | inr cut ↦ absurd (ground arith)
]

free_whole-cut :
    (r : IovReq) (rest : List IovReq) (freed : List ℕ)
    → r.m_complete ≡ false
    → free_whole (r ∷ rest) freed ≡ free_whole rest freed
unfolding free_whole
free_whole-cut r rest freed cut =
    ap (λ b. free_whole rest (if b then r.m_buffer ∷ freed else freed)) cut

cut_first :
    (b : ℕ) (list : List IovReq) (freed : List ℕ)
    → IsCutFirst (some b) list
    → Perm (b ∷ free_whole list freed) (freed ++ buffers list)
cut_first b [] freed e = absurd (ground arith)
cut_first b (r ∷ rest) freed (all, e) = elim (Bool-cases r.m_complete) [
  | inl whole ↦ absurd (ground arith)
  | inr cut ↦
      let same : b ≡ r.m_buffer = ground arith in
      rw (same, free_whole-cut r rest freed cut)
        (Perm.trans (Perm.cons r.m_buffer (free_whole-perm rest freed all))
          (Perm.symm (middle-perm freed (buffers rest) r.m_buffer)))
]

clear_list :
    (list : List IovReq) (last : Option ℕ) (freed : List ℕ) (told : List (Option ℕ × Bool))
    → IsCutFirst last list
    → let q : WriteQueue = record {
      m_last_iov = last;
      m_iov_list = list;
      freed = freed;
      told = told;
    } in
      IsCleared q (clear q)
unfolding clear
clear_list list none freed told first = record {
  empty = refl;
  last = refl;
  freed = free_whole-perm list freed (All-whole list first);
}
clear_list list (some b) freed told first = record {
  empty = refl;
  last = refl;
  freed = cut_first b list freed first;
}

-- Let only the first request of the queue be cut. BufferManager::clear empties the queue and frees
-- the buffer of every request of it exactly once.
pub clear-IsCleared :
    (q : WriteQueue) → IsCutFirst q.m_last_iov q.m_iov_list → IsCleared q (clear q)
clear-IsCleared q first = clear_list q.m_iov_list q.m_last_iov q.freed q.told first
