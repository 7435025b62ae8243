-- ===== src/BufferManager/Tests.antt =====
-- common/BufferManager.cpp: a run of read, and its theorems at concrete inputs.
use terry.Base.{
  ℕ, ◌≡◌, ◌≢◌, ◌≤◌, none, refl, List, [], ◌∷◌, arith, true, replicate, length, take, drop,
  length-replicate, length-take, u32_mod, ok, fault, Returns, store, ◌-◌,
}
use terry.BufferManager.{
  Receipt, received, would_block, ReadResult, successful, remaining, BufferManager, constructed,
  length_of, prepare, store_bytes, hand, finish_head, read_head, read_body, read_rest, read,
}
use terry.BufferManager.Head.{IsReading, constructed-IsReading, bytes_of}
use terry.BufferManager.Messages.{HasRead, Reached, start, next, read-messages}
use Prim.Native.Nat.{min}
use terry.Base.{Run, out_of_fuel}
use terry.BufferManager.Queue.{IovReq, WriteQueue, sent, try_again, release, drain, write}
use terry.BufferManager.Queue.Drain.{IsSent, write-IsSent}
use terry.Base.{some, false}
use terry.BufferManager.Read.{IsFed, next_header, read-IsReading, read_body-overflows}

-- A socket on which these bytes have come.
abbrev recv_from : ℕ → List ℕ → Receipt × List ℕ
recv_from len [] = (would_block, [])
recv_from len (b ∷ bytes) = (received (take len (b ∷ bytes)), drop len (b ∷ bytes))

recv_from-bounded : (len : ℕ) (s : List ℕ) → length (bytes_of (recv_from len s).0) ≤ len
recv_from-bounded len [] = omega arith
recv_from-bounded len (b ∷ bytes) = omega (arith, length-take len (b ∷ bytes))

abbrev zeros : ℕ → List ℕ
zeros n = replicate n 0

-- A message with a body of two bytes.
abbrev message : List ℕ
message =
    7 ∷ 0 ∷ 0 ∷ 0 ∷ 2 ∷ 0 ∷ 0 ∷ 0 ∷ 0 ∷ 0 ∷ 0 ∷ 0 ∷ 0 ∷ 0 ∷ 0 ∷ 0 ∷ 0 ∷ 0 ∷ 0 ∷ 0 ∷ 65 ∷ 66 ∷ []

abbrev idle : BufferManager
idle = constructed (zeros 20)

one_call :
    read zeros true recv_from message idle
    ≡ ok (
      [],
      record {
        m_msg_header = take 20 message;
        m_io_buf = none;
        m_offset = 0;
        m_len = 0;
        m_read_head = true;
        m_init = true;
        handed = (take 20 message, 65 ∷ 66 ∷ 0 ∷ []) ∷ [];
        given = message;
      },
      successful,
    )
unfolding constructed prepare read read_head read_rest read_body finish_head hand store_bytes
    length_of store
one_call = refl

message_is_modest :
    (prepare idle).m_read_head ≡ true
    → length_of (
        next_header zeros
          (λ n. length-replicate n 0)
          recv_from
          recv_from-bounded
          message
          (prepare idle))
      ≢ u32_mod - 1
unfolding constructed prepare length_of
message_is_modest e = omega arith

read-IsReading_example :
    Returns
      (λ (r : List ℕ × BufferManager × ReadResult). IsReading r.1)
      (read zeros true recv_from message idle)
read-IsReading_example =
    read-IsReading zeros (λ n. length-replicate n 0) recv_from recv_from-bounded message idle
      (constructed-IsReading (zeros 20) refl) message_is_modest

abbrev huge : BufferManager
huge = record (constructed (replicate 20 255)) { m_len = 4_294_967_295 }

read_body-overflows_example :
    read_body zeros true (received (1 ∷ [])) (finish_head zeros true huge).0 ≡ fault
unfolding constructed
read_body-overflows_example = read_body-overflows zeros huge (1 ∷ []) refl refl refl (omega arith)

-- A socket that yields ten bytes at most.
abbrev recv_ten : ℕ → List ℕ → Receipt × List ℕ
recv_ten len s = recv_from (min len 10) s

recv_ten-bounded : (len : ℕ) (s : List ℕ) → length (bytes_of (recv_ten len s).0) ≤ len
recv_ten-bounded len s = omega (arith, recv_from-bounded (min len 10) s)

abbrev after : Run (List ℕ × BufferManager × ReadResult) → List ℕ × BufferManager
after (ok r) = (r.0, r.1)
after fault = ([], idle)
after out_of_fuel = ([], idle)

abbrev begun : List ℕ × BufferManager
begun = after (read zeros true recv_ten message idle)

ten_is_modest :
    (prepare idle).m_read_head ≡ true
    → length_of (
        next_header zeros
          (λ n. length-replicate n 0)
          recv_ten
          recv_ten-bounded
          message
          (prepare idle))
      ≢ u32_mod - 1
unfolding constructed prepare length_of
ten_is_modest e = omega arith

rest_is_modest :
    (prepare begun.1).m_read_head ≡ true
    → length_of (
        next_header zeros
          (λ n. length-replicate n 0)
          recv_ten
          recv_ten-bounded
          begun.0
          (prepare begun.1))
      ≢ u32_mod - 1
unfolding constructed prepare read read_head read_rest read_body finish_head hand store_bytes
    length_of store
rest_is_modest e = omega arith

-- The first call yields ten bytes of the header.
begun_call : read zeros true recv_ten message idle ≡ ok (begun.0, begun.1, remaining 10)
unfolding constructed prepare read read_head read_rest read_body finish_head hand store_bytes
    length_of store
begun_call = refl

begun-Reached :
    Reached zeros (λ n. length-replicate n 0) recv_ten recv_ten-bounded message begun.0 begun.1
begun-Reached = next (start (zeros 20) refl) ten_is_modest begun_call

read-messages_example :
    HasRead zeros (λ n. length-replicate n 0) recv_ten recv_ten-bounded message begun.0 begun.1
    × Returns
        (λ (r : List ℕ × BufferManager × ReadResult).
          IsFed zeros (λ n. length-replicate n 0) recv_ten recv_ten-bounded begun.0 begun.1 r
          × HasRead zeros (λ n. length-replicate n 0) recv_ten recv_ten-bounded message r.0 r.1)
        (read zeros true recv_ten begun.0 begun.1)
read-messages_example =
    read-messages zeros (λ n. length-replicate n 0) recv_ten recv_ten-bounded begun-Reached
      rest_is_modest

abbrev request : ℕ → List ℕ → IovReq
request buffer bytes = record {
  m_buffer = buffer;
  m_iov = bytes;
  m_complete = true;
  m_task = some buffer;
}

abbrev two_requests : WriteQueue
two_requests = record {
  m_last_iov = none;
  m_iov_list = request 100 (1 ∷ 2 ∷ []) ∷ request 200 (3 ∷ 4 ∷ 5 ∷ []) ∷ [];
  freed = [];
  told = [];
}

-- Three of the five bytes are taken: the first buffer is freed, the second is cut.
three_bytes :
    write (try_again ∷ sent 3 ∷ []) two_requests
    ≡ some (
      record {
        m_last_iov = some 200;
        m_iov_list = record (request 200 (4 ∷ 5 ∷ [])) { m_complete = false } ∷ [];
        freed = 100 ∷ [];
        told = (some 100, true) ∷ [];
      },
      some 3,
    )
unfolding write drain release
three_bytes = refl

write-IsSent_example :
    (d : WriteQueue) × (write (try_again ∷ sent 3 ∷ []) two_requests ≡ some (d, some 3))
    × IsSent 3 two_requests.m_iov_list two_requests d
write-IsSent_example = write-IsSent 1 3 [] two_requests ((refl, tt), refl) (omega arith)
