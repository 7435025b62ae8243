-- ===== src/BufferManager.antt =====
-- common/BufferManager.cpp: the side of the class BufferManager that reads messages from a socket.
-- A message is a header of HEADER_SIZE bytes, whose field `length` gives the size of the body. The
-- socket is a parameter: `recv len s` is what one `read` of at most `len` bytes yields and the
-- socket after it. `fresh n` is the memory that `new char[n]` gives. The module Queue has the
-- writing side. `given` is no part of the code: it collects the bytes that the socket has given.
pub mod Queue
pub mod Frame
pub mod Head
pub mod Body
pub mod Read
pub mod Messages
mod Tests
use terry.Base.{
  ℕ, zero, suc, ◌+◌, ◌-◌, ◌*◌, ◌%◌, Bool, true, false, Option, some, none, List, [], ◌∷◌, ◌++◌, ltb,
  leb, ◌==◌, if◌then◌else◌, length, get_or, take, drop, replicate, Run, ok, fault, ◌>>=◌, or_fault,
  store, sub32, u32_mod,
}

abbrev pub header_size : ℕ
header_size = 20

-- What a `read` of the socket yields; `received []` is its result 0.
pub data Receipt : Type 0 where
  received : List ℕ → Receipt
  would_block read_error : Receipt

-- SUCCESSFUL, FAILED, or how many bytes are still wanted.
pub data ReadResult : Type 0 where
  successful failed : ReadResult
  remaining : ℕ → ReadResult

pub record BufferManager : Type 0 where
  pub m_msg_header : List ℕ
  pub m_io_buf : Option (List ℕ)
  pub m_offset : ℕ
  pub m_len : ℕ
  pub m_read_head : Bool
  pub m_init : Bool
  -- The requests that the agent's readBack has been called with: a header and a buffer.
  pub handed : List (List ℕ × List ℕ)
  pub given : List ℕ

-- The constructor; `header` is what the memory of the header holds.
unfoldable pub constructed : List ℕ → BufferManager
constructed header = record {
  m_msg_header = header;
  m_io_buf = none;
  m_offset = 0;
  m_len = 0;
  m_read_head = true;
  m_init = true;
  handed = [];
  given = [];
}

-- The field `length` of a header: its bytes 4 to 7, the lowest first.
unfoldable pub length_of : List ℕ → ℕ
length_of header =
    (get_or header 4 0
      + 256 * get_or header 5 0
      + 65536 * get_or header 6 0
      + 16777216 * get_or header 7 0)
    % u32_mod

-- A buffer with bytes put in at an offset.
abbrev pub patched : List ℕ → ℕ → List ℕ → List ℕ
patched buffer offset bytes = take offset buffer ++ bytes ++ drop (offset + length bytes) buffer

-- The bytes that `read` stores, which must lie in the buffer.
unfoldable pub store_bytes : List ℕ → ℕ → List ℕ → Run (List ℕ)
store_bytes buffer offset bytes =
    if leb (offset + length bytes) (length buffer) then ok (patched buffer offset bytes) else fault

-- The block under `if(m_bInit)`.
unfoldable pub prepare : BufferManager → BufferManager
prepare m =
    if m.m_init
    then record m {
      m_io_buf = none;
      m_msg_header = replicate header_size 0;
      m_init = false;
      m_len = header_size;
    }
    else m

-- The call of readBack, if there is an agent.
unfoldable pub hand : Bool → List ℕ → BufferManager → BufferManager
hand agent buffer m =
    if agent
    then record m { handed = m.handed ++ (m.m_msg_header, buffer) ∷ []; m_init = true }
    else m

module _ (fresh : ℕ → List ℕ) (agent : Bool) where
  -- The header is complete. `none` means that read goes on to the body.
  unfoldable pub finish_head : BufferManager → BufferManager × Option ReadResult
  finish_head m =
      if ltb 0 m.m_len
      then (
        record m { m_io_buf = some (fresh ((m.m_len + 1) % u32_mod)); m_read_head = false },
        none,
      )
      else (record (hand agent [] m) { m_read_head = true }, some successful)

  -- The first part of read, with what the socket yields.
  unfoldable pub read_head : Receipt → BufferManager → Run (BufferManager × Option ReadResult)
  read_head would_block m = ok (m, some successful)
  read_head read_error m = ok (m, some failed)
  read_head (received bytes) m = if length bytes == 0 then ok (m, some failed) else do
    header ← store_bytes m.m_msg_header m.m_offset bytes
    let filled = record m { m_msg_header = header; given = m.given ++ bytes }
    let offset = m.m_offset + length bytes
    if offset == header_size
        then ok (finish_head (record filled { m_offset = 0; m_len = length_of header }))
        else ok (record filled { m_offset = offset }, none)

  -- The second part of read.
  unfoldable pub read_body : Receipt → BufferManager → Run (BufferManager × ReadResult)
  read_body would_block m = ok (m, successful)
  read_body read_error m = ok (m, failed)
  read_body (received bytes) m = if length bytes == 0 then ok (m, failed) else do
    buffer ← or_fault m.m_io_buf
    buffer' ← store_bytes buffer m.m_offset bytes
    let offset = m.m_offset + length bytes
    let got = record m { given = m.given ++ bytes }
    let complete : Run (BufferManager × ReadResult) = do
      ended ← store buffer' m.m_len 0
      ok (
        record (hand agent ended (record got { m_offset = 0; m_len = 0; m_read_head = true })) {
          m_io_buf = none;
        },
        successful,
      )
    if offset == m.m_len
        then complete
        else ok (
          record got { m_io_buf = some buffer'; m_offset = offset },
          remaining (sub32 m.m_len offset),
        )

  module _ {S : Type 0} (recv : ℕ → S → Receipt × S) where
    unfoldable pub read_rest : S → BufferManager → Run (S × BufferManager × ReadResult)
    read_rest s m = do
      let (receipt, s') = recv (m.m_len - m.m_offset) s
      (m', result) ← read_body receipt m
      ok (s', m', result)

    unfoldable pub read : S → BufferManager → Run (S × BufferManager × ReadResult)
    read s m₀ =
        let m = prepare m₀ in
        let head : Run (S × BufferManager × ReadResult) = do
          let (receipt, s') = recv (header_size - m.m_offset) s
          (m', stop) ← read_head receipt m
          elim stop [
            | some result ↦ ok (s', m', result)
            | none ↦
                if m'.m_read_head
                then ok (s', m', remaining (sub32 m'.m_len m'.m_offset))
                else read_rest s' m'
          ]
        in if m.m_read_head then head else read_rest s m
