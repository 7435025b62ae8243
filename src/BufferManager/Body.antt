-- ===== src/BufferManager/Body.antt =====
-- common/BufferManager.cpp: the part of read that reads the body.
use terry.Base.{
  ℕ, ◌+◌, ◌-◌, ◌≤◌, ◌≡◌, refl, sym, ap, ◌∙◌, inl, inr, true, none, List, [], ◌∷◌, ◌++◌, arith, ◌==◌,
  length, set, take, length-set, store-ok, Returns, returns, Returns-if,
}
use mathlib.Core.List.{append-nil, append_assoc}
use terry.Base.{All}
use terry.BufferManager.{
  header_size, Receipt, received, would_block, read_error, ReadResult, BufferManager, length_of,
  patched, hand, read_body,
}
use terry.BufferManager.Frame.{
  wires, IsFrame, wires-snoc, All-snoc, length-patched, take-patched, take-set,
}
use terry.BufferManager.Head.{IsAtBody, IsReading, bytes_of, store_bytes-ok, unchanged}

-- The bytes of the message, with those of the body that have come.
body_bytes :
    (m : BufferManager) (more : List ℕ) (b : IsAtBody m)
    → length more ≤ m.m_len - m.m_offset
    → m.given ++ more
      ≡ wires m.handed
        ++ m.m_msg_header
        ++ take (m.m_offset + length more) (patched b.buffer m.m_offset more)
body_bytes m more b room =
    ap (λ g. g ++ more) b.bytes
    ∙ append_assoc (wires m.handed ++ m.m_msg_header) (take m.m_offset b.buffer) more
    ∙ ap (◌++◌ (wires m.handed ++ m.m_msg_header))
        (sym (take-patched b.buffer m.m_offset more (omega (arith, b.short, b.room))))

-- The body is complete: its message is handed on.
ended-IsReading :
    (m : BufferManager) (ended : List ℕ)
    → length m.m_msg_header ≡ header_size
    → All IsFrame m.handed
    → length_of m.m_msg_header ≤ length ended
    → m.m_read_head ≡ true
    → m.m_offset ≡ 0
    → m.given ≡ wires m.handed ++ m.m_msg_header ++ take (length_of m.m_msg_header) ended
    → IsReading (record (hand true ended m) { m_io_buf = none })
unfolding hand
ended-IsReading m ended size frames whole at_head none_yet bytes = record {
  header = size;
  frames = All-snoc IsFrame m.handed (m.m_msg_header, ended) frames (size, whole);
  place = inl (record {
    head = at_head;
    short = omega arith;
    start = λ _. none_yet;
    bytes =
        bytes
        ∙ append_assoc (wires m.handed) m.m_msg_header (take (length_of m.m_msg_header) ended)
        ∙ sym (wires-snoc m.handed (m.m_msg_header, ended))
        ∙ sym (append-nil (wires (m.handed ++ (m.m_msg_header, ended) ∷ [])))
        ∙ ap (λ n. wires (m.handed ++ (m.m_msg_header, ended) ∷ []) ++ take n m.m_msg_header)
            (sym none_yet);
  });
}

pub read_body-IsReading :
    (fresh : ℕ → List ℕ) (m : BufferManager) (receipt : Receipt)
    → IsReading m
    → IsAtBody m
    → length (bytes_of receipt) ≤ m.m_len - m.m_offset
    → Returns
        (λ (q : BufferManager × ReadResult).
          IsReading q.0 × (q.0.given ≡ m.given ++ bytes_of receipt))
        (read_body fresh true receipt m)
unfolding read_body hand
read_body-IsReading fresh m would_block k b room = returns (k, sym (append-nil m.given))
read_body-IsReading fresh m read_error k b room = returns (k, sym (append-nil m.given))
read_body-IsReading fresh m (received more) k b room =
    let fits : m.m_offset + length more ≤ length b.buffer = omega (arith, b.short, b.room) in
    let size = length-patched b.buffer m.m_offset more fits in
    let buffer = patched b.buffer m.m_offset more in
    Returns-if (length more == 0) (λ closed. returns (k, unchanged m more (ground arith)))
      λ some_bytes.
        rw (b.memory, store_bytes-ok b.buffer m.m_offset more fits)
          (Returns-if (m.m_offset + length more == m.m_len)
            (λ complete.
              let all : m.m_offset + length more ≡ m.m_len = ground arith in
              let ended = set buffer m.m_len 0 in
              let whole : length ended ≡ m.m_len + 1 =
                omega (arith, size, b.room, length-set buffer m.m_len 0) in
              rw (store-ok buffer m.m_len 0 (omega (arith, size, b.room))) (
                returns (
                  ended-IsReading
                      (record m {
                        m_offset = 0;
                        m_len = 0;
                        m_read_head = true;
                        given = m.given ++ more;
                      })
                      ended k.header k.frames (omega (arith, whole, b.announced)) refl refl
                      (body_bytes m more b room
                        ∙ ap (λ n. wires m.handed ++ m.m_msg_header ++ take n buffer) all
                        ∙ ap (◌++◌ (wires m.handed ++ m.m_msg_header))
                            (sym (take-set m.m_len buffer 0))
                        ∙ ap (λ n. wires m.handed ++ m.m_msg_header ++ take n ended) b.announced),
                  refl,
                )))
            (λ incomplete. returns (
              record {
                header = k.header;
                frames = k.frames;
                place = inr (record {
                  body = b.body;
                  going = b.going;
                  short = ground (arith, b.short);
                  announced = b.announced;
                  buffer = buffer;
                  memory = refl;
                  room = omega (arith, size, b.room);
                  bytes = body_bytes m more b room;
                });
              },
              refl,
            )))
