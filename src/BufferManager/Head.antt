-- ===== src/BufferManager/Head.antt =====
-- common/BufferManager.cpp: the part of read that reads the header.
use terry.Base.{
  ℕ, ◌+◌, ◌-◌, ◌%◌, ◌≤◌, ◌<◌, ◌≡◌, ◌≢◌, refl, sym, ap, ◌∙◌, ◌⊎◌, inl, inr, true, false, some, List,
  [], ◌∷◌, ◌++◌, arith, ltb, leb, ◌==◌, Option, length, take, replicate, ok, Returns, returns,
  Returns-if, u32_mod,
}
use mathlib.Core.List.{append-nil, append_assoc}
use terry.Base.{All, take-all}
use terry.BufferManager.{
  header_size, Receipt, received, would_block, read_error, ReadResult, BufferManager, constructed,
  length_of, patched, store_bytes, prepare, hand, finish_head, read_head,
}
use terry.BufferManager.Frame.{
  wires, IsFrame, wires-snoc, All-snoc, length-patched, take-patched, if_both, wire_of-empty,
  length_of-bounded, nil_of,
}

-- The header is being read.
pub record IsAtHead (m : BufferManager) : Type 0 where
  pub head : m.m_read_head ≡ true
  pub short : m.m_offset < header_size
  pub start : m.m_init ≡ true → m.m_offset ≡ 0
  pub bytes : m.given ≡ wires m.handed ++ take m.m_offset m.m_msg_header

-- The body is being read into a buffer that has a byte more.
pub record IsAtBody (m : BufferManager) : Type 0 where
  pub body : m.m_read_head ≡ false
  pub going : m.m_init ≡ false
  pub short : m.m_offset < m.m_len
  pub announced : m.m_len ≡ length_of m.m_msg_header
  pub buffer : List ℕ
  pub memory : m.m_io_buf ≡ some buffer
  pub room : length buffer ≡ m.m_len + 1
  pub bytes : m.given ≡ wires m.handed ++ m.m_msg_header ++ take m.m_offset buffer

-- What the socket has given are the messages that have been handed on, and the bytes that the
-- manager holds of the next one.
pub record IsReading (m : BufferManager) : Type 0 where
  pub header : length m.m_msg_header ≡ header_size
  pub frames : All IsFrame m.handed
  pub place : IsAtHead m ⊎ IsAtBody m

pub constructed-IsReading :
    (header : List ℕ) → length header ≡ header_size → IsReading (constructed header)
unfolding constructed
constructed-IsReading header e = record {
  header = e;
  frames = tt;
  place = inl (record { head = refl; short = omega arith; start = λ _. refl; bytes = refl });
}

-- After the block under `if(m_bInit)`, a read is under way.
pub prepare-IsReading :
    (m : BufferManager) → IsReading m → IsReading (prepare m) × ((prepare m).m_init ≡ false)
unfolding prepare
prepare-IsReading m k =
    if_both (λ p. IsReading p × (p.m_init ≡ false)) m.m_init
      (λ fresh. (
        record {
          header = refl;
          frames = k.frames;
          place = elim k.place [
            | inr b ↦ absurd (ground (arith, b.going))
            | inl h ↦ inl (record {
              head = h.head;
              short = h.short;
              start = λ _. h.start fresh;
              bytes =
                  h.bytes
                  ∙ ap (λ n. wires m.handed ++ take n m.m_msg_header) (h.start fresh)
                  ∙ ap (λ n. wires m.handed ++ take n (replicate 20 0)) (sym (h.start fresh));
            })
          ];
        },
        refl,
      ))
      (λ going. (k, going))

pub store_bytes-ok :
    (buffer : List ℕ) (offset : ℕ) (bytes : List ℕ)
    → offset + length bytes ≤ length buffer
    → store_bytes buffer offset bytes ≡ ok (patched buffer offset bytes)
unfolding store_bytes
store_bytes-ok buffer offset bytes h =
    let fits : leb (offset + length bytes) (length buffer) ≡ true = ground arith in rw fits refl

-- The bytes of a receipt.
abbrev pub bytes_of : Receipt → List ℕ
bytes_of (received bytes) = bytes
bytes_of would_block = []
bytes_of read_error = []

pub unchanged : (m : BufferManager) (more : List ℕ) → length more ≡ 0 → m.given ≡ m.given ++ more
unchanged m more e = sym (append-nil m.given) ∙ ap (◌++◌ m.given) (sym (nil_of more e))

module _ (fresh : ℕ → List ℕ) (fresh_size : (n : ℕ) → length (fresh n) ≡ n) where
  -- A header is complete.
  finish_head-IsReading :
      (m : BufferManager)
      → length m.m_msg_header ≡ header_size
      → All IsFrame m.handed
      → m.m_offset ≡ 0
      → m.m_init ≡ false
      → m.m_read_head ≡ true
      → m.m_len ≡ length_of m.m_msg_header
      → m.m_len < u32_mod - 1
      → m.given ≡ wires m.handed ++ m.m_msg_header
      → IsReading (finish_head fresh true m).0
  unfolding finish_head hand
  finish_head-IsReading m size frames none_yet going at_head announced modest bytes =
      if_both (λ (q : BufferManager × Option ReadResult). IsReading q.0) (ltb 0 m.m_len)
        (λ more. record {
          header = size;
          frames = frames;
          place = inr (record {
            body = refl;
            going = going;
            short = ground arith;
            announced = announced;
            buffer = fresh ((m.m_len + 1) % u32_mod);
            memory = refl;
            room = omega (arith, fresh_size ((m.m_len + 1) % u32_mod));
            bytes =
                bytes
                ∙ sym (append-nil (wires m.handed ++ m.m_msg_header))
                ∙ ap
                    (λ n.
                      wires m.handed ++ m.m_msg_header ++ take n (fresh ((m.m_len + 1) % u32_mod)))
                    (sym none_yet);
          });
        })
        (λ no_body.
          let empty : length_of m.m_msg_header ≡ 0 = ground arith in
          record {
            header = size;
            frames = All-snoc IsFrame m.handed (m.m_msg_header, []) frames (size, omega arith);
            place = inl (record {
              head = refl;
              short = omega arith;
              start = λ _. none_yet;
              bytes =
                  bytes
                  ∙ ap (◌++◌ (wires m.handed)) (sym (wire_of-empty m.m_msg_header [] empty))
                  ∙ sym (wires-snoc m.handed (m.m_msg_header, []))
                  ∙ sym (append-nil (wires (m.handed ++ (m.m_msg_header, []) ∷ [])))
                  ∙ ap (λ n. wires (m.handed ++ (m.m_msg_header, []) ∷ []) ++ take n m.m_msg_header)
                      (sym none_yet);
            });
          })

  finish_head-given : (m : BufferManager) → (finish_head fresh true m).0.given ≡ m.given
  unfolding finish_head hand
  finish_head-given m =
      if_both (λ (q : BufferManager × Option ReadResult). q.0.given ≡ m.given) (ltb 0 m.m_len)
        (λ more. refl) (λ no_body. refl)

  -- The bytes of the header that have come.
  head_bytes :
      (m : BufferManager) (more : List ℕ)
      → length m.m_msg_header ≡ header_size
      → IsAtHead m
      → length more ≤ header_size - m.m_offset
      → m.given ++ more
        ≡ wires m.handed ++ take (m.m_offset + length more) (patched m.m_msg_header m.m_offset more)
  head_bytes m more size h room =
      ap (λ g. g ++ more) h.bytes
      ∙ append_assoc (wires m.handed) (take m.m_offset m.m_msg_header) more
      ∙ ap (◌++◌ (wires m.handed))
          (sym (take-patched m.m_msg_header m.m_offset more (omega (arith, h.short))))

  pub read_head-IsReading :
      (m : BufferManager) (receipt : Receipt)
      → IsReading m
      → IsAtHead m
      → m.m_init ≡ false
      → length (bytes_of receipt) ≤ header_size - m.m_offset
      → length_of (patched m.m_msg_header m.m_offset (bytes_of receipt)) ≢ u32_mod - 1
      → Returns
          (λ (q : BufferManager × Option ReadResult).
            IsReading q.0 × (q.0.given ≡ m.given ++ bytes_of receipt))
          (read_head fresh true receipt m)
  unfolding read_head
  read_head-IsReading m would_block k h going room modest = returns (k, sym (append-nil m.given))
  read_head-IsReading m read_error k h going room modest = returns (k, sym (append-nil m.given))
  read_head-IsReading m (received more) k h going room modest =
      let size = length-patched m.m_msg_header m.m_offset more (omega (arith, h.short, k.header)) in
      Returns-if (length more == 0) (λ closed. returns (k, unchanged m more (ground arith)))
        λ some_bytes.
          rw (store_bytes-ok m.m_msg_header m.m_offset more (omega (arith, h.short, k.header))) (
            Returns-if (m.m_offset + length more == header_size)
              (λ complete.
                let all : m.m_offset + length more ≡ header_size = ground arith in
                let header = patched m.m_msg_header m.m_offset more in
                returns (
                  finish_head-IsReading
                      (record m {
                        m_msg_header = header;
                        m_offset = 0;
                        m_len = length_of header;
                        given = m.given ++ more;
                      })
                      (size ∙ k.header) k.frames refl going h.head refl
                      (omega (arith, length_of-bounded header, modest))
                      (head_bytes m more k.header h room
                        ∙ ap (λ n. wires m.handed ++ take n header) all
                        ∙ ap (◌++◌ (wires m.handed))
                            (take-all header_size header (omega (arith, size, k.header)))),
                  finish_head-given (record m {
                    m_msg_header = header;
                    m_offset = 0;
                    m_len = length_of header;
                    given = m.given ++ more;
                  }),
                ))
              (λ incomplete. returns (
                record {
                  header = size ∙ k.header;
                  frames = k.frames;
                  place = inl (record {
                    head = h.head;
                    short = ground arith;
                    start = λ f. absurd (ground (arith, f, going));
                    bytes = head_bytes m more k.header h room;
                  });
                },
                refl,
              )))
