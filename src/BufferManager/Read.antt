-- ===== src/BufferManager/Read.antt =====
-- common/BufferManager.cpp: read, from any state and with whatever the socket yields.
use mathlib.Core.List.{append-nil, append_assoc}
use mathlib.Core.Path.{subst}
use terry.Base.{
  ap, sym, ◌∙◌, [], ◌++◌, Returns-map, ℕ, ◌+◌, ◌-◌, ◌%◌, ◌≤◌, ◌<◌, ◌≡◌, ◌≢◌, refl, inl, inr, true,
  false, some, none, List, arith, ltb, leb, ◌==◌, if◌then◌else◌, Option, length, ok, fault, Returns,
  returns, Returns-bind, Returns-if, sub32, u32_mod,
}
use terry.BufferManager.{
  header_size, Receipt, received, ReadResult, remaining, BufferManager, length_of, patched,
  store_bytes, prepare, finish_head, read_body, read_rest, read,
}
use terry.BufferManager.Head.{IsAtHead, IsAtBody, IsReading, bytes_of}
use terry.BufferManager.Head.{prepare-IsReading, read_head-IsReading}
use terry.BufferManager.Frame.{if_both}
use terry.BufferManager.Body.{read_body-IsReading}

module _ (fresh : ℕ → List ℕ) (fresh_size : (n : ℕ) → length (fresh n) ≡ n) {S : Type 0}
    (recv : ℕ → S → Receipt × S)
    (bounded : (len : ℕ) (s : S) → length (bytes_of (recv len s).0) ≤ len) where
  -- The header that a read completes, if it does, with what the socket yields.
  abbrev pub next_header : S → BufferManager → List ℕ
  next_header s m =
      patched m.m_msg_header m.m_offset (bytes_of (recv (header_size - m.m_offset) s).0)

  at_body : (m : BufferManager) → IsReading m → m.m_read_head ≡ false → IsAtBody m
  at_body m k e = elim k.place [ inl h ↦ absurd (ground (arith, h.head)) | inr b ↦ b ]

  at_head : (m : BufferManager) → IsReading m → m.m_read_head ≡ true → IsAtHead m
  at_head m k e = elim k.place [ inl h ↦ h | inr b ↦ absurd (ground (arith, b.body)) ]

  -- The bytes that calls of `read` on the socket yield, one call after another, each for a byte or
  -- more, and the socket after them.
  pub data Yields : S → List ℕ → S → Type 0 where
    done : {s : S} → Yields s [] s
    call :
        {s s' : S} {rest : List ℕ} (len : ℕ)
        → 0 < len
        → Yields (recv len s).1 rest s'
        → Yields s (bytes_of (recv len s).0 ++ rest) s'

  pub Yields-append :
      {s s' s'' : S} {first second : List ℕ}
      → Yields s first s'
      → Yields s' second s''
      → Yields s (first ++ second) s''
  Yields-append done y = y
  Yields-append {s} {s''} {second} (call {rest} len some_room x) y =
      subst (λ bytes. Yields s bytes s'') (sym (append_assoc (bytes_of (recv len s).0) rest second))
        (call len some_room (Yields-append x y))

  -- A call has asked the socket once or more, and has been given what it yielded.
  pub record IsFed (s : S) (m : BufferManager) (r : S × BufferManager × ReadResult) : Type 0 where
    pub reading : IsReading r.1
    pub len : ℕ
    pub some_room : 0 < len
    pub rest : List ℕ
    pub more : Yields (recv len s).1 rest r.0
    pub given : r.1.given ≡ m.given ++ (bytes_of (recv len s).0 ++ rest)

  read_rest-IsFed :
      (s : S) (m : BufferManager)
      → IsReading m
      → m.m_read_head ≡ false
      → Returns (IsFed s m) (read_rest fresh true recv s m)
  unfolding read_rest
  read_rest-IsFed s m k e =
      let b = at_body m k e in
      Returns-bind
        (read_body-IsReading fresh m (recv (m.m_len - m.m_offset) s).0 k b
          (bounded (m.m_len - m.m_offset) s))
        λ q good. returns (record {
          reading = good.0;
          len = m.m_len - m.m_offset;
          some_room = omega (arith, b.short);
          rest = [];
          more = done;
          given =
              good.1
              ∙ ap (◌++◌ m.given) (sym (append-nil (bytes_of (recv (m.m_len - m.m_offset) s).0)));
        })

  -- The call when the header has been asked for.
  module _ (s : S) (m : BufferManager) (len : ℕ) (some_room : 0 < len) where
    abbrev yielded : List ℕ
    yielded = bytes_of (recv len s).0

    -- The socket is not asked again.
    IsFed-once :
        (q : BufferManager) (result : ReadResult)
        → IsReading q
        → q.given ≡ m.given ++ yielded
        → IsFed s m ((recv len s).1, q, result)
    IsFed-once q result k e = record {
      reading = k;
      len = len;
      some_room = some_room;
      rest = [];
      more = done;
      given = e ∙ ap (◌++◌ m.given) (sym (append-nil yielded));
    }

    after_head :
        (q : BufferManager × Option ReadResult)
        → IsReading q.0
        → q.0.given ≡ m.given ++ yielded
        → Returns (IsFed s m) (elim q.1 [
          | some result ↦ ok ((recv len s).1, q.0, result)
          | none ↦
              if q.0.m_read_head
              then ok ((recv len s).1, q.0, remaining (sub32 q.0.m_len q.0.m_offset))
              else read_rest fresh true recv (recv len s).1 q.0
        ])
    after_head (q, some result) k e = returns (IsFed-once q result k e)
    after_head (q, none) k e =
        Returns-if q.m_read_head
          (λ _. returns (IsFed-once q (remaining (sub32 q.m_len q.m_offset)) k e))
          (λ body. Returns-map (read_rest-IsFed (recv len s).1 q k body) (λ r f. record {
            reading = f.reading;
            len = len;
            some_room = some_room;
            rest = bytes_of (recv f.len (recv len s).1).0 ++ f.rest;
            more = call f.len f.some_room f.more;
            given =
                f.given
                ∙ ap (λ g. g ++ (bytes_of (recv f.len (recv len s).1).0 ++ f.rest)) e
                ∙ append_assoc m.given yielded (bytes_of (recv f.len (recv len s).1).0 ++ f.rest);
          }))

  prepare-given : (m : BufferManager) → (prepare m).given ≡ m.given
  unfolding prepare
  prepare-given m =
      if_both (λ (p : BufferManager). p.given ≡ m.given) m.m_init (λ _. refl) (λ _. refl)

  prepared-IsFed :
      (s : S) (m : BufferManager) (r : S × BufferManager × ReadResult)
      → IsFed s (prepare m) r
      → IsFed s m r
  prepared-IsFed s m r f = record {
    reading = f.reading;
    len = f.len;
    some_room = f.some_room;
    rest = f.rest;
    more = f.more;
    given = f.given ∙ ap (λ g. g ++ (bytes_of (recv f.len s).0 ++ f.rest)) (prepare-given m);
  }

  -- read from a state in which a message is being read, whatever the socket yields.
  pub read-IsFed :
      (s : S) (m : BufferManager)
      → IsReading m
      → ((prepare m).m_read_head ≡ true → length_of (next_header s (prepare m)) ≢ u32_mod - 1)
      → Returns (IsFed s m) (read fresh true recv s m)
  unfolding read
  read-IsFed s m₀ k₀ modest =
      let m = prepare m₀ in
      let (k, going) = prepare-IsReading m₀ k₀ in
      Returns-map
        (Returns-if m.m_read_head
          (λ e.
            let h = at_head m k e in
            Returns-bind
              (read_head-IsReading fresh fresh_size m (recv (header_size - m.m_offset) s).0 k h
                going (bounded (header_size - m.m_offset) s) (modest e))
              λ q good.
                after_head s m (header_size - m.m_offset) (omega (arith, h.short)) q good.0 good.1)
          (λ e. read_rest-IsFed s m k e))
        (λ r f. prepared-IsFed s m₀ r f)

  -- Let `read` on the socket yield at most as many bytes as it is asked for. From a state in which
  -- the bytes given so far are the messages handed on and the part of the next one that is held,
  -- and unless the header that comes announces a body of 2^32 - 1 bytes, BufferManager::read with
  -- an agent returns, whatever the socket yields, in such a state again.
  pub read-IsReading :
      (s : S) (m : BufferManager)
      → IsReading m
      → ((prepare m).m_read_head ≡ true → length_of (next_header s (prepare m)) ≢ u32_mod - 1)
      → Returns (λ (r : S × BufferManager × ReadResult). IsReading r.1) (read fresh true recv s m)
  read-IsReading s m k modest = Returns-map (read-IsFed s m k modest) (λ r f. f.reading)

-- After a header that announces a body of 2^32 - 1 bytes, `new char[m_iLen + 1]` gives no memory at
-- all: the first bytes of the body that come are stored outside of it.
pub read_body-overflows :
    (fresh : ℕ → List ℕ) (m : BufferManager) (more : List ℕ)
    → length (fresh 0) ≡ 0
    → m.m_offset ≡ 0
    → m.m_len ≡ u32_mod - 1
    → 0 < length more
    → read_body fresh true (received more) (finish_head fresh true m).0 ≡ fault
unfolding finish_head read_body store_bytes
read_body-overflows fresh m more no_memory none_yet huge some_bytes =
    let wraps : (m.m_len + 1) % u32_mod ≡ 0 = omega arith in
    let body : ltb 0 m.m_len ≡ true = ground arith in
    let going : (length more == 0) ≡ false = ground arith in
    let outside : leb (m.m_offset + length more) (length (fresh 0)) ≡ false = ground arith in
    rw (body, going, wraps, outside) refl
