-- ===== src/BufferManager/Messages.antt =====
-- common/BufferManager.cpp: the messages that are handed on are those of the bytes that the
-- socket has given.
use terry.Base.{
  ◌*◌, ◌%◌, ◌^◌, ◌-◌, ◌≤◌, ◌≢◌, Bool-cases, true, false, leb, if◌then◌else◌, get_or, get_or-take,
  Run, ok, Returns, returns, Returns-map, u32_mod, ℕ, zero, suc, ◌+◌, ◌<◌, ◌≡◌, refl, sym, ap, ◌∙◌,
  ◌⊎◌, inl, inr, List, [], ◌∷◌, ◌++◌, map, arith, length, take, drop, length-append, length-take,
}
use mathlib.Core.List.{append_assoc}
use mathlib.Core.Path.{ap₂, subst}
use terry.Base.{All}
use terry.BufferManager.{
  header_size, length_of, patched, prepare, constructed, read, Receipt, ReadResult, BufferManager,
}
use terry.BufferManager.Frame.{wire_of, wires, IsFrame, take_front}
use terry.BufferManager.Head.{IsReading, bytes_of, constructed-IsReading}
use terry.BufferManager.Read.{Yields, done, call, Yields-append, IsFed, read-IsFed}

-- A message with its body only, without the byte after it.
abbrev pub body_of : List ℕ × List ℕ → List ℕ × List ℕ
body_of (header, buffer) = (header, take (length_of header) buffer)

-- Less than a message.
abbrev IsPartial : List ℕ → Type 0
IsPartial p = (length p < header_size) ⊎ (length p < header_size + length_of (take header_size p))

drop_front : (n : ℕ) (xs ys : List ℕ) → n ≡ length xs → drop n (xs ++ ys) ≡ ys
drop_front zero [] ys e = refl
drop_front zero (x ∷ xs) ys e = absurd (omega arith)
drop_front (suc n) [] ys e = absurd (omega arith)
drop_front (suc n) (x ∷ xs) ys e = drop_front n xs ys (omega arith)

-- The first message of a stream, and what follows it.
first_of : List ℕ → List ℕ × List ℕ
first_of w = (take header_size w, take (length_of (take header_size w)) (drop header_size w))

rest_of : List ℕ → List ℕ
rest_of w = drop (length_of (take header_size w)) (drop header_size w)

module _ (header buffer rest : List ℕ) (frame : IsFrame (header, buffer)) where
  abbrev stream : List ℕ
  stream = wire_of (header, buffer) ++ rest

  abbrev n : ℕ
  n = length_of header

  split_off : stream ≡ header ++ (take n buffer ++ rest)
  split_off = append_assoc header (take n buffer) rest

  head_of_stream : take header_size stream ≡ header
  head_of_stream =
      ap (take header_size) split_off
      ∙ take_front header_size header (take n buffer ++ rest) (sym frame.0)

  tail_of_stream : drop header_size stream ≡ take n buffer ++ rest
  tail_of_stream =
      ap (drop header_size) split_off
      ∙ drop_front header_size header (take n buffer ++ rest) (sym frame.0)

  body_size : n ≡ length (take n buffer)
  body_size = omega (arith, length-take n buffer, frame.1)

  first_of-wire : first_of stream ≡ body_of (header, buffer)
  unfolding first_of
  first_of-wire =
      ap₂ (λ h b. (h, b)) head_of_stream
        (ap₂ (λ h t. take (length_of h) t) head_of_stream tail_of_stream
          ∙ take_front n (take n buffer) rest body_size)

  rest_of-wire : rest_of stream ≡ rest
  unfolding rest_of
  rest_of-wire =
      ap₂ (λ h t. drop (length_of h) t) head_of_stream tail_of_stream
      ∙ drop_front n (take n buffer) rest body_size

  not-IsPartial : ¬ IsPartial stream
  not-IsPartial p =
      let size : length stream ≡ header_size + n + length rest = omega (
        arith,
        length-append (header ++ take n buffer) rest,
        length-append header (take n buffer),
        body_size,
        frame.0,
      ) in
      elim p [
        | inl short ↦ omega (arith, size)
        | inr short ↦ omega (arith, size, ap length_of head_of_stream)
      ]

-- The length that a stream announces in its bytes 4 to 7, the lowest first.
abbrev pub announced : List ℕ → ℕ
announced w =
    (get_or w 4 0 + 256 * (get_or w 5 0 + 256 * (get_or w 6 0 + 256 * get_or w 7 0))) % 2 ^ 32

announced_lem : (w : List ℕ) → length_of (take header_size w) ≡ announced w
unfolding length_of
announced_lem w =
    rw
      (
        get_or-take 20 w 4 0 (omega arith),
        get_or-take 20 w 5 0 (omega arith),
        get_or-take 20 w 6 0 (omega arith),
        get_or-take 20 w 7 0 (omega arith),
      )
      (omega arith)

-- The messages of a stream: a header of 20 bytes, and as many bytes as it announces, as long as they
-- are there.
abbrev pub messages : ℕ → List ℕ → List (List ℕ × List ℕ)
messages zero w = []
messages (suc fuel) w =
    let rest = messages fuel (drop (announced w) (drop 20 w)) in
    if leb (20 + announced w) (length w)
    then (take 20 w, take (announced w) (drop 20 w)) ∷ rest
    else []

partial_test : (w : List ℕ) → IsPartial w → leb (20 + announced w) (length w) ≡ false
partial_test w p = elim p [
  | inl short ↦ ground arith
  | inr short ↦ let e = announced_lem w in ground (arith, e)
]

whole_test : (w : List ℕ) → ¬ IsPartial w → leb (20 + announced w) (length w) ≡ true
whole_test w whole = elim (Bool-cases (leb (20 + announced w) (length w))) [
  | inl e ↦ e
  | inr e ↦ absurd (whole (inr (let same = announced_lem w in ground (arith, same))))
]

messages_from :
    (fuel : ℕ) (w : List ℕ)
    → ¬ IsPartial w
    → messages (suc fuel) w ≡ first_of w ∷ messages fuel (rest_of w)
unfolding first_of rest_of
messages_from fuel w whole = rw (whole_test w whole, announced_lem w) refl

messages-wires :
    (fuel : ℕ) (ms : List (List ℕ × List ℕ)) (p : List ℕ)
    → All IsFrame ms
    → IsPartial p
    → length (wires ms ++ p) ≤ fuel
    → messages fuel (wires ms ++ p) ≡ map body_of ms
messages-wires zero [] p f partial room = refl
messages-wires (suc fuel) [] p f partial room = rw (partial_test p partial) refl
messages-wires zero ((h, b) ∷ ms) p (frame, f) partial room =
    let rest = wires ms ++ p in
    let same = append_assoc (wire_of (h, b)) (wires ms) p in
    let size : length (wire_of (h, b) ++ rest) ≤ 0 = subst (λ w. length w ≤ 0) same room in
    absurd (not-IsPartial h b rest frame (inl (omega (arith, size))))
messages-wires (suc fuel) ((h, b) ∷ ms) p (frame, f) partial room =
    let rest = wires ms ++ p in
    let same = append_assoc (wire_of (h, b)) (wires ms) p in
    let size : length (wire_of (h, b) ++ rest) ≤ suc fuel =
      subst (λ w. length w ≤ suc fuel) same room in
    let left : length rest ≤ fuel = omega (
      arith,
      size,
      length-append (wire_of (h, b)) rest,
      length-append h (take (length_of h) b),
      frame.0,
    ) in
    ap (messages (suc fuel)) same
    ∙ messages_from fuel (wire_of (h, b) ++ rest) (not-IsPartial h b rest frame)
    ∙ ap₂ ◌∷◌ (first_of-wire h b rest frame)
        (ap (messages fuel) (rest_of-wire h b rest frame) ∙ messages-wires fuel ms p f partial left)

-- What a manager holds of the next message.
held :
    (m : BufferManager) → IsReading m → (p : List ℕ) × (m.given ≡ wires m.handed ++ p) × IsPartial p
held m k = elim k.place [
  | inl h ↦ (
    take m.m_offset m.m_msg_header,
    h.bytes,
    inl (omega (arith, h.short, length-take m.m_offset m.m_msg_header, k.header)),
  )
  | inr b ↦ (
    m.m_msg_header ++ take m.m_offset b.buffer,
    b.bytes ∙ append_assoc (wires m.handed) m.m_msg_header (take m.m_offset b.buffer),
    inr (
        omega (
          arith,
          length-append m.m_msg_header (take m.m_offset b.buffer),
          length-take m.m_offset b.buffer,
          b.room,
          b.short,
          b.announced,
          k.header,
          ap length_of
              (take_front header_size m.m_msg_header (take m.m_offset b.buffer) (sym k.header)),
        )),
  )
]

-- What has been handed on are the messages of what has been given.
abbrev pub HasMessages : BufferManager → Type 0
HasMessages m = map body_of m.handed ≡ messages (length m.given) m.given

IsReading-HasMessages : (m : BufferManager) → IsReading m → HasMessages m
IsReading-HasMessages m k =
    let (p, e, partial) = held m k in
    let room : length (wires m.handed ++ p) ≤ length m.given = omega (arith, ap length e) in
    sym (
      ap (messages (length m.given)) e
      ∙ messages-wires (length m.given) m.handed p k.frames partial room)

module _ (fresh : ℕ → List ℕ) (fresh_size : (n : ℕ) → length (fresh n) ≡ n) {S : Type 0}
    (recv : ℕ → S → Receipt × S)
    (bounded : (len : ℕ) (s : S) → length (bytes_of (recv len s).0) ≤ len) where
  -- A header that the next read completes does not announce a body of 2^32 - 1 bytes.
  abbrev pub IsModest : S → BufferManager → Type 0
  IsModest s m =
      (prepare m).m_read_head ≡ true
      → length_of (
          patched (prepare m).m_msg_header (prepare m).m_offset
            (bytes_of (recv (header_size - (prepare m).m_offset) s).0))
        ≢ u32_mod - 1

  -- The states that calls of read lead to, one after another, from a new manager and the socket `s`.
  pub data Reached (s₀ : S) : S → BufferManager → Type 0 where
    start : (header : List ℕ) → length header ≡ header_size → Reached s₀ s₀ (constructed header)
    next :
        {s s' : S} {m m' : BufferManager} {result : ReadResult}
        → Reached s₀ s m
        → IsModest s m
        → read fresh true recv s m ≡ ok (s', m', result)
        → Reached s₀ s' m'

  result_of :
      {P : S × BufferManager × ReadResult → Type 0} {run : Run (S × BufferManager × ReadResult)}
      {r : S × BufferManager × ReadResult}
      → Returns P run
      → run ≡ ok r
      → P r
  result_of {P} {r} (returns {value = v} good) e = let same : v ≡ r = cc in rw (← same) good

  -- Between `s₀` and `s` the socket has yielded what the manager counts as given, and the messages
  -- handed on are those of these bytes.
  pub record HasRead (s₀ s : S) (m : BufferManager) : Type 0 where
    pub stream : Yields fresh fresh_size recv bounded s₀ m.given s
    pub messages : HasMessages m

  record IsUnderWay (s₀ s : S) (m : BufferManager) : Type 0 where
    reading : IsReading m
    stream : Yields fresh fresh_size recv bounded s₀ m.given s

  fed-IsUnderWay :
      {s₀ s : S} {m : BufferManager} {r : S × BufferManager × ReadResult}
      → IsUnderWay s₀ s m
      → IsFed fresh fresh_size recv bounded s m r
      → IsUnderWay s₀ r.0 r.1
  fed-IsUnderWay {s₀} {r} u f = record {
    reading = f.reading;
    stream =
        subst (λ g. Yields fresh fresh_size recv bounded s₀ g r.0) (sym f.given)
          (Yields-append fresh fresh_size recv bounded u.stream (call f.len f.some_room f.more));
  }

  Reached-IsUnderWay : {s₀ s : S} {m : BufferManager} → Reached s₀ s m → IsUnderWay s₀ s m
  unfolding constructed
  Reached-IsUnderWay (start header size) = record {
    reading = constructed-IsReading header size;
    stream = done;
  }
  Reached-IsUnderWay (next {s} {m} before modest e) =
      let u = Reached-IsUnderWay before in
      fed-IsUnderWay u (result_of (read-IsFed fresh fresh_size recv bounded s m u.reading modest) e)

  under_way-HasRead : {s₀ s : S} {m : BufferManager} → IsUnderWay s₀ s m → HasRead s₀ s m
  under_way-HasRead {m} u = record {
    stream = u.stream;
    messages = IsReading-HasMessages m u.reading;
  }

  -- Let `read` on the socket yield at most as many bytes as it is asked for. After any calls of
  -- BufferManager::read on a new manager with an agent, however the bytes come, and unless a header
  -- announces a body of 2^32 - 1 bytes: the messages handed on are those that a reader with all the
  -- bytes at once finds in what the socket has yielded. The next call asks the socket for a byte or
  -- more, returns, and leaves that so.
  pub read-messages :
      {s₀ s : S} {m : BufferManager}
      → Reached s₀ s m
      → IsModest s m
      → HasRead s₀ s m
        × Returns
            (λ (r : S × BufferManager × ReadResult).
              IsFed fresh fresh_size recv bounded s m r × HasRead s₀ r.0 r.1)
            (read fresh true recv s m)
  read-messages {s} {m} before modest =
      let u = Reached-IsUnderWay before in
      (
        under_way-HasRead u,
        Returns-map (read-IsFed fresh fresh_size recv bounded s m u.reading modest)
            (λ r f. (f, under_way-HasRead (fed-IsUnderWay u f))),
      )
