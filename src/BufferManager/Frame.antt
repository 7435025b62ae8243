-- ===== src/BufferManager/Frame.antt =====
-- common/BufferManager.cpp: messages as bytes, and the bytes of a buffer that is being filled.
use terry.Base.{
  ℕ, zero, suc, ◌+◌, ◌≤◌, ◌<◌, ◌≡◌, refl, sym, ap, ◌∙◌, Bool, true, false, List, [], ◌∷◌, ◌++◌,
  arith, if◌then◌else◌, length, set, take, drop, length-append, length-take, length-drop, u32_mod,
}
use mathlib.Core.List.{append-nil, append_assoc}
use terry.Base.{All}
use terry.BufferManager.{header_size, patched, length_of}

-- The bytes of a message, from its header and its buffer.
abbrev pub wire_of : List ℕ × List ℕ → List ℕ
wire_of (header, buffer) = header ++ take (length_of header) buffer

-- The bytes of messages one after another.
abbrev pub wires : List (List ℕ × List ℕ) → List ℕ
wires [] = []
wires (m ∷ ms) = wire_of m ++ wires ms

-- The header has its size, and the buffer as many bytes as the header says.
abbrev pub IsFrame : List ℕ × List ℕ → Type 0
IsFrame (header, buffer) = (length header ≡ header_size) × (length_of header ≤ length buffer)

pub wires-snoc :
    (ms : List (List ℕ × List ℕ)) (m : List ℕ × List ℕ)
    → wires (ms ++ m ∷ []) ≡ wires ms ++ wire_of m
wires-snoc [] m = append-nil (wire_of m)
wires-snoc (x ∷ ms) m =
    ap (◌++◌ (wire_of x)) (wires-snoc ms m) ∙ sym (append_assoc (wire_of x) (wires ms) (wire_of m))

pub All-snoc :
    {A : Type 0} (P : A → Type 0) (ms : List A) (m : A) → All P ms → P m → All P (ms ++ m ∷ [])
All-snoc P [] m all p = (p, tt)
All-snoc P (x ∷ ms) m (q, all) p = (q, All-snoc P ms m all p)

pub take_front : (n : ℕ) (xs ys : List ℕ) → n ≡ length xs → take n (xs ++ ys) ≡ xs
take_front zero [] ys e = refl
take_front zero (x ∷ xs) ys e = absurd (omega arith)
take_front (suc n) [] ys e = absurd (omega arith)
take_front (suc n) (x ∷ xs) ys e = ap (◌∷◌ x) (take_front n xs ys (omega arith))

module _ (buffer : List ℕ) (offset : ℕ) (bytes : List ℕ)
    (fits : offset + length bytes ≤ length buffer) where
  pub length-patched : length (patched buffer offset bytes) ≡ length buffer
  length-patched = omega (
    arith,
    length-append (take offset buffer ++ bytes) (drop (offset + length bytes) buffer),
    length-append (take offset buffer) bytes,
    length-take offset buffer,
    length-drop (offset + length bytes) buffer,
  )

  -- The bytes that the buffer holds up to the new offset.
  pub take-patched :
      take (offset + length bytes) (patched buffer offset bytes) ≡ take offset buffer ++ bytes
  take-patched =
      take_front (offset + length bytes) (take offset buffer ++ bytes)
        (drop (offset + length bytes) buffer)
        (omega (arith, length-append (take offset buffer) bytes, length-take offset buffer))

-- A byte that is set at the end of what is taken.
pub take-set : (n : ℕ) (xs : List ℕ) (v : ℕ) → take n (set xs n v) ≡ take n xs
take-set zero xs v = refl
take-set (suc n) [] v = refl
take-set (suc n) (x ∷ xs) v = ap (◌∷◌ x) (take-set n xs v)

-- What the test is, if both answers are good.
pub if_both :
    {A : Type 0} (P : A → Type 0) (test : Bool) {x y : A}
    → (test ≡ true → P x)
    → (test ≡ false → P y)
    → P (if test then x else y)
if_both P true on_true on_false = on_true refl
if_both P false on_true on_false = on_false refl

-- A message without a body is its header.
pub wire_of-empty :
    (header buffer : List ℕ) → length_of header ≡ 0 → wire_of (header, buffer) ≡ header
wire_of-empty header buffer e = rw e (append-nil header)

pub length_of-bounded : (header : List ℕ) → length_of header < u32_mod
unfolding length_of
length_of-bounded header = omega arith

pub nil_of : (xs : List ℕ) → length xs ≡ 0 → xs ≡ []
nil_of [] e = refl
nil_of (x ∷ xs) e = absurd (omega arith)
