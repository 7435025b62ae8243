-- ===== src/AtomTable/Numbers.antt =====
-- atomString/atom.cpp: atomInt writes a number in decimal, within its buffer.
use terry.Base.{
  ℕ, zero, suc, ◌+◌, ◌-◌, ◌*◌, ◌/◌, ◌%◌, ◌^◌, ◌≡◌, ◌≤◌, ◌<◌, inl, inr, refl, ap, ◌∙◌, true, false,
  List, [], ◌∷◌, ltb, ◌==◌, if◌then◌else◌, arith, length, Returns, returns, Returns-bind,
  Returns-map, Bool-cases, lt→ltb, All, take-all,
}
use terry.Base.Int.{ℤ, pos, negsuc}
use native.Mathlib.Nat.{pow-suc}
use terry.AtomTable.{Atom, AtomTable, digits, number_text, atom_int, max_number_size}
use terry.AtomTable.Atoms.{IsIn, IsInterned}
use terry.AtomTable.Intern.{atom_new-Interned}

-- A decimal number, when `value` has been read before.
abbrev pub decimal : ℕ → List ℕ → ℕ
decimal value [] = value
decimal value (c ∷ text) = decimal (value * 10 + (c - 48)) text

abbrev pub IsDigit : ℕ → Type 0
IsDigit c = (48 ≤ c) × (c ≤ 57)

-- A decimal number with its sign.
abbrev pub parse : List ℕ → ℤ
parse [] = pos 0
parse (c ∷ text) = if c == 45 then negsuc (decimal 0 text - 1) else pos (decimal 0 (c ∷ text))

record Written (value room : ℕ) (text result : List ℕ) : Type 0 where
  same_number : decimal 0 result ≡ decimal value text
  bounded : length result ≤ length text + room
  all_digits : All IsDigit text → All IsDigit result
  not_empty : 0 < value + length text → 0 < length result

digits-Written :
    (room value : ℕ) (text : List ℕ)
    → value < 10 ^ room
    → length text + room ≤ max_number_size
    → Returns (Written value room text) (digits (suc room) value text)
unfolding digits
digits-Written zero value text small fits =
    let zero_value : value ≡ 0 = omega arith in
    rw (zero_value) (
      returns (record {
        same_number = refl;
        bounded = omega arith;
        all_digits = λ h. h;
        not_empty = λ h. omega arith;
      }))
digits-Written (suc room) value text small fits = elim (Bool-cases (value == 0)) [
  | inl done ↦
      let nothing : 0 ≡ value = ground arith in
      rw done (
        returns (record {
          same_number = ap (λ v. decimal v text) nothing;
          bounded = omega arith;
          all_digits = λ h. h;
          not_empty = λ h. omega (arith, h, nothing);
        }))
  | inr more ↦
      let free : ltb (length text) max_number_size ≡ true = ground arith in
      let digit = value % 10 + 48 in
      rw (more, free)
        (Returns-map
          (digits-Written room (value / 10) (digit ∷ text) (omega (arith, pow-suc 10 room))
            (omega (arith, fits)))
          (λ result w. record {
            same_number = w.same_number ∙ ap (λ v. decimal v text) (omega arith);
            bounded = omega (arith, w.bounded);
            all_digits = λ h. w.all_digits ((omega arith, omega arith), h);
            not_empty = λ h. w.not_empty (omega arith);
          }))
]

-- A text that starts with a digit has no sign.
parse_digits :
    (text : List ℕ) → All IsDigit text → 0 < length text → parse text ≡ pos (decimal 0 text)
parse_digits [] h l = absurd (omega arith)
parse_digits (c ∷ text) h l =
    let no_sign : (c == 45) ≡ false = (let low = h.0.0 in ground (arith, low)) in rw no_sign refl

-- What a number is after the test against MAX_NUMBER.
abbrev pub clamped : ℤ → ℤ
clamped (pos n) = if ltb (2 ^ 31 - 1) n then pos 0 else pos n
clamped (negsuc n) = negsuc n

-- The text of a number.
pub record IsText (n : ℤ) (text : List ℕ) : Type 0 where
  pub number : parse text ≡ clamped n
  pub fits : length text ≤ 20

-- A long that has an opposite.
abbrev pub IsLong : ℤ → Type 0
IsLong (pos n) = n < 2 ^ 63
IsLong (negsuc n) = n + 1 < 2 ^ 63

number_text-IsText : (n : ℤ) → IsLong n → Returns (IsText n) (number_text n)
unfolding number_text
number_text-IsText (pos n) long = elim (Bool-cases (n == 0)) [
  | inl none_left ↦ rw none_left (
      returns (record {
        number = (let nothing : n ≡ 0 = ground arith in rw nothing refl);
        fits = omega arith;
      }))
  | inr some_left ↦ elim (Bool-cases (ltb (2 ^ 31 - 1) n)) [
    | inl large ↦
        rw (some_left, large) (returns (record { number = rw large refl; fits = omega arith }))
    | inr small ↦
        rw (some_left, small)
          (Returns-map (digits-Written 19 n [] (omega arith) (omega arith)) (λ text w. record {
            number =
                parse_digits text (w.all_digits tt) (w.not_empty (ground arith))
                ∙ ap pos w.same_number
                ∙ rw small refl;
            fits = omega (arith, w.bounded);
          }))
  ]
]
number_text-IsText (negsuc n) long =
    let opposite : ltb (n + 1) (2 ^ 63) ≡ true = lt→ltb (n + 1) (2 ^ 63) long in
    rw opposite (
      Returns-bind (digits-Written 19 (n + 1) [] (omega arith) (omega arith)) (λ text w.
        let free : ltb (length text) max_number_size ≡ true = ground (arith, w.bounded) in
        rw free (
          returns (record {
            number = ap negsuc (ap (λ x. x - 1) w.same_number ∙ omega arith);
            fits = omega (arith, w.bounded);
          }))))

-- For such a table and every long but the least: atomInt returns the address of an atom whose string,
-- of at most 20 bytes, reads as the number in decimal, or as 0 where the number is above 2^31 - 1.
pub atom_int-IsText :
    (n : ℤ) (t : AtomTable)
    → IsInterned t
    → IsLong n
    → Returns
        (λ (r : AtomTable × ℕ). (a : Atom) × IsIn a r.0 × (a.address ≡ r.1) × IsText n a.str)
        (atom_int n t)
unfolding atom_int
atom_int-IsText n t c long = Returns-bind (number_text-IsText n long) (λ text is.
    Returns-map (atom_new-Interned text (length text) t c (omega arith)) (λ r i.
      let whole : i.atom.str ≡ text = i.string ∙ take-all (length text) text (omega arith) in
      (i.atom, i.known, i.at_address, rw whole is)))
