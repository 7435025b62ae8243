-- ===== src/Timer/Manager/Times.antt =====
-- timer/Timer_manager.cpp: the time that lies an interval after the present, in microseconds.
use terry.Base.{ℕ, ◌+◌, ◌*◌, ◌≡◌, ap, inl, inr, arith, leb, Bool-cases}
use terry.Base.Int.{ℤ, pos, negsuc, pos_part, neg_part, sub_ℕ, ◌+ℤ◌, ◌-ℤ◌, ◌*ℤ◌, ltb_ℤ}
use terry.Timer.Object.{TimeVal}
use terry.Timer.Manager.{expiry_after}

-- A time in microseconds.
abbrev pub micros : TimeVal → ℤ
micros t = t.tv_sec *ℤ pos 1_000_000 +ℤ t.tv_usec

-- A number is its positive part less its negative part.
parts_equal : (x y : ℤ) → pos_part x + neg_part y ≡ pos_part y + neg_part x → x ≡ y
parts_equal (pos m) (pos n) e = ap pos (omega (arith, e))
parts_equal (pos m) (negsuc n) e = absurd (omega (arith, e))
parts_equal (negsuc m) (pos n) e = absurd (omega (arith, e))
parts_equal (negsuc m) (negsuc n) e = ap negsuc (omega (arith, e))

sub_parts : (a b : ℕ) → pos_part (sub_ℕ a b) + b ≡ a + neg_part (sub_ℕ a b)
sub_parts a b = elim (Bool-cases (leb b a)) [
  | inl e ↦ rw e (ground arith)
  | inr e ↦ rw e (ground arith)
]

add_parts :
    (x y : ℤ)
    → pos_part (x +ℤ y) + (neg_part x + neg_part y) ≡ pos_part x + pos_part y + neg_part (x +ℤ y)
unfolding ◌+ℤ◌
add_parts x y = sub_parts (pos_part x + pos_part y) (neg_part x + neg_part y)

subtract_parts :
    (x y : ℤ)
    → pos_part (x -ℤ y) + (neg_part x + pos_part y) ≡ pos_part x + neg_part y + neg_part (x -ℤ y)
unfolding ◌-ℤ◌
subtract_parts x y = sub_parts (pos_part x + neg_part y) (neg_part x + pos_part y)

million_parts :
    (x : ℤ)
    → pos_part (x *ℤ pos 1_000_000) + neg_part x * 1_000_000
      ≡ pos_part x * 1_000_000 + neg_part (x *ℤ pos 1_000_000)
unfolding ◌*ℤ◌
million_parts x =
    let e =
      sub_parts (pos_part x * 1_000_000 + neg_part x * 0)
        (pos_part x * 0 + neg_part x * 1_000_000) in
    omega (arith, e)

-- The sum of seconds and of microseconds, where `c` seconds are carried over.
carried :
    (now tv : TimeVal) (c : ℕ) (usec : ℤ)
    → pos_part usec + (neg_part now.tv_usec + neg_part tv.tv_usec + c * 1_000_000)
      ≡ pos_part now.tv_usec + pos_part tv.tv_usec + neg_part usec
    → (now.tv_sec +ℤ (tv.tv_sec +ℤ pos c)) *ℤ pos 1_000_000 +ℤ usec ≡ micros now +ℤ micros tv
carried now tv c usec e =
    let sec = now.tv_sec +ℤ (tv.tv_sec +ℤ pos c) in
    parts_equal (sec *ℤ pos 1_000_000 +ℤ usec) (micros now +ℤ micros tv) (
      omega (
        arith,
        e,
        add_parts (sec *ℤ pos 1_000_000) usec,
        million_parts sec,
        add_parts now.tv_sec (tv.tv_sec +ℤ pos c),
        add_parts tv.tv_sec (pos c),
        add_parts (micros now) (micros tv),
        add_parts (now.tv_sec *ℤ pos 1_000_000) now.tv_usec,
        add_parts (tv.tv_sec *ℤ pos 1_000_000) tv.tv_usec,
        million_parts now.tv_sec,
        million_parts tv.tv_sec,
      ))

-- The time after an interval, with the carry or without it, is the sum.
pub expiry_after-micros :
    (now tv : TimeVal) → micros (expiry_after now tv) ≡ micros now +ℤ micros tv
unfolding expiry_after
expiry_after-micros now tv =
    let usec = now.tv_usec +ℤ tv.tv_usec in
    elim (Bool-cases (ltb_ℤ usec (pos 1_000_000))) [
      | inl e ↦ rw e (carried now tv 0 usec (omega (arith, add_parts now.tv_usec tv.tv_usec)))
      | inr e ↦ rw e (
          carried now tv 1 (usec -ℤ pos 1_000_000)
            (omega (arith, add_parts now.tv_usec tv.tv_usec, subtract_parts usec (pos 1_000_000))))
    ]
