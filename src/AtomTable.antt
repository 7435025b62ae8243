-- ===== src/AtomTable.antt =====
-- atomString/atom.cpp and atom.h: the table of interned strings. A string that a caller passes is its
-- bytes, and its address where the code compares pointers; an atom is the number of its memory, the
-- address of its string, which for atomNew lies in the same memory, and what the struct holds. A bucket is the list of its atoms from the head on.
pub mod Atoms
pub mod Find
pub mod Intern
pub mod Numbers
mod Tests
use terry.Base.{
  ℕ, zero, suc, ◌+◌, ◌-◌, ◌*◌, ◌/◌, ◌%◌, ◌^◌, Bool, true, false, Option, none, some, List, [], ◌∷◌,
  ltb, leb, ◌==◌, ◌&&◌, if◌then◌else◌, length, take, replicate, map, Run, ok, fault, out_of_fuel,
  ◌>>=◌, ◌>>◌, check, load, store, u64_mod,
}
use terry.Base.Int.{ℤ, pos, negsuc}

pub record Atom : Type 0 where
  pub cell : ℕ
  pub address : ℕ
  pub hash_value : ℕ
  pub len : ℕ
  pub str : List ℕ

-- `initBusket`, with no bucket while its pointer is null; new memory has the next address.
pub record AtomTable : Type 0 where
  pub buckets : List (List Atom)
  pub next_address : ℕ

abbrev pub max_bucket : ℕ
max_bucket = 10_000

abbrev pub default_bucket : ℕ
default_bucket = 1024

abbrev pub min_bucket : ℕ
min_bucket = 128

-- A `char` is signed, and a negative one wraps when it is added to an unsigned long.
abbrev pub extended : ℕ → ℕ
extended c = if ltb c 128 then c else u64_mod - 256 + c

-- The loop of getHash.
unfoldable pub hash_from : ℕ → List ℕ → ℕ
hash_from hash [] = hash
hash_from hash (c ∷ str) =
    hash_from ((extended c + hash * 2 ^ 6 + hash * 2 ^ 16 + u64_mod - hash) % u64_mod) str

-- `hash & 0x7FFFFFFF`
unfoldable pub get_hash : List ℕ → ℕ
get_hash str = hash_from 0 str % 2 ^ 31

unfoldable pub atom_init : ℕ → AtomTable → Run AtomTable
atom_init hint t = do
  check (ltb 0 hint && leb hint max_bucket)
  let number = if ltb hint min_bucket then default_bucket else hint
  ok (record t { buckets = replicate number [] })

-- The `len` bytes that the code reads from a string.
abbrev pub bytes_of : List ℕ → ℕ → Run (List ℕ)
bytes_of str len = if leb len (length str) then ok (take len str) else fault

-- The loop that compares the bytes.
abbrev pub same_bytes : List ℕ → List ℕ → Bool
same_bytes [] [] = true
same_bytes (a ∷ left) (b ∷ right) = if a == b then same_bytes left right else false
same_bytes _ _ = false

-- The loop of atomNew over a bucket.
unfoldable pub find_same : ℕ → List ℕ → List Atom → Option Atom
find_same hash bytes [] = none
find_same hash bytes (a ∷ chain) =
    if a.len == length bytes && a.hash_value == hash && same_bytes a.str bytes
    then some a
    else find_same hash bytes chain

abbrev pub index_of : List ℕ → AtomTable → ℕ
index_of bytes t = get_hash bytes % length t.buckets

-- A new atom at the head of its bucket.
unfoldable pub push_atom : Atom → ℕ → List Atom → AtomTable → Run (AtomTable × ℕ)
push_atom atom index chain t = do
  buckets ← store t.buckets index (atom ∷ chain)
  ok (record { buckets = buckets; next_address = t.next_address + 1 }, atom.address)

-- The rest of atomNew, when it has the bucket.
unfoldable pub intern_in : List ℕ → ℕ → List Atom → AtomTable → Run (AtomTable × ℕ)
intern_in bytes len chain t =
    let fresh : Atom = record {
      cell = t.next_address;
      address = t.next_address;
      hash_value = get_hash bytes;
      len = len;
      str = bytes;
    } in
    elim (find_same (get_hash bytes) bytes chain) [
      | some a ↦ ok (t, a.address)
      | none ↦ push_atom fresh (index_of bytes t) chain t
    ]

-- The result is the address of the atom's string.
unfoldable pub atom_new : List ℕ → ℕ → AtomTable → Run (AtomTable × ℕ)
atom_new str len t = do
  check (ltb 0 (length t.buckets))
  bytes ← bytes_of str len
  chain ← load t.buckets (index_of bytes t)
  intern_in bytes len chain t

unfoldable pub atom_string : List ℕ → AtomTable → Run (AtomTable × ℕ)
atom_string str t = atom_new str (length str) t

-- atomAload, and atomVload, over the strings before the null pointer.
unfoldable pub atom_aload : List (List ℕ) → AtomTable → Run AtomTable
atom_aload [] t = ok t
atom_aload (str ∷ strs) t = do (after, address) ← atom_string str t; atom_aload strs after

abbrev pub max_number_size : ℕ
max_number_size = 100

-- The loop of atomInt, with the bytes from `beginPtr` on; a write below `buf` is a fault.
unfoldable pub digits : ℕ → ℕ → List ℕ → Run (List ℕ)
digits zero value text = out_of_fuel
digits (suc fuel) value text =
    let rest = digits fuel (value / 10) ((value % 10 + 48) ∷ text) in
    if value == 0 then ok text else if ltb (length text) max_number_size then rest else fault

-- A number above MAX_NUMBER counts as 0; the least long has no opposite.
unfoldable pub number_text : ℤ → Run (List ℕ)
number_text (pos n) =
    if n == 0 then ok (48 ∷ []) else if ltb (2 ^ 31 - 1) n then ok (48 ∷ []) else digits 20 n []
number_text (negsuc n) = do
  check (ltb (n + 1) (2 ^ 63))
  text ← digits 20 (n + 1) []
  if ltb (length text) max_number_size then ok (45 ∷ text) else fault

unfoldable pub atom_int : ℤ → AtomTable → Run (AtomTable × ℕ)
atom_int n t = do text ← number_text n; atom_new text (length text) t

-- The loop of atomFind, from an atom on: the atom before the one that is found, and that one, which is
-- the last of the bucket where none has the address.
unfoldable pub walk : ℕ → Atom → List Atom → Option Atom × Atom
walk str a [] = (none, a)
walk str a (b ∷ chain) = if b.address == str then (some a, b) else walk str b chain

-- `str` is an address and the bytes there; the head of an empty bucket is a null pointer.
unfoldable pub atom_find : ℕ → List ℕ → AtomTable → Run (Option Atom × Atom)
atom_find str bytes t = do
  check (ltb 0 (length t.buckets))
  chain ← load t.buckets (index_of bytes t)
  elim chain [
    | [] ↦ fault
    | a ∷ rest ↦ ok (if a.address == str then (none, a) else walk str a rest)
  ]

unfoldable pub atom_length : ℕ → List ℕ → AtomTable → Run ℕ
atom_length str bytes t = do (prev, a) ← atom_find str bytes t; ok a.len

-- An atom out of its bucket.
abbrev pub unlinked : ℕ → List Atom → List Atom
unlinked cell [] = []
unlinked cell (a ∷ chain) = if a.cell == cell then chain else a ∷ unlinked cell chain

-- With an atom before it, the atom leaves the bucket that it was found in, and else the bucket of its
-- own bytes, whose head must not be a null pointer.
unfoldable pub atom_free : ℕ → List ℕ → AtomTable → Run AtomTable
atom_free str bytes t = do
  (prev, a) ← atom_find str bytes t
  let index : ℕ = elim prev [ none ↦ index_of a.str t | some p ↦ index_of bytes t ]
  chain ← load t.buckets index
  check (ltb 0 (length chain))
  buckets ← store t.buckets index (unlinked a.cell chain)
  ok (record t { buckets = buckets })

unfoldable pub atom_reset : AtomTable → Run AtomTable
atom_reset t = do
  check (ltb 0 (length t.buckets))
  ok (record t { buckets = map (λ chain. []) t.buckets })

-- The loop of atomAdd over a bucket, which does not compare the hash values.
unfoldable pub find_equal : List ℕ → List Atom → Option Atom
find_equal bytes [] = none
find_equal bytes (a ∷ chain) =
    if a.len == length bytes && same_bytes a.str bytes then some a else find_equal bytes chain

-- The atom shares the caller's string, and its hash value stays 0.
unfoldable pub atom_add : ℕ → List ℕ → ℕ → AtomTable → Run (AtomTable × ℕ)
atom_add address str len t = do
  check (ltb 0 (length t.buckets))
  bytes ← bytes_of str len
  chain ← load t.buckets (index_of bytes t)
  let shared : Atom = record {
    cell = t.next_address;
    address = address;
    hash_value = 0;
    len = len;
    str = bytes;
  }
  elim (find_equal bytes chain) [
    | some a ↦ ok (t, a.address)
    | none ↦ push_atom shared (index_of bytes t) chain t
  ]
