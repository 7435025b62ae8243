-- ===== src/AtomTable/Atoms.antt =====
-- atomString/atom.cpp: the atoms of a table, what the search in a bucket finds, and the atoms after a
-- push.
use terry.Base.{
  ℕ, zero, suc, ◌+◌, ◌≡◌, ◌≢◌, ◌<◌, ◌⊎◌, inl, inr, refl, sym, ap, ◌∙◌, Bool, true, false, none,
  some, List, [], ◌∷◌, ◌==◌, ◌&&◌, arith, length, replicate, length-replicate, get_elem?, set,
  get_elem?-set, Bool-cases, ==_iff, ==_refl, ℕ_discrete,
}
use terry.AtomTable.{Atom, AtomTable, same_bytes, find_same, index_of, get_hash}

-- An atom at a position of a bucket.
pub record IsAt (a : Atom) (i : ℕ) (t : AtomTable) : Type 0 where
  pub chain : List Atom
  pub place : ℕ
  pub bucket : get_elem? t.buckets i ≡ some chain
  pub entry : get_elem? chain place ≡ some a

abbrev pub IsIn : Atom → AtomTable → Type 0
IsIn a t = (i : ℕ) × IsAt a i t

-- Each atom is what atomNew makes of its string, in the bucket of its hash, and no other atom has its
-- string or its address.
pub record IsInterned (t : AtomTable) : Type 0 where
  pub ready : 0 < length t.buckets
  pub sized : (a : Atom) → IsIn a t → a.len ≡ length a.str
  pub hashed : (a : Atom) → IsIn a t → a.hash_value ≡ get_hash a.str
  pub placed : (a : Atom) (i : ℕ) → IsAt a i t → i ≡ index_of a.str t
  pub old : (a : Atom) → IsIn a t → a.address < t.next_address
  pub one_string : (a b : Atom) → IsIn a t → IsIn b t → a.str ≡ b.str → a ≡ b
  pub one_address : (a b : Atom) → IsIn a t → IsIn b t → a.address ≡ b.address → a ≡ b

same_bytes_sound : (left right : List ℕ) → same_bytes left right ≡ true → left ≡ right
same_bytes_sound [] [] h = refl
same_bytes_sound [] (b ∷ right) h = cc
same_bytes_sound (a ∷ left) [] h = cc
same_bytes_sound (a ∷ left) (b ∷ right) h = elim (Bool-cases (a == b)) [
  | inl same ↦
      let heads : a ≡ b = (==_iff a b).0 same in
      let tails : left ≡ right = same_bytes_sound left right (ground arith) in cc
  | inr other ↦ absurd (ground arith)
]

same_bytes_refl : (bytes : List ℕ) → same_bytes bytes bytes ≡ true
same_bytes_refl [] = refl
same_bytes_refl (b ∷ bytes) = rw (==_refl b) (same_bytes_refl bytes)

and_last : (p q : Bool) {r : Bool} → (p && q && r) ≡ true → r ≡ true
and_last p q {r} h = ground arith

-- What the loop finds is in the bucket and has the string.
pub find_same_sound :
    (hash : ℕ) (bytes : List ℕ) (chain : List Atom) {a : Atom}
    → find_same hash bytes chain ≡ some a
    → (j : ℕ) × (get_elem? chain j ≡ some a) × (a.str ≡ bytes)
unfolding find_same
find_same_sound hash bytes [] h = cc
find_same_sound hash bytes (x ∷ chain) {a} h =
    elim (Bool-cases (x.len == length bytes && x.hash_value == hash && same_bytes x.str bytes)) [
      | inl hit ↦
          let same : x ≡ a = (let got : some x ≡ some a = rw hit at h in cc) in
          (
            0,
            ap some same,
            rw (← same) (
                same_bytes_sound x.str bytes
                  (and_last (x.len == length bytes) (x.hash_value == hash) hit)),
          )
      | inr miss ↦
          let (j, at, e) = find_same_sound hash bytes chain (rw miss at h) in (suc j, at, e)
    ]

-- The loop finds an atom that atomNew has made of the string.
pub find_same_complete :
    (bytes : List ℕ) (chain : List Atom) (j : ℕ) (a : Atom)
    → get_elem? chain j ≡ some a
    → a.str ≡ bytes
    → a.len ≡ length a.str
    → a.hash_value ≡ get_hash a.str
    → find_same (get_hash bytes) bytes chain ≢ none
unfolding find_same
find_same_complete bytes [] j a at e l h = cc
find_same_complete bytes (x ∷ chain) zero a at e l h =
    let same : x ≡ a = cc in
    let lens : (a.len == length bytes) ≡ true = rw (l, e) (==_refl (length bytes)) in
    let hashes : (a.hash_value == get_hash bytes) ≡ true = rw (h, e) (==_refl (get_hash bytes)) in
    let strs : same_bytes a.str bytes ≡ true = rw e (same_bytes_refl bytes) in
    rw (same, lens, hashes, strs) (λ none_is. cc)
find_same_complete bytes (x ∷ chain) (suc j) a at e l h =
    elim (Bool-cases
      (x.len == length bytes && x.hash_value == get_hash bytes && same_bytes x.str bytes)) [
        | inl hit ↦ rw hit (λ none_is. cc)
        | inr miss ↦ rw miss (find_same_complete bytes chain j a at e l h)
      ]

-- The table after a push, when the bucket is there.
abbrev pub pushed : Atom → ℕ → List Atom → AtomTable → AtomTable
pushed atom i chain t = record {
  buckets = set t.buckets i (atom ∷ chain);
  next_address = t.next_address + 1;
}

pub some_inj {ℓ} : {A : Type ℓ} {x y : A} → some x ≡ some y → x ≡ y
some_inj e = cc

bucket_hit :
    (t : AtomTable) (i k : ℕ) (chain : List Atom)
    → i < length t.buckets
    → i ≡ k
    → get_elem? (set t.buckets i chain) k ≡ some chain
bucket_hit t i k chain inside same =
    let e : (i == k) ≡ true = ground arith in get_elem?-set t.buckets i k chain inside ∙ rw e refl

bucket_miss :
    (t : AtomTable) (i k : ℕ) (chain : List Atom)
    → i < length t.buckets
    → i ≢ k
    → get_elem? (set t.buckets i chain) k ≡ get_elem? t.buckets k
bucket_miss t i k chain inside other =
    let e : (i == k) ≡ false = ground arith in get_elem?-set t.buckets i k chain inside ∙ rw e refl

first_or_rest :
    (atom : Atom) (chain : List Atom) (j : ℕ) {a : Atom}
    → get_elem? (atom ∷ chain) j ≡ some a
    → (a ≡ atom) ⊎ ((j' : ℕ) × (get_elem? chain j' ≡ some a))
first_or_rest atom chain zero e = inl (let same : atom ≡ _ = some_inj e in sym same)
first_or_rest atom chain (suc j) e = inr (j, e)

-- The atoms after a push are the new one and those of before.
pub pushed_atoms :
    (atom : Atom) (i : ℕ) (chain : List Atom) (t : AtomTable)
    → get_elem? t.buckets i ≡ some chain
    → i < length t.buckets
    → (a : Atom) (k : ℕ) → IsAt a k (pushed atom i chain t)
    → ((a ≡ atom) × (k ≡ i)) ⊎ IsAt a k t
pushed_atoms atom i chain t here inside a k at = elim (ℕ_discrete i k) [
  | yes same ↦
      let whole : atom ∷ chain ≡ at.chain =
        some_inj (sym (bucket_hit t i k (atom ∷ chain) inside same) ∙ at.bucket) in
      let entry : get_elem? (atom ∷ chain) at.place ≡ some a = rw whole at.entry in
      elim (first_or_rest atom chain at.place entry) [
        | inl new ↦ inl (new, sym same)
        | inr (j, e) ↦
            inr (record { chain = chain; place = j; bucket = rw (← same) here; entry = e })
      ]
  | no other ↦ inr (record {
    chain = at.chain;
    place = at.place;
    bucket = sym (bucket_miss t i k (atom ∷ chain) inside other) ∙ at.bucket;
    entry = at.entry;
  })
]

pub pushed_new :
    (atom : Atom) (i : ℕ) (chain : List Atom) (t : AtomTable)
    → i < length t.buckets
    → IsAt atom i (pushed atom i chain t)
pushed_new atom i chain t inside = record {
  chain = atom ∷ chain;
  place = 0;
  bucket = bucket_hit t i i (atom ∷ chain) inside refl;
  entry = refl;
}

pub pushed_kept :
    (atom : Atom) (i : ℕ) (chain : List Atom) (t : AtomTable)
    → get_elem? t.buckets i ≡ some chain
    → i < length t.buckets
    → (a : Atom) (k : ℕ) → IsAt a k t
    → IsAt a k (pushed atom i chain t)
pushed_kept atom i chain t here inside a k at = elim (ℕ_discrete i k) [
  | yes same ↦
      let whole : chain ≡ at.chain = some_inj (sym (rw (← same) here) ∙ at.bucket) in
      record {
        chain = atom ∷ chain;
        place = suc at.place;
        bucket = bucket_hit t i k (atom ∷ chain) inside same;
        entry = rw whole at.entry;
      }
  | no other ↦ record {
    chain = at.chain;
    place = at.place;
    bucket = bucket_miss t i k (atom ∷ chain) inside other ∙ at.bucket;
    entry = at.entry;
  }
]

no_atoms : (n i : ℕ) {a : Atom} → ¬ IsAt a i (record { buckets = replicate n []; next_address = 0 })
no_atoms zero i at = let e = at.bucket in cc
no_atoms (suc n) zero at = let whole : [] ≡ at.chain = some_inj at.bucket in let e = at.entry in cc
no_atoms (suc n) (suc i) at =
    no_atoms n i
      (record { chain = at.chain; place = at.place; bucket = at.bucket; entry = at.entry })

-- A table without an atom.
pub empty-IsInterned :
    (n : ℕ) → 0 < n → IsInterned (record { buckets = replicate n []; next_address = 0 })
empty-IsInterned n h = record {
  ready = omega (arith, length-replicate {A = List Atom} n []);
  sized = λ a (i, at). absurd (no_atoms n i at);
  hashed = λ a (i, at). absurd (no_atoms n i at);
  placed = λ a i at. absurd (no_atoms n i at);
  old = λ a (i, at). absurd (no_atoms n i at);
  one_string = λ a b (i, at). absurd (no_atoms n i at);
  one_address = λ a b (i, at). absurd (no_atoms n i at);
}
