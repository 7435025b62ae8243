-- ===== src/Base/Outcome.antt =====
-- How a call of the C++ code ends, the loads and stores of an array, and the rules for calls that
-- return.
use Prim.Native.Nat.{ℕ, ◌<◌}
use mathlib.Core.Path.{◌≡◌, refl}
use mathlib.Core.Bool.{Bool, true, false}
use mathlib.Core.List.{List}
use mathlib.Core.Option.{Option, none, some}
use terry.Base.Tests.{ltb, if◌then◌else◌, lt→ltb}
use terry.Base.Lists.{length, get_elem?, set}

-- A value; a failed `assert` or an access outside of an object; or the model's fuel ran out.
pub data Run {ℓ} (A : Type ℓ) : Type ℓ where
  ok : A → Run A
  fault out_of_fuel : Run A

infixl 5 ◌>>=◌
abbrev pub ◌>>=◌ {ℓ κ} : {A : Type ℓ} {B : Type κ} → Run A → (A → Run B) → Run B
ok a >>= f = f a
fault >>= f = fault
out_of_fuel >>= f = out_of_fuel

infixl 5 ◌>>◌
abbrev pub ◌>>◌ {ℓ} : {B : Type ℓ} → Run (Unit {0}) → Run B → Run B
m >> k = m >>= λ _. k

-- `assert(b)`.
abbrev pub check : Bool → Run (Unit {0})
check true = ok tt
check false = fault

abbrev pub or_fault {ℓ} : {A : Type ℓ} → Option A → Run A
or_fault none = fault
or_fault (some a) = ok a

module _ {ℓ} {A : Type ℓ} where
  -- `a[i]`
  unfoldable pub load : List A → ℕ → Run A
  load a i = or_fault (get_elem? a i)

  -- `a[i] = v`
  unfoldable pub store : List A → ℕ → A → Run (List A)
  store a i v = if ltb i (length a) then ok (set a i v) else fault

  pub load-ok : (a : List A) (i : ℕ) {x : A} → get_elem? a i ≡ some x → load a i ≡ ok x
  unfolding load
  load-ok a i e = rw e

  pub store-ok : (a : List A) (i : ℕ) (v : A) → i < length a → store a i v ≡ ok (set a i v)
  unfolding store
  store-ok a i v h = rw (lt→ltb _ _ h)

-- The run ends with a value, and the value is good.
pub data Returns {ℓ κ} {A : Type ℓ} (Good : A → Type κ) : Run A → Type (ℓ ⊔ κ) where
  returns : {value : A} → Good value → Returns Good (ok value)

pub Returns-inv {ℓ κ} :
    {A : Type ℓ} {Good : A → Type κ} {run : Run A}
    → Returns Good run
    → (value : A) × (run ≡ ok value) × Good value
Returns-inv (returns {value = v} good) = (v, refl, good)

pub Returns-if {ℓ κ} :
    {A : Type ℓ} {Good : A → Type κ} {left right : Run A} (test : Bool)
    → (test ≡ true → Returns Good left)
    → (test ≡ false → Returns Good right)
    → Returns Good (if test then left else right)
Returns-if false on_true on_false = on_false refl
Returns-if true on_true on_false = on_true refl

pub Returns-both {ℓ κ μ} :
    {A : Type ℓ} {Good : A → Type κ} {Fine : A → Type μ} {run : Run A}
    → Returns Good run
    → Returns Fine run
    → Returns (λ value. Good value × Fine value) run
Returns-both (returns good) (returns fine) = returns (good, fine)

pub Returns-map {ℓ κ μ} :
    {A : Type ℓ} {Good : A → Type κ} {Fine : A → Type μ} {run : Run A}
    → Returns Good run
    → ((value : A) → Good value → Fine value)
    → Returns Fine run
Returns-map (returns {value = v} good) weaken = returns (weaken v good)

pub Returns-bind {ℓ κ μ ν} :
    {A : Type ℓ} {B : Type μ} {Good : A → Type κ} {Fine : B → Type ν} {run : Run A}
    {next : A → Run B}
    → Returns Good run
    → ((value : A) → Good value → Returns Fine (next value))
    → Returns Fine (run >>= next)
Returns-bind (returns {value = v} good) go_on = go_on v good

pub or_fault-Returns {ℓ} :
    {A : Type ℓ} (o : Option A) {v : A} → o ≡ some v → Returns (λ x. o ≡ some x) (or_fault o)
or_fault-Returns (some x) e = returns refl
or_fault-Returns none e = cc

-- A match on an option that is known.
pub Returns-some {ℓ κ μ} :
    {C : Type μ} {A : Type ℓ} {Good : A → Type κ} (o : Option C) (c : C) (other : Run A)
    (next : C → Run A)
    → o ≡ some c
    → Returns Good (next c)
    → Returns Good (elim o [ none ↦ other | some x ↦ next x ])
Returns-some {Good} o c other next e r = rw e r

-- A property of a match on an option, from the property of both cases.
pub at_option {ℓ κ μ} :
    {C : Type μ} {A : Type ℓ} (P : A → Type κ) (o : Option C) (missing : A) (go_on : C → A)
    → P missing
    → ((c : C) → P (go_on c))
    → P (elim o [ none ↦ missing | some c ↦ go_on c ])
at_option P none missing go_on early late = early
at_option P (some c) missing go_on early late = late c

pub at_if {ℓ κ} :
    {A : Type ℓ} (P : A → Type κ) (test : Bool) (left right : A)
    → P left
    → P right
    → P (if test then left else right)
at_if P true left right l r = l
at_if P false left right l r = r

pub match_some {ℓ κ} :
    {C : Type κ} {A : Type ℓ} (o : Option C) (c : C) (missing : A) (go_on : C → A)
    → o ≡ some c
    → elim o [ none ↦ missing | some x ↦ go_on x ] ≡ go_on c
match_some o c missing go_on e = rw e refl
