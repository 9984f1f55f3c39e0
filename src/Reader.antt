-- ===== src/Reader.antt =====
-- What the services and ports of src/ share when they read a value: `exactRecord`, `canonicalArray`
-- and the tests on scalars, each of which answers `null` where it refuses. The definitions follow
-- src/authorization.ts; the other files have copies of them.
use agent_task_orchestrator.Base.{
  Text, String, ℕ, pos, Bool, true, false, not, ◌&&◌, List, Option, none, some, if◌then◌else◌, leb,
  ltb, ◌==◌, length, is_empty, includes, same, same→eq, arith, ◌≡◌, refl,
}
use agent_task_orchestrator.Domain.Value.{
  Value, Fields, only, count_fields, values, max_safe_integer,
}

-- `if (result === null) return null`, and the use of the result.
infixl 5 ◌>>=◌ ◌>>◌
abbrev pub ◌>>=◌ {ℓ κ} : {T : Type ℓ} {S : Type κ} → Option T → (T → Option S) → Option S
none >>= next = none
some value >>= next = next value

abbrev pub ◌>>◌ {ℓ} : {S : Type ℓ} → Option (Unit {0}) → Option S → Option S
tested >> rest = tested >>= λ _. rest

-- `if (!test) return null`
abbrev pub check : Bool → Option (Unit {0})
check false = none
check true = some tt

-- The runtime's dates: `date.toISOString() === value` for a date that is finite.
pub record Dates : Type 0 where
  pub is_iso : Text → Bool

-- `exactRecord`
unfoldable pub exact_record : Value → List String → Option Fields
exact_record (Value.object r) keys =
    if count_fields r == length keys && only keys r then some r else none
exact_record _ keys = none

-- `canonicalArray`
unfoldable pub canonical_array : Value → Option (List Value)
canonical_array (Value.array r) = some (values r)
canonical_array _ = none

-- `identifier`, of at most 128 code units.
unfoldable pub short_identifier : Value → Option Text
short_identifier (Value.string s) = if not (is_empty s) && leb (length s) 128 then some s else none
short_identifier _ = none

-- `domainIdentifier`
unfoldable pub domain_identifier : Value → Option Text
domain_identifier (Value.string s) = if is_empty s then none else some s
domain_identifier _ = none

-- `revision`
unfoldable pub revision : Value → Option ℕ
revision (Value.number (pos n)) = if ltb 0 n && leb n max_safe_integer then some n else none
revision _ = none

-- The test of `timestamp` on a text.
unfoldable pub is_timestamp : ⦃d : Dates⦄ → Text → Bool
is_timestamp ⦃d⦄ s = leb 20 (length s) && leb (length s) 40 && d.is_iso s

-- `timestamp`
unfoldable pub timestamp : ⦃d : Dates⦄ → Value → Option Text
unfolding is_timestamp
timestamp (Value.string s) = if is_timestamp s then some s else none
timestamp _ = none

-- `value === null || read(value)`
unfoldable pub or_null_by {ℓ} : {A : Type ℓ} → (Value → Option A) → Value → Option (Option A)
or_null_by read Value.null = some none
or_null_by read v = read v >>= λ a. some (some a)

pub or_null_by-null {ℓ} :
    {A : Type ℓ} (read : Value → Option A) → or_null_by read Value.null ≡ some none
unfolding or_null_by
or_null_by-null read = refl

pub or_null_by-string {ℓ} :
    {A : Type ℓ} (read : Value → Option A) (s : Text) (a : A)
    → read (Value.string s) ≡ some a
    → or_null_by read (Value.string s) ≡ some (some a)
unfolding or_null_by
or_null_by-string read s a h = rw h refl

-- `typeof value === "boolean"`
unfoldable pub truth_value : Value → Option Bool
truth_value (Value.boolean b) = some b
truth_value _ = none

-- `typeof value === "string" && list.includes(value)`
unfoldable pub one_of : List Text → Value → Option Text
one_of list (Value.string s) = if includes list s then some s else none
one_of list _ = none

-- `a ?? b`
abbrev pub or_else {ℓ} : {A : Type ℓ} → Option A → Option A → Option A
or_else none b = b
or_else (some a) b = some a

-- `===` between a value and a text or a number.
unfoldable pub equal_text : Text → Value → Option Text
equal_text t (Value.string s) = if same s t then some s else none
equal_text t _ = none

unfoldable pub equal_number : ℕ → Value → Option ℕ
equal_number n (Value.number (pos m)) = if m == n then some m else none
equal_number n _ = none

pub equal_text-eq : (t : Text) (v : Value) (s : Text) → equal_text t v ≡ some s → s ≡ t
unfolding equal_text
equal_text-eq t v s h = ground (arith, same→eq s t)

pub equal_number-eq : (n : ℕ) (v : Value) (m : ℕ) → equal_number n v ≡ some m → m ≡ n
unfolding equal_number
equal_number-eq n v m h = ground arith

-- What a chain that ends with a value has passed.
pub bind-some {ℓ κ} :
    {A : Type ℓ} {B : Type κ} (o : Option A) (next : A → Option B) (b : B)
    → (o >>= next) ≡ some b
    → (a : A) × (o ≡ some a) × (next a ≡ some b)
bind-some none next b h = absurd (cc)
bind-some (some a) next b h = (a, refl, h)

pub check-some {ℓ} :
    {B : Type ℓ} (test : Bool) (rest : Option B) (b : B)
    → (check test >> rest) ≡ some b
    → (test ≡ true) × (rest ≡ some b)
check-some true rest b h = (refl, h)
check-some false rest b h = absurd (cc)

pub some-eq {ℓ} : {A : Type ℓ} {a b : A} → some a ≡ some b → a ≡ b
some-eq e = ground arith
