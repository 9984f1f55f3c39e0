-- ===== src/Domain/Value.antt =====
-- src/domain.ts: JavaScript values as the domain reads them, exact records,
-- canonical arrays, and the tests on scalars. Every reader takes the error of its caller.
mod Reason
pub use Reason.{Unicode}
unfoldable pub use Reason.{is_canonical_cancellation_reason, well_formed_text, encoded_bytes}
use package.text.Mathlib.Text.{◌==◌ as str_eq}
use agent_task_orchestrator.Base.{
  Text, String, ℕ, zero, suc, ℤ, pos, negsuc, ◌≡◌, refl, Bool, true, false, not, ◌&&◌, ◌||◌, List,
  [], ◌∷◌, Option, none, some, if◌then◌else◌, leb, ltb, ◌==◌, length, is_empty, text, same,
}
use agent_task_orchestrator.Domain.States.{
  TaskState, WaitingReason, TransitionEvent, TaskTransition, state_name, reason_name, event_name,
  task_states, waiting_reasons, task_transitions, spelled,
}
use agent_task_orchestrator.Domain.Errors.{Parsed, ok, err, DomainError, ◌>>=◌}

-- A plain object is its own enumerable data properties; `exotic` is every object that the source
-- refuses to read: with accessors, symbol keys, hidden properties or another prototype, a sparse
-- array, a revoked proxy. A number is an integer or a `fraction`, which NaN and infinity are too.
mutual
  pub data Value : Type 0 where
    undefined null exotic fraction : Value
    boolean : Bool → Value
    number : ℤ → Value
    string : Text → Value
    array : Items → Value
    object : Fields → Value

  pub data Items : Type 0 where
    nil : Items
    item : Value → Items → Items

  pub data Fields : Type 0 where
    end : Fields
    field : String → Value → Fields → Fields

-- A property of the copied record.
abbrev pub get : Fields → String → Value
get end k = Value.undefined
get (field j v r) k = if str_eq j k then v else get r k

abbrev pub listed : List String → String → Bool
listed [] k = false
listed (x ∷ xs) k = str_eq x k || listed xs k

-- The loop over the own keys, which stops at the first key that is not expected.
abbrev pub only : List String → Fields → Bool
only keys end = true
only keys (field k v r) = listed keys k && only keys r

abbrev pub count_fields : Fields → ℕ
count_fields end = 0
count_fields (field k v r) = suc (count_fields r)

-- `readExactRecord`, with the caller's error for `null`.
unfoldable pub read_exact_record : Value → List String → DomainError → Parsed Fields
read_exact_record (Value.object r) keys e =
    if count_fields r == length keys && only keys r then ok r else err e
read_exact_record _ keys e = err e

abbrev pub values : Items → List Value
values nil = []
values (item v r) = v ∷ values r

-- `readCanonicalArray`
unfoldable pub read_canonical_array : Value → DomainError → Parsed (List Value)
read_canonical_array (Value.array r) e = ok (values r)
read_canonical_array _ e = err e

abbrev pub max_safe_integer : ℕ
max_safe_integer = 9007199254740991

-- `isSafeInteger`
abbrev pub is_safe : ℤ → Bool
is_safe (pos n) = leb n max_safe_integer
is_safe (negsuc n) = ltb n max_safe_integer

-- `isIdentifier`
unfoldable pub identifier : Value → DomainError → Parsed Text
identifier (Value.string s) e = if is_empty s then err e else ok s
identifier _ e = err e

-- `isNullableIdentifier`
unfoldable pub nullable_identifier : Value → DomainError → Parsed (Option Text)
nullable_identifier Value.null e = ok none
nullable_identifier (Value.string s) e = if is_empty s then err e else ok (some s)
nullable_identifier _ e = err e

-- `typeof value === "string"`, with `null` and without.
unfoldable pub any_text : Value → DomainError → Parsed Text
any_text (Value.string s) e = ok s
any_text _ e = err e

unfoldable pub nullable_text : Value → DomainError → Parsed (Option Text)
nullable_text Value.null e = ok none
nullable_text (Value.string s) e = ok (some s)
nullable_text _ e = err e

unfoldable pub truth : Value → DomainError → Parsed Bool
truth (Value.boolean b) e = ok b
truth _ e = err e

unfoldable pub safe_integer : Value → DomainError → Parsed ℤ
safe_integer (Value.number z) e = if is_safe z then ok z else err e
safe_integer _ e = err e

unfoldable pub nullable_safe_integer : Value → DomainError → Parsed (Option ℤ)
nullable_safe_integer Value.null e = ok none
nullable_safe_integer (Value.number z) e = if is_safe z then ok (some z) else err e
nullable_safe_integer _ e = err e

-- `isPositiveInteger`
unfoldable pub positive_integer : Value → DomainError → Parsed ℕ
positive_integer (Value.number (pos n)) e =
    if ltb 0 n && leb n max_safe_integer then ok n else err e
positive_integer _ e = err e

-- `isNonnegativeInteger`
unfoldable pub nonnegative_integer : Value → DomainError → Parsed ℕ
nonnegative_integer (Value.number (pos n)) e = if leb n max_safe_integer then ok n else err e
nonnegative_integer _ e = err e

abbrev pub or_err : {A : Type 0} → Option A → DomainError → Parsed A
or_err none e = err e
or_err (some a) e = ok a

-- `isTaskState`
unfoldable pub task_state : Value → DomainError → Parsed TaskState
unfolding spelled
task_state (Value.string s) e = or_err (spelled state_name task_states s) e
task_state _ e = err e

-- `isWaitingReason`
unfoldable pub waiting_reason : Value → DomainError → Parsed WaitingReason
unfolding spelled
waiting_reason (Value.string s) e = or_err (spelled reason_name waiting_reasons s) e
waiting_reason _ e = err e

abbrev triggers : List TaskTransition → List TransitionEvent
triggers [] = []
triggers (t ∷ ts) = t.trigger ∷ triggers ts

-- `isTransitionEvent`: the event of some legal transition.
unfoldable pub transition_event : Value → DomainError → Parsed TransitionEvent
unfolding spelled
transition_event (Value.string s) e = or_err (spelled event_name (triggers task_transitions) s) e
transition_event _ e = err e

-- `value === "constant"`, and `value === null`.
abbrev pub is_constant : Value → String → Bool
is_constant (Value.string s) k = same s (text k)
is_constant _ k = false

abbrev pub is_null : Value → Bool
is_null Value.null = true
is_null _ = false
