-- ===== src/Ports.antt =====
-- src/scheduler-port.ts and src/project-policy-port.ts: what the ports to external adapters share,
-- the categories of a failure with their flags, and the readers of texts. The definitions follow
-- src/scheduler-port.ts, of which src/project-policy-port.ts has copies.
use agent_task_orchestrator.Base.{
  Text, String, ℕ, Bool, true, false, not, ◌&&◌, ◌||◌, List, [], ◌∷◌, Option, none, some,
  if◌then◌else◌, leb, ◌==◌, length, is_empty, all, same,
}
use agent_task_orchestrator.Domain.States.{spelled}
use agent_task_orchestrator.Domain.Value.{Value, Unicode}

pub data FailureCategory : Type 0 where
  invalid_request incompatible_contract unauthorized policy_denied not_found : FailureCategory
  conflict stale_revision busy rate_limited resource_exhausted : FailureCategory
  transient_external permanent_external ambiguous_external_state cancelled : FailureCategory
  integrity_failure : FailureCategory

abbrev pub failure_name : FailureCategory → String
failure_name FailureCategory.invalid_request = "invalid_request"
failure_name FailureCategory.incompatible_contract = "incompatible_contract"
failure_name FailureCategory.unauthorized = "unauthorized"
failure_name FailureCategory.policy_denied = "policy_denied"
failure_name FailureCategory.not_found = "not_found"
failure_name FailureCategory.conflict = "conflict"
failure_name FailureCategory.stale_revision = "stale_revision"
failure_name FailureCategory.busy = "busy"
failure_name FailureCategory.rate_limited = "rate_limited"
failure_name FailureCategory.resource_exhausted = "resource_exhausted"
failure_name FailureCategory.transient_external = "transient_external"
failure_name FailureCategory.permanent_external = "permanent_external"
failure_name FailureCategory.ambiguous_external_state = "ambiguous_external_state"
failure_name FailureCategory.cancelled = "cancelled"
failure_name FailureCategory.integrity_failure = "integrity_failure"

abbrev pub failure_categories : List FailureCategory
failure_categories =
    FailureCategory.invalid_request ∷ FailureCategory.incompatible_contract
    ∷ FailureCategory.unauthorized ∷ FailureCategory.policy_denied ∷ FailureCategory.not_found
    ∷ FailureCategory.conflict ∷ FailureCategory.stale_revision ∷ FailureCategory.busy
    ∷ FailureCategory.rate_limited ∷ FailureCategory.resource_exhausted
    ∷ FailureCategory.transient_external ∷ FailureCategory.permanent_external
    ∷ FailureCategory.ambiguous_external_state ∷ FailureCategory.cancelled
    ∷ FailureCategory.integrity_failure ∷ []

-- `FAILURE_FLAGS`, in its two columns.
unfoldable pub is_retryable : FailureCategory → Bool
is_retryable FailureCategory.busy = true
is_retryable FailureCategory.rate_limited = true
is_retryable FailureCategory.resource_exhausted = true
is_retryable FailureCategory.transient_external = true
is_retryable _ = false

unfoldable pub is_ambiguous : FailureCategory → Bool
is_ambiguous FailureCategory.ambiguous_external_state = true
is_ambiguous FailureCategory.integrity_failure = true
is_ambiguous _ = false

-- `===` on truth values.
abbrev pub equal_truth : Bool → Bool → Bool
equal_truth true b = b
equal_truth false b = not b

-- A constant of a list, by its name.
unfoldable pub named : {A : Type 0} → (A → String) → List A → Value → Option A
unfolding spelled
named name list (Value.string s) = spelled name list s
named name list _ = none

-- `[A-Za-z0-9]`, and `[A-Za-z0-9._:-]`.
abbrev pub is_word_unit : ℕ → Bool
is_word_unit c = (leb 65 c && leb c 90) || ((leb 97 c && leb c 122) || (leb 48 c && leb c 57))

abbrev pub is_name_unit : ℕ → Bool
is_name_unit c = is_word_unit c || (c == 46 || (c == 95 || (c == 58 || c == 45)))

-- `/^[A-Za-z0-9][A-Za-z0-9._:-]{0,127}$/u`
unfoldable pub is_name : Text → Bool
is_name [] = false
is_name (c ∷ s) = is_word_unit c && all is_name_unit s && leb (length s) 127

-- `identifier`
unfoldable pub name : Value → Option Text
unfolding is_name
name (Value.string s) = if is_name s then some s else none
name _ = none

-- The test of `boundedText` on a text.
unfoldable pub is_bounded : ⦃u : Unicode⦄ → ℕ → Text → Bool
is_bounded ⦃u⦄ maximum s =
    not (is_empty s) && leb (length s) maximum && same (u.normalize s) s && not (u.has_control s)

-- `boundedText`, of a value that may not be `null`.
unfoldable pub bounded_text : ⦃u : Unicode⦄ → ℕ → Value → Option Text
unfolding is_bounded
bounded_text maximum (Value.string s) = if is_bounded maximum s then some s else none
bounded_text maximum _ = none
