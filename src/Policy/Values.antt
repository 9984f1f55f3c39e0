-- ===== src/Policy/Values.antt =====
-- src/project-policy-port.ts: the tests on values.
use agent_task_orchestrator.Base.{
  Text, ℕ, pos, Bool, true, false, not, ◌&&◌, ◌||◌, List, Option, none, some, same, leb, ltb, ◌==◌,
  length, is_empty, all, any, if◌then◌else◌,
}
use agent_task_orchestrator.Domain.Value.{Value, Unicode, values, max_safe_integer}

-- `/[\u0000-\u001f\u007f]/u`
abbrev pub is_control : ℕ → Bool
is_control c = leb c 31 || c == 127

-- The test of `text` on a text.
unfoldable pub is_plain : ⦃u : Unicode⦄ → ℕ → Text → Bool
is_plain ⦃u⦄ maximum s =
    not (is_empty s) && leb (length s) maximum && same (u.normalize s) s && not (any is_control s)

module _ ⦃u : Unicode⦄ where
  -- `text`
  unfoldable pub plain_text : ℕ → Value → Option Text
  unfolding is_plain
  plain_text maximum (Value.string s) = if is_plain maximum s then some s else none
  plain_text maximum _ = none

  -- The same as a test.
  unfoldable pub is_text : ℕ → Value → Bool
  unfolding is_plain
  is_text maximum (Value.string s) = is_plain maximum s
  is_text maximum _ = false

-- `revision`
unfoldable pub is_revision : Value → Bool
is_revision (Value.number (pos n)) = ltb 0 n && leb n max_safe_integer
is_revision _ = false

abbrev is_digit : ℕ → Bool
is_digit c = leb 48 c && leb c 57

-- `/^[0-9A-F]{64}$/u`
abbrev pub is_sha256_text : Text → Bool
is_sha256_text s = length s == 64 && all (λ c. is_digit c || (leb 65 c && leb c 70)) s

-- `sha256`
unfoldable pub is_sha256 : Value → Bool
is_sha256 (Value.string s) = is_sha256_text s
is_sha256 _ = false

-- `sha1`
unfoldable pub is_sha1 : Value → Bool
is_sha1 (Value.string s) = length s == 40 && all (λ c. is_digit c || (leb 97 c && leb c 102)) s
is_sha1 _ = false

-- `exactArray`
unfoldable pub exact_array : Value → ℕ → Option (List Value)
exact_array (Value.array r) maximum =
    if leb (length (values r)) maximum then some (values r) else none
exact_array _ maximum = none

-- `===` on the scalars that a subject holds.
unfoldable pub equal_value : Value → Value → Bool
equal_value Value.null Value.null = true
equal_value (Value.string s) (Value.string t) = same s t
equal_value (Value.number (pos n)) (Value.number (pos m)) = n == m
equal_value _ _ = false
