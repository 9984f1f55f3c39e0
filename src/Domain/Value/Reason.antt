-- ===== src/Domain/Value/Reason.antt =====
-- src/domain.ts: the text of a cancellation reason.
use agent_task_orchestrator.Base.{
  Text, ℕ, ◌+◌, Bool, true, not, ◌&&◌, ◌||◌, [], ◌∷◌, if◌then◌else◌, leb, ltb, same,
}

-- What the source takes from the Unicode tables of the runtime: whether a text holds a character
-- of the categories Cc or Cf, and its normal form NFC.
pub record Unicode : Type 0 where
  pub has_control : Text → Bool
  pub normalize : Text → Text

abbrev is_high : ℕ → Bool
is_high c = leb 0xd800 c && leb c 0xdbff

abbrev is_low : ℕ → Bool
is_low c = leb 0xdc00 c && leb c 0xdfff

-- `wellFormedText`: every surrogate stands in a pair. Past the end `charCodeAt` is NaN.
unfoldable pub well_formed_text : Text → Bool
well_formed_text [] = true
well_formed_text (c ∷ []) = not (is_high c) && not (is_low c)
well_formed_text (c ∷ d ∷ s) =
    let pair = is_low d && well_formed_text s in
    let single = not (is_low c) && well_formed_text (d ∷ s) in if is_high c then pair else single

-- The bytes of UTF-8, counted by code unit: a surrogate pair has four bytes.
abbrev unit_bytes : ℕ → ℕ
unit_bytes c = if ltb c 0x80 then 1 else if ltb c 0x800 || (is_high c || is_low c) then 2 else 3

unfoldable pub encoded_bytes : Text → ℕ
encoded_bytes [] = 0
encoded_bytes (c ∷ s) = unit_bytes c + encoded_bytes s

-- `isCanonicalCancellationReason`, of a value that is a string.
unfoldable pub is_canonical_cancellation_reason : ⦃u : Unicode⦄ → Text → Bool
unfolding well_formed_text encoded_bytes
is_canonical_cancellation_reason ⦃u⦄ s =
    well_formed_text s
    && not (u.has_control s)
    && same (u.normalize s) s
    && leb 1 (encoded_bytes s)
    && leb (encoded_bytes s) 4096
