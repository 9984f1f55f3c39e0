-- ===== src/Domain/Parse/Inverse.antt =====
-- What a parser makes of the value of an object of the domain.
use agent_task_orchestrator.Base.{
  Text, ◌≡◌, refl, ◌⊎◌, inl, List, [], ◌∷◌, Option, none, some, sort, arith, same, text,
}
use agent_task_orchestrator.Domain.States.{TaskState, WaitingReason, reason_name, state_name}
use agent_task_orchestrator.Domain.Errors.{Parsed, ok, err, DomainError, Place}
use agent_task_orchestrator.Domain.Records.{
  Project, WaitingMetadataInput, WaitingMetadata, CompletionFact, CancellationFact,
  CancellationEvent, Task,
}
use agent_task_orchestrator.Domain.Value.{
  Value, values, Unicode, read_canonical_array, positive_integer, any_text, waiting_reason,
  task_state, identifier, nullable_text, truth, nonnegative_integer, nullable_safe_integer,
  nullable_identifier,
}
use agent_task_orchestrator.Domain.Encode.{
  text_items, project_value, waiting_input_value, waiting_value, completion_value,
  cancellation_value, task_value, constant, cancellation_event_name, nullable_waiting_value,
  nullable_completion_value, nullable_cancellation_value,
}
use agent_task_orchestrator.Domain.Parse.{
  invalid_input_at, invalid_snapshot_at, parse_project, parse_waiting_input, waiting_input_from,
  parse_waiting, parse_completion, parse_cancellation, parse_task, task_from, identifiers,
  optional_waiting, optional_completion, optional_cancellation, cancellation_event,
}

-- Either the object itself, or an error.
abbrev pub IsInverse : {A : Type 0} → Parsed A → A → Type 0
IsInverse r a = (r ≡ ok a) ⊎ ((e : DomainError) × (r ≡ err e))

pub parse_project-value :
    (p : Project) (path : Place) → IsInverse (parse_project (project_value p) path) p
unfolding parse_project
parse_project-value p path = ground arith

pub waiting_reason-name :
    (r : WaitingReason) (e : DomainError)
    → waiting_reason (Value.string (text (reason_name r))) e ≡ ok r
unfolding waiting_reason same
waiting_reason-name WaitingReason.human_input e = refl
waiting_reason-name _ e = refl

pub task_state-name :
    (s : TaskState) (e : DomainError) → task_state (Value.string (text (state_name s))) e ≡ ok s
unfolding task_state same
task_state-name TaskState.idea e = refl
task_state-name _ e = refl

parse_waiting_input-value :
    (w : WaitingMetadataInput) (path : Place)
    → IsInverse (parse_waiting_input (waiting_input_value w) path) w
unfolding parse_waiting_input waiting_input_from identifier nullable_text truth nonnegative_integer
    nullable_safe_integer nullable_identifier
parse_waiting_input-value w path =
    ground (arith, waiting_reason-name w.reason (invalid_input_at path))

parse_waiting-value :
    (w : WaitingMetadata) (path : Place) → IsInverse (parse_waiting (waiting_value w) path) w
unfolding parse_waiting
parse_waiting-value w path = ground (arith, parse_waiting_input-value w.input path)

parse_completion-value :
    (c : CompletionFact) (path : Place) → IsInverse (parse_completion (completion_value c) path) c
unfolding parse_completion
parse_completion-value c path = ground arith

optional_waiting-value :
    (w : Option WaitingMetadata) (path : Place)
    → IsInverse (optional_waiting (nullable_waiting_value w) path) w
unfolding optional_waiting
optional_waiting-value none path = inl refl
optional_waiting-value (some w) path = ground (arith, parse_waiting-value w path)

optional_completion-value :
    (c : Option CompletionFact) (path : Place)
    → IsInverse (optional_completion (nullable_completion_value c) path) c
unfolding optional_completion
optional_completion-value none path = inl refl
optional_completion-value (some c) path = ground (arith, parse_completion-value c path)

pub cancellation_event-name :
    (c : CancellationEvent) (e : DomainError)
    → cancellation_event (constant (cancellation_event_name c)) e ≡ ok c
unfolding cancellation_event same
cancellation_event-name CancellationEvent.cancel e = refl
cancellation_event-name CancellationEvent.interruption_verified e = refl

identifiers-items :
    (ids : List Text) (e : DomainError) → IsInverse (identifiers (values (text_items ids)) e) ids
unfolding identifiers
identifiers-items [] e = inl refl
identifiers-items (t ∷ ts) e = ground (arith, identifiers-items ts e)

-- A Task with its dependencies in the order of the domain.
abbrev pub in_order : Task → Task
in_order t = record t { dependency_ids = sort (λ d. d) t.dependency_ids }

module _ ⦃u : Unicode⦄ where
  parse_cancellation-value :
      (c : CancellationFact) (path : Place)
      → IsInverse (parse_cancellation (cancellation_value c) path) c
  unfolding parse_cancellation
  parse_cancellation-value c path =
      ground (arith, cancellation_event-name c.trigger (invalid_snapshot_at path))

  optional_cancellation-value :
      (c : Option CancellationFact) (path : Place)
      → IsInverse (optional_cancellation (nullable_cancellation_value c) path) c
  unfolding optional_cancellation
  optional_cancellation-value none path = inl refl
  optional_cancellation-value (some c) path = ground (arith, parse_cancellation-value c path)

  pub parse_task-value :
      (t : Task) (path : Place) → IsInverse (parse_task (task_value t) path) (in_order t)
  unfolding parse_task task_from identifier positive_integer any_text nullable_identifier
      read_canonical_array
  parse_task-value t path = ground (
    arith,
    task_state-name t.state (invalid_snapshot_at path),
    identifiers-items t.dependency_ids (invalid_snapshot_at path),
    optional_waiting-value t.waiting (Place.waiting_of path),
    optional_completion-value t.completion (Place.completion_of path),
    optional_cancellation-value t.cancellation (Place.cancellation_of path),
  )
