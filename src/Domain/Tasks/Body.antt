-- ===== src/Domain/Tasks/Body.antt =====
-- What changing the body of a Task does.
use agent_task_orchestrator.Base.{Text, ◌≡◌, refl, false, some, arith, same, []}
use agent_task_orchestrator.Domain.States.{is_terminal}
use agent_task_orchestrator.Domain.Errors.{ok, DomainSuccess, DomainEventType, event}
use agent_task_orchestrator.Domain.Records.{Task, DomainSnapshot, DomainMutation}
use agent_task_orchestrator.Domain.Value.{Value, Unicode, read_exact_record, identifier, any_text}
use agent_task_orchestrator.Domain.Graph.{task_of}
use agent_task_orchestrator.Domain.Snapshot.{SnapshotValidationMode, parse_snapshot}
use agent_task_orchestrator.Domain.Mutation.{commit, require_mutable_task}
use agent_task_orchestrator.Domain.Mutation.Effect.{IsCommitted, commit-IsCommitted}
use agent_task_orchestrator.Domain.Commands.{update_task_body_command}
use agent_task_orchestrator.Domain.Tasks.{update_task_body}

module _ ⦃u : Unicode⦄ where
  body_task :
      (v : Value) (id body : Text) (s : DomainSnapshot) (r : DomainSuccess DomainMutation)
      → parse_snapshot v SnapshotValidationMode.complete ≡ ok s
      → update_task_body v (update_task_body_command id body) ≡ ok r
      → (task : Task) × (task_of s.tasks id ≡ some task)
        × (is_terminal task.state ≡ false)
        × (same task.body body ≡ false)
        × (commit s task
              (record task { body = body })
              (λ changed.
                event DomainEventType.body_changed changed.id
                  (some task.revision)
                  changed.revision
                  [])
            ≡ ok r)
  unfolding update_task_body read_exact_record identifier any_text require_mutable_task
  body_task v id body s r h k = ground arith

  -- When the body of a Task is changed, the Task was registered and not terminal, its body was
  -- another one, and the result is `s` with this Task at its next revision, with the new body: all
  -- other Tasks and the Projects are kept, the new snapshot is valid, and one event announces it.
  pub update_task_body_effect :
      (v : Value) (id body : Text) (s : DomainSnapshot) (r : DomainSuccess DomainMutation)
      → parse_snapshot v SnapshotValidationMode.complete ≡ ok s
      → update_task_body v (update_task_body_command id body) ≡ ok r
      → (task : Task) × (task_of s.tasks id ≡ some task)
        × (is_terminal task.state ≡ false)
        × (same task.body body ≡ false)
        × IsCommitted s task
            (record task { body = body })
            (λ changed.
              event DomainEventType.body_changed changed.id
                (some task.revision)
                changed.revision
                [])
            r
  update_task_body_effect v id body s r h k =
      let (task, known, alive, other, done) = body_task v id body s r h k in
      (task, known, alive, other, commit-IsCommitted v s id task _ _ r h known refl done)
