-- ===== src/Domain/Links/Effect.antt =====
-- What the operations on the links of a Task do when they succeed.
use agent_task_orchestrator.Base.{
  Text, ◌≡◌, ◌≢◌, ◌↔◌, ap, ◌∙◌, refl, true, false, not, Option, none, some, arith, same, [], ◌∷◌,
  ◌++◌, sort, keep, includes, is_empty,
}
use agent_task_orchestrator.Domain.States.{is_terminal, is_graph_mutable}
use agent_task_orchestrator.Domain.Errors.{
  ok, err, DomainSuccess, DomainEventType, DomainErrorCode, or_null, event,
}
use agent_task_orchestrator.Domain.Records.{Task, DomainSnapshot, DomainMutation}
use agent_task_orchestrator.Domain.Value.{
  Value, Unicode, read_exact_record, identifier, nullable_identifier,
}
use agent_task_orchestrator.Domain.Parse.{is_text}
use agent_task_orchestrator.Domain.Graph.{task_of, dependency_reaches}
use agent_task_orchestrator.Domain.Graph.Search.{Leads, dependency_reaches_iff}
use agent_task_orchestrator.Domain.Snapshot.{SnapshotValidationMode, parse_snapshot, is_defined}
use agent_task_orchestrator.Domain.Mutation.{commit, require_mutable_task, about_task}
use agent_task_orchestrator.Domain.Mutation.Effect.{IsCommitted, commit-IsCommitted, id_of_task_of}
use agent_task_orchestrator.Domain.Commands.{
  set_task_parent_command, task_dependency_command, set_task_supersession_command,
}
use agent_task_orchestrator.Domain.Snapshot.WellFormed.{parse_snapshot-IsSnapshot}
use agent_task_orchestrator.Domain.Tasks.{is_missing, same_nullable}
use agent_task_orchestrator.Domain.Links.Ascent.{
  IsProposed, same_nullable-eq, check_proposed_parent_iff,
}
use agent_task_orchestrator.Domain.Links.{
  check_proposed_parent, set_task_parent, dependency_command, dependency_event, add_task_dependency,
  remove_task_dependency, set_task_supersession,
}

-- The patches of the operations.
abbrev pub with_dependency : Task → Text → Task
with_dependency task d = record task {
  dependency_ids = sort (λ t. t) (task.dependency_ids ++ d ∷ []);
}

abbrev pub without_dependency : Task → Text → Task
without_dependency task d = record task {
  dependency_ids = keep (λ t. not (same t d)) task.dependency_ids;
}

module _ ⦃u : Unicode⦄ (v : Value) (s : DomainSnapshot)
    (h : parse_snapshot v SnapshotValidationMode.complete ≡ ok s) where
  added :
      (id d : Text) (r : DomainSuccess DomainMutation)
      → add_task_dependency v (task_dependency_command id d) ≡ ok r
      → (task : Task) × (task_of s.tasks id ≡ some task)
        × (is_graph_mutable task.state ≡ true)
        × (is_defined (task_of s.tasks d) ≡ true)
        × (includes task.dependency_ids d ≡ false)
        × (dependency_reaches s.tasks d task.id ≡ false)
        × (commit s task
              (with_dependency task d)
              (dependency_event DomainEventType.dependency_added task d)
            ≡ ok r)
  unfolding add_task_dependency dependency_command read_exact_record identifier require_mutable_task
  added id d r k = ground arith

  -- When a dependency is added, the Task was in a state in which its links may change, the
  -- dependency was registered, new, and did not depend on the Task in any number of steps, and the
  -- result is `s` with this Task at its next revision, with the dependency in its place.
  pub add_task_dependency_effect :
      (id d : Text) (r : DomainSuccess DomainMutation)
      → add_task_dependency v (task_dependency_command id d) ≡ ok r
      → (task : Task) × (task_of s.tasks id ≡ some task)
        × (is_graph_mutable task.state ≡ true)
        × (is_defined (task_of s.tasks d) ≡ true)
        × (includes task.dependency_ids d ≡ false)
        × (¬ Leads s.tasks d task.id)
        × IsCommitted s task
            (with_dependency task d)
            (dependency_event DomainEventType.dependency_added task d)
            r
  add_task_dependency_effect id d r k =
      let (task, known, free, registered, new, no_path, done) = added id d r k in
      (
        task,
        known,
        free,
        registered,
        new,
        (λ l. ground (arith, (dependency_reaches_iff s.tasks d task.id).1 l)),
        commit-IsCommitted v s id task (with_dependency task d) _ r h known refl done,
      )

  removed :
      (id d : Text) (r : DomainSuccess DomainMutation)
      → remove_task_dependency v (task_dependency_command id d) ≡ ok r
      → (task : Task) × (task_of s.tasks id ≡ some task)
        × (is_graph_mutable task.state ≡ true)
        × (includes task.dependency_ids d ≡ true)
        × (commit s task
              (without_dependency task d)
              (dependency_event DomainEventType.dependency_removed task d)
            ≡ ok r)
  unfolding remove_task_dependency dependency_command read_exact_record identifier
      require_mutable_task
  removed id d r k = ground arith

  -- When a dependency is removed, the Task had it and was in a state in which its links may
  -- change, and the result is `s` with this Task at its next revision, without the dependency.
  pub remove_task_dependency_effect :
      (id d : Text) (r : DomainSuccess DomainMutation)
      → remove_task_dependency v (task_dependency_command id d) ≡ ok r
      → (task : Task) × (task_of s.tasks id ≡ some task)
        × (is_graph_mutable task.state ≡ true)
        × (includes task.dependency_ids d ≡ true)
        × IsCommitted s task
            (without_dependency task d)
            (dependency_event DomainEventType.dependency_removed task d)
            r
  remove_task_dependency_effect id d r k =
      let (task, known, free, old, done) = removed id d r k in
      (
        task,
        known,
        free,
        old,
        commit-IsCommitted v s id task (without_dependency task d) _ r h known refl done,
      )

  reparented :
      (id : Text) (p : Option Text) (r : DomainSuccess DomainMutation)
      → set_task_parent v (set_task_parent_command id p) ≡ ok r
      → (task : Task) × (task_of s.tasks id ≡ some task)
        × (is_graph_mutable task.state ≡ true)
        × (same_nullable task.parent_id p ≡ false)
        × (check_proposed_parent s.tasks task p ≡ ok tt)
        × (commit s task
              (record task { parent_id = p })
              (λ changed.
                event DomainEventType.parent_changed changed.id
                  (some task.revision)
                  changed.revision
                  (("parentId", or_null changed.parent_id) ∷ []))
            ≡ ok r)
  unfolding set_task_parent read_exact_record identifier nullable_identifier require_mutable_task
  reparented id p r k = ground arith

  -- When the parent is set, the Task was in a state in which its links may change and had another parent or none, the proposed parent, if there is one, is another registered Task of the same Project that does not stand below the Task at any distance, and the result is `s` with this Task at its next revision, under the new parent or under none. The checks of the source, whose search ends, pass exactly for such parents.
  pub set_task_parent_effect :
      (id : Text) (p : Option Text) (r : DomainSuccess DomainMutation)
      → set_task_parent v (set_task_parent_command id p) ≡ ok r
      → (task : Task) × (task_of s.tasks id ≡ some task)
        × (is_graph_mutable task.state ≡ true)
        × (task.parent_id ≢ p)
        × IsProposed s.tasks task p
        × ((q : Option Text)
            → (check_proposed_parent s.tasks task q ≡ ok tt) ↔ IsProposed s.tasks task q)
        × IsCommitted s task
            (record task { parent_id = p })
            (λ changed.
              event DomainEventType.parent_changed changed.id
                (some task.revision)
                changed.revision
                (("parentId", or_null changed.parent_id) ∷ []))
            r
  set_task_parent_effect id p r k =
      let (task, known, free, new, allowed, done) = reparented id p r k in
      let valid = parse_snapshot-IsSnapshot v s h in
      let at_id : task_of s.tasks task.id ≡ some task =
        ap (task_of s.tasks) (id_of_task_of s.tasks id task known) ∙ known in
      let accepts = check_proposed_parent_iff s.tasks valid.hierarchy task at_id in
      (
        task,
        known,
        free,
        same_nullable-eq task.parent_id p new,
        (accepts p).0 allowed,
        accepts,
        commit-IsCommitted v s id task _ _ r h known refl done,
      )

  superseded :
      (id : Text) (p : Option Text) (r : DomainSuccess DomainMutation)
      → set_task_supersession v (set_task_supersession_command id p) ≡ ok r
      → (task : Task) × (task_of s.tasks id ≡ some task)
        × (is_terminal task.state ≡ false)
        × (is_text p task.id ≡ false)
        × (is_missing s.tasks p ≡ false)
        × (commit s task
              (record task { supersedes_task_id = p })
              (λ changed.
                event DomainEventType.supersession_changed changed.id
                  (some task.revision)
                  changed.revision
                  (("supersedesTaskId", or_null changed.supersedes_task_id) ∷ []))
            ≡ ok r)
  unfolding set_task_supersession read_exact_record identifier nullable_identifier
      require_mutable_task
  superseded id none r k = ground arith
  superseded id (some p) r k = ground arith

  -- When the superseded Task is set, the Task was not terminal, the superseded Task is another one
  -- that is registered, or none, and the result is `s` with this Task at its next revision, with
  -- the new link.
  pub set_task_supersession_effect :
      (id : Text) (p : Option Text) (r : DomainSuccess DomainMutation)
      → set_task_supersession v (set_task_supersession_command id p) ≡ ok r
      → (task : Task) × (task_of s.tasks id ≡ some task)
        × (is_terminal task.state ≡ false)
        × (is_text p task.id ≡ false)
        × (is_missing s.tasks p ≡ false)
        × IsCommitted s task
            (record task { supersedes_task_id = p })
            (λ changed.
              event DomainEventType.supersession_changed changed.id
                (some task.revision)
                changed.revision
                (("supersedesTaskId", or_null changed.supersedes_task_id) ∷ []))
            r
  set_task_supersession_effect id p r k =
      let (task, known, alive, other, there, done) = superseded id p r k in
      (task, known, alive, other, there, commit-IsCommitted v s id task _ _ r h known refl done)

  -- A dependency that leads back to the Task is refused as a cycle, and nothing else is done: for
  -- a Task that may change its links, another registered Task that it does not depend on directly.
  pub add_task_dependency_cycle :
      (id d : Text) (task : Task)
      → is_empty id ≡ false
      → is_empty d ≡ false
      → task_of s.tasks id ≡ some task
      → is_graph_mutable task.state ≡ true
      → same id d ≡ false
      → is_defined (task_of s.tasks d) ≡ true
      → includes task.dependency_ids d ≡ false
      → Leads s.tasks d task.id
      → add_task_dependency v (task_dependency_command id d)
        ≡ err (about_task DomainErrorCode.dependency_cycle task.id)
  unfolding add_task_dependency dependency_command read_exact_record identifier require_mutable_task
  add_task_dependency_cycle id d task named named' known free other registered new l =
      rw (h, named, named', known) (ground (arith, (dependency_reaches_iff s.tasks d task.id).1 l))
