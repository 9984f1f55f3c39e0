-- ===== src/Domain/Continuation/Decision.antt =====
-- When a waiting Task may go on.
use agent_task_orchestrator.Base.{
  Text, ℤ, ◌≡◌, refl, ap, sym, ◌∙◌, Bool, true, false, Option, none, some, arith, ◌↔◌, All,
  is_empty, same→eq, eq→same, text, List, [], not, ◌||◌,
}
use agent_task_orchestrator.Domain.Errors.{ContinuationReason}
use agent_task_orchestrator.Domain.Records.{
  Task, WaitingMetadata, DomainSnapshot, ContinuationKind, WaitingContinuationCommand,
}
use agent_task_orchestrator.Domain.Graph.{task_of}
use agent_task_orchestrator.Domain.Snapshot.{project_of}
use agent_task_orchestrator.Domain.Tasks.{waiting_of}
use agent_task_orchestrator.Domain.Eligibility.{
  add_reason_if, add_for_project, add_for_dependencies,
}
use agent_task_orchestrator.Domain.Eligibility.Decision.{
  IsEnabled, IsCompleted, is_empty-sort, is_empty-add_reason, is_empty-add_for_project,
  is_empty-add_for_dependencies,
}
use agent_task_orchestrator.Domain.Continuation.{
  continuation_name, continuation_reasons, waiting_reasons_of, is_stale_revision, is_stale_receipt,
  is_mismatch, differs_if_set, add_for_kind, is_none, is_later, reasons_for,
}

-- An identity that is recorded must be the target's.
abbrev pub IsTarget : Option Text → Option Text → Type 0
IsTarget none target = Unit
IsTarget (some a) target = target ≡ some a

-- What a resume and a retry need of the waiting metadata.
abbrev pub IsContinuable : ContinuationKind → WaitingMetadata → ℤ → Type 0
IsContinuable ContinuationKind.resume w now = (id : Text) × (w.execution_id ≡ some id)
IsContinuable ContinuationKind.retry w now =
    (w.retryable ≡ true) × (is_later w.retry_after now ≡ false)

-- The revisions, the receipt and the identities are those of the waiting Task.
pub record IsCurrent (task : Task) (w : WaitingMetadata) (c : WaitingContinuationCommand)
    : Type 0 where
  pub revision : task.revision ≡ c.expected_task_revision
  pub since : w.waiting_task_revision ≡ c.expected_task_revision
  pub receipt_task : c.required_action_receipt.task_id ≡ task.id
  pub receipt_revision : c.required_action_receipt.task_revision ≡ c.expected_task_revision
  pub receipt_action : c.required_action_receipt.required_action ≡ w.required_action
  pub execution : IsTarget w.execution_id c.target_execution_id
  pub workspace : IsTarget w.workspace_revision c.target_workspace_revision
  pub thread : IsTarget w.backend_thread_id c.target_backend_thread_id

is_empty-add_reason_if :
    (b : Bool) (r : ContinuationReason) (rs : List ContinuationReason)
    → (is_empty (add_reason_if continuation_name b r rs) ≡ true)
      ↔ ((b ≡ false) × (is_empty rs ≡ true))
is_empty-add_reason_if b r rs = ground (arith, is_empty-add_reason continuation_name r rs)

differs_if_set_iff : (a b : Option Text) → (differs_if_set a b ≡ false) ↔ IsTarget a b
differs_if_set_iff none b = ground arith
differs_if_set_iff (some a) none = ground arith
differs_if_set_iff (some a) (some b) = ground (arith, same→eq a b, eq→same b a, eq→same a b)

is_stale_revision_iff :
    (task : Task) (w : WaitingMetadata) (c : WaitingContinuationCommand)
    → (is_stale_revision task w c ≡ false) ↔ (
        (task.revision ≡ c.expected_task_revision)
        × (w.waiting_task_revision ≡ c.expected_task_revision))
is_stale_revision_iff task w c = ground arith

is_stale_receipt_iff :
    (task : Task) (w : WaitingMetadata) (c : WaitingContinuationCommand)
    → (is_stale_receipt task w c ≡ false) ↔ (
        (c.required_action_receipt.task_id ≡ task.id)
        × (c.required_action_receipt.task_revision ≡ c.expected_task_revision)
        × (c.required_action_receipt.required_action ≡ w.required_action))
is_stale_receipt_iff task w c = ground (
  arith,
  same→eq c.required_action_receipt.task_id task.id,
  eq→same c.required_action_receipt.task_id task.id,
  same→eq c.required_action_receipt.required_action w.required_action,
  eq→same c.required_action_receipt.required_action w.required_action,
)

none_of_three : (a b c : Bool) → ((a || b || c) ≡ false) ↔ ((a ≡ false) × (b ≡ false) × (c ≡ false))
none_of_three a b c = ground arith

is_mismatch_iff :
    (w : WaitingMetadata) (c : WaitingContinuationCommand)
    → (is_mismatch w c ≡ false) ↔ (
        IsTarget w.execution_id c.target_execution_id
        × IsTarget w.workspace_revision c.target_workspace_revision
        × IsTarget w.backend_thread_id c.target_backend_thread_id)
is_mismatch_iff w c =
    let execution = differs_if_set_iff w.execution_id c.target_execution_id in
    let workspace = differs_if_set_iff w.workspace_revision c.target_workspace_revision in
    let thread = differs_if_set_iff w.backend_thread_id c.target_backend_thread_id in
    let none_differs =
      none_of_three (differs_if_set w.execution_id c.target_execution_id)
        (differs_if_set w.workspace_revision c.target_workspace_revision)
        (differs_if_set w.backend_thread_id c.target_backend_thread_id) in
    (
      λ h. let (x, y, z) = none_differs.0 h in (execution.0 x, workspace.0 y, thread.0 z),
      λ h. none_differs.1 (execution.1 h.0, workspace.1 h.1, thread.1 h.2),
    )

is_none_iff : (o : Option Text) → (is_none o ≡ false) ↔ ((id : Text) × (o ≡ some id))
is_none_iff none = (λ h. absurd (cc), λ h. absurd (cc))
is_none_iff (some a) = (λ h. (a, refl), λ h. refl)

is_empty-add_for_kind :
    (k : ContinuationKind) (w : WaitingMetadata) (now : ℤ) (rs : List ContinuationReason)
    → (is_empty (add_for_kind k w now rs) ≡ true) ↔ (IsContinuable k w now × (is_empty rs ≡ true))
is_empty-add_for_kind ContinuationKind.resume w now rs =
    let reason =
      is_empty-add_reason_if (is_none w.execution_id) ContinuationReason.execution_id_required rs in
    let has = is_none_iff w.execution_id in
    (λ h. let (a, b) = reason.0 h in (has.0 a, b), λ h. reason.1 (has.1 h.0, h.1))
is_empty-add_for_kind ContinuationKind.retry w now rs =
    let first = is_empty-add_reason_if (not w.retryable) ContinuationReason.not_retryable rs in
    let second =
      is_empty-add_reason_if (is_later w.retry_after now) ContinuationReason.retry_too_early
        (add_reason_if continuation_name (not w.retryable) ContinuationReason.not_retryable rs) in
    (
      λ h. let (a, b) = second.0 h in let (d, e) = first.0 b in ((ground arith, a), e),
      λ h. second.1 (h.0.1, first.1 (ground arith, h.1)),
    )

-- A waiting Task has no reason against a continuation exactly when the command and its receipt are for the Task at its revision and for the action and the identities it waits with, its Project is registered and enabled, its dependencies are registered and completed, and, for a resume, an execution is recorded or, for a retry, the Task is retryable and not before its time.
pub continuation_reasons_iff :
    (s : DomainSnapshot) (task : Task) (w : WaitingMetadata) (c : WaitingContinuationCommand)
    → waiting_of task ≡ some w
    → (is_empty (continuation_reasons s task c) ≡ true) ↔ (
        IsCurrent task w c
        × IsEnabled (project_of s.projects task.project_id)
        × All (λ d. IsCompleted (task_of s.tasks d)) task.dependency_ids
        × IsContinuable c.kind w c.trusted_time)
unfolding continuation_reasons waiting_reasons_of
continuation_reasons_iff s task w c e =
    let name = continuation_name in
    let l1 =
      add_reason_if name (is_stale_revision task w c) ContinuationReason.task_revision_stale [] in
    let l2 =
      add_for_project name ContinuationReason.project_not_registered
        ContinuationReason.project_disabled (project_of s.projects task.project_id) l1 in
    let l3 =
      add_for_dependencies name ContinuationReason.dependency_not_registered
        ContinuationReason.dependency_not_completed s.tasks task.dependency_ids l2 in
    let l4 =
      add_reason_if name (is_stale_receipt task w c)
        ContinuationReason.required_action_receipt_stale l3 in
    let l5 = add_reason_if name (is_mismatch w c) ContinuationReason.identity_mismatch l4 in
    let sorted =
      ap (λ o. is_empty (reasons_for s task o c)) e
      ∙ is_empty-sort (λ r. text (name r)) (add_for_kind c.kind w c.trusted_time l5) in
    let step1 =
      is_empty-add_reason_if (is_stale_revision task w c) ContinuationReason.task_revision_stale
        [] in
    let step2 =
      is_empty-add_for_project name ContinuationReason.project_not_registered
        ContinuationReason.project_disabled (project_of s.projects task.project_id) l1 in
    let step3 =
      is_empty-add_for_dependencies name ContinuationReason.dependency_not_registered
        ContinuationReason.dependency_not_completed s.tasks task.dependency_ids l2 in
    let step4 =
      is_empty-add_reason_if (is_stale_receipt task w c)
        ContinuationReason.required_action_receipt_stale l3 in
    let step5 = is_empty-add_reason_if (is_mismatch w c) ContinuationReason.identity_mismatch l4 in
    let step6 = is_empty-add_for_kind c.kind w c.trusted_time l5 in
    let revisions = is_stale_revision_iff task w c in
    let receipt = is_stale_receipt_iff task w c in
    let identity = is_mismatch_iff w c in
    (
      λ h.
          let (kind, h5) = step6.0 (sym sorted ∙ h) in
          let (same_identity, h4) = step5.0 h5 in
          let (current_receipt, h3) = step4.0 h4 in
          let (done, h2) = step3.0 h3 in
          let (enabled, h1) = step2.0 h2 in
          let (current, _) = step1.0 h1 in
          let (i, j, k) = identity.0 same_identity in
          let (l, m, n) = receipt.0 current_receipt in
          let (p, q) = revisions.0 current in
          (
            record {
              revision = p;
              since = q;
              receipt_task = l;
              receipt_revision = m;
              receipt_action = n;
              execution = i;
              workspace = j;
              thread = k;
            },
            enabled,
            done,
            kind,
          ),
      λ (now, enabled, done, kind).
          sorted
          ∙ step6.1 (
            kind,
            step5.1 (
              identity.1 (now.execution, now.workspace, now.thread),
              step4.1 (
                receipt.1 (now.receipt_task, now.receipt_revision, now.receipt_action),
                step3.1 (
                  done,
                  step2.1 (enabled, step1.1 (revisions.1 (now.revision, now.since), refl)),
                ),
              ),
            ),
          ),
    )
