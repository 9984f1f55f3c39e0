-- ===== src/Domain/Transition/Cancel/Affected.antt =====
-- The Tasks that a cancellation sends to `waiting`.
use agent_task_orchestrator.Base.{
  Text, ◌≡◌, refl, true, List, [], ◌∷◌, arith, same→eq, includes, map, keep, In, All, All-In,
  All-sort, In-sort, In-keep, keep-In,
}
use agent_task_orchestrator.Domain.States.{TaskState, same_state}
use agent_task_orchestrator.Domain.Records.{Task, DomainSnapshot, DependentWaitingInput}
use agent_task_orchestrator.Domain.Snapshot.{task_id}
use agent_task_orchestrator.Domain.Transition.Cancel.{is_affected, affected_by, covers}

abbrev pub input_id : DependentWaitingInput → Text
input_id d = d.task_id

-- The Tasks that wait after the cancellation of the Task `id`: the ready Tasks of the snapshot that
-- have it as a dependency, all of them, and the ones that the inputs name, in this order.
pub record AreAffected (s : DomainSnapshot) (id : Text) (inputs : List DependentWaitingInput)
    : Type 0 where
  pub only :
      (t : Task)
      → In t (affected_by s id)
      → In t s.tasks × (t.state ≡ TaskState.ready) × (includes t.dependency_ids id ≡ true)
  pub every :
      (t : Task)
      → In t s.tasks
      → t.state ≡ TaskState.ready
      → includes t.dependency_ids id ≡ true
      → In t (affected_by s id)
  pub named : map task_id (affected_by s id) ≡ map input_id inputs

is_ready-eq : (a : TaskState) → same_state a TaskState.ready ≡ true → a ≡ TaskState.ready
is_ready-eq TaskState.ready h = refl
is_ready-eq _ h = absurd (cc)

covers-named :
    (ts : List Task) (ds : List DependentWaitingInput)
    → covers ts ds ≡ true
    → map task_id ts ≡ map input_id ds
covers-named [] [] h = refl
covers-named [] (d ∷ ds) h = absurd (cc)
covers-named (t ∷ ts) [] h = absurd (cc)
covers-named (t ∷ ts) (d ∷ ds) h = ground (arith, same→eq t.id d.task_id, covers-named ts ds)

All-of {κ} : {P : Task → Type κ} (l : List Task) → ((t : Task) → In t l → P t) → All P l
All-of [] f = tt
All-of (t ∷ ts) f = (f t In.here, All-of ts (λ x i. f x (In.there i)))

kept_tests :
    (id : Text) (l : List Task)
    → All
        (λ t. In t l × (t.state ≡ TaskState.ready) × (includes t.dependency_ids id ≡ true))
        (keep (is_affected id) l)
kept_tests id l = All-of (keep (is_affected id) l) (λ t i.
    let (j, h) = keep-In (is_affected id) l i in
    (j, is_ready-eq t.state (ground arith), ground arith))

pub covers-AreAffected :
    (s : DomainSnapshot) (id : Text) (inputs : List DependentWaitingInput)
    → covers (affected_by s id) inputs ≡ true
    → AreAffected s id inputs
covers-AreAffected s id inputs h = record {
  only = λ t i.
      All-In _ (All-sort task_id _ (keep (is_affected id) s.tasks) (kept_tests id s.tasks)) i;
  every = λ t i e f. In-sort task_id (In-keep (is_affected id) i (rw (e, f) refl));
  named = covers-named (affected_by s id) inputs h;
}
