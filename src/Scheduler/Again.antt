-- ===== src/Scheduler/Again.antt =====
-- src/scheduler-port.ts: a request that was accepted, read once more.
use agent_task_orchestrator.Base.{
  Text, ℕ, ◌≡◌, refl, ◌∙◌, inl, inr, ap, [], ◌∷◌, Option, none, some, arith, same, Option-cases,
  Bool-cases, sym,
}
use agent_task_orchestrator.Domain.Value.{Value, Fields, Unicode, get, is_constant}
use agent_task_orchestrator.Domain.Encode.{natural, nullable_text_value}
use agent_task_orchestrator.Reader.{◌>>=◌, revision, exact_record, or_null_by}
use agent_task_orchestrator.Ports.{name, named, bounded_text}
use agent_task_orchestrator.Scheduler.Requests.{
  SchedulerOperation, SchedulerScope, SchedulerRequestBase, SchedulerBackendRequest, operation_name,
  scheduler_operations, contract_id, scope_from, parse_scope, base_from, register_from,
  inspect_from, remove_from, request_by, request_from, request_record,
  parse_scheduler_backend_request, scope_value, request_value, base_of,
}

pub name-again : (v : Value) (s : Text) → name v ≡ some s → name (Value.string s) ≡ some s
unfolding name
name-again v s h = ground arith

revision-again : (v : Value) (n : ℕ) → revision v ≡ some n → revision (natural n) ≡ some n
unfolding revision
revision-again v n h = ground arith

or_null_by-name :
    (v : Value) (o : Option Text)
    → or_null_by name v ≡ some o
    → or_null_by name (nullable_text_value o) ≡ some o
unfolding or_null_by
or_null_by-name v none h = refl
or_null_by-name v (some s) h = ground (arith, name-again v s)

scope_from-again :
    (v1 v2 v3 v4 : Value) (s : SchedulerScope)
    → scope_from v1 v2 v3 v4 ≡ some s
    → parse_scope (scope_value s) ≡ some s
unfolding scope_from parse_scope exact_record same
scope_from-again v1 v2 v3 v4 SchedulerScope.runtime h = refl
scope_from-again v1 v2 v3 v4 (SchedulerScope.project id resource config) h =
    ground (arith, name-again v2 id, revision-again v3 resource, revision-again v4 config)

scope_of_fields-again :
    (o : Option Fields) (s : SchedulerScope)
    → (o >>= λ r.
        scope_from
          (get r "kind")
          (get r "projectId")
          (get r "projectResourceRevision")
          (get r "projectConfigRevision"))
      ≡ some s
    → parse_scope (scope_value s) ≡ some s
scope_of_fields-again none s h = absurd (cc)
scope_of_fields-again (some r) s h =
    scope_from-again (get r "kind") (get r "projectId") (get r "projectResourceRevision")
      (get r "projectConfigRevision") s h

parse_scope-again :
    (v : Value) (s : SchedulerScope) → parse_scope v ≡ some s → parse_scope (scope_value s) ≡ some s
unfolding parse_scope
parse_scope-again v s h =
    scope_of_fields-again
      (exact_record v
        ("kind" ∷ "projectId" ∷ "projectResourceRevision" ∷ "projectConfigRevision" ∷ []))
      s h

base_from-again :
    (v1 v2 v3 v4 v5 : Value) (b : SchedulerRequestBase)
    → base_from v1 v2 v3 v4 v5 ≡ some b
    → base_from
        (Value.string b.operation_id)
        (Value.string b.correlation_id)
        (Value.string b.schedule_id)
        (natural b.config_revision)
        (scope_value b.scope)
      ≡ some b
unfolding base_from
base_from-again v1 v2 v3 v4 v5 b h = ground (
  arith,
  name-again v1 b.operation_id,
  name-again v2 b.correlation_id,
  name-again v3 b.schedule_id,
  revision-again v4 b.config_revision,
  parse_scope-again v5 b.scope,
)

module _ ⦃u : Unicode⦄ where
  bounded_text-again :
      (maximum : ℕ) (v : Value) (s : Text)
      → bounded_text maximum v ≡ some s
      → bounded_text maximum (Value.string s) ≡ some s
  unfolding bounded_text
  bounded_text-again maximum v s h = ground arith

  -- The rest of the reading, given the part that all requests have.
  abbrev IsReadAgain : SchedulerBackendRequest → Type 0
  IsReadAgain q =
      base_from (Value.string (base_of q).operation_id) (Value.string (base_of q).correlation_id)
          (Value.string (base_of q).schedule_id) (natural (base_of q).config_revision)
          (scope_value (base_of q).scope)
        ≡ some (base_of q)
      → parse_scheduler_backend_request (request_value q) ≡ some q

  register_from-again :
      (b : SchedulerRequestBase) (v1 v2 v3 v4 : Value) (q : SchedulerBackendRequest)
      → register_from b v1 v2 v3 v4 ≡ some q
      → (base_of q ≡ b) × IsReadAgain q
  unfolding register_from parse_scheduler_backend_request request_from request_record exact_record
      same named
  register_from-again b v1 v2 v3 v4 (SchedulerBackendRequest.to_register r) h = (
    ground arith,
    λ k. rw k (
        ground (
          arith,
          name-again v1 r.idempotency_key,
          bounded_text-again 256 v2 r.schedule_expression,
          bounded_text-again 128 v3 r.time_zone,
          name-again v4 r.dispatcher_target,
        )),
  )
  register_from-again b v1 v2 v3 v4 (SchedulerBackendRequest.to_inspect r) h = absurd (ground arith)
  register_from-again b v1 v2 v3 v4 (SchedulerBackendRequest.to_remove r) h = absurd (ground arith)

  inspect_from-again :
      (b : SchedulerRequestBase) (v : Value) (q : SchedulerBackendRequest)
      → inspect_from b v ≡ some q
      → (base_of q ≡ b) × IsReadAgain q
  unfolding inspect_from parse_scheduler_backend_request request_from request_record exact_record
      same named
  inspect_from-again b v (SchedulerBackendRequest.to_register r) h = absurd (ground arith)
  inspect_from-again b v (SchedulerBackendRequest.to_inspect r) h =
      (ground arith, λ k. rw k (ground (arith, or_null_by-name v r.external_registration_id)))
  inspect_from-again b v (SchedulerBackendRequest.to_remove r) h = absurd (ground arith)

  remove_from-again :
      (b : SchedulerRequestBase) (v1 v2 : Value) (q : SchedulerBackendRequest)
      → remove_from b v1 v2 ≡ some q
      → (base_of q ≡ b) × IsReadAgain q
  unfolding remove_from parse_scheduler_backend_request request_from request_record exact_record
      same named
  remove_from-again b v1 v2 (SchedulerBackendRequest.to_register r) h = absurd (ground arith)
  remove_from-again b v1 v2 (SchedulerBackendRequest.to_inspect r) h = absurd (ground arith)
  remove_from-again b v1 v2 (SchedulerBackendRequest.to_remove r) h = (
    ground arith,
    λ k.
        rw k (
          ground
            (arith, name-again v1 r.idempotency_key, name-again v2 r.external_registration_id)),
  )

  request_by-again :
      (operation : SchedulerOperation) (b : SchedulerRequestBase) (f : Fields)
      (q : SchedulerBackendRequest)
      → request_by operation b f ≡ some q
      → (base_of q ≡ b) × IsReadAgain q
  request_by-again SchedulerOperation.register b f q h =
      register_from-again b (get f "idempotencyKey") (get f "scheduleExpression") (get f "timeZone")
        (get f "dispatcherTarget") q h
  request_by-again SchedulerOperation.inspect b f q h =
      inspect_from-again b (get f "externalRegistrationId") q h
  request_by-again SchedulerOperation.remove b f q h =
      remove_from-again b (get f "idempotencyKey") (get f "externalRegistrationId") q h

  -- The end of `request_from`, for the operation and the base that it reads.
  request_of_parts-again :
      (o : Option SchedulerOperation) (v1 v2 v3 v4 v5 : Value) (f : Fields)
      (q : SchedulerBackendRequest)
      → (o >>= λ operation. base_from v1 v2 v3 v4 v5 >>= λ b. request_by operation b f) ≡ some q
      → parse_scheduler_backend_request (request_value q) ≡ some q
  request_of_parts-again none v1 v2 v3 v4 v5 f q h = absurd (cc)
  request_of_parts-again (some operation) v1 v2 v3 v4 v5 f q h =
      elim (Option-cases (base_from v1 v2 v3 v4 v5)) [
        | inl e ↦ absurd (ground arith)
        | inr x ↦
            let (b, e) = x in
            let (base, again) = request_by-again operation b f q (rw e at h) in
            let read : base_from v1 v2 v3 v4 v5 ≡ some (base_of q) = e ∙ ap some (sym base) in
            again (base_from-again v1 v2 v3 v4 v5 (base_of q) read)
      ]

  request_of_fields-again :
      (o : Option Fields) (q : SchedulerBackendRequest)
      → (o >>= request_from) ≡ some q
      → parse_scheduler_backend_request (request_value q) ≡ some q
  unfolding request_from
  request_of_fields-again none q h = absurd (cc)
  request_of_fields-again (some f) q h =
      elim (Bool-cases (is_constant (get f "contractId") contract_id)) [
        | inl e ↦
            request_of_parts-again (named operation_name scheduler_operations (get f "operation"))
              (get f "operationId") (get f "correlationId") (get f "scheduleId")
              (get f "configRevision") (get f "scope") f q (rw e at h)
        | inr e ↦ absurd (ground arith)
      ]

  -- A request that `parseSchedulerBackendRequest` accepts is accepted again, as the object that it is, and as the same request.
  pub parse_scheduler_backend_request-again :
      (v : Value) (q : SchedulerBackendRequest)
      → parse_scheduler_backend_request v ≡ some q
      → parse_scheduler_backend_request (request_value q) ≡ some q
  unfolding parse_scheduler_backend_request
  parse_scheduler_backend_request-again v q h = request_of_fields-again (request_record v) q h
