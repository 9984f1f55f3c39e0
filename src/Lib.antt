-- ===== src/Lib.antt =====
-- agent-task-orchestrator: the domain core, the authorization of actions, the port to an external
-- scheduler and the one to a Project's policy, and the application's commands on the domain.
--
-- The domain core is src/domain.ts: the Projects and Tasks that the orchestrator keeps, the snapshot
-- that holds them, and the pure operations on it. The application service, the dispatcher, the
-- scheduler and the stores call these operations and hold the snapshots they return.
-- src/authorization.ts decides by the grants of an actor whether an action is allowed, and whether a
-- grant may be issued; every service asks it before it acts. src/scheduler-port.ts is where the
-- scheduler's service calls an external adapter, whose answers it does not trust, and
-- src/project-policy-port.ts reads the answers of a policy in the same way.
-- src/application-domain.ts turns the commands of the application's service into calls of the domain.
--
-- The parts and their files outside Domain:
--   Reader         exactRecord, canonicalArray and the tests on scalars that answer null
--   Authorization  Actions (the lists and vocabularies), Grants (parseAuthorizationGrant, scopeMatches),
--                  Evaluate (evaluateAuthorization), Issue (canIssueGrant); Decision, Delegation and
--                  Vocabulary hold the theorems
--   Ports          what the ports share: the categories of a failure, FAILURE_FLAGS, the identifier's
--                  pattern, boundedText
--   Scheduler      Requests (parseSchedulerBackendRequest, parseSchedulerDispatchTrigger), Port (the
--                  receipts and schedulerReceiptSemanticsAreValid), Results (parseSchedulerBackendResult,
--                  invokeSchedulerBackend); Again, Meaning, Receipts and
--                  Invocation hold the theorems
--   Application    Model (the commands and the state), Commands (domainMutation and the other steps from
--                  commands to the operations of the domain), Grants (the pages of
--                  authorization.grant.list), of src/application-domain.ts; Accepted, Dependents and
--                  Paging hold the theorems
--   Policy         Values, Subjects, Facts, Requests and Results of src/project-policy-port.ts
--                  (parseProjectPolicyRequest, parseProjectPolicyFacts, parseProjectPolicyResult); Gates,
--                  Bounds and Receipts hold the theorems; Local is the dispatch of
--                  src/local-project-policy.ts, with Readings, Outcomes, Answers and Samples
-- These have modules Samples and Witnesses. The adapter of the scheduler is an argument, a record of its
-- three methods, each of which returns a value or throws (`none`).
--
-- The parts and their files, under Domain:
--   States       the Task states, waiting reasons, events and the relation TASK_TRANSITIONS
--   Errors       DomainError, DomainEvent, the results (Parsed, DomainResult) and their bind
--   Records      the interfaces of the snapshot, the commands and the receipts
--   Value        unknown values, readExactRecord, readCanonicalArray and the scalar readers
--   Encode       the values that records of the domain are, as the source hands them to its parsers
--   Parse        parseProject, parseTask and the parsers of the facts that a Task carries
--   Graph        taskById, parentCycle, dependencyCycle, dependencyReaches
--   Snapshot     parseSnapshot in its two modes
--   Mutation     nextTask, replaceTasks, requireMutableTask and the common end of the operations
--   Projects     registerProject, setProjectEnabled
--   Tasks        createTask, updateTaskBody, updateTaskWaiting
--   Links        setTaskParent, addTaskDependency, removeTaskDependency, setTaskSupersession
--   Eligibility  eligibilityReasons, evaluateTaskEligibility
--   Continuation continuationReasons, evaluateWaitingContinuation
--   Transition   transitionTask with every event, the receipts it reads and the cancellation of
--                direct dependents
--   Commands     the values of the commands that the theorems speak about
-- The modules below a part hold its theorems. Samples holds a snapshot of four Tasks, to which the
-- modules Witnesses, ClaimWitnesses, CreateWitnesses, CancelWitnesses, CancelTransitions,
-- InterruptionWitnesses and ContinuationWitnesses apply them. Base holds the helpers: Boolean tests,
-- lists, texts as lists of UTF-16 code units, the insertion sort that stands for the sorts by
-- identifier, and integers.
--
-- Each operation is the source's unchecked function: it takes the snapshot and the command as
-- unknown values and returns the result or the error, with the code and the details of the source.
-- Where several guards of the source share one error, they are one step or several with that error.
--
-- Fuel: the climb over the parents has one step more than there are Tasks, and each round sees a new
-- identifier, also in the climb from a proposed parent; the depth-first search has two more, and each level is visiting another identifier;
-- the worklist has one more than there are dependencies, and pushes those of a Task once. That this
-- is enough is part of the equivalences of these searches.
--
-- Not modelled: the messages of errors; freezing and copying of objects; exceptions of the host, for
-- which guardPublicResult stands (a value here has data properties only, and `exotic` is every other
-- one, which the readers refuse); the value of a number that is no integer, which is a `fraction`. The two
-- Unicode facts that the cancellation reason needs, the classes Cc and Cf and the normal form NFC, are
-- the parameter `Unicode`, and the test of a text as a date in the ISO form is the parameter `Dates`, with no
-- law assumed. Of the local policy, the copying of the configuration, which throws, is not modelled, and
-- the digest of a value and the addition of seconds to a time are the parameter `Runtime`, with no
-- law assumed; the sum is `none` where `toISOString` throws. A lookup in a Map of Tasks is the first Task
-- with the identifier: a list with repeated identifiers, where the Map holds the last one, is refused
-- before the Map is built. Of the application, the reading of commands, requests, identities and audit records is
-- not modelled; of its state the model holds the domain, the grants, the actors and the executions.
mod Base
pub mod Reader
pub mod Authorization
pub mod Ports
pub mod Scheduler
pub mod Domain
pub mod Application
pub mod Policy
