-- ===== src/Application/Witnesses.antt =====
-- The theorems on the application's commands, applied to the samples.
use agent_task_orchestrator.Base.{◌≡◌, List, text, true, none, ◌++◌}
use agent_task_orchestrator.Domain.Errors.{ok}
use agent_task_orchestrator.Domain.Records.{DependentWaitingInput}
use agent_task_orchestrator.Domain.Snapshot.WellFormed.{IsSnapshot}
use agent_task_orchestrator.Domain.Transition.Cancel.{covers, affected_by}
use agent_task_orchestrator.Domain.Transition.Receipts.{parse_dependent_waiting}
use agent_task_orchestrator.Domain.Samples.{ascii, given, snapshot, parse-given}
use agent_task_orchestrator.Application.Commands.{dependent_waiting, target_of_command}
use agent_task_orchestrator.Application.Accepted.{
  IsCancellable, AreCurrent, domain_mutation-IsSnapshot,
}
use agent_task_orchestrator.Application.Dependents.{dependent_waiting-covers}
use agent_task_orchestrator.Application.Grants.{matches, list_grants}
use agent_task_orchestrator.Application.Paging.{
  remaining, read_pages, list_grants-matches, read_pages-matches,
}
use agent_task_orchestrator.Application.Samples.{
  state, command, cancellation, cancels, grants_unique, two_listed,
}

domain_mutation-IsSnapshot_example :
    IsSnapshot cancellation.snapshot
    × IsCancellable state command
    × AreCurrent state (target_of_command command)
domain_mutation-IsSnapshot_example =
    domain_mutation-IsSnapshot state parse-given command cancellation cancels

dependent_waiting-covers_example :
    (inputs : List DependentWaitingInput) × (parse_dependent_waiting
        (dependent_waiting snapshot (text "a"))
      ≡ ok inputs)
    × (covers (affected_by snapshot (text "a")) inputs ≡ true)
dependent_waiting-covers_example = dependent_waiting-covers given snapshot (text "a") parse-given

list_grants-matches_example :
    matches state none
    ≡ (list_grants state 1 none).grants ++ remaining state (list_grants state 1 none).next_cursor
list_grants-matches_example = list_grants-matches state grants_unique 0 none

read_pages-matches_example : read_pages state 1 3 none ≡ matches state none
read_pages-matches_example = read_pages-matches state grants_unique 0 3 none two_listed
