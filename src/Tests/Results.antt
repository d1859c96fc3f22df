-- ===== src/Tests/Results.antt =====
-- `ResultManager` on a short execution.
use package.a2a_js.Prelude.{some, List, [], ◌∷◌, ◌≡◌, refl, All}
use package.a2a_js.Types.{Artifact, working, completed, AgentExecutionEvent, task_event}
use package.a2a_js.Store.Scoped.{new_scoped_store, get_bucket}
use package.a2a_js.Store.Tasks.{load}
use package.a2a_js.Result.{new_result_manager, set_context, process_events}
use package.a2a_js.Result.Merge.{merge_artifacts}
use package.a2a_js.Result.Artifacts.{
  HasUniqueArtifacts, find_artifact, find_artifact-merge_artifacts,
}
use package.a2a_js.Result.History.{}
use package.a2a_js.Result.Stored.{IsConsistent, stored, process_events-IsConsistent}
use package.a2a_js.Result.Refinement.{IsNamed, after_events, stored-process_events}
use package.a2a_js.Result.InHistory.{AgreesTask, AgreesEvent, Stands, process_events-in_history}
use package.a2a_js.Tests.Data.{
  task_store, manager, message_of, task_of, update_to, artifact_event, artifact_of,
}

abbrev events : List AgentExecutionEvent
events = task_event (task_of working) ∷ artifact_event ∷ update_to completed ∷ []

manager-IsConsistent : IsConsistent task_store manager
unfolding load get_bucket new_scoped_store set_context new_result_manager
manager-IsConsistent = record { keyed = λ id t h. cc; current = λ t h. cc }

events-IsNamed : All IsNamed events
events-IsNamed = (refl, (refl, (refl, tt)))

stored-process_events_example :
    stored task_store "t1" (process_events task_store events manager)
    ≡ after_events manager.latest_user_message "t1" events (stored task_store "t1" manager)
stored-process_events_example =
    stored-process_events task_store events "t1" manager manager-IsConsistent events-IsNamed

latest_of_manager : manager.latest_user_message ≡ some (message_of "m9" "t1")
unfolding set_context new_result_manager
latest_of_manager = refl

-- Nothing is stored yet, and the other messages have other ids.
nothing_stored : AgreesTask (message_of "m9" "t1") (stored task_store "t1" manager)
unfolding load get_bucket new_scoped_store set_context new_result_manager
nothing_stored = tt

events_agree : All (AgreesEvent (message_of "m9" "t1")) events
events_agree = (((λ same. cc), tt), (tt, ((λ same. cc), tt)))

process_events-in_history_example :
    Stands
      (message_of "m9" "t1")
      (stored task_store "t1" (process_events task_store events manager))
process_events-in_history_example =
    process_events-in_history task_store (message_of "m9" "t1") (task_of working)
      (artifact_event ∷ update_to completed ∷ []) manager manager-IsConsistent latest_of_manager
      events-IsNamed nothing_stored events_agree

process_events-IsConsistent_example :
    IsConsistent task_store (process_events task_store events manager)
process_events-IsConsistent_example =
    process_events-IsConsistent task_store events manager manager-IsConsistent

abbrev drafts : List Artifact
drafts = artifact_of "a1" "draft" ∷ artifact_of "a2" "draft" ∷ []

abbrev finals : List Artifact
finals = artifact_of "a2" "final" ∷ artifact_of "a3" "final" ∷ []

finals-HasUniqueArtifacts : HasUniqueArtifacts finals
finals-HasUniqueArtifacts = (refl, (refl, tt))

find_artifact-merge_artifacts_example :
    find_artifact "a2" (merge_artifacts drafts finals) ≡ some (artifact_of "a2" "final")
find_artifact-merge_artifacts_example =
    find_artifact-merge_artifacts "a2" drafts finals finals-HasUniqueArtifacts
