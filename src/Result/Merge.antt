-- ===== src/Result/Merge.antt =====
-- The parts of `ResultManager` that compute a task from the stored one and an event.
use package.a2a_js.Prelude.{
  String, Bool, not, ◌||◌, Option, none, some, List, [], ◌∷◌, ◌++◌, map, truthy, or_else, is_empty,
  any, filter, assign, is_some, JsMap, get, set, if◌then◌else◌, ◌==◌,
}
use package.a2a_js.Types.{Message, Task, TaskStatus, Artifact, Struct}

-- `history.find((msg) => msg.messageId === id)` as a condition.
abbrev pub has_message : String → List Message → Bool
has_message id = any (λ m. m.message_id == id)

abbrev pub has_artifact : String → List Artifact → Bool
has_artifact id = any (λ a. a.artifact_id == id)

-- `incomingById`: the last artifact of each id.
unfoldable pub by_id : JsMap Artifact → List Artifact → JsMap Artifact
by_id m [] = m
by_id m (a ∷ as_) = by_id (set a.artifact_id a m) as_

-- `merged`, where both lists have entries.
unfoldable pub overlay : List Artifact → List Artifact → List Artifact
unfolding by_id
overlay persisted incoming =
    map (λ art. or_else (get art.artifact_id (by_id [] incoming)) art) persisted
    ++ filter (λ art. not (has_artifact art.artifact_id persisted)) incoming

unfoldable pub merge_artifacts : List Artifact → List Artifact → List Artifact
merge_artifacts persisted incoming =
    if is_empty persisted
    then incoming
    else if is_empty incoming
    then persisted
    else overlay persisted incoming

abbrev pub merge_metadata : Option Struct → Option Struct → Option Struct
merge_metadata persisted incoming =
    if is_some persisted || is_some incoming
    then some (assign (or_else persisted []) (or_else incoming []))
    else incoming

-- The incoming task over the persisted one, if that has the same id.
unfoldable pub merge_task : Option Task → Task → Task
merge_task none incoming = incoming
merge_task (some persisted) incoming =
    if persisted.id == incoming.id
    then record incoming {
      history = if is_empty incoming.history then persisted.history else incoming.history;
      artifacts = merge_artifacts persisted.artifacts incoming.artifacts;
      metadata = merge_metadata persisted.metadata incoming.metadata;
    }
    else incoming

-- The latest user message stands in the history, in front if it was not there.
unfoldable pub with_latest : Option Message → Task → Task
with_latest none t = t
with_latest (some latest) t =
    if has_message latest.message_id t.history then t else record t { history = latest ∷ t.history }

abbrev pub status_message : Option TaskStatus → Option Message
status_message none = none
status_message (some st) = st.message

-- The history with the message of a status update, unless it is there.
unfoldable pub add_message : Option Message → List Message → List Message
add_message none history = history
add_message (some update) history =
    if has_message update.message_id history then history else history ++ update ∷ []

unfoldable pub apply_status : Option TaskStatus → Task → Task
unfolding add_message
apply_status status t = record t {
  status = status;
  history = add_message (status_message status) t.history;
}

-- `existing` with a chunk appended to it.
unfoldable pub append_chunk : Artifact → Artifact → Artifact
append_chunk existing chunk = record existing {
  parts = existing.parts ++ chunk.parts;
  description = if truthy chunk.description then chunk.description else existing.description;
  name = if truthy chunk.name then chunk.name else existing.name;
  metadata =
      if is_some chunk.metadata
      then some (assign (or_else existing.metadata []) (or_else chunk.metadata []))
      else existing.metadata;
}

-- The artifact at `findIndex` appended to or replaced, or the new artifact pushed.
unfoldable pub put_artifact : Bool → Artifact → List Artifact → List Artifact
unfolding append_chunk
put_artifact append art [] = art ∷ []
put_artifact append art (a ∷ rest) =
    let others = put_artifact append art rest in
    if a.artifact_id == art.artifact_id
    then (if append then append_chunk a art else art) ∷ rest
    else a ∷ others

unfoldable pub apply_artifact : Bool → Artifact → Task → Task
unfolding put_artifact
apply_artifact append art t = record t { artifacts = put_artifact append art t.artifacts }
