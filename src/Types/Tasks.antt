-- ===== src/Types/Tasks.antt =====
-- `TaskState`, `TaskStatus`, `Artifact` and `Task` of src/types/pb/a2a.ts.
use package.a2a_js.Prelude.{String, Option, List}
use package.a2a_js.Types.Values.{Struct}
use package.a2a_js.Types.Messages.{Part, Message}

pub data TaskState : Type 0 where
  unspecified submitted working completed failed canceled : TaskState
  input_required rejected auth_required : TaskState
  unknown_state : TaskState

pub record TaskStatus : Type 0 where
  pub state : TaskState
  pub message : Option Message
  pub timestamp : Option String

pub record Artifact : Type 0 where
  pub artifact_id : String
  pub name : String
  pub description : String
  pub parts : List Part
  pub metadata : Option Struct
  pub extensions : List String

pub record Task : Type 0 where
  pub id : String
  pub context_id : String
  pub status : Option TaskStatus
  pub artifacts : List Artifact
  pub history : List Message
  pub metadata : Option Struct
