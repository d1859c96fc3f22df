-- ===== src/Types/Messages.antt =====
-- `Role`, `Part` and `Message` of src/types/pb/a2a.ts.
use package.a2a_js.Prelude.{ℕ, String, Option, List}
use package.a2a_js.Types.Values.{Json, Struct}

pub data Role : Type 0 where
  role_unspecified role_user role_agent : Role
  unrecognized : Role

-- The oneof `content`; `raw` holds bytes, and the value of `json` may be absent.
pub data Content : Type 0 where
  text : String → Content
  raw : List ℕ → Content
  url : String → Content
  json : Option Json → Content

pub record Part : Type 0 where
  pub content : Option Content
  pub metadata : Option Struct
  pub filename : String
  pub media_type : String

pub record Message : Type 0 where
  pub message_id : String
  pub context_id : String
  pub task_id : String
  pub role : Role
  pub parts : List Part
  pub metadata : Option Struct
  pub extensions : List String
  pub reference_task_ids : List String
