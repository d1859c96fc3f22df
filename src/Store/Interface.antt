-- ===== src/Store/Interface.antt =====
-- `TaskStore` of src/server/store.ts, as its clients see it. The operations of a store here do not
-- reject.
use package.a2a_js.Prelude.{String, Option, some, ◌≡◌, ◌==◌, if◌then◌else◌}
use package.a2a_js.Types.{Task, ListTasksRequest, ListTasksResponse}
use package.a2a_js.Context.{ServerCallContext}
use package.a2a_js.Errors.{Result}

pub record TaskStore : Type 1 where
  pub Store : Type 0
  pub save : Task → ServerCallContext → Store → Store
  pub load : String → ServerCallContext → Store → Option Task
  pub list : ListTasksRequest → ServerCallContext → Store → Result ListTasksResponse
  -- A saved task is what the same caller loads under its id, and no other entry changes.
  pub load-save :
      (t : Task) (c : ServerCallContext) (s : Store) (id : String)
      → load id c (save t c s) ≡ (if t.id == id then some t else load id c s)
