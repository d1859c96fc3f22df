-- ===== src/Store/Tasks/Scope.antt =====
-- What one call of `InMemoryTaskStore` sees of another's.
use package.a2a_js.Prelude.{
  String, some, [], set, get-set, or_else, ◌≡◌, ◌==◌, ◌&&◌, refl, if◌then◌else◌, inl, inr,
  Bool-cases, Option-cases,
}
use package.a2a_js.Types.{Task}
use package.a2a_js.Context.{ServerCallContext}
use package.a2a_js.Store.Scoped.{
  get_bucket, same_scope, get_bucket-update_bucket, get_bucket_of_same_scope, same_scope_refl,
}
use package.a2a_js.Store.Interface.{TaskStore}
use package.a2a_js.Store.Tasks.{InMemoryTaskStore, Platform, bucket_get, load, save, list}

bucket_get-set :
    (id : String) (t : Task) (s : InMemoryTaskStore) (c : ServerCallContext)
    → bucket_get id (some (set t.id t (or_else (get_bucket s c) [])))
      ≡ (if t.id == id then some t else bucket_get id (get_bucket s c))
bucket_get-set id t s c = elim (Option-cases (get_bucket s c)) [
  | inl e ↦ rw e refl
  | inr (bucket, e) ↦ rw e (get-set t.id id t bucket)
]

-- A call loads the task that another call saved exactly if tenant and owner of the two calls
-- agree and the ids agree; every other load is as before.
pub load-save_by_scope :
    (t : Task) (c d : ServerCallContext) (s : InMemoryTaskStore) (id : String)
    → load id d (save t c s) ≡ (if same_scope s c d && t.id == id then some t else load id d s)
unfolding load save
load-save_by_scope t c d s id = elim (Bool-cases (same_scope s c d)) [
  | inl same ↦
      rw (get_bucket-update_bucket s c d (set t.id t), same)
        (rw (← get_bucket_of_same_scope s c d same) (bucket_get-set id t s c))
  | inr other ↦ rw (get_bucket-update_bucket s c d (set t.id t), other) refl
]

pub load-save_self :
    (t : Task) (c : ServerCallContext) (s : InMemoryTaskStore) (id : String)
    → load id c (save t c s) ≡ (if t.id == id then some t else load id c s)
load-save_self t c s id = rw (load-save_by_scope t c c s id, same_scope_refl s c) refl

-- The in-memory store is a task store.
abbrev pub in_memory_task_store : Platform → TaskStore
in_memory_task_store p = record {
  Store = InMemoryTaskStore;
  save = save;
  load = load;
  list = list p;
  load-save = load-save_self;
}
