-- ===== src/Result/History.antt =====
-- The messages in the history of a task.
use package.a2a_js.Prelude.{
  String, true, false, Option, none, some, List, [], ◌∷◌, ◌++◌, any-append, ◌==◌, ◌≡◌, arith, refl,
  eq_iff, eq_refl, Bool-cases, inl, inr,
}
use package.a2a_js.Types.{Message, Task}
use package.a2a_js.Result.Merge.{has_message, with_latest, add_message}

-- Each message id stands once.
abbrev pub HasUniqueMessages : List Message → Type 0
HasUniqueMessages [] = Unit
HasUniqueMessages (m ∷ rest) = (has_message m.message_id rest ≡ false) × HasUniqueMessages rest

-- After a task event the user's message stands in the history.
pub with_latest-has_message :
    (latest : Message) (t : Task)
    → has_message latest.message_id (with_latest (some latest) t).history ≡ true
unfolding with_latest
with_latest-has_message latest t = elim (Bool-cases (has_message latest.message_id t.history)) [
  | inl old ↦ rw (old, with_latest) old
  | inr new ↦ rw (new, with_latest) (rw eq_refl refl)
]

pub with_latest-HasUniqueMessages :
    (latest : Option Message) (t : Task)
    → HasUniqueMessages t.history
    → HasUniqueMessages (with_latest latest t).history
unfolding with_latest
with_latest-HasUniqueMessages none t h = h
with_latest-HasUniqueMessages (some latest) t h = ground arith

HasUniqueMessages-concat :
    (m : Message) (ms : List Message)
    → HasUniqueMessages ms
    → has_message m.message_id ms ≡ false
    → HasUniqueMessages (ms ++ m ∷ [])
HasUniqueMessages-concat m [] h q = (refl, tt)
HasUniqueMessages-concat m (x ∷ ms) (p, h) q = ground (
  arith,
  any-append (λ (y : Message). y.message_id == x.message_id) ms (m ∷ []),
  HasUniqueMessages-concat m ms h,
  eq_iff x.message_id m.message_id,
  eq_iff m.message_id x.message_id,
)

pub add_message-HasUniqueMessages :
    (update : Option Message) (history : List Message)
    → HasUniqueMessages history
    → HasUniqueMessages (add_message update history)
unfolding add_message
add_message-HasUniqueMessages none history h = h
add_message-HasUniqueMessages (some m) history h =
    ground (arith, HasUniqueMessages-concat m history h)

-- A message that stands in the history stays there when a status update arrives.
pub add_message-has_message :
    (update : Option Message) (id : String) (history : List Message)
    → has_message id history ≡ true
    → has_message id (add_message update history) ≡ true
unfolding add_message
add_message-has_message none id history h = h
add_message-has_message (some m) id history h =
    ground (arith, any-append (λ (y : Message). y.message_id == id) history (m ∷ []))
