-- ===== src/Handler/History.antt =====
-- `_applyHistoryLengthSemantics`.
use package.a2a_js.Prelude.{
  ℕ, ℤ, pos, negsuc, zero, suc, ◌≤◌, ◌-◌, leb, if◌then◌else◌, Option, none, some, List, [], ◌++◌,
  length, take, take_last, take-drop, length-drop, ◌≡◌, arith, refl, sym, append-nil,
}
use package.a2a_js.Types.{Message, Task}

unfoldable pub limit_history : Option ℤ → List Message → List Message
limit_history none history = history
limit_history (some (pos zero)) history = []
limit_history (some (pos (suc n))) history = take_last (suc n) history
limit_history (some (negsuc n)) history = []

unfoldable pub apply_history_length : Option ℤ → Task → Task
unfolding limit_history
apply_history_length n t = record t { history = limit_history n t.history }

-- How many messages a history of some length keeps.
abbrev pub kept : Option ℤ → ℕ → ℕ
kept none size = size
kept (some (pos n)) size = if leb n size then n else size
kept (some (negsuc n)) size = 0

-- Without a history length the history stays. With one, the last entries of the history stay, as
-- many as the length says, or all if there are fewer, and none for a number below 1. Everything
-- else of the task stays.
pub apply_history_length_bounds :
    (n : Option ℤ) (t : Task)
    → (length (apply_history_length n t).history ≡ kept n (length t.history))
      × ((dropped : List Message) × (t.history ≡ dropped ++ (apply_history_length n t).history))
      × (record t { history = (apply_history_length n t).history } ≡ apply_history_length n t)
unfolding apply_history_length
apply_history_length_bounds none t = (refl, ([], refl), refl)
apply_history_length_bounds (some (pos zero)) t =
    (ground arith, (t.history, sym (append-nil _)), refl)
apply_history_length_bounds (some (pos (suc n))) t = (
  ground (arith, length-drop (length t.history - suc n) t.history),
  (take (length t.history - suc n) t.history, sym (take-drop _ t.history)),
  refl,
)
apply_history_length_bounds (some (negsuc n)) t = (refl, (t.history, sym (append-nil _)), refl)

-- A history that fits is not cut.
pub apply_history_length_of_le :
    (n : ℕ) (t : Task) → length t.history ≤ suc n → apply_history_length (some (pos (suc n))) t ≡ t
unfolding apply_history_length
apply_history_length_of_le n t h =
    let none_cut : length t.history - suc n ≡ 0 = omega arith in rw none_cut refl
