-- ===== src/Types/States.antt =====
-- The lists of task states of src/server/utils.ts, and `===` on states.
use package.a2a_js.Prelude.{
  ℕ, Bool, true, List, [], ◌∷◌, ◌++◌, nat_eq, any, ◌≡◌, ◌↔◌, arith, refl, sym, ap, ◌∙◌,
  if◌then◌else◌,
}
use package.a2a_js.Types.Tasks.{
  TaskState, unspecified, submitted, working, completed, failed, canceled, input_required, rejected,
  auth_required, unknown_state,
}

-- The enum's number; -1 for an unrecognized value is written 9.
abbrev pub state_number : TaskState → ℕ
state_number unspecified = 0
state_number submitted = 1
state_number working = 2
state_number completed = 3
state_number failed = 4
state_number canceled = 5
state_number input_required = 6
state_number rejected = 7
state_number auth_required = 8
state_number unknown_state = 9

abbrev pub state_eq : TaskState → TaskState → Bool
state_eq s t = nat_eq (state_number s) (state_number t)

-- `list.includes(state)`.
abbrev pub includes_state : List TaskState → TaskState → Bool
includes_state states s = any (λ t. state_eq t s) states

abbrev pub terminal_state_list : List TaskState
terminal_state_list = completed ∷ failed ∷ canceled ∷ rejected ∷ []

abbrev pub input_required_state_list : List TaskState
input_required_state_list = input_required ∷ []

abbrev pub auth_required_state_list : List TaskState
auth_required_state_list = auth_required ∷ []

abbrev pub interrupted_state_list : List TaskState
interrupted_state_list = input_required_state_list ++ auth_required_state_list

abbrev state_of_number : ℕ → TaskState
state_of_number n =
    if nat_eq n 0
    then unspecified
    else if nat_eq n 1
    then submitted
    else if nat_eq n 2
    then working
    else if nat_eq n 3
    then completed
    else if nat_eq n 4
    then failed
    else if nat_eq n 5
    then canceled
    else if nat_eq n 6
    then input_required
    else if nat_eq n 7
    then rejected
    else if nat_eq n 8
    then auth_required
    else unknown_state

state_of_number-state_number : (s : TaskState) → state_of_number (state_number s) ≡ s
state_of_number-state_number unspecified = refl
state_of_number-state_number _ = refl

pub nat_eq_iff : (a b : ℕ) → (nat_eq a b ≡ true) ↔ (a ≡ b)
nat_eq_iff a b = (λ h. ground arith, λ h. ground arith)

pub state_eq_iff : (s t : TaskState) → (state_eq s t ≡ true) ↔ (s ≡ t)
state_eq_iff s t = (
  λ h.
      sym (state_of_number-state_number s)
      ∙ ap state_of_number ((nat_eq_iff _ _).0 h)
      ∙ state_of_number-state_number t,
  λ e. (nat_eq_iff _ _).1 (ap state_number e),
)
