-- ===== src/History/State.antt =====
-- The states of a history item and the table of the transitions between them
-- (desktop/history/history.go, `ItemState`, `validTransitions`, `knownStates`).
use clip_cascade_go_fork.Prelude.{Bool, true, false, String, str_eq, eq_iff, ◌≡◌, ap, arith}

-- A string type in Go: the six constants, and any other text.
pub data ItemState : Type 0 where
  ready offered downloading ready_to_paste failed consumed : ItemState
  other : String → ItemState

-- The rows of `validTransitions`; a missing row or entry is false.
unfoldable pub is_valid_transition : ItemState → ItemState → Bool
is_valid_transition ready ready = true
is_valid_transition ready consumed = true
is_valid_transition ready failed = true
is_valid_transition offered offered = true
is_valid_transition offered downloading = true
is_valid_transition offered failed = true
is_valid_transition downloading downloading = true
is_valid_transition downloading ready_to_paste = true
is_valid_transition downloading failed = true
is_valid_transition ready_to_paste ready_to_paste = true
is_valid_transition ready_to_paste consumed = true
is_valid_transition ready_to_paste failed = true
is_valid_transition failed failed = true
is_valid_transition failed offered = true
is_valid_transition failed downloading = true
is_valid_transition consumed consumed = true
is_valid_transition consumed ready = true
is_valid_transition consumed downloading = true
is_valid_transition consumed ready_to_paste = true
is_valid_transition consumed failed = true
is_valid_transition from to = false

unfoldable pub is_known_state : ItemState → Bool
is_known_state (other s) = false
is_known_state _ = true

unfoldable pub is_evictable_state : ItemState → Bool
is_evictable_state consumed = true
is_evictable_state failed = true
is_evictable_state _ = false

-- `==` on two states.
unfoldable pub same_state : ItemState → ItemState → Bool
same_state ready ready = true
same_state offered offered = true
same_state downloading downloading = true
same_state ready_to_paste ready_to_paste = true
same_state failed failed = true
same_state consumed consumed = true
same_state (other s) (other t) = str_eq s t
same_state a b = false

pub same_state-eq : (a b : ItemState) → same_state a b ≡ true → a ≡ b
unfolding same_state
same_state-eq (other s) (other t) h = ap other ((eq_iff s t).0 h)
same_state-eq _ _ h = ground arith
