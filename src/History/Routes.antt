-- ===== src/History/Routes.antt =====
-- The graph of the item states: which routes the table of transitions allows.
use clip_cascade_go_fork.Prelude.{
  ◌≡◌, refl, ◌⊎◌, inl, inr, Bool, true, false, List, [], ◌∷◌, arith, any,
}
use clip_cascade_go_fork.History.State.{
  ItemState, offered, downloading, ready_to_paste, failed, consumed, is_valid_transition,
  same_state,
}

-- The states passed on the way from one state to another, the first one left out.
pub data Route : ItemState → List ItemState → ItemState → Type 0 where
  here : {from : ItemState} → Route from [] from
  go :
      {from via to : ItemState} {passed : List ItemState}
      → is_valid_transition from via ≡ true
      → Route via passed to
      → Route from (via ∷ passed) to

abbrev pub Passes : ItemState → List ItemState → Type 0
Passes state passed = any (same_state state) passed ≡ true

-- A file that is offered or failed has nothing on disk yet, and one that is downloading has not
-- all of it.
abbrev is_pending : ItemState → Bool
is_pending offered = true
is_pending failed = true
is_pending _ = false

abbrev is_unfinished : ItemState → Bool
is_unfinished downloading = true
is_unfinished state = is_pending state

leaves_pending :
    (from via : ItemState)
    → is_valid_transition from via ≡ true
    → is_pending from ≡ true
    → (is_pending via ≡ true) ⊎ (via ≡ downloading)
unfolding is_valid_transition
leaves_pending from via t h = ground arith

leaves_unfinished :
    (from via : ItemState)
    → is_valid_transition from via ≡ true
    → is_unfinished from ≡ true
    → (is_unfinished via ≡ true) ⊎ (via ≡ ready_to_paste)
unfolding is_valid_transition
leaves_unfinished from via t h = ground arith

Passes-downloading :
    {from to : ItemState} {passed : List ItemState}
    → Route from passed to
    → is_pending from ≡ true
    → to ≡ consumed
    → Passes downloading passed
unfolding same_state
Passes-downloading here h e = absurd (ground arith)
Passes-downloading (go {from = from} {via = via} t r) h e = elim (leaves_pending from via t h) [
  | inl p ↦ ground (arith, Passes-downloading r p e)
  | inr q ↦ rw q refl
]

Passes-ready :
    {from to : ItemState} {passed : List ItemState}
    → Route from passed to
    → is_unfinished from ≡ true
    → to ≡ consumed
    → Passes ready_to_paste passed
unfolding same_state
Passes-ready here h e = absurd (ground arith)
Passes-ready (go {from = from} {via = via} t r) h e = elim (leaves_unfinished from via t h) [
  | inl p ↦ ground (arith, Passes-ready r p e)
  | inr q ↦ rw q refl
]

-- On every route by valid transitions from `offered` to `consumed` the item passes `downloading`
-- and `ready_to_paste`.
pub offered-consumed-Passes :
    (passed : List ItemState)
    → Route offered passed consumed
    → Passes downloading passed × Passes ready_to_paste passed
offered-consumed-Passes passed r = (Passes-downloading r refl refl, Passes-ready r refl refl)
