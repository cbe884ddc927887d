-- ===== src/History/Valid.antt =====
-- What holds of the history manager between two operations.
pub mod Steps
use clip_cascade_go_fork.Prelude.{
  ℕ, zero, suc, ◌<◌, ◌≡◌, ◌≢◌, refl, Bool, true, false, String, List, [], ◌∷◌, Option, none, some,
  arith, if◌then◌else◌, str_eq, eq_iff, is_some, get_elem?, remove_at, insert_at, All,
  All-remove_at, All-insert_at, Pairwise-remove_at, Bool-cases, inl, inr,
}
use clip_cascade_go_fork.Prelude.Int.{ℤ, pos}
use clip_cascade_go_fork.History.State.{is_known_state, same_state}
use clip_cascade_go_fork.History.Item.{HistoryItem, Time, is_valid_initial_item}
use clip_cascade_go_fork.History.Manager.{
  Manager, is_evictable, get_by_id_locked, insert_index, drop_existing, evict_at, evict_overflow,
  fill_defaults, insert_item, add_item, new_manager,
}
use clip_cascade_go_fork.History.Ids.{
  DistinctIds, Lacks-drop_existing, DistinctIds-insert_at, get_by_id-remove_at, get_by_id-insert_at,
  drop_existing-induction,
}
use clip_cascade_go_fork.History.Order.{NotNewer, NewestFirst, NewestFirst-insert}
use clip_cascade_go_fork.History.Eviction.{evict_overflow-keeps}

abbrev pub IsNamed : HistoryItem → Type 0
IsNamed x = x.id ≢ ""

abbrev pub IsKnown : HistoryItem → Type 0
IsKnown x = is_known_state x.state ≡ true

pub record IsValid (m : Manager) : Type 0 where
  pub distinct : DistinctIds m.items
  pub newest : NewestFirst m.items
  pub named : All IsNamed m.items
  pub known : All IsKnown m.items
  pub positive : 0 < m.max_items
  pub active : m.active_id ≢ "" → is_some (get_by_id_locked m.items m.active_id) ≡ true

IsValid-empty : (m : Manager) → m.items ≡ [] → m.active_id ≡ "" → 0 < m.max_items → IsValid m
IsValid-empty m e a p = record {
  distinct = rw e tt;
  newest = rw e tt;
  named = rw e tt;
  known = rw e tt;
  positive = p;
  active = λ n. absurd (n a);
}

pub new_manager-IsValid : (limit : ℤ) → IsValid (new_manager limit)
unfolding new_manager
new_manager-IsValid (pos (suc n)) = IsValid-empty _ refl refl (omega arith)
new_manager-IsValid limit = IsValid-empty _ refl refl (omega arith)

pub evict_at-IsValid :
    (m : Manager) (i : ℕ) (v : HistoryItem)
    → get_elem? m.items i ≡ some v
    → is_evictable v ≡ true
    → IsValid m
    → IsValid (evict_at m i)
unfolding evict_at
evict_at-IsValid m i v e k h = record {
  distinct = Pairwise-remove_at (λ x y. x.id ≢ y.id) m.items i h.distinct;
  newest = Pairwise-remove_at NotNewer m.items i h.newest;
  named = All-remove_at IsNamed m.items i h.named;
  known = All-remove_at IsKnown m.items i h.known;
  positive = h.positive;
  active = λ n.
      ground (
        arith,
        n,
        eq_iff m.active_id v.id,
        get_by_id-remove_at m.items i v m.active_id e,
        h.active,
      );
}

pub insert_item-IsValid :
    (m : Manager) (item : HistoryItem)
    → item.id ≢ ""
    → is_known_state item.state ≡ true
    → IsValid m
    → IsValid (insert_item m item)
unfolding insert_item
insert_item-IsValid m item named known h =
    let kept = drop_existing m.items item.id in
    let at = insert_index kept item.created_at in
    let lacks = Lacks-drop_existing m.items item.id h.distinct in
    record {
      distinct = DistinctIds-insert_at kept at item lacks (
          drop_existing-induction DistinctIds m.items item.id h.distinct
            (λ i. Pairwise-remove_at (λ x y. x.id ≢ y.id) m.items i h.distinct));
      newest = NewestFirst-insert kept item (
          drop_existing-induction NewestFirst m.items item.id h.newest
            (λ i. Pairwise-remove_at NotNewer m.items i h.newest));
      named = All-insert_at IsNamed kept at item named (
          drop_existing-induction (All IsNamed) m.items item.id h.named
            (λ i. All-remove_at IsNamed m.items i h.named));
      known = All-insert_at IsKnown kept at item known (
          drop_existing-induction (All IsKnown) m.items item.id h.known
            (λ i. All-remove_at IsKnown m.items i h.known));
      positive = h.positive;
      active = λ n.
          rw (get_by_id-insert_at kept at item item.id lacks)
            (ground (arith, eq_iff item.id item.id));
    }

pub valid_initial-known :
    (item : HistoryItem) → is_valid_initial_item item ≡ true → is_known_state item.state ≡ true
unfolding is_valid_initial_item is_known_state
valid_initial-known item h = ground arith

pub fill_defaults-id :
    (item : HistoryItem) (now : Time) (uuid : String)
    → uuid ≢ ""
    → (fill_defaults item now uuid).id ≢ ""
unfolding fill_defaults
fill_defaults-id item now uuid h = ground (arith, eq_iff item.id "")

pub fill_defaults-state :
    (item : HistoryItem) (now : Time) (uuid : String)
    → (fill_defaults item now uuid).state ≡ item.state
unfolding fill_defaults
fill_defaults-state item now uuid = refl

-- `AddItem` keeps the manager valid, whatever the item is, with an identifier that is not empty.
pub add_item-IsValid :
    (m : Manager) (now : Time) (uuid : String) (item : Option HistoryItem)
    → uuid ≢ ""
    → IsValid m
    → IsValid (add_item m now uuid item).0
unfolding add_item
add_item-IsValid m now uuid none u h = h
add_item-IsValid m now uuid (some item) u h = elim (Bool-cases (is_valid_initial_item item)) [
  | inr e ↦ rw e h
  | inl e ↦ rw e (
      evict_overflow-keeps IsValid evict_at-IsValid _ (
        insert_item-IsValid m _ (fill_defaults-id item now uuid u)
          (rw (fill_defaults-state item now uuid) (valid_initial-known item e)) h))
]
