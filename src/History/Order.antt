-- ===== src/History/Order.antt =====
-- desktop/history/history.go: the order of the items by their time of creation.
use clip_cascade_go_fork.Prelude.{
  ◌≤◌, List, [], ◌∷◌, arith, insert_at, All, Pairwise, All-insert_at, All-map, Bool-cases, String,
  ◌≡◌, some, ltb, inl, inr,
}
use clip_cascade_go_fork.History.Item.{HistoryItem}
use clip_cascade_go_fork.History.Manager.{has_id, get_by_id_locked, insert_index}
use clip_cascade_go_fork.History.Updates.{replace_first}

abbrev pub NotNewer : HistoryItem → HistoryItem → Type 0
NotNewer x y = y.created_at ≤ x.created_at

abbrev pub NewestFirst : List HistoryItem → Type 0
NewestFirst = Pairwise NotNewer

-- The insertion index keeps the order.
pub NewestFirst-insert :
    (items : List HistoryItem) (v : HistoryItem)
    → NewestFirst items
    → NewestFirst (insert_at items (insert_index items v.created_at) v)
unfolding insert_index
NewestFirst-insert [] v h = (tt, tt)
NewestFirst-insert (x ∷ xs) v h = elim (Bool-cases (ltb x.created_at v.created_at)) [
  | inl e ↦ rw e ((ground arith, All-map (λ y n. ground arith) xs h.0), h)
  | inr e ↦ rw e (
    All-insert_at (NotNewer x) xs (insert_index xs v.created_at) v (ground arith) h.0,
    NewestFirst-insert xs v h.1,
  )
]

-- An item replaced by one of the same age.
module _ (id : String) (next : HistoryItem) where
  NotNewer-replace_first :
      (x : HistoryItem) (items : List HistoryItem)
      → ((item : HistoryItem)
          → get_by_id_locked items id ≡ some item
          → next.created_at ≡ item.created_at)
      → All (NotNewer x) items
      → All (NotNewer x) (replace_first id next items)
  unfolding replace_first get_by_id_locked
  NotNewer-replace_first x [] same h = tt
  NotNewer-replace_first x (y ∷ ys) same h = elim (Bool-cases (has_id id y)) [
    | inl e ↦ rw e (omega (arith, same y (rw e), h.0), h.1)
    | inr e ↦ rw e (h.0, NotNewer-replace_first x ys (λ item q. same item (rw e q)) h.1)
  ]

  pub NewestFirst-replace_first :
      (items : List HistoryItem)
      → ((item : HistoryItem)
          → get_by_id_locked items id ≡ some item
          → next.created_at ≡ item.created_at)
      → NewestFirst items
      → NewestFirst (replace_first id next items)
  unfolding replace_first get_by_id_locked
  NewestFirst-replace_first [] same h = tt
  NewestFirst-replace_first (y ∷ ys) same h = elim (Bool-cases (has_id id y)) [
    | inl e ↦ rw e (All-map (λ z n. omega (arith, same y (rw e), n)) ys h.0, h.1)
    | inr e ↦ rw e (
      NotNewer-replace_first y ys (λ item q. same item (rw e q)) h.0,
      NewestFirst-replace_first ys (λ item q. same item (rw e q)) h.1,
    )
  ]
