-- ===== src/History/Ids.antt =====
-- desktop/history/history.go: the identifiers of the items, and the lookups by identifier.
use clip_cascade_go_fork.Prelude.{
  ℕ, zero, suc, ◌≡◌, ◌≢◌, refl, sym, String, List, [], ◌∷◌, none, some, str_eq, eq_iff, arith,
  if◌then◌else◌, is_some, get_elem?, remove_at, insert_at, All, Pairwise, All-insert_at, Bool-cases,
  Option-cases, inl, inr, All-map, ◌∙◌,
}
use clip_cascade_go_fork.History.Item.{HistoryItem}
use clip_cascade_go_fork.History.Manager.{has_id, get_by_id_locked, find_index_by_id, drop_existing}
use clip_cascade_go_fork.History.Updates.{replace_first}

abbrev pub DistinctIds : List HistoryItem → Type 0
DistinctIds = Pairwise (λ x y. x.id ≢ y.id)

abbrev pub Lacks : String → List HistoryItem → Type 0
Lacks id = All (λ x. x.id ≢ id)

pub Lacks-of_none :
    (items : List HistoryItem) (id : String) → find_index_by_id items id ≡ none → Lacks id items
unfolding find_index_by_id
Lacks-of_none [] id h = tt
Lacks-of_none (x ∷ xs) id h = ground (arith, eq_iff x.id id, Lacks-of_none xs id)

pub drop_existing-cons :
    (x : HistoryItem) (xs : List HistoryItem) (id : String)
    → drop_existing (x ∷ xs) id ≡ (if has_id id x then xs else x ∷ drop_existing xs id)
unfolding find_index_by_id drop_existing
drop_existing-cons x xs id = ground arith

-- With distinct identifiers the removal of the item found leaves none with its identifier.
pub Lacks-drop_existing :
    (items : List HistoryItem) (id : String) → DistinctIds items → Lacks id (drop_existing items id)
Lacks-drop_existing [] id h = unfold find_index_by_id drop_existing in tt
Lacks-drop_existing (x ∷ xs) id h = elim (Bool-cases (has_id id x)) [
  | inl e ↦
      rw (drop_existing-cons x xs id, e)
        (All-map (λ y n q. n ((eq_iff x.id id).0 e ∙ sym q)) xs h.0)
  | inr e ↦
      rw (drop_existing-cons x xs id, e)
        (ground (arith, eq_iff x.id id), Lacks-drop_existing xs id h.1)
]

pub DistinctIds-insert_at :
    (items : List HistoryItem) (i : ℕ) (v : HistoryItem)
    → Lacks v.id items
    → DistinctIds items
    → DistinctIds (insert_at items i v)
DistinctIds-insert_at [] i v l d = (tt, tt)
DistinctIds-insert_at (x ∷ xs) zero v l d =
    (((λ e. l.0 (sym e)), All-map (λ y n e. n (sym e)) xs l.1), d)
DistinctIds-insert_at (x ∷ xs) (suc i) v l d =
    (All-insert_at (λ y. x.id ≢ y.id) xs i v l.0 d.0, DistinctIds-insert_at xs i v l.1 d.1)

-- Replacing an item by one with its identifier.
module _ (id : String) (next : HistoryItem) where
  pub All-replace_first {ℓ} :
      (P : HistoryItem → Type ℓ) (items : List HistoryItem)
      → P next
      → All P items
      → All P (replace_first id next items)
  unfolding replace_first
  All-replace_first P [] hn h = tt
  All-replace_first P (x ∷ xs) hn h = elim (Bool-cases (has_id id x)) [
    | inl e ↦ rw e (hn, h.1)
    | inr e ↦ rw e (h.0, All-replace_first P xs hn h.1)
  ]

  pub DistinctIds-replace_first :
      next.id ≡ id
      → (items : List HistoryItem) → DistinctIds items
      → DistinctIds (replace_first id next items)
  unfolding replace_first
  DistinctIds-replace_first e [] d = tt
  DistinctIds-replace_first e (x ∷ xs) d = elim (Bool-cases (has_id id x)) [
    | inl q ↦ rw q (All-map (λ y n r. n ((eq_iff x.id id).0 q ∙ sym e ∙ r)) xs d.0, d.1)
    | inr q ↦ rw q (
      All-replace_first (λ y. x.id ≢ y.id) xs (ground (arith, eq_iff x.id id)) d.0,
      DistinctIds-replace_first e xs d.1,
    )
  ]

  -- Lookups after the replacement.
  pub get_by_id-replace_first :
      next.id ≡ id
      → (items : List HistoryItem) (j : String)
      → get_by_id_locked (replace_first id next items) j ≡ (
          if str_eq id j
          then elim (get_by_id_locked items id) [ none ↦ none | some item ↦ some next ]
          else get_by_id_locked items j)
  unfolding replace_first get_by_id_locked
  get_by_id-replace_first e [] j = ground arith
  get_by_id-replace_first e (x ∷ xs) j = ground (
    arith,
    eq_iff x.id id,
    eq_iff x.id j,
    eq_iff id j,
    eq_iff next.id j,
    get_by_id-replace_first e xs j,
  )

-- Removal of an item at a position.
pub get_by_id-remove_at :
    (items : List HistoryItem) (i : ℕ) (v : HistoryItem) (j : String)
    → get_elem? items i ≡ some v
    → v.id ≢ j
    → get_by_id_locked (remove_at items i) j ≡ get_by_id_locked items j
unfolding get_by_id_locked
get_by_id-remove_at [] i v j e h = refl
get_by_id-remove_at (x ∷ xs) zero v j e h = ground (arith, eq_iff x.id j)
get_by_id-remove_at (x ∷ xs) (suc i) v j e h = ground (arith, get_by_id-remove_at xs i v j e h)

-- Insertion of an item with an identifier of its own.
pub get_by_id-insert_at :
    (items : List HistoryItem) (i : ℕ) (v : HistoryItem) (j : String)
    → Lacks v.id items
    → get_by_id_locked (insert_at items i v) j
      ≡ (if str_eq v.id j then some v else get_by_id_locked items j)
unfolding get_by_id_locked
get_by_id-insert_at [] i v j l = refl
get_by_id-insert_at (x ∷ xs) zero v j l = refl
get_by_id-insert_at (x ∷ xs) (suc i) v j l =
    ground (arith, eq_iff x.id j, eq_iff v.id j, get_by_id-insert_at xs i v j l.1)

-- What holds of every list without one of its items holds after the removal of an old entry.
pub drop_existing-induction {ℓ} :
    (P : List HistoryItem → Type ℓ) (items : List HistoryItem) (id : String)
    → P items
    → ((i : ℕ) → P (remove_at items i))
    → P (drop_existing items id)
unfolding drop_existing
drop_existing-induction P items id h r = elim (Option-cases (find_index_by_id items id)) [
  | inl e ↦ rw (e, drop_existing) h
  | inr (i, e) ↦ rw (e, drop_existing) (r i)
]

pub find_index-is_some :
    (items : List HistoryItem) (id : String)
    → is_some (find_index_by_id items id) ≡ is_some (get_by_id_locked items id)
unfolding find_index_by_id get_by_id_locked
find_index-is_some [] id = refl
find_index-is_some (x ∷ xs) id = ground (arith, find_index-is_some xs id)
