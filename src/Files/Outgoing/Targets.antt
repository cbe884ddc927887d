-- ===== src/Files/Outgoing/Targets.antt =====
-- desktop/app/file_transfer.go: no target is sent a transfer twice at a time.
use clip_cascade_go_fork.Prelude.{
  ℕ, zero, suc, ◌≡◌, ◌≢◌, sym, ◌∙◌, true, false, some, String, List, [], ◌∷◌, arith, inl, inr, All,
  All-map, Pairwise, get_elem?, remove_at, All-remove_at, Pairwise-remove_at, All-get_elem?,
  All-zip,
}
use clip_cascade_go_fork.Prelude.Eq.{string_eq}
use clip_cascade_go_fork.Files.Transfer.{FileRequest, TransferManager}
use clip_cascade_go_fork.Files.Outgoing.{
  begin_sending, end_sending, schedule_cleanup, fire_cleanup, release_archive,
}
use clip_cascade_go_fork.Files.Outgoing.Marks.{
  is_sending, schedule_cleanup-is_sending, fire_cleanup-is_sending, release_archive-is_sending,
  begin_sending-Begins, end_sending-is_sending,
}

-- The sendings that run, each for a transfer and a target.
pub record World : Type 0 where
  pub manager : TransferManager
  pub running : List (String × String)

-- What happens between the goroutines that send, at the granularity of the lock.
pub data Step : World → World → Type 0 where
  begun :
      (w : World) (r : FileRequest)
      → (begin_sending w.manager r).1 ≡ true
      → Step w (record {
        manager = (begin_sending w.manager r).0;
        running = (r.transfer_id, r.target_session_id) ∷ w.running;
      })
  not_begun :
      (w : World) (r : FileRequest)
      → (begin_sending w.manager r).1 ≡ false
      → Step w (record w { manager = (begin_sending w.manager r).0 })
  ended :
      (w : World) (i : ℕ) (id target : String)
      → get_elem? w.running i ≡ some (id, target)
      → Step w
          (record { manager = end_sending w.manager id target; running = remove_at w.running i })
  scheduled :
      (w : World) (id : String) → Step w (record w { manager = schedule_cleanup w.manager id })
  fired :
      (w : World) (id : String) (gen : ℕ)
      → Step w (record w { manager = (fire_cleanup w.manager id gen).0 })
  released :
      (w : World) (id : String) → Step w (record w { manager = (release_archive w.manager id).0 })

pub data Reach (start : World) : World → Type 0 where
  at_start : Reach start start
  next : {v w : World} → Reach start v → Step v w → Reach start w

abbrev pub Distinct : List (String × String) → Type 0
Distinct = Pairwise (λ x y. x ≢ y)

-- No sending runs twice, and each is in the set of its transfer.
pub record IsSound (w : World) : Type 0 where
  pub distinct : Distinct w.running
  pub marked : All (λ x. is_sending w.manager x.0 x.1 ≡ true) w.running

-- One that is not twice in the list is not in the rest.
removed-apart :
    (xs : List (String × String)) (i : ℕ) (v : String × String)
    → Distinct xs
    → get_elem? xs i ≡ some v
    → All (λ x. x ≢ v) (remove_at xs i)
removed-apart [] i v d e = tt
removed-apart (x ∷ xs) zero v d e =
    let same : x ≡ v = ground arith in All-map (λ y h q. h (same ∙ sym q)) xs d.0
removed-apart (x ∷ xs) (suc i) v d e =
    (All-get_elem? (λ y. x ≢ y) xs i d.0 e, removed-apart xs i v d.1 e)

-- An item that is not marked is not one of those that are.
unmarked-apart :
    (m : TransferManager) (v : String × String) (xs : List (String × String))
    → is_sending m v.0 v.1 ≡ false
    → All (λ x. is_sending m x.0 x.1 ≡ true) xs
    → All (λ x. v ≢ x) xs
unmarked-apart m v xs n h =
    All-map (λ x k q. (let clear : is_sending m x.0 x.1 ≡ false = rw (← q) n in ground arith)) xs h

Step-IsSound : {v w : World} → IsSound v → Step v w → IsSound w
Step-IsSound s (begun w r b) = elim (begin_sending-Begins w.manager r) [
  | inl (e, m) ↦ record {
    distinct = (
      unmarked-apart w.manager (r.transfer_id, r.target_session_id) w.running m.unmarked s.marked,
      s.distinct,
    );
    marked = (m.marked_now, All-map (λ x h. m.others x.0 x.1 h) w.running s.marked);
  }
  | inr (e, m) ↦ absurd (ground arith)
]
Step-IsSound s (not_begun w r b) = elim (begin_sending-Begins w.manager r) [
  | inl (e, m) ↦ absurd (ground arith)
  | inr (e, m) ↦ record { distinct = s.distinct; marked = rw m s.marked }
]
Step-IsSound s (ended w i id target e) = record {
  distinct = Pairwise-remove_at (λ x y. x ≢ y) w.running i s.distinct;
  marked =
      All-zip (λ x h n. end_sending-is_sending w.manager id target x h n) (remove_at w.running i)
        (All-remove_at (λ x. is_sending w.manager x.0 x.1 ≡ true) w.running i s.marked)
        (removed-apart w.running i (id, target) s.distinct e);
}
Step-IsSound s (scheduled w id) = record {
  distinct = s.distinct;
  marked = All-map (λ x h. schedule_cleanup-is_sending w.manager id x.0 x.1 ∙ h) w.running s.marked;
}
Step-IsSound s (fired w id gen) = record {
  distinct = s.distinct;
  marked = All-map (λ x h. fire_cleanup-is_sending w.manager id gen x.0 x.1 ∙ h) w.running s.marked;
}
Step-IsSound s (released w id) = record {
  distinct = s.distinct;
  marked = All-map (λ x h. release_archive-is_sending w.manager id x.0 x.1 ∙ h) w.running s.marked;
}

-- From a manager with nothing running, however requests begin, sendings end and archives are cleaned up
-- or released: at no time does a transfer run twice to one target, and each one that runs is marked
-- in its transfer.
pub one_sending_a_target : {start w : World} → start.running ≡ [] → Reach start w → IsSound w
one_sending_a_target e at_start = record { distinct = rw e tt; marked = rw e tt }
one_sending_a_target e (next r s) = Step-IsSound (one_sending_a_target e r) s
