-- ===== src/Files/Outgoing/Marks.antt =====
-- desktop/app/file_transfer.go: the targets of a transfer that are marked as sending.
use clip_cascade_go_fork.Prelude.{
  ℕ, ◌+◌, ◌≡◌, ◌≢◌, refl, sym, ◌∙◌, Bool, true, false, not, Option, none, some, String, List,
  str_eq, if◌then◌else◌, is_some, ◌==◌, if_cases, match_cases, Bool-cases, inl, inr, eq_iff, ◌⊎◌,
  eq_refl, ap,
}
use clip_cascade_go_fork.Prelude.Eq.{string_eq}
use clip_cascade_go_fork.GoMap.{GoMap, get, put, remove, get-put, get-remove}
use clip_cascade_go_fork.Files.Transfer.{FileRequest, OutgoingTransfer, TransferManager}
use clip_cascade_go_fork.Files.Outgoing.{
  change, begin_sending, end_sending, without_archive, schedule_cleanup, fire_cleanup, has_targets,
  release_archive,
}

abbrev pub targets_have : Option OutgoingTransfer → String → Bool
targets_have none target = false
targets_have (some t) target = is_some (get t.sending_targets target)

-- A target is in the set of a transfer.
abbrev pub is_sending : TransferManager → String → String → Bool
is_sending m id target = targets_have (get m.outgoing id) target

-- A transfer that is replaced by one with other targets.
pub is_sending-put :
    (m : TransferManager) (id : String) (t : OutgoingTransfer) (j target : String)
    → is_sending (record m { outgoing = put m.outgoing id t }) j target
      ≡ (if str_eq id j then is_some (get t.sending_targets target) else is_sending m j target)
is_sending-put m id t j target =
    rw (get-put m.outgoing id j t)
      (elim (Bool-cases (str_eq id j)) [ inl q ↦ rw q refl | inr q ↦ rw q refl ])

-- It stays so when the other has the targets of the first.
pub same_targets :
    (m : TransferManager) (id : String) (t u : OutgoingTransfer) (j target : String)
    → get m.outgoing id ≡ some t
    → u.sending_targets ≡ t.sending_targets
    → is_sending (record m { outgoing = put m.outgoing id u }) j target ≡ is_sending m j target
same_targets m id t u j target e h = elim (Bool-cases (str_eq id j)) [
  | inl q ↦
      let same = (eq_iff id j).0 q in is_sending-put m id u j target ∙ rw (q, h, ← same, e) refl
  | inr q ↦ is_sending-put m id u j target ∙ rw q refl
]

-- The steps that leave the targets.
pub schedule_cleanup-is_sending :
    (m : TransferManager) (id j target : String)
    → is_sending (schedule_cleanup m id) j target ≡ is_sending m j target
unfolding schedule_cleanup
schedule_cleanup-is_sending m id j target =
    match_cases (λ (x : TransferManager). is_sending x j target ≡ is_sending m j target)
      (get m.outgoing id) (λ q. refl)
      (λ t q.
        same_targets m id t
          (record t { cleanup_gen = t.cleanup_gen + 1; cleanup_timer = some (t.cleanup_gen + 1) }) j
          target q refl)

pub fire_cleanup-is_sending :
    (m : TransferManager) (id : String) (gen : ℕ) (j target : String)
    → is_sending (fire_cleanup m id gen).0 j target ≡ is_sending m j target
unfolding fire_cleanup
fire_cleanup-is_sending m id gen j target =
    match_cases (λ (r : TransferManager × List ℕ). is_sending r.0 j target ≡ is_sending m j target)
      (get m.outgoing id) (λ q. refl)
      (λ t q.
        if_cases (λ (r : TransferManager × List ℕ). is_sending r.0 j target ≡ is_sending m j target)
          (not (t.cleanup_gen == gen)) (λ n. refl)
          (λ n. same_targets m id t (without_archive t) j target q refl))

pub release_archive-is_sending :
    (m : TransferManager) (id j target : String)
    → is_sending (release_archive m id).0 j target ≡ is_sending m j target
unfolding release_archive
release_archive-is_sending m id j target =
    match_cases (λ (r : TransferManager × List ℕ). is_sending r.0 j target ≡ is_sending m j target)
      (get m.outgoing id) (λ q. refl)
      (λ t q.
        if_cases (λ (r : TransferManager × List ℕ). is_sending r.0 j target ≡ is_sending m j target)
          (has_targets t.sending_targets) (λ n. refl)
          (λ n.
            same_targets m id t (without_archive (record t { cleanup_gen = t.cleanup_gen + 1 })) j
              target q refl))

-- The first part of `handleFileRequest` marks a target that was not marked, or leaves all as it is.
pub record Marks (m m' : TransferManager) (id target : String) : Type 0 where
  pub unmarked : is_sending m id target ≡ false
  pub marked_now : is_sending m' id target ≡ true
  pub others : (j u : String) → is_sending m j u ≡ true → is_sending m' j u ≡ true

abbrev pub Begins : TransferManager → FileRequest → TransferManager × Bool → Type 0
Begins m r x =
    (x.1 ≡ true) × Marks m x.0 r.transfer_id r.target_session_id ⊎ (x.1 ≡ false) × (x.0 ≡ m)

pub put-marks :
    (targets : GoMap String Bool) (target u : String)
    → is_some (get targets u) ≡ true
    → is_some (get (put targets target true) u) ≡ true
put-marks targets target u h =
    rw (get-put targets target u true)
      (elim (Bool-cases (str_eq target u)) [ inl q ↦ rw q refl | inr q ↦ rw q h ])

pub change-Marks :
    (m : TransferManager) (t : OutgoingTransfer) (id target : String)
    → get m.outgoing id ≡ some t
    → is_some (get t.sending_targets target) ≡ false
    → Marks m
        (record m {
          outgoing =
              put m.outgoing id (record t { sending_targets = put t.sending_targets target true });
        })
        id
        target
change-Marks m t id target e n =
    let next = record t { sending_targets = put t.sending_targets target true } in
    record {
      unmarked = rw e n;
      marked_now =
          is_sending-put m id next id target
          ∙ rw (eq_refl id, get-put t.sending_targets target target true, eq_refl target) refl;
      others = λ j u h. is_sending-put m id next j u ∙ (elim (Bool-cases (str_eq id j)) [
        | inl q ↦ rw q (
            put-marks t.sending_targets target u (
              let same = (eq_iff id j).0 q in
              let here : is_sending m id u ≡ true = rw same h in
              sym (ap (λ (o : Option OutgoingTransfer). targets_have o u) e) ∙ here))
        | inr q ↦ rw q h
      ]);
    }

pub begin_sending-Begins : (m : TransferManager) (r : FileRequest) → Begins m r (begin_sending m r)
unfolding begin_sending
begin_sending-Begins m r =
    let P = Begins m r in
    if_cases P (str_eq r.transfer_id "") (λ q. inr (refl, refl))
      (λ q.
        match_cases P (get m.outgoing r.transfer_id) (λ e. inr (refl, refl))
          (λ t e.
            if_cases P (is_some (get t.sending_targets r.target_session_id)) (λ n. inr (refl, refl))
              (λ n.
                inl
                  (refl, rw (e, change) (change-Marks m t r.transfer_id r.target_session_id e n)))))

-- The end of a sending leaves the others marked.
pub end_sending-is_sending :
    (m : TransferManager) (id target : String) (x : String × String)
    → is_sending m x.0 x.1 ≡ true
    → x ≢ (id, target)
    → is_sending (end_sending m id target) x.0 x.1 ≡ true
unfolding end_sending
end_sending-is_sending m id target x h n =
    match_cases (λ (y : TransferManager). is_sending y x.0 x.1 ≡ true) (get m.outgoing id) (λ q. h)
      (λ t e.
        is_sending-put m id (record t { sending_targets = remove t.sending_targets target }) x.0 x.1
        ∙ (elim (Bool-cases (str_eq id x.0)) [
          | inl q ↦
              let same = (eq_iff id x.0).0 q in
              let here : is_some (get t.sending_targets x.1) ≡ true =
                sym (ap (λ (o : Option OutgoingTransfer). targets_have o x.1) e)
                ∙ (let there : is_sending m id x.1 ≡ true = rw same h in there) in
              rw (q, get-remove t.sending_targets target x.1)
                (elim (Bool-cases (str_eq target x.1)) [
                  | inl z ↦ absurd (n (let at = (eq_iff target x.1).0 z in rw (same, at) refl))
                  | inr z ↦ rw z here
                ])
          | inr q ↦ rw q h
        ]))
