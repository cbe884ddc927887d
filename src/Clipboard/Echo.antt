-- ===== src/Clipboard/Echo.antt =====
-- desktop/clipboard/monitor.go: the changes that follow a write of the program, and the others.
use clip_cascade_go_fork.Prelude.{
  ℕ, ◌+◌, ◌-◌, ◌<◌, ◌≤◌, ◌≡◌, ◌≢◌, refl, sym, ◌∙◌, Bool, true, Option, none, some, String, List, [],
  ◌∷◌, ◌++◌, arith, length, All, if_cases, inl, inr, str_eq, ◌⊎◌,
}
use clip_cascade_go_fork.Protocol.Text.{Text}
use clip_cascade_go_fork.Clipboard.Capture.{
  CaptureData, type_text, type_image, type_file_stub, type_file_eager, normalize_paths,
  file_stub_payload,
}
use clip_cascade_go_fork.Clipboard.Changes.{
  ClipboardManager, suppression_time, is_expired, expire, report_change, handle_change,
}
use clip_cascade_go_fork.Clipboard.Writes.{
  Calls, PasteError, unsupported_type, paste, stage_text, stage_file_paths, settle, extra_twice,
  image_error, file_error, prepare_write, add_extra_suppression, snapshot_state, restore_state,
}

-- The changes of the clipboard, each with its time, and what is reported of them.
abbrev pub Change : Type 0
Change = ℕ × CaptureData

module _ (hash : Text → ℕ) where
  unfoldable pub handle_changes :
      ClipboardManager → List Change → ClipboardManager × List CaptureData
  unfolding handle_change
  handle_changes m [] = (m, [])
  handle_changes m ((now, capture) ∷ changes) =
      let (n, report) = handle_change hash m now capture in
      let (u, reports) = handle_changes n changes in
      (u, elim report [ none ↦ reports | some c ↦ c ∷ reports ])

  handle_change_same :
      (m : ClipboardManager) (now : ℕ) (capture : CaptureData)
      → hash capture.payload ≡ m.last_hash
      → ((handle_change hash m now capture).1 ≡ none)
        × ((handle_change hash m now capture).0.last_hash ≡ m.last_hash)
  unfolding handle_change report_change expire
  handle_change_same m now capture h = ground arith

  -- Changes that all have the content with the last hash are not reported, and leave that hash; the
  -- changes after them are handled as if they came alone.
  handle_changes_same :
      (m : ClipboardManager) (h : ℕ) (changes rest : List Change)
      → m.last_hash ≡ h
      → All (λ c. hash c.1.payload ≡ h) changes
      → ((handle_changes m (changes ++ rest)).1
          ≡ (handle_changes (handle_changes m changes).0 rest).1)
        × ((handle_changes m changes).1 ≡ [])
        × ((handle_changes m changes).0.last_hash ≡ h)
  unfolding handle_changes
  handle_changes_same m h [] rest e a = (refl, refl, e)
  handle_changes_same m h ((now, capture) ∷ changes) rest e a =
      let (silent, same) = handle_change_same m now capture (a.0 ∙ sym e) in
      rw (handle_changes, silent)
        (handle_changes_same (handle_change hash m now capture).0 h changes rest (same ∙ e) a.1)

  -- How the changes after a write of content with the hash `h` are handled.
  abbrev pub IsSilent : ClipboardManager → ℕ → List Change → List Change → Type 0
  IsSilent m h changes rest =
      ((handle_changes m changes).1 ≡ [])
      × ((handle_changes m (changes ++ rest)).1
          ≡ (handle_changes (handle_changes m changes).0 rest).1)
      × ((handle_changes m changes).0.last_hash ≡ h)

  handle_changes-IsSilent :
      (m : ClipboardManager) (h : ℕ) (changes rest : List Change)
      → m.last_hash ≡ h
      → All (λ c. hash c.1.payload ≡ h) changes
      → IsSilent m h changes rest
  handle_changes-IsSilent m h changes rest e a =
      let (apart, silent, same) = handle_changes_same m h changes rest e a in (silent, apart, same)

  -- After a text was pasted or staged, whichever of the ways of writing was taken, the changes that come
  -- before any with another hash than that of the text are not reported, however many they are and at
  -- whatever times, also when the suppression has run out: the reports of a longer run are those of the
  -- changes from the first one with another hash on, which finds the text's hash as the last one.
  pub written-IsSilent :
      (calls : Calls) (m : ClipboardManager) (now : ℕ) (payload : Text) (changes rest : List Change)
      → All (λ c. hash c.1.payload ≡ hash payload) changes
      → IsSilent (paste hash calls m now payload type_text).0 (hash payload) changes rest
        × IsSilent (stage_text hash calls m now payload) (hash payload) changes rest
  unfolding paste stage_text prepare_write add_extra_suppression
  written-IsSilent calls m now payload changes rest h =
      let P = λ (n : ClipboardManager). n.last_hash ≡ hash payload in
      (
        handle_changes-IsSilent (paste hash calls m now payload type_text).0 (hash payload) changes
            rest (if_cases P calls.text_set (λ _. refl) (λ _. refl)) h,
        handle_changes-IsSilent (stage_text hash calls m now payload) (hash payload) changes rest
            (if_cases P calls.text_set (λ _. refl) (λ _. refl)) h,
      )

  -- After file paths were staged, and there were some, the changes whose content has the hash of
  -- the capture of those paths are not reported, as long as no other change comes.
  pub staged_files_silent :
      (calls : Calls) (m : ClipboardManager) (now : ℕ) (paths : List Text) (changes : List Change)
      → normalize_paths paths ≢ []
      → calls.paths_set ≡ true
      → All (λ c. hash c.1.payload ≡ hash (file_stub_payload (normalize_paths paths))) changes
      → (handle_changes (stage_file_paths hash calls m now paths).0 changes).1 ≡ []
  unfolding stage_file_paths prepare_write add_extra_suppression
  staged_files_silent calls m now paths changes some_paths set h =
      (handle_changes-IsSilent (stage_file_paths hash calls m now paths).0
        (hash (file_stub_payload (normalize_paths paths))) changes []
        (by_paths (normalize_paths paths) refl) h).0
    where
      by_paths :
          (ps : List Text)
          → normalize_paths paths ≡ ps
          → (stage_file_paths hash calls m now paths).0.last_hash
            ≡ hash (file_stub_payload (normalize_paths paths))
      by_paths [] e = elim (some_paths e) [ ]
      by_paths (p ∷ ps) e = rw (stage_file_paths, e, set) refl

-- How a write of the content with the hash `h` ends: refused, with the manager as it was, or done,
-- with that hash and one change or three more to suppress.
pub data Settled (m : ClipboardManager) (now h : ℕ)
    : ClipboardManager × Option PasteError → Type 0 where
  refused : (e : PasteError) → Settled m now h (m, some e)
  done :
      (n : ClipboardManager)
      → n.last_hash ≡ h
      → n.suppressed_at ≡ now
      → n.has_on_copy ≡ m.has_on_copy
      → (n.suppressed_edits ≡ m.suppressed_edits + 1)
        ⊎ (n.suppressed_edits ≡ m.suppressed_edits + 3)
      → Settled m now h (n, none)

module _ (hash : Text → ℕ) (calls : Calls) (m : ClipboardManager) (now : ℕ) where
  abbrev prepared : ℕ → ClipboardManager
  prepared h = prepare_write m now h

  prepared_done : (h : ℕ) → Settled m now h (prepared h, none)
  unfolding prepare_write
  prepared_done h = done (prepared h) refl refl refl (inl (omega arith))

  extra_done :
      (h : ℕ)
      → Settled m now h (add_extra_suppression (add_extra_suppression (prepared h) now) now, none)
  unfolding prepare_write add_extra_suppression
  extra_done h =
      done (add_extra_suppression (add_extra_suppression (prepared h) now) now) refl refl refl
        (inr (omega arith))

  extra_twice_done :
      (h : ℕ) (native : Bool) → Settled m now h (extra_twice (prepared h) now native, none)
  extra_twice_done h native =
      if_cases (λ (n : ClipboardManager). Settled m now h (n, none)) native (λ _. extra_done h)
        (λ _. prepared_done h)

  settle_done :
      (h : ℕ) (n : ClipboardManager) (o : Option PasteError)
      → Settled m now h (n, none)
      → Settled m now h (settle (snapshot_state m) (prepared h) n o)
  unfolding prepare_write snapshot_state restore_state
  settle_done h n none d = d
  settle_done h n (some e) d = refused e

  -- A paste of any type, whatever the calls that it makes give, ends with the manager as it was and
  -- an error, or with the hash of the content and one change or three more to suppress.
  pub paste-Settled :
      (payload : Text) (type : String)
      → Settled m now (hash payload) (paste hash calls m now payload type)
  unfolding paste image_error
  paste-Settled payload type =
      let h = hash payload in
      let P = Settled m now h in
      if_cases P (str_eq type type_text) (λ _. extra_twice_done h calls.text_set)
        (λ _.
          if_cases P (str_eq type type_image)
            (λ _. settle_done h _ (image_error calls) (extra_twice_done h calls.image_set))
            (λ _.
              if_cases P (str_eq type type_file_stub) (λ _. prepared_done h)
                (λ _.
                  if_cases P (str_eq type type_file_eager)
                    (λ _. settle_done h _ (file_error calls) (prepared_done h))
                    (λ _. settle_done h _ (some unsupported_type) (prepared_done h)))))

module _ (hash : Text → ℕ) where
  handle_change-count :
      (m : ClipboardManager) (now : ℕ) (capture : CaptureData)
      → ((handle_change hash m now capture).0.suppressed_edits ≤ m.suppressed_edits - 1)
        × ((handle_change hash m now capture).0.has_on_copy ≡ m.has_on_copy)
  unfolding handle_change report_change expire
  handle_change-count m now capture = ground arith

  handle_changes-count :
      (m : ClipboardManager) (changes : List Change)
      → ((handle_changes hash m changes).0.suppressed_edits ≤ m.suppressed_edits - length changes)
        × ((handle_changes hash m changes).0.has_on_copy ≡ m.has_on_copy)
  unfolding handle_changes
  handle_changes-count m [] = (omega arith, refl)
  handle_changes-count m ((now, capture) ∷ changes) =
      let n = (handle_change hash m now capture).0 in
      let (a, b) = handle_change-count m now capture in
      let (c, d) = handle_changes-count n changes in (omega (arith, a, c), d ∙ b)

  reported :
      (m : ClipboardManager) (now : ℕ) (capture : CaptureData)
      → m.has_on_copy ≡ true
      → (expire m now).suppressed_edits ≡ 0
      → hash capture.payload ≢ m.last_hash
      → (handle_change hash m now capture).1 ≡ some capture
  unfolding handle_change report_change expire
  reported m now capture cb quiet new = ground arith

  -- Once as many changes have come as were to be suppressed, whatever they are, the next change is
  -- reported if its hash is not the last one and there is a callback.
  pub copy_reported :
      (m : ClipboardManager) (changes : List Change) (now : ℕ) (capture : CaptureData)
      → m.has_on_copy ≡ true
      → m.suppressed_edits ≤ length changes
      → hash capture.payload ≢ (handle_changes hash m changes).0.last_hash
      → (handle_change hash (handle_changes hash m changes).0 now capture).1 ≡ some capture
  unfolding expire
  copy_reported m changes now capture cb enough new =
      let (a, b) = handle_changes-count m changes in
      let n = (handle_changes hash m changes).0 in
      let none_left : n.suppressed_edits ≡ 0 = omega (arith, a, enough) in
      reported n now capture (b ∙ cb)
        (if_cases (λ (x : ClipboardManager). x.suppressed_edits ≡ 0) (is_expired n now) (λ _. refl)
          (λ _. none_left))
        new

  -- A change that comes more than five seconds after the last write is reported, however many
  -- changes were still to be suppressed, if its hash is not the last one and there is a callback.
  pub late_copy_reported :
      (m : ClipboardManager) (now : ℕ) (capture : CaptureData)
      → m.has_on_copy ≡ true
      → 0 < m.suppressed_at
      → m.suppressed_at + suppression_time < now
      → hash capture.payload ≢ m.last_hash
      → (handle_change hash m now capture).1 ≡ some capture
  unfolding expire
  late_copy_reported m now capture cb written late new =
      reported m now capture cb (ground arith) new
