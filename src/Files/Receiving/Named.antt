-- ===== src/Files/Receiving/Named.antt =====
-- desktop/app/file_transfer.go: the file of an archive has a name.
use mathlib.Core.Path.{subst}
use clip_cascade_go_fork.Prelude.{
  ℕ, ◌≡◌, ◌≢◌, refl, sym, Bool, true, false, List, [], ◌∷◌, ◌++◌, All, if_cases, arith,
}
use clip_cascade_go_fork.Protocol.Text.{codes}
use clip_cascade_go_fork.Clipboard.Capture.{Bytes}
use clip_cascade_go_fork.Files.Paths.{join, print_path, join_path}
use clip_cascade_go_fork.Files.Paths.Names.{IsComponent}
use clip_cascade_go_fork.Files.Paths.Below.{join-IsBelow}
use clip_cascade_go_fork.Files.Transfer.{
  IncomingTransfer, transfer_payload_temp_name, uses_raw_transfer,
}
use clip_cascade_go_fork.Files.Receiving.{is_empty, payload_path}

filled : (x : Bytes) (c : ℕ) (s : Bytes) → is_empty (x ++ c ∷ s) ≡ false
filled [] c s = refl
filled (b ∷ x) c s = refl

name_filled : (p : Bytes) → p ≢ [] → is_empty p ≡ false
name_filled [] h = absurd (h refl)
name_filled (b ∷ p) h = refl

print_path_filled :
    (rooted : Bool) (xs ps : List Bytes)
    → ps ≢ []
    → All IsComponent ps
    → is_empty (print_path rooted (xs ++ ps)) ≡ false
print_path_filled true xs ps h c = refl
print_path_filled false xs [] h c = absurd (h refl)
print_path_filled false [] (p ∷ []) h c = name_filled p c.0.0
print_path_filled false [] (p ∷ q ∷ ps) h c = filled p b'/' (join_path (q ∷ ps))
print_path_filled false (x ∷ []) (p ∷ ps) h c = filled x b'/' (join_path (p ∷ ps))
print_path_filled false (x ∷ y ∷ xs) (p ∷ ps) h c = filled x b'/' (join_path (y ∷ xs ++ p ∷ ps))

join_filled : (dir name : Bytes) → IsComponent name → is_empty (join dir name) ≡ false
join_filled dir name h =
    let below = join-IsBelow dir name [] (h, tt) in
    subst (λ (path : Bytes). is_empty path ≡ false) (sym below.3)
      (print_path_filled _ _ below.0 below.1 below.2)

bin-IsComponent : IsComponent (codes "payload.bin")
bin-IsComponent = (
  (λ e. ground arith),
  refl,
  (refl, (refl, (refl, (refl, (refl, (refl, (refl, (refl, (refl, (refl, (refl, tt))))))))))),
)

zip-IsComponent : IsComponent (codes "payload.zip")
zip-IsComponent = (
  (λ e. ground arith),
  refl,
  (refl, (refl, (refl, (refl, (refl, (refl, (refl, (refl, (refl, (refl, (refl, tt))))))))))),
)

pub payload_path_filled :
    (t : IncomingTransfer) (base_dir : Bytes) → is_empty (payload_path t base_dir) ≡ false
unfolding transfer_payload_temp_name
payload_path_filled t base_dir =
    if_cases (λ name. is_empty (join base_dir name) ≡ false) (uses_raw_transfer t.manifest)
      (λ q. join_filled base_dir (codes "payload.bin") bin-IsComponent)
      (λ q. join_filled base_dir (codes "payload.zip") zip-IsComponent)
