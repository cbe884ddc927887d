-- ===== src/Tests/ServerTests.antt =====
-- The server's limits and its protection against guessed passwords, at concrete inputs.
use clip_cascade_go_fork.Prelude.{ℕ, ◌≡◌, refl, ◌<◌, true, false, List, [], ◌∷◌, some, length, suc}
use clip_cascade_go_fork.Prelude.Int.{pos, ltb_ℤ, ◌+ℤ◌, ◌≤ℤ◌}
use clip_cascade_go_fork.Prelude.Eq.{string_eq}
use clip_cascade_go_fork.GoMap
use clip_cascade_go_fork.Server.Limits.{
  min_read_limit, resolve_read_limit, apply_read_limit, resolve_read_limit_safe,
}
use clip_cascade_go_fork.Server.BruteForce.{LockConfig, AttemptInfo, new_attempts}
use clip_cascade_go_fork.Server.BruteForce.Locks.{
  refused, failed_login, failed_logins, lock_duration, failed_logins_lock,
}
use clip_cascade_go_fork.Server.BruteForce.Duration.{Event, fails, checks}

resolve_read_limit_safe_example :
    (min_read_limit ≤ℤ resolve_read_limit (pos 0) (pos 20))
    × (apply_read_limit true (resolve_read_limit (pos 0) (pos 20))
        ≡ some (resolve_read_limit (pos 0) (pos 20)))
resolve_read_limit_safe_example = resolve_read_limit_safe (pos 0) (pos 20)

-- Two attempts, a minute, and a factor of two.
abbrev cfg : LockConfig
cfg = record {
  max_attempts_per_ip = pos 2;
  lock_timeout_seconds = pos 60;
  lock_scaling_factor = pos 2;
}

failed_logins_lock_example :
    (length {A = ℕ} (7 ∷ []) < 2
      → refused (failed_logins cfg new_attempts "a" (7 ∷ [])) 9 "a" ≡ false)
    × (suc (length {A = ℕ} (7 ∷ [])) ≡ 2
        → 0 < 8
        → refused (failed_login cfg (failed_logins cfg new_attempts "a" (7 ∷ [])) 8 "a") 9 "a"
          ≡ ltb_ℤ (pos 9) (pos 8 +ℤ lock_duration cfg))
unfolding new_attempts GoMap.get
failed_logins_lock_example = failed_logins_lock cfg 2 new_attempts "a" (7 ∷ []) 8 9 refl refl

-- Two requests that pass `Check` together: the second failure locks the address for two minutes, the
-- third for four.
abbrev history : List Event
history = fails 7 "a" ∷ checks 8 "a" ∷ checks 8 "a" ∷ fails 9 "a" ∷ fails 10 "a" ∷ []

abbrev locked_info : AttemptInfo
locked_info = record { count = 3; locked_at = 10; lock_dur = pos 240_000_000_000 }
