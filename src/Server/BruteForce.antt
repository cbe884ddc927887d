-- ===== src/Server/BruteForce.antt =====
-- server/middleware/bruteforce.go: the lock of an address after failed logins. Every method runs
-- under the lock of the structure, so it is one step; the time of the step is an argument.
pub mod Locks
pub mod Duration
use clip_cascade_go_fork.Prelude.{
  ℕ, suc, ◌*◌, ◌^◌, Bool, true, false, not, ◌&&◌, Option, none, some, String, [], ◌==◌,
  if◌then◌else◌,
}
use clip_cascade_go_fork.Prelude.Int.{ℤ, pos, ◌+ℤ◌, ◌-ℤ◌, ltb_ℤ}
use clip_cascade_go_fork.Prelude.Int64.{mul64, leb_ℤ}
use clip_cascade_go_fork.Prelude.Eq.{string_eq}
use clip_cascade_go_fork.GoMap
use clip_cascade_go_fork.GoMap.{GoMap}

-- The settings that the protection reads, of server/config/config.go.
pub record LockConfig : Type 0 where
  pub max_attempts_per_ip : ℤ
  pub lock_timeout_seconds : ℤ
  pub lock_scaling_factor : ℤ

-- A time is in nanoseconds, 0 for the zero time; a duration is an int64 in nanoseconds.
pub record AttemptInfo : Type 0 where
  pub count : ℕ
  pub locked_at : ℕ
  pub lock_dur : ℤ

abbrev pub Attempts : Type 0
Attempts = GoMap String AttemptInfo

abbrev pub second : ℤ
second = pos (10 ^ 9)

unfoldable pub new_attempts : Attempts
new_attempts = []

abbrev pub is_locked : AttemptInfo → Bool
is_locked info = not (info.locked_at == 0)

-- `time.Until(info.LockedAt.Add(info.LockDur))`
abbrev pub remaining : AttemptInfo → ℕ → ℤ
remaining info now = pos info.locked_at +ℤ info.lock_dur -ℤ pos now

-- `Check`: the request is refused with the time that is left, or it is passed on.
unfoldable pub check : Attempts → ℕ → String → Attempts × Option ℤ
check attempts now ip = elim (GoMap.get attempts ip) [
  | none ↦ (attempts, none)
  | some info ↦
      if is_locked info
      then (if ltb_ℤ (pos 0) (remaining info now)
          then (attempts, some (remaining info now))
          else (GoMap.remove attempts ip, none))
      else (attempts, none)
]

-- The entry of an address that has none yet.
unfoldable pub fresh_info : LockConfig → AttemptInfo
fresh_info cfg = record {
  count = 0;
  locked_at = 0;
  lock_dur = mul64 cfg.lock_timeout_seconds second;
}

-- What `RecordFailure` does to the entry.
unfoldable pub fail_info : LockConfig → ℕ → AttemptInfo → AttemptInfo
fail_info cfg now info =
    if leb_ℤ cfg.max_attempts_per_ip (pos (suc info.count))
    then record {
      count = suc info.count;
      locked_at = now;
      lock_dur = mul64 info.lock_dur cfg.lock_scaling_factor;
    }
    else record info { count = suc info.count }

unfoldable pub record_failure : LockConfig → Attempts → ℕ → String → Attempts
unfolding fresh_info fail_info
record_failure cfg attempts now ip = elim (GoMap.get attempts ip) [
  | none ↦ GoMap.put attempts ip (fail_info cfg now (fresh_info cfg))
  | some info ↦ GoMap.put attempts ip (fail_info cfg now info)
]

unfoldable pub record_success : Attempts → String → Attempts
record_success attempts ip = GoMap.remove attempts ip

-- `now.After(info.LockedAt.Add(info.LockDur))`
abbrev pub is_expired : ℕ → AttemptInfo → Bool
is_expired now info = is_locked info && ltb_ℤ (pos info.locked_at +ℤ info.lock_dur) (pos now)

-- One tick of `Cleanup`.
unfoldable pub cleanup : Attempts → ℕ → Attempts
cleanup attempts now = GoMap.keep (λ ip info. not (is_expired now info)) attempts
