-- ===== src/Server/BruteForce/Locks.antt =====
-- When an address is locked, and for how long.
use clip_cascade_go_fork.Prelude.{
  ℕ, zero, suc, ◌<◌, ◌≡◌, ◌≢◌, ◌∙◌, Bool, true, false, not, ◌&&◌, Option, none, some, String, List,
  [], ◌∷◌, arith, eq_iff, str_eq, eq_refl, length, ◌+◌, if◌then◌else◌, is_some,
}
use clip_cascade_go_fork.Prelude.Int.{ℤ, pos, ◌+ℤ◌, -ℤ_parts, ltb_ℤ}
use clip_cascade_go_fork.Prelude.Int64.{mul64, leb_ℤ}
use clip_cascade_go_fork.Prelude.Eq.{string_eq}
use clip_cascade_go_fork.GoMap
use clip_cascade_go_fork.GoMap.{get-put, get-remove, get-keep, DistinctKeys}
use clip_cascade_go_fork.Server.BruteForce.{
  LockConfig, AttemptInfo, Attempts, second, is_locked, remaining, check, fresh_info, fail_info,
  record_failure, record_success,
}

-- The outcome of `Check` for an address.
abbrev pub refused : Attempts → ℕ → String → Bool
refused attempts now ip = is_some (check attempts now ip).1

-- A login that fails and runs alone: `Check` runs first, and a refused request records nothing. Between
-- the two no other request of the server runs.
unfoldable pub failed_login : LockConfig → Attempts → ℕ → String → Attempts
failed_login cfg attempts now ip =
    let (attempts', refusal) = check attempts now ip in
    elim refusal [ none ↦ record_failure cfg attempts' now ip | some left ↦ attempts' ]

abbrev pub next_info : LockConfig → ℕ → Option AttemptInfo → AttemptInfo
next_info cfg now none = fail_info cfg now (fresh_info cfg)
next_info cfg now (some info) = fail_info cfg now info

pub record_failure-put :
    (cfg : LockConfig) (attempts : Attempts) (now : ℕ) (ip : String)
    → record_failure cfg attempts now ip
      ≡ GoMap.put attempts ip (next_info cfg now (GoMap.get attempts ip))
unfolding record_failure
record_failure-put cfg attempts now ip = ground arith

-- `Check` drops a lock that has run out, and nothing else.
unfoldable pub lapsed : ℕ → Option AttemptInfo → Bool
lapsed now none = false
lapsed now (some info) = is_locked info && not (ltb_ℤ (pos 0) (remaining info now))

pub check-state :
    (attempts : Attempts) (now : ℕ) (ip : String)
    → (check attempts now ip).0
      ≡ (if lapsed now (GoMap.get attempts ip) then GoMap.remove attempts ip else attempts)
unfolding check lapsed
check-state attempts now ip = ground arith

pub get-check :
    (attempts : Attempts) (now : ℕ) (ip j : String)
    → GoMap.get (check attempts now ip).0 j
      ≡ (if str_eq ip j && lapsed now (GoMap.get attempts ip) then none else GoMap.get attempts j)
get-check attempts now ip j =
    rw (check-state attempts now ip) (ground (arith, get-remove attempts ip j))

-- The operations on one address leave the entry of any other as it is.
pub get_other :
    (cfg : LockConfig) (attempts : Attempts) (now : ℕ) (ip j : String)
    → ip ≢ j
    → (GoMap.get (check attempts now ip).0 j ≡ GoMap.get attempts j)
      × (GoMap.get (record_failure cfg attempts now ip) j ≡ GoMap.get attempts j)
      × (GoMap.get (record_success attempts ip) j ≡ GoMap.get attempts j)
unfolding record_success
get_other cfg attempts now ip j n = (
  ground (arith, n, eq_iff ip j, get-check attempts now ip j),
  rw (record_failure-put cfg attempts now ip) (
      ground
        (arith, n, eq_iff ip j, get-put attempts ip j (next_info cfg now (GoMap.get attempts ip)))),
  ground (arith, n, eq_iff ip j, get-remove attempts ip j),
)

-- A failed login that is not refused.
pub failed_login_passed :
    (cfg : LockConfig) (attempts : Attempts) (now : ℕ) (ip : String)
    → refused attempts now ip ≡ false
    → failed_login cfg attempts now ip ≡ record_failure cfg (check attempts now ip).0 now ip
unfolding failed_login
failed_login_passed cfg attempts now ip e = ground arith

-- The entry of an address with `c` failures and no lock.
abbrev tally : LockConfig → ℕ → Option AttemptInfo
tally cfg zero = none
tally cfg (suc c) =
    some (record { count = suc c; locked_at = 0; lock_dur = mul64 cfg.lock_timeout_seconds second })

abbrev pub lock_duration : LockConfig → ℤ
lock_duration cfg = mul64 (mul64 cfg.lock_timeout_seconds second) cfg.lock_scaling_factor

tally_not_refused :
    (cfg : LockConfig) (c now : ℕ) (attempts : Attempts) (ip : String)
    → GoMap.get attempts ip ≡ tally cfg c
    → (refused attempts now ip ≡ false) × ((check attempts now ip).0 ≡ attempts)
unfolding check
tally_not_refused cfg zero now attempts ip e = ground arith
tally_not_refused cfg (suc c) now attempts ip e = ground arith

next_info-tally :
    (cfg : LockConfig) (c now : ℕ)
    → some (next_info cfg now (tally cfg c)) ≡ (
        if leb_ℤ cfg.max_attempts_per_ip (pos (suc c))
        then some (record { count = suc c; locked_at = now; lock_dur = lock_duration cfg })
        else tally cfg (suc c))
unfolding fail_info fresh_info
next_info-tally cfg zero now = ground arith
next_info-tally cfg (suc c) now = ground arith

get-failed_login-tally :
    (cfg : LockConfig) (c now : ℕ) (attempts : Attempts) (ip : String)
    → GoMap.get attempts ip ≡ tally cfg c
    → GoMap.get (failed_login cfg attempts now ip) ip ≡ (
        if leb_ℤ cfg.max_attempts_per_ip (pos (suc c))
        then some (record { count = suc c; locked_at = now; lock_dur = lock_duration cfg })
        else tally cfg (suc c))
get-failed_login-tally cfg c now attempts ip e =
    let (passed, same) = tally_not_refused cfg c now attempts ip e in
    rw
      (
        failed_login_passed cfg attempts now ip passed,
        same,
        record_failure-put cfg attempts now ip,
        e,
        get-put attempts ip ip (next_info cfg now (tally cfg c)),
        eq_refl ip,
      )
      (next_info-tally cfg c now)

-- Failed logins of one address at the given times, one after the other.
unfoldable pub failed_logins : LockConfig → Attempts → String → List ℕ → Attempts
failed_logins cfg attempts ip [] = attempts
failed_logins cfg attempts ip (now ∷ times) =
    failed_logins cfg (failed_login cfg attempts now ip) ip times

failed_logins-tally :
    (cfg : LockConfig) (max c : ℕ) (attempts : Attempts) (ip : String) (times : List ℕ)
    → cfg.max_attempts_per_ip ≡ pos max
    → c + length times < max
    → GoMap.get attempts ip ≡ tally cfg c
    → GoMap.get (failed_logins cfg attempts ip times) ip ≡ tally cfg (c + length times)
unfolding failed_logins
failed_logins-tally cfg max c attempts ip [] m l e = let q : c + 0 ≡ c = omega arith in rw q e
failed_logins-tally cfg max c attempts ip (now ∷ times) m l e =
    let q : c + suc (length times) ≡ suc c + length times = omega arith in
    let below : leb_ℤ cfg.max_attempts_per_ip (pos (suc c)) ≡ false = rw m (ground arith) in
    rw q (
      failed_logins-tally cfg max (suc c) (failed_login cfg attempts now ip) ip times m
        (omega arith) (get-failed_login-tally cfg c now attempts ip e ∙ rw below))

-- `Check` on an entry that is locked.
locked_refused :
    (info : AttemptInfo) (attempts : Attempts) (now : ℕ) (ip : String)
    → GoMap.get attempts ip ≡ some info
    → 0 < info.locked_at
    → refused attempts now ip ≡ ltb_ℤ (pos now) (pos info.locked_at +ℤ info.lock_dur)
unfolding check
locked_refused info attempts now ip e p =
    ground (arith, e, -ℤ_parts (pos info.locked_at +ℤ info.lock_dur) (pos now))

-- Failed logins that run one after the other: an address that has no entry is refused at no time after
-- fewer of them than `MaxAttemptsPerIP`. The failure that reaches that number, at a time that is not
-- the zero time, locks it: it is refused exactly until the scaled lock duration has passed.
pub failed_logins_lock :
    (cfg : LockConfig) (max : ℕ) (attempts : Attempts) (ip : String) (times : List ℕ) (last now : ℕ)
    → cfg.max_attempts_per_ip ≡ pos max
    → GoMap.get attempts ip ≡ none
    → (length times < max → refused (failed_logins cfg attempts ip times) now ip ≡ false)
      × (suc (length times) ≡ max
          → 0 < last
          → refused (failed_login cfg (failed_logins cfg attempts ip times) last ip) now ip
            ≡ ltb_ℤ (pos now) (pos last +ℤ lock_duration cfg))
failed_logins_lock cfg max attempts ip times last now m e =
    let state = failed_logins cfg attempts ip times in
    let q : 0 + length times ≡ length times = omega arith in
    let counted = (λ (l : length times < max).
      (rw q at (failed_logins-tally cfg max 0 attempts ip times m (omega arith) e))) in
    (
      λ l. (tally_not_refused cfg (length times) now state ip (counted l)).0,
      λ l p.
          let reached : leb_ℤ cfg.max_attempts_per_ip (pos (suc (length times))) ≡ true =
            rw m (ground arith) in
          locked_refused
            (record { count = suc (length times); locked_at = last; lock_dur = lock_duration cfg })
            (failed_login cfg state last ip) now ip
            (get-failed_login-tally cfg (length times) last state ip (counted (omega arith))
              ∙ rw reached)
            p,
    )
