-- ===== src/Server/BruteForce/Duration.antt =====
-- server/middleware/bruteforce.go: how long the locks last, and what the cleanup changes.
use clip_cascade_go_fork.Prelude.{
  ℕ, zero, suc, ◌∙◌, ◌≤◌, ◌<◌, ◌≡◌, refl, false, not, Option, none, some, String, List, [], ◌∷◌,
  arith, if◌then◌else◌, if_cases, Bool-cases, Option-cases, inl, inr, All,
}
use clip_cascade_go_fork.Prelude.Int.{ℤ, pos, ◌+ℤ◌, -ℤ_parts}
use clip_cascade_go_fork.Prelude.Int64.{mul64, leb_ℤ}
use clip_cascade_go_fork.Prelude.Eq.{string_eq}
use clip_cascade_go_fork.GoMap
use clip_cascade_go_fork.GoMap.{
  All-put, All-remove, All-keep, All-get, get-keep, get-remove, DistinctKeys, DistinctKeys-put,
  DistinctKeys-remove, DistinctKeys-keep,
}
use clip_cascade_go_fork.Server.BruteForce.{
  LockConfig, AttemptInfo, Attempts, second, is_locked, check, fresh_info, fail_info,
  record_failure, record_success, is_expired, cleanup, new_attempts,
}
use clip_cascade_go_fork.Server.BruteForce.Locks.{
  refused, next_info, lapsed, record_failure-put, check-state,
}

-- The duration after some failures: the configured one, scaled by each failure that reaches the limit.
unfoldable pub scaled_duration : LockConfig → ℕ → ℤ
scaled_duration cfg zero = mul64 cfg.lock_timeout_seconds second
scaled_duration cfg (suc n) =
    let before = scaled_duration cfg n in
    if leb_ℤ cfg.max_attempts_per_ip (pos (suc n))
    then mul64 before cfg.lock_scaling_factor
    else before

-- An entry counts its failures, is locked where they reach the limit, and has their duration.
pub record IsCounted (cfg : LockConfig) (info : AttemptInfo) : Type 0 where
  pub duration : info.lock_dur ≡ scaled_duration cfg info.count
  pub limit : is_locked info ≡ leb_ℤ cfg.max_attempts_per_ip (pos info.count)

-- One critical section: of `Check`, of `RecordFailure` or `RecordSuccess`, or a tick of the cleanup. A
-- login makes two of them, and those of other requests may come in between.
pub data Event : Type 0 where
  checks fails : ℕ → String → Event
  succeeds : String → Event
  ticks : ℕ → Event

unfoldable pub handle : LockConfig → Attempts → Event → Attempts
handle cfg attempts (checks now ip) = (check attempts now ip).0
handle cfg attempts (fails now ip) = record_failure cfg attempts now ip
handle cfg attempts (succeeds ip) = record_success attempts ip
handle cfg attempts (ticks now) = cleanup attempts now

unfoldable pub handle_all : LockConfig → Attempts → List Event → Attempts
handle_all cfg attempts [] = attempts
handle_all cfg attempts (e ∷ events) = handle_all cfg (handle cfg attempts e) events

-- A clock never shows Go's zero time.
abbrev pub IsTimed : Event → Type 0
IsTimed (fails now ip) = 0 < now
IsTimed _ = Unit

pub record IsKept (cfg : LockConfig) (attempts : Attempts) : Type 0 where
  pub counted : All (λ (x : String × AttemptInfo). IsCounted cfg x.1) attempts
  pub distinct : DistinctKeys attempts

cleanup_lem :
    (attempts : Attempts) (tick now : ℕ) (ip : String)
    → DistinctKeys attempts
    → tick ≤ now
    → refused (cleanup attempts tick) now ip ≡ refused attempts now ip
unfolding check cleanup
cleanup_lem attempts tick now ip d l = elim (Option-cases (GoMap.get attempts ip)) [
  | inl e ↦ ground (
    arith,
    get-keep (λ (ip : String) (info : AttemptInfo). not (is_expired tick info)) attempts ip d,
  )
  | inr (info, e) ↦ ground (
    arith,
    get-keep (λ (ip : String) (info : AttemptInfo). not (is_expired tick info)) attempts ip d,
    -ℤ_parts (pos info.locked_at +ℤ info.lock_dur) (pos now),
  )
]

module _ (cfg : LockConfig) where
  remove-IsKept :
      (attempts : Attempts) (ip : String)
      → IsKept cfg attempts
      → IsKept cfg (GoMap.remove attempts ip)
  remove-IsKept attempts ip h = record {
    counted = All-remove (λ x. IsCounted cfg x.1) attempts ip h.counted;
    distinct = DistinctKeys-remove attempts ip h.distinct;
  }

  check-IsKept :
      (attempts : Attempts) (now : ℕ) (ip : String)
      → IsKept cfg attempts
      → IsKept cfg (check attempts now ip).0
  check-IsKept attempts now ip h = rw (check-state attempts now ip) (
      if_cases (IsKept cfg) (lapsed now (GoMap.get attempts ip)) (λ _. remove-IsKept attempts ip h)
        (λ _. h))

  fail_info-IsCounted :
      (now : ℕ) (info : AttemptInfo)
      → 0 < now
      → info.lock_dur ≡ scaled_duration cfg info.count
      → (leb_ℤ cfg.max_attempts_per_ip (pos (suc info.count)) ≡ false → is_locked info ≡ false)
      → IsCounted cfg (fail_info cfg now info)
  unfolding fail_info scaled_duration
  fail_info-IsCounted now info p e l =
      elim (Bool-cases (leb_ℤ cfg.max_attempts_per_ip (pos (suc info.count)))) [
        | inl q ↦ rw q (record { duration = rw (q, e) refl; limit = rw q (ground arith) })
        | inr q ↦ rw q (record { duration = rw (q, e) refl; limit = rw q (l q) })
      ]

  next_info-IsCounted :
      (now : ℕ) (o : Option AttemptInfo)
      → 0 < now
      → ((info : AttemptInfo) → o ≡ some info → IsCounted cfg info)
      → IsCounted cfg (next_info cfg now o)
  unfolding fresh_info
  next_info-IsCounted now none p h =
      fail_info-IsCounted now (fresh_info cfg) p (unfold scaled_duration in refl) (λ q. refl)
  next_info-IsCounted now (some info) p h =
      let k = h info refl in
      fail_info-IsCounted now info p k.duration
        (λ q. k.limit ∙ below cfg.max_attempts_per_ip info.count q)
    where
      below : (m : ℤ) (n : ℕ) → leb_ℤ m (pos (suc n)) ≡ false → leb_ℤ m (pos n) ≡ false
      below m n q = ground arith

  record_failure-IsKept :
      (attempts : Attempts) (now : ℕ) (ip : String)
      → 0 < now
      → IsKept cfg attempts
      → IsKept cfg (record_failure cfg attempts now ip)
  record_failure-IsKept attempts now ip p h =
      let next = next_info cfg now (GoMap.get attempts ip) in
      rw (record_failure-put cfg attempts now ip) (record {
        counted =
            All-put (λ x. IsCounted cfg x.1) attempts ip next
              (next_info-IsCounted now (GoMap.get attempts ip) p
                (λ info e. All-get (IsCounted cfg) attempts ip info h.counted e))
              h.counted;
        distinct = DistinctKeys-put attempts ip next h.distinct;
      })

  handle-IsKept :
      (attempts : Attempts) (e : Event)
      → IsTimed e
      → IsKept cfg attempts
      → IsKept cfg (handle cfg attempts e)
  unfolding handle record_success cleanup
  handle-IsKept attempts (fails now ip) t h = record_failure-IsKept attempts now ip t h
  handle-IsKept attempts (succeeds ip) t h = remove-IsKept attempts ip h
  handle-IsKept attempts (checks now ip) t h = check-IsKept attempts now ip h
  handle-IsKept attempts (ticks now) t h = record {
    counted =
        All-keep (λ x. IsCounted cfg x.1) (λ ip info. not (is_expired now info)) attempts h.counted;
    distinct = DistinctKeys-keep (λ ip info. not (is_expired now info)) attempts h.distinct;
  }

  handle_all-IsKept :
      (attempts : Attempts) (events : List Event)
      → All IsTimed events
      → IsKept cfg attempts
      → IsKept cfg (handle_all cfg attempts events)
  unfolding handle_all
  handle_all-IsKept attempts [] t h = h
  handle_all-IsKept attempts (e ∷ events) t h =
      handle_all-IsKept (handle cfg attempts e) events t.1 (handle-IsKept attempts e t.0 h)

  -- The cleanup at a time changes no later answer of `Check`.
  pub refused-cleanup :
      (events : List Event) (tick now : ℕ) (ip : String)
      → All IsTimed events
      → tick ≤ now
      → refused (cleanup (handle_all cfg new_attempts events) tick) now ip
        ≡ refused (handle_all cfg new_attempts events) now ip
  refused-cleanup events tick now ip t l =
      let kept =
        handle_all-IsKept new_attempts events t
          (unfold new_attempts in record { counted = tt; distinct = tt }) in
      cleanup_lem (handle_all cfg new_attempts events) tick now ip kept.distinct l
