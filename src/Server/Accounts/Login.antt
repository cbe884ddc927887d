-- ===== src/Server/Accounts/Login.antt =====
-- server/handler/auth.go: who is logged in.
use clip_cascade_go_fork.Prelude.{
  ℕ, ◌≡◌, ◌≢◌, ◌↔◌, refl, sym, ◌∙◌, Bool, true, false, not, ◌||◌, Option, some, String, str_eq,
  eq_iff, arith, if_cases, match_cases, find,
}
use clip_cascade_go_fork.Server.BruteForce.{LockConfig, Attempts, record_failure, record_success}
use clip_cascade_go_fork.Server.Accounts.{
  User, Database, LoginReply, missing_credentials, invalid, disabled, session_error, logged_in,
  login_post, after_login, has_name,
}

module _ {D : Type 0} (db : Database D) (matches : String → String → Bool) where
  -- What a user must have to be logged in.
  abbrev pub Enters : D → Bool → String → String → User → Type 0
  Enters d session_saved username password u =
      (username ≢ "")
      × (password ≢ "")
      × (find (has_name username) (db.rows d) ≡ some u)
      × (matches u.password password ≡ true)
      × (u.enabled ≡ true)
      × (session_saved ≡ true)

  entered :
      (s : Bool) (v u : User) (attempts : Option Attempts) (ip : String)
      → (after_login db matches s v attempts ip).0 ≡ logged_in u
      → (v ≡ u) × (s ≡ true)
  entered true v u attempts ip e = (ground arith, refl)
  entered false v u attempts ip e = absurd (ground arith)

  not_empty : (s : String) (b : Bool) → (str_eq s "" || b) ≡ false → s ≢ ""
  not_empty s b h e = ground (arith, (eq_iff s "").1 e)

  filled : (s t : String) → s ≢ "" → t ≢ "" → (str_eq s "" || str_eq t "") ≡ false
  filled s t h k = ground (arith, (eq_iff s "").0, (eq_iff t "").0)

  login_post-Enters :
      (cfg : LockConfig) (d : D) (attempts : Option Attempts) (now : ℕ) (ip : String)
      (session_saved : Bool) (username password : String) (u : User)
      → (login_post db matches cfg d attempts now ip session_saved username password).0
        ≡ logged_in u
      → Enters d session_saved username password u
  unfolding login_post
  login_post-Enters cfg d attempts now ip session_saved username password u =
      let P = λ (r : LoginReply × Option Attempts).
        r.0 ≡ logged_in u → Enters d session_saved username password u in
      if_cases P (str_eq username "" || str_eq password "") (λ q n. absurd (ground arith))
        (λ q.
          match_cases P (db.first_named d username) (λ e n. absurd (ground arith))
            (λ v e.
              if_cases P (not (matches v.password password)) (λ m n. absurd (ground arith))
                (λ m.
                  if_cases P (not v.enabled) (λ k n. absurd (ground arith))
                    (λ k n.
                      let at = entered session_saved v u attempts ip n in
                      (
                        not_empty username (str_eq password "") q,
                        not_empty password (str_eq username "") (ground arith),
                        rw (← at.0) (sym (db.first_named-find d username) ∙ e),
                        rw (← at.0) (ground arith),
                        rw (← at.0) (ground arith),
                        at.1,
                      )))))

  -- A login of the form is answered with a user exactly if it is the first of the users with this name,
  -- the password matches the hash, the user is enabled, neither text is empty and the session was
  -- saved.
  pub login_post_iff :
      (cfg : LockConfig) (d : D) (attempts : Option Attempts) (now : ℕ) (ip : String)
      (session_saved : Bool) (username password : String) (u : User)
      → ((login_post db matches cfg d attempts now ip session_saved username password).0
          ≡ logged_in u)
        ↔ Enters d session_saved username password u
  unfolding login_post
  login_post_iff cfg d attempts now ip session_saved username password u = (there, back)
    where
      there :
          (login_post db matches cfg d attempts now ip session_saved username password).0
            ≡ logged_in u
          → Enters d session_saved username password u
      there = login_post-Enters cfg d attempts now ip session_saved username password u

      back :
          Enters d session_saved username password u
          → (login_post db matches cfg d attempts now ip session_saved username password).0
            ≡ logged_in u
      back (n, p, f, m, e, s) =
          let named = db.first_named-find d username ∙ f in
          rw (login_post, filled username password n p, named, m, e, s) refl

  -- What a login records for the address, by its answer.
  abbrev pub recorded : LockConfig → ℕ → Attempts → String → LoginReply → Attempts
  recorded cfg now a ip missing_credentials = a
  recorded cfg now a ip invalid = record_failure cfg a now ip
  recorded cfg now a ip disabled = record_failure cfg a now ip
  recorded cfg now a ip session_error = record_success a ip
  recorded cfg now a ip (logged_in u) = record_success a ip

  -- Where the protection is on, each login counts for its address as its answer says: a failure for a
  -- wrong name or password or a disabled user, a success where all is right, and nothing where the
  -- name or the password is empty.
  pub login_post-recorded :
      (cfg : LockConfig) (d : D) (a : Attempts) (now : ℕ) (ip : String) (session_saved : Bool)
      (username password : String)
      → (login_post db matches cfg d (some a) now ip session_saved username password).1
        ≡ some (
            recorded cfg now a ip
              (login_post db matches cfg d (some a) now ip session_saved username password).0)
  unfolding login_post
  login_post-recorded cfg d a now ip session_saved username password =
      let P = λ (r : LoginReply × Option Attempts). r.1 ≡ some (recorded cfg now a ip r.0) in
      if_cases P (str_eq username "" || str_eq password "") (λ q. refl)
        (λ q.
          match_cases P (db.first_named d username) (λ e. refl)
            (λ u e.
              if_cases P (not (matches u.password password)) (λ q. refl)
                (λ q. if_cases P (not u.enabled) (λ q. refl) (λ q. saved u session_saved))))
    where
      saved :
          (u : User) (s : Bool)
          → (after_login db matches s u (some a) ip).1
            ≡ some (recorded cfg now a ip (after_login db matches s u (some a) ip).0)
      saved u true = refl
      saved u false = refl
