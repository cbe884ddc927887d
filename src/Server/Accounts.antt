-- ===== src/Server/Accounts.antt =====
-- server/handler/auth.go, server/handler/admin.go and server/model/user.go: the accounts of the server.
pub mod Login
pub mod Requests
pub mod Steps
pub mod Safe
pub mod Roles
use Prim.Native.Char.{code}
use clip_cascade_go_fork.Prelude.{
  ℕ, ◌+◌, ◌≡◌, ◌≢◌, Bool, true, false, not, ◌&&◌, ◌||◌, Option, none, some, String, List, [], ◌∷◌,
  ◌++◌, map, if◌then◌else◌, str_eq, ltb, leb, ◌==◌, find, keep_if, All, length,
}
use clip_cascade_go_fork.Prelude.Int.{ℤ, pos, ltb_ℤ}
use clip_cascade_go_fork.Server.BruteForce.{LockConfig, Attempts, record_failure, record_success}

-- `model.User`; `password` is the hash.
pub record User : Type 0 where
  pub id : ℕ
  pub username : String
  pub password : String
  pub role : String
  pub enabled : Bool

abbrev pub has_name : String → User → Bool
has_name name u = str_eq u.username name

-- The users that the database has, and the query of `LoginPost`, which is taken to be answered.
pub record Database (D : Type 0) : Type 0 where
  pub rows : D → List User
  pub first_named : D → String → Option User
  pub first_named-find :
      (d : D) (name : String) → first_named d name ≡ find (has_name name) (rows d)

-- `len` of a string: its bytes in UTF-8.
abbrev pub utf8_size : ℕ → ℕ
utf8_size c = if ltb c 0x80 then 1 else if ltb c 0x800 then 2 else if ltb c 0x10000 then 3 else 4

unfoldable pub byte_length : String → ℕ
byte_length String.[] = 0
byte_length (String.◌∷◌ c s) = utf8_size (code c) + byte_length s

pub data LoginReply : Type 0 where
  missing_credentials invalid disabled session_error : LoginReply
  logged_in : User → LoginReply

-- `matches` is the test of a password against a hash, of bcrypt.
module _ {D : Type 0} (db : Database D) (matches : String → String → Bool) where
  abbrev pub after_login : Bool → User → Option Attempts → String → LoginReply × Option Attempts
  after_login session_saved u attempts ip = (
    if session_saved then logged_in u else session_error,
    elim attempts [ none ↦ none | some a ↦ some (record_success a ip) ],
  )

  abbrev pub failed_attempt : LockConfig → ℕ → Option Attempts → String → Option Attempts
  failed_attempt cfg now attempts ip = elim attempts [
    | none ↦ none
    | some a ↦ some (record_failure cfg a now ip)
  ]

  -- `LoginPost`, with the attempts where the protection is on, and whether the session was saved.
  unfoldable pub login_post :
      LockConfig
      → D
      → Option Attempts
      → ℕ
      → String
      → Bool
      → String
      → String
      → LoginReply × Option Attempts
  login_post cfg d attempts now ip session_saved username password =
      if str_eq username "" || str_eq password ""
      then (missing_credentials, attempts)
      else elim (db.first_named d username) [
        | none ↦ (invalid, failed_attempt cfg now attempts ip)
        | some u ↦
            if not (matches u.password password)
            then (invalid, failed_attempt cfg now attempts ip)
            else if not u.enabled
            then (disabled, failed_attempt cfg now attempts ip)
            else after_login session_saved u attempts ip
      ]
