-- ===== src/Server/Accounts/Requests.antt =====
-- server/handler/auth.go and server/handler/admin.go: the requests that change the accounts, each as the
-- calls of the database that its handler makes.
use clip_cascade_go_fork.Prelude.{
  ℕ, zero, suc, Bool, true, not, ◌&&◌, ◌||◌, Option, none, some, String, if◌then◌else◌, str_eq, ltb,
  ◌==◌,
}
use clip_cascade_go_fork.Prelude.Int.{ℤ, pos, ltb_ℤ}
use clip_cascade_go_fork.Server.Accounts.{User, byte_length}

-- The settings of server/config/config.go that are read here.
pub record AccountConfig : Type 0 where
  pub signup_enabled : Bool
  pub max_user_accounts : ℤ

-- What the handlers answer.
pub data Reply : Type 0 where
  done bad_request forbidden not_found conflict internal : Reply
  missing_fields invalid_length max_accounts_reached user_exists : Reply

pub data Request : Type 0 where
  signup register : String → String → Request
  remove : String → ℕ → Request
  reset change_role : ℕ → String → Request
  toggle : ℕ → Bool → Request
  rename : ℕ → String → Request

-- What the query of one user gives; `query_failed` is any error but `gorm.ErrRecordNotFound`.
pub data Lookup : Type 0 where
  found : User → Lookup
  absent query_failed : Lookup

-- The column that is set, with its value.
pub data Column : Type 0 where
  set_username set_password set_role_name : String → Column
  set_enabled : Bool → Column

unfoldable pub set_column : Column → User → User
set_column (set_username name) u = record u { username = name }
set_column (set_password hashed) u = record u { password = hashed }
set_column (set_role_name role) u = record u { role = role }
set_column (set_enabled enabled) u = record u { enabled = enabled }

-- What is left of a handler that runs: its answer, or the next call of the database and what follows,
-- by the call's result. A handler holds no lock, so the calls of others may come before each of its own.
-- A count that fails counts nothing; of a creation the result is the identifier, of an update the number of
-- rows, or none for an error; the errors of the calls on the settings and of the deletion are ignored.
pub data Program : Type 0 where
  answer : Reply → Program
  count_users : (ℕ → Program) → Program
  find_named : String → (Lookup → Program) → Program
  find_user : ℕ → (Lookup → Program) → Program
  create_row : User → (Option ℕ → Program) → Program
  update_rows : ℕ → Column → (Option ℕ → Program) → Program
  delete_row : ℕ → Program → Program
  create_info : ℕ → String → Program → Program
  delete_info : ℕ → Program → Program

-- `updateSingleUserField`, and the answers to its errors.
abbrev pub after_update : Option ℕ → Program
after_update none = answer internal
after_update (some zero) = answer not_found
after_update (some (suc n)) = answer done

unfoldable pub update_single_user_field : ℕ → Column → Program
update_single_user_field id column = update_rows id column after_update

-- The identifier is the database's to give; `SignupPost` leaves `Enabled` to the column's default, true.
abbrev pub new_user : String → String → User
new_user username hashed = record {
  id = 0;
  username = username;
  password = hashed;
  role = "USER";
  enabled = true;
}

abbrev pub after_create : String → Option ℕ → Program
after_create username none = answer internal
after_create username (some id) = create_info id username (answer done)

-- `hash` is bcrypt's.
module _ (hash : String → Option String) where
  -- A user with the hash of the password, and its settings.
  unfoldable pub create_user : String → String → Program
  create_user username password = elim (hash password) [
    | none ↦ answer internal
    | some hashed ↦ create_row (new_user username hashed) (after_create username)
  ]

  -- The user is created where no user was found; an error of the query is not told apart.
  abbrev pub create_if_absent : Reply → String → String → Lookup → Program
  create_if_absent taken username password (found u) = answer taken
  create_if_absent taken username password absent = create_user username password
  create_if_absent taken username password query_failed = create_user username password

  abbrev pub check_name : Reply → String → String → Program
  check_name taken username password =
      find_named username (create_if_absent taken username password)

  abbrev pub if_not_full : AccountConfig → String → String → ℕ → Program
  if_not_full cfg username password count =
      if not (ltb_ℤ (pos count) cfg.max_user_accounts)
      then answer max_accounts_reached
      else check_name user_exists username password

  unfoldable pub signup_post : AccountConfig → String → String → Program
  unfolding byte_length create_user
  signup_post cfg username password =
      if not cfg.signup_enabled
      then answer forbidden
      else if str_eq username "" || str_eq password ""
      then answer missing_fields
      else if ltb 50 (byte_length username) || ltb (byte_length password) 4
      then answer invalid_length
      else if ltb_ℤ (pos 0) cfg.max_user_accounts
      then count_users (if_not_full cfg username password)
      else check_name user_exists username password

  unfoldable pub register_user : String → String → Program
  unfolding byte_length create_user
  register_user username password =
      if str_eq username "" || str_eq password ""
      then answer bad_request
      else if ltb (byte_length password) 4
      then answer bad_request
      else check_name conflict username password

  abbrev pub delete_found : String → Lookup → Program
  delete_found current_username (found u) =
      if str_eq u.username current_username
      then answer bad_request
      else delete_info u.id (delete_row u.id (answer done))
  delete_found current_username absent = answer not_found
  delete_found current_username query_failed = answer not_found

  unfoldable pub delete_user : String → ℕ → Program
  delete_user current_username id = find_user id (delete_found current_username)

  -- `ResetPassword`, and `UpdatePasswordSelf` with the identifier of the session.
  unfoldable pub reset_password : ℕ → String → Program
  unfolding byte_length update_single_user_field
  reset_password id password =
      if str_eq password ""
      then answer bad_request
      else if ltb (byte_length password) 4
      then answer bad_request
      else elim (hash password) [
        | none ↦ answer internal
        | some hashed ↦ update_single_user_field id (set_password hashed)
      ]

  unfoldable pub set_role : ℕ → String → Program
  unfolding update_single_user_field
  set_role id role =
      if not (str_eq role "USER") && not (str_eq role "ADMIN")
      then answer bad_request
      else update_single_user_field id (set_role_name role)

  unfoldable pub toggle_user_status : ℕ → Bool → Program
  unfolding update_single_user_field
  toggle_user_status id enabled = update_single_user_field id (set_enabled enabled)

  abbrev pub rename_if_free : ℕ → String → Lookup → Program
  rename_if_free id username (found u) =
      if u.id == id then update_single_user_field id (set_username username) else answer conflict
  rename_if_free id username absent = update_single_user_field id (set_username username)
  rename_if_free id username query_failed = answer internal

  unfoldable pub update_username : ℕ → String → Program
  unfolding update_single_user_field
  update_username id username =
      if str_eq username ""
      then answer bad_request
      else find_named username (rename_if_free id username)

  -- The handler of a request; the name is that of the administrator's session.
  unfoldable pub serve : AccountConfig → Request → Program
  unfolding signup_post register_user delete_user reset_password set_role toggle_user_status
      update_username
  serve cfg (signup username password) = signup_post cfg username password
  serve cfg (register username password) = register_user username password
  serve cfg (remove current_username id) = delete_user current_username id
  serve cfg (reset id password) = reset_password id password
  serve cfg (change_role id role) = set_role id role
  serve cfg (toggle id enabled) = toggle_user_status id enabled
  serve cfg (rename id username) = update_username id username
