-- ===== src/Tests/AccountTests.antt =====
-- The accounts of the server over a list of users, at concrete inputs.
use clip_cascade_go_fork.Prelude.{
  ℕ, ◌≡◌, ◌≢◌, ◌↔◌, refl, true, false, Bool, Option, none, some, String, List, [], ◌∷◌, arith, map,
  find, str_eq, eq_iff, All, ◌⊎◌, inl, inr,
}
use clip_cascade_go_fork.Prelude.Int.{pos, negsuc}
use clip_cascade_go_fork.GoMap.{get, put}
use clip_cascade_go_fork.Server.BruteForce.{
  LockConfig, fresh_info, fail_info, record_failure, record_success,
}
use clip_cascade_go_fork.Server.Accounts.{
  User, Database, logged_in, has_name, byte_length, login_post,
}
use clip_cascade_go_fork.Server.Accounts.Requests.{
  register, change_role, AccountConfig, done, conflict, internal, found, query_failed,
  set_role_name, set_column, Program, answer, create_row, create_info, new_user, after_create,
  after_update, create_user, create_if_absent, register_user, delete_user, update_single_user_field,
  reset_password, set_role, signup_post, toggle_user_status, update_username, rename_if_free, serve,
}
use clip_cascade_go_fork.Server.Accounts.Steps.{
  at_id, World, comes, calls, looked_named, updated, created, Reach, at_start, next,
}
use clip_cascade_go_fork.Server.Accounts.Safe.{IsAccount, Grants}
use clip_cascade_go_fork.Server.Accounts.Roles.{accounts_sound}
use clip_cascade_go_fork.Server.Accounts.Login.{
  Enters, recorded, login_post_iff, login_post-recorded,
}

-- A database in memory.
abbrev memory_db : Database (List User)
memory_db = record {
  rows = λ d. d;
  first_named = λ d name. find (has_name name) d;
  first_named-find = λ d name. refl;
}

abbrev alice : User
alice = record { id = 1; username = "alice"; password = "h"; role = "ADMIN"; enabled = true }

abbrev bob : User
bob = record { id = 2; username = "bob"; password = "h"; role = "USER"; enabled = true }

abbrev users : List User
users = alice ∷ bob ∷ []

abbrev matches : String → String → Bool
matches h password = str_eq password "secret"

abbrev hash : String → Option String
hash password = some "h"

abbrev config : AccountConfig
config = record { signup_enabled = false; max_user_accounts = negsuc 0 }

abbrev locks : LockConfig
locks = record {
  max_attempts_per_ip = pos 3;
  lock_timeout_seconds = pos 60;
  lock_scaling_factor = pos 2;
}

account_code : Unit {0}
unfolding byte_length login_post create_user register_user delete_user update_single_user_field
    reset_password set_role signup_post toggle_user_status update_username serve set_column get put
    fresh_info fail_info record_failure record_success
account_code = tt

-- A name that is taken, where the query finds it, and where it fails.
taken_refused : rename_if_free hash 2 "alice" (found alice) ≡ answer conflict
unfolding account_code
taken_refused = refl

failed_refused : rename_if_free hash 2 "alice" query_failed ≡ answer internal
unfolding account_code
failed_refused = refl

-- Only the first two may be administrators.
abbrev May : ℕ → Type 0
May id = (id ≡ 1) ⊎ (id ≡ 2)

apart : (a b : String) → str_eq a b ≡ false → a ≢ b
apart a b h e = (let clash : str_eq a b ≡ true = (eq_iff a b).1 e in ground arith)

users_sound : All (IsAccount hash config May) users
unfolding byte_length
users_sound = (
  record {
    named = λ e. apart "alice" "" refl e;
    hashed = ("secret", refl, refl);
    known = inr refl;
    may = λ e. inl refl;
  },
  (
    record {
      named = λ e. apart "bob" "" refl e;
      hashed = ("secret", refl, refl);
      known = inl refl;
      may = λ e. inr refl;
    },
    tt,
  ),
)

abbrev start : World
start = record { rows = users; running = [] }

-- A registration whose query fails goes on, and a second request makes bob an administrator meanwhile.
abbrev registering : Program
registering = create_row (new_user "carol" "h") (after_create "carol")

abbrev carol : User
carol = record { id = 3; username = "carol"; password = "h"; role = "USER"; enabled = true }

abbrev end_world : World
end_world = record {
  rows = carol ∷ map (at_id 2 (set_column (set_role_name "ADMIN"))) users;
  running = answer done ∷ create_info 3 "carol" (answer done) ∷ [];
}

reached : Reach hash config (Grants hash config May) start end_world
unfolding account_code
reached =
    next
      (next
        (next
          (next (next at_start (comes start (register "carol" "secret") tt)) (
            calls users users [] [] (serve hash config (register "carol" "secret")) registering (
              looked_named users "carol" (create_if_absent hash conflict "carol" "secret")
                query_failed)))
          (comes (record { rows = users; running = registering ∷ [] }) (change_role 2 "ADMIN")
            (λ e. inr refl)))
        (calls users (map (at_id 2 (set_column (set_role_name "ADMIN"))) users) []
          (registering ∷ []) (serve hash config (change_role 2 "ADMIN")) (answer done)
          (updated users 2 (set_role_name "ADMIN") after_update 1)))
      (calls (map (at_id 2 (set_column (set_role_name "ADMIN"))) users)
        (carol ∷ map (at_id 2 (set_column (set_role_name "ADMIN"))) users) (answer done ∷ []) []
        registering (create_info 3 "carol" (answer done))
        (created (map (at_id 2 (set_column (set_role_name "ADMIN"))) users) (new_user "carol" "h")
          (after_create "carol") 3))

accounts_sound_example : All (IsAccount hash config May) end_world.rows
accounts_sound_example = accounts_sound hash config May refl users_sound reached

login_post_iff_example :
    ((login_post memory_db matches locks users none 5 "1.2.3.4" true "bob" "secret").0
      ≡ logged_in bob)
    ↔ Enters memory_db matches users true "bob" "secret" bob
login_post_iff_example =
    login_post_iff memory_db matches locks users none 5 "1.2.3.4" true "bob" "secret" bob

login_post-recorded_example :
    (login_post memory_db matches locks users (some []) 5 "1.2.3.4" true "bob" "wrong").1
    ≡ some (
        recorded memory_db matches locks 5 [] "1.2.3.4"
          (login_post memory_db matches locks users (some []) 5 "1.2.3.4" true "bob" "wrong").0)
login_post-recorded_example =
    login_post-recorded memory_db matches locks users [] 5 "1.2.3.4" true "bob" "wrong"
