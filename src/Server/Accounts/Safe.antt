-- ===== src/Server/Accounts/Safe.antt =====
-- server/handler: every write that a handler may make keeps the accounts as they must be.
use clip_cascade_go_fork.Prelude.{
  ℕ, zero, suc, ◌≡◌, ◌≢◌, refl, Bool, false, not, ◌&&◌, ◌||◌, Option, none, some, String, str_eq,
  eq_iff, ltb, ◌==◌, arith, if_cases, match_cases, Bool-cases, inl, inr, ◌⊎◌,
}
use clip_cascade_go_fork.Prelude.Int.{pos, ltb_ℤ}
use clip_cascade_go_fork.Server.Accounts.{User, byte_length}
use clip_cascade_go_fork.Server.Accounts.Requests.{
  AccountConfig, Reply, Request, signup, register, remove, reset, change_role, toggle, rename,
  Lookup, found, absent, query_failed, Column, set_username, set_password, set_role_name,
  set_enabled, Program, answer, count_users, find_named, find_user, create_row, update_rows,
  delete_row, create_info, delete_info, after_update, update_single_user_field, after_create,
  create_user, create_if_absent, check_name, signup_post, register_user, delete_found, delete_user,
  reset_password, set_role, toggle_user_status, rename_if_free, update_username, serve, user_exists,
  conflict,
}

-- `May id`: the user with this identifier may be an administrator.
module _ (hash : String → Option String) (cfg : AccountConfig) (May : ℕ → Type 0) where
  -- A stored password is the hash of a text of four bytes or more.
  abbrev pub IsHashed : String → Type 0
  IsHashed stored =
      (password : String) × (hash password ≡ some stored) × (ltb (byte_length password) 4 ≡ false)

  pub record IsAccount (u : User) : Type 0 where
    pub named : u.username ≢ ""
    pub hashed : IsHashed u.password
    pub known : (u.role ≡ "USER") ⊎ (u.role ≡ "ADMIN")
    pub may : u.role ≡ "ADMIN" → May u.id

  -- A request that makes an administrator only of a user who may be one.
  abbrev pub Grants : Request → Type 0
  Grants (change_role id role) = role ≡ "ADMIN" → May id
  Grants _ = Unit

  abbrev pub Fits : ℕ → Column → Type 0
  Fits id (set_username name) = name ≢ ""
  Fits id (set_password hashed) = IsHashed hashed
  Fits id (set_role_name role) = ((role ≡ "USER") ⊎ (role ≡ "ADMIN")) × (role ≡ "ADMIN" → May id)
  Fits id (set_enabled enabled) = Unit

  -- Every write that the handler may still make keeps the accounts as they must be.
  unfoldable pub IsSafe : Program → Type 0
  IsSafe (answer reply) = Unit
  IsSafe (count_users k) = (n : ℕ) → IsSafe (k n)
  IsSafe (find_named name k) = (r : Lookup) → IsSafe (k r)
  IsSafe (find_user id k) = (r : Lookup) → IsSafe (k r)
  IsSafe (create_row u k) =
      (u.username ≢ "") × IsHashed u.password × (u.role ≡ "USER") × ((r : Option ℕ) → IsSafe (k r))
  IsSafe (update_rows id c k) = Fits id c × ((r : Option ℕ) → IsSafe (k r))
  IsSafe (delete_row id p) = IsSafe p
  IsSafe (create_info id salt p) = IsSafe p
  IsSafe (delete_info id p) = IsSafe p

  update-IsSafe : (id : ℕ) (c : Column) → Fits id c → IsSafe (update_single_user_field id c)
  unfolding update_single_user_field IsSafe
  update-IsSafe id c f = (f, after)
    where
      after : (r : Option ℕ) → IsSafe (after_update r)
      after none = tt
      after (some zero) = tt
      after (some (suc n)) = tt

  create_user-IsSafe :
      (username password : String)
      → username ≢ ""
      → ltb (byte_length password) 4 ≡ false
      → IsSafe (create_user hash username password)
  unfolding create_user IsSafe
  create_user-IsSafe username password n l =
      match_cases IsSafe (hash password) (λ e. tt) (λ hashed e. (n, (password, e, l), refl, after))
    where
      after : (r : Option ℕ) → IsSafe (after_create username r)
      after none = tt
      after (some id) = tt

  check_name-IsSafe :
      (taken : Reply) (username password : String)
      → username ≢ ""
      → ltb (byte_length password) 4 ≡ false
      → IsSafe (check_name hash taken username password)
  unfolding IsSafe
  check_name-IsSafe taken username password n l = looked
    where
      looked : (r : Lookup) → IsSafe (create_if_absent hash taken username password r)
      looked (found u) = tt
      looked absent = create_user-IsSafe username password n l
      looked query_failed = create_user-IsSafe username password n l

  not_empty : (s : String) (b : Bool) → (str_eq s "" || b) ≡ false → s ≢ ""
  not_empty s b h e = ground (arith, (eq_iff s "").1 e)

  signup_post-IsSafe :
      (username password : String) → IsSafe (signup_post hash cfg username password)
  unfolding signup_post IsSafe
  signup_post-IsSafe username password =
      if_cases IsSafe (not cfg.signup_enabled) (λ q. tt)
        (λ q.
          if_cases IsSafe (str_eq username "" || str_eq password "") (λ q. tt)
            (λ full.
              if_cases IsSafe (ltb 50 (byte_length username) || ltb (byte_length password) 4)
                (λ q. tt)
                (λ short.
                  let checked =
                    check_name-IsSafe user_exists username password
                      (not_empty username (str_eq password "") full) (ground arith) in
                  if_cases IsSafe (ltb_ℤ (pos 0) cfg.max_user_accounts)
                    (λ q n.
                      if_cases IsSafe (not (ltb_ℤ (pos n) cfg.max_user_accounts)) (λ z. tt)
                        (λ z. checked))
                    (λ q. checked))))

  register_user-IsSafe :
      (username password : String) → IsSafe (register_user hash username password)
  unfolding register_user IsSafe
  register_user-IsSafe username password =
      if_cases IsSafe (str_eq username "" || str_eq password "") (λ q. tt)
        (λ full.
          if_cases IsSafe (ltb (byte_length password) 4) (λ q. tt)
            (λ short.
              check_name-IsSafe conflict username password
                (not_empty username (str_eq password "") full) short))

  delete_user-IsSafe : (name : String) (id : ℕ) → IsSafe (delete_user hash name id)
  unfolding delete_user IsSafe
  delete_user-IsSafe name id = looked
    where
      looked : (r : Lookup) → IsSafe (delete_found hash name r)
      looked (found u) = if_cases IsSafe (str_eq u.username name) (λ q. tt) (λ q. tt)
      looked absent = tt
      looked query_failed = tt

  reset_password-IsSafe : (id : ℕ) (password : String) → IsSafe (reset_password hash id password)
  unfolding reset_password IsSafe
  reset_password-IsSafe id password =
      if_cases IsSafe (str_eq password "") (λ q. tt)
        (λ q.
          if_cases IsSafe (ltb (byte_length password) 4) (λ q. tt)
            (λ short.
              match_cases IsSafe (hash password) (λ e. tt)
                (λ hashed e. update-IsSafe id (set_password hashed) (password, e, short))))

  set_role-IsSafe :
      (id : ℕ) (role : String) → (role ≡ "ADMIN" → May id) → IsSafe (set_role hash id role)
  unfolding set_role IsSafe
  set_role-IsSafe id role g =
      if_cases IsSafe (not (str_eq role "USER") && not (str_eq role "ADMIN")) (λ q. tt)
        (λ q. update-IsSafe id (set_role_name role) (one_of q, g))
    where
      one_of :
          (not (str_eq role "USER") && not (str_eq role "ADMIN")) ≡ false
          → (role ≡ "USER") ⊎ (role ≡ "ADMIN")
      one_of q = elim (Bool-cases (str_eq role "USER")) [
        | inl e ↦ inl ((eq_iff role "USER").0 e)
        | inr e ↦ inr ((eq_iff role "ADMIN").0 (ground arith))
      ]

  update_username-IsSafe : (id : ℕ) (name : String) → IsSafe (update_username hash id name)
  unfolding update_username IsSafe
  update_username-IsSafe id name =
      if_cases IsSafe (str_eq name "") (λ q. tt)
        (λ q. looked (λ e. ground (arith, (eq_iff name "").1 e)))
    where
      looked : name ≢ "" → (r : Lookup) → IsSafe (rename_if_free hash id name r)
      looked n (found u) =
          if_cases IsSafe (u.id == id) (λ z. update-IsSafe id (set_username name) n) (λ z. tt)
      looked n absent = update-IsSafe id (set_username name) n
      looked n query_failed = tt

  pub serve-IsSafe : (request : Request) → Grants request → IsSafe (serve hash cfg request)
  unfolding serve toggle_user_status
  serve-IsSafe (signup username password) g = signup_post-IsSafe username password
  serve-IsSafe (register username password) g = register_user-IsSafe username password
  serve-IsSafe (remove name id) g = delete_user-IsSafe name id
  serve-IsSafe (reset id password) g = reset_password-IsSafe id password
  serve-IsSafe (change_role id role) g = set_role-IsSafe id role g
  serve-IsSafe (toggle id enabled) g = update-IsSafe id (set_enabled enabled) tt
  serve-IsSafe (rename id name) g = update_username-IsSafe id name
