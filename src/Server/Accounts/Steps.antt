-- ===== src/Server/Accounts/Steps.antt =====
-- server/handler: any number of account requests at the same time, call by call.
use clip_cascade_go_fork.Prelude.{
  ℕ, Bool, not, Option, none, some, String, List, ◌∷◌, ◌++◌, map, keep_if, if◌then◌else◌, ◌==◌,
}
use clip_cascade_go_fork.Server.Accounts.{User}
use clip_cascade_go_fork.Server.Accounts.Requests.{
  AccountConfig, Request, Lookup, Column, set_column, Program, count_users, find_named, find_user,
  create_row, update_rows, delete_row, create_info, delete_info, serve,
}

abbrev pub has_user_id : ℕ → User → Bool
has_user_id id u = u.id == id

abbrev pub at_id : ℕ → (User → User) → User → User
at_id id fn u = if has_user_id id u then fn u else u

-- One call of the database: a query may give anything, a write is done on all of its rows or fails.
pub data Call : List User → Program → List User → Program → Type 0 where
  counted : (rows : List User) (k : ℕ → Program) (n : ℕ) → Call rows (count_users k) rows (k n)
  looked_named :
      (rows : List User) (name : String) (k : Lookup → Program) (r : Lookup)
      → Call rows (find_named name k) rows (k r)
  looked_user :
      (rows : List User) (id : ℕ) (k : Lookup → Program) (r : Lookup)
      → Call rows (find_user id k) rows (k r)
  created :
      (rows : List User) (u : User) (k : Option ℕ → Program) (id : ℕ)
      → Call rows (create_row u k) (record u { id = id } ∷ rows) (k (some id))
  not_created :
      (rows : List User) (u : User) (k : Option ℕ → Program)
      → Call rows (create_row u k) rows (k none)
  updated :
      (rows : List User) (id : ℕ) (c : Column) (k : Option ℕ → Program) (n : ℕ)
      → Call rows (update_rows id c k) (map (at_id id (set_column c)) rows) (k (some n))
  not_updated :
      (rows : List User) (id : ℕ) (c : Column) (k : Option ℕ → Program)
      → Call rows (update_rows id c k) rows (k none)
  deleted :
      (rows : List User) (id : ℕ) (p : Program)
      → Call rows (delete_row id p) (keep_if (λ u. not (has_user_id id u)) rows) p
  not_deleted : (rows : List User) (id : ℕ) (p : Program) → Call rows (delete_row id p) rows p
  info_created :
      (rows : List User) (id : ℕ) (salt : String) (p : Program)
      → Call rows (create_info id salt p) rows p
  info_deleted : (rows : List User) (id : ℕ) (p : Program) → Call rows (delete_info id p) rows p

-- The users, and the handlers that run.
pub record World : Type 0 where
  pub rows : List User
  pub running : List Program

module _ (hash : String → Option String) (cfg : AccountConfig) (Granted : Request → Type 0) where
  -- A request comes in, or some handler that runs makes its next call.
  pub data Step : World → World → Type 0 where
    comes :
        (w : World) (request : Request)
        → Granted request
        → Step w (record w { running = serve hash cfg request ∷ w.running })
    calls :
        (rows rows' : List User) (before after : List Program) (p q : Program)
        → Call rows p rows' q
        → Step
            (record { rows = rows; running = before ++ p ∷ after })
            (record { rows = rows'; running = before ++ q ∷ after })

  pub data Reach (start : World) : World → Type 0 where
    at_start : Reach start start
    next : {v w : World} → Reach start v → Step v w → Reach start w
