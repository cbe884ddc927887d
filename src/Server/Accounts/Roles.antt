-- ===== src/Server/Accounts/Roles.antt =====
-- server/handler: what holds of every account, whatever requests run at the same time.
use clip_cascade_go_fork.Prelude.{
  ℕ, ◌≡◌, ◌≢◌, refl, sym, ◌∙◌, true, false, not, Option, none, some, String, List, [], ◌∷◌, ◌++◌,
  str_eq, eq_iff, All, All-keep_if, arith, if_cases, map, inl,
}
use clip_cascade_go_fork.Prelude.Eq.{==_iff}
use clip_cascade_go_fork.Server.Accounts.{User}
use clip_cascade_go_fork.Server.Accounts.Requests.{
  AccountConfig, Column, set_username, set_password, set_role_name, set_enabled, set_column,
  Program,
}
use clip_cascade_go_fork.Server.Accounts.Safe.{IsAccount, IsSafe, Fits, Grants, serve-IsSafe}
use clip_cascade_go_fork.Server.Accounts.Steps.{
  has_user_id, at_id, Call, counted, looked_named, looked_user, created, not_created, updated,
  not_updated, deleted, not_deleted, info_created, info_deleted, World, Step, comes, calls, Reach,
  at_start, next,
}

apart : (a b : String) → str_eq a b ≡ false → a ≢ b
apart a b h e = (let clash : str_eq a b ≡ true = (eq_iff a b).1 e in ground arith)

module _ (hash : String → Option String) (cfg : AccountConfig) (May : ℕ → Type 0) where
  set_column-IsAccount :
      (id : ℕ) (c : Column) (u : User)
      → Fits hash cfg May id c
      → u.id ≡ id
      → IsAccount hash cfg May u
      → IsAccount hash cfg May (set_column c u)
  unfolding set_column
  set_column-IsAccount id (set_username name) u f e h = record {
    named = f;
    hashed = h.hashed;
    known = h.known;
    may = h.may;
  }
  set_column-IsAccount id (set_password hashed) u f e h = record {
    named = h.named;
    hashed = f;
    known = h.known;
    may = h.may;
  }
  set_column-IsAccount id (set_role_name role) u f e h = record {
    named = h.named;
    hashed = h.hashed;
    known = f.0;
    may = λ z. rw e (f.1 z);
  }
  set_column-IsAccount id (set_enabled enabled) u f e h = record {
    named = h.named;
    hashed = h.hashed;
    known = h.known;
    may = h.may;
  }

  All-updated :
      (id : ℕ) (c : Column) (rows : List User)
      → Fits hash cfg May id c
      → All (IsAccount hash cfg May) rows
      → All (IsAccount hash cfg May) (map (at_id id (set_column c)) rows)
  All-updated id c [] f h = tt
  All-updated id c (u ∷ rows) f h = (
    if_cases (IsAccount hash cfg May) (has_user_id id u)
        (λ q. set_column-IsAccount id c u f ((==_iff u.id id).0 q) h.0) (λ q. h.0),
    All-updated id c rows f h.1,
  )

  Call-IsSafe :
      {rows rows' : List User} {p q : Program}
      → Call rows p rows' q
      → All (IsAccount hash cfg May) rows
      → IsSafe hash cfg May p
      → All (IsAccount hash cfg May) rows' × IsSafe hash cfg May q
  unfolding IsSafe
  Call-IsSafe (counted rows k n) h s = (h, s n)
  Call-IsSafe (looked_named rows name k r) h s = (h, s r)
  Call-IsSafe (looked_user rows id k r) h s = (h, s r)
  Call-IsSafe (created rows u k id) h s = (
    (
      record {
        named = s.0;
        hashed = s.1;
        known = inl s.2;
        may = λ z. absurd (apart "USER" "ADMIN" refl (sym s.2 ∙ z));
      },
      h,
    ),
    s.3 (some id),
  )
  Call-IsSafe (not_created rows u k) h s = (h, s.3 none)
  Call-IsSafe (updated rows id c k n) h s = (All-updated id c rows s.0 h, s.1 (some n))
  Call-IsSafe (not_updated rows id c k) h s = (h, s.1 none)
  Call-IsSafe (deleted rows id p) h s =
      (All-keep_if (IsAccount hash cfg May) (λ u. not (has_user_id id u)) rows h, s)
  Call-IsSafe (not_deleted rows id p) h s = (h, s)
  Call-IsSafe (info_created rows id salt p) h s = (h, s)
  Call-IsSafe (info_deleted rows id p) h s = (h, s)

  record IsSound (w : World) : Type 0 where
    accounts : All (IsAccount hash cfg May) w.rows
    safe : All (IsSafe hash cfg May) w.running

  middle :
      (before after : List Program) (p : Program)
      → All (IsSafe hash cfg May) (before ++ p ∷ after)
      → IsSafe hash cfg May p
  middle [] after p h = h.0
  middle (x ∷ before) after p h = middle before after p h.1

  replaced :
      (before after : List Program) (p q : Program)
      → IsSafe hash cfg May q
      → All (IsSafe hash cfg May) (before ++ p ∷ after)
      → All (IsSafe hash cfg May) (before ++ q ∷ after)
  replaced [] after p q s h = (s, h.1)
  replaced (x ∷ before) after p q s h = (h.0, replaced before after p q s h.1)

  Step-IsSound : {v w : World} → Step hash cfg (Grants hash cfg May) v w → IsSound v → IsSound w
  Step-IsSound (comes w request g) h = record {
    accounts = h.accounts;
    safe = (serve-IsSafe hash cfg May request g, h.safe);
  }
  Step-IsSound (calls rows rows' before after p q c) h =
      let kept = Call-IsSafe c h.accounts (middle before after p h.safe) in
      record { accounts = kept.0; safe = replaced before after p q kept.1 h.safe }

  Reach-IsSound : {v w : World} → Reach hash cfg (Grants hash cfg May) v w → IsSound v → IsSound w
  Reach-IsSound at_start h = h
  Reach-IsSound (next r s) h = Step-IsSound s (Reach-IsSound r h)

  -- Whatever account requests run at the same time, with their calls of the database in any order,
  -- whatever its queries give and whichever of its writes fail: if it was so before, every account has a
  -- name that is not empty, a password that is the hash of a text of at least four bytes, the role USER or
  -- ADMIN, and the role ADMIN only where the user may have it, in that the requests to change a role
  -- name no other user as an administrator.
  pub accounts_sound :
      {start w : World}
      → start.running ≡ []
      → All (IsAccount hash cfg May) start.rows
      → Reach hash cfg (Grants hash cfg May) start w
      → All (IsAccount hash cfg May) w.rows
  accounts_sound {start = start} e h r =
      (Reach-IsSound r (record { accounts = h; safe = rw e tt })).accounts
