-- ===== src/Server/Hub/Registry.antt =====
-- server/handler/ws_hub.go: the hub's maps and the sessions that are open.
use clip_cascade_go_fork.Prelude.{
  ◌≡◌, ◌≢◌, refl, sym, ap, ◌∙◌, Bool, true, false, Option, none, some, String, [], ◌∷◌, arith,
  if◌then◌else◌, is_some, str_eq, eq_iff, if_cases, match_cases, Bool-cases, inl, inr, ◌==◌,
}
use clip_cascade_go_fork.Prelude.Eq.{nat_eq, string_eq, ==_iff}
use clip_cascade_go_fork.GoMap
use clip_cascade_go_fork.GoMap.{
  GoMap, DistinctKeys, get-put, get-remove, DistinctKeys-put, DistinctKeys-remove,
}
use clip_cascade_go_fork.Server.Hub.{Conn, Conns, Hub, conns_of, put_conns, register, unregister}
use clip_cascade_go_fork.Server.Hub.Sessions.{Session}

-- Whether a session is one of this user.
abbrev pub is_of : String → Option Session → Bool
is_of username none = false
is_of username (some s) = str_eq s.username username

-- The connections of each user are those whose sessions are under that name, each with its lock,
-- and no user without connections has an entry.
pub record Consistent (h : Hub) (sessions : GoMap Conn Session) : Type 0 where
  pub members :
      (u : String) (c : Conn)
      → is_some (GoMap.get (conns_of h u) c) ≡ is_of u (GoMap.get sessions c)
  pub locks : (c : Conn) → is_some (GoMap.get h.write_locks c) ≡ is_some (GoMap.get sessions c)
  pub no_empty : (u : String) → GoMap.get h.connections u ≢ some []
  pub distinct : (u : String) → DistinctKeys (conns_of h u)

conns_of-register :
    (h : Hub) (u : String) (c : Conn) (v : String)
    → conns_of (register h u c) v
      ≡ (if str_eq u v then GoMap.put (conns_of h u) c true else conns_of h v)
unfolding register
conns_of-register h u c v =
    ground (arith, get-put h.connections u v (GoMap.put (conns_of h u) c true))

get-put_conns :
    (m : GoMap String Conns) (u : String) (conns : Conns) (v : String)
    → elim (GoMap.get (put_conns m u conns) v) [ none ↦ [] | some cs ↦ cs ]
      ≡ (if str_eq u v then conns else elim (GoMap.get m v) [ none ↦ [] | some cs ↦ cs ])
get-put_conns m u [] v = ground (arith, get-remove m u v)
get-put_conns m u (c ∷ conns) v = ground (arith, get-put m u v (c ∷ conns))

conns_of_missing : (h : Hub) (u : String) → GoMap.get h.connections u ≡ none → conns_of h u ≡ []
conns_of_missing h u e = rw (conns_of, e) refl

conns_of-unregister :
    (h : Hub) (u : String) (c : Conn) (v : String)
    → conns_of (unregister h u c) v
      ≡ (if str_eq u v then GoMap.remove (conns_of h u) c else conns_of h v)
unfolding unregister GoMap.remove
conns_of-unregister h u c v = by_entry (GoMap.get h.connections u) refl
  where
    by_entry :
        (o : Option Conns)
        → GoMap.get h.connections u ≡ o
        → conns_of (unregister h u c) v
          ≡ (if str_eq u v then GoMap.remove (conns_of h u) c else conns_of h v)
    by_entry none e =
        rw (unregister, e)
          (elim (Bool-cases (str_eq u v)) [
            | inl q ↦
                let gone : GoMap.get h.connections v ≡ none = rw (← (eq_iff u v).0 q) e in
                rw q (
                  conns_of_missing h v gone
                  ∙ sym (ap (λ conns. GoMap.remove conns c) (conns_of_missing h u e)))
            | inr q ↦ rw q refl
          ])
    by_entry (some conns) e =
        rw (unregister, conns_of, e) (get-put_conns h.connections u (GoMap.remove conns c) v)

put-nonempty : (m : Conns) (c : Conn) → GoMap.put m c true ≢ []
unfolding GoMap.put
put-nonempty [] c h = cc
put-nonempty ((d, b) ∷ m) c h = elim (Bool-cases (d == c)) [
  | inl q ↦ (let e : (c, true) ∷ m ≡ [] = (rw q at h) in cc)
  | inr q ↦ (let e : (d, b) ∷ GoMap.put m c true ≡ [] = (rw q at h) in cc)
]

no_empty-put_conns :
    (m : GoMap String Conns) (u : String) (conns : Conns)
    → ((v : String) → GoMap.get m v ≢ some [])
    → (v : String) → GoMap.get (put_conns m u conns) v ≢ some []
no_empty-put_conns m u [] h v = ground (arith, get-remove m u v, h v)
no_empty-put_conns m u (c ∷ conns) h v = ground (arith, get-put m u v (c ∷ conns), h v)

-- A new connection is added under its name.
pub register-Consistent :
    (h : Hub) (sessions : GoMap Conn Session) (s : Session) (c : Conn)
    → GoMap.get sessions c ≡ none
    → Consistent h sessions
    → Consistent (register h s.username c) (GoMap.put sessions c s)
unfolding register
register-Consistent h sessions s c new k = record {
  members = λ v d.
      rw (conns_of-register h s.username c v, get-put sessions c d s)
        (ground (
          arith,
          get-put (conns_of h s.username) c d true,
          k.members v d,
          k.members s.username d,
          k.members v c,
          eq_iff s.username v,
          new,
          ==_iff c d,
        ));
  locks = λ d. ground (arith, get-put h.write_locks c d true, get-put sessions c d s, k.locks d);
  no_empty = λ v. ground (
    arith,
    get-put h.connections s.username v (GoMap.put (conns_of h s.username) c true),
    put-nonempty (conns_of h s.username) c,
    k.no_empty v,
  );
  distinct = λ v. rw (conns_of-register h s.username c v) (
      if_cases DistinctKeys (str_eq s.username v)
        (λ q. DistinctKeys-put (conns_of h s.username) c true (k.distinct s.username))
        (λ q. k.distinct v));
}

pub unregister-Consistent :
    (h : Hub) (sessions : GoMap Conn Session) (s : Session) (c : Conn)
    → GoMap.get sessions c ≡ some s
    → Consistent h sessions
    → Consistent (unregister h s.username c) (GoMap.remove sessions c)
unfolding unregister
unregister-Consistent h sessions s c here k = record {
  members = λ v d.
      rw (conns_of-unregister h s.username c v, get-remove sessions c d)
        (ground (
          arith,
          get-remove (conns_of h s.username) c d,
          k.members v d,
          k.members s.username d,
          k.members v c,
          eq_iff s.username v,
          here,
          ==_iff c d,
        ));
  locks = λ d. ground (arith, get-remove h.write_locks c d, get-remove sessions c d, k.locks d);
  no_empty = λ v.
      match_cases (λ (m : GoMap String Conns). GoMap.get m v ≢ some [])
        (GoMap.get h.connections s.username) (λ q. k.no_empty v)
        (λ conns q.
          no_empty-put_conns h.connections s.username (GoMap.remove conns c) k.no_empty v);
  distinct = λ v. rw (conns_of-unregister h s.username c v) (
      if_cases DistinctKeys (str_eq s.username v)
        (λ q. DistinctKeys-remove (conns_of h s.username) c (k.distinct s.username))
        (λ q. k.distinct v));
}
