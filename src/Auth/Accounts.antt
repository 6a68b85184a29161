-- ===== src/Auth/Accounts.antt =====
-- The statements on users and sessions (backend/internal/db/auth.go); `now` is a statement's time.
use pmacct_suricata_analyzer.Prelude.{
  ℕ, suc, Bool, true, false, not, ◌&&◌, ◌||◌, List, [], ◌∷◌, ◌++◌, String, Option, none, some,
  if◌then◌else◌, ltb, ◌==◌, str_eq, drop_where, update_where, count_where, find, length, any,
}
use pmacct_suricata_analyzer.Prelude.Int.{ℤ}
use pmacct_suricata_analyzer.Auth.Rows.{User, Session, Store, after, nil_if_empty}

abbrev pub has_username : String → User → Bool
has_username name u = str_eq u.username name

abbrev pub has_user_id : ℕ → User → Bool
has_user_id i u = u.id == i

-- `CountUsers`, `CreateUser` and `GetUserByName`.
unfoldable pub count_users : Store → ℕ
count_users st = length st.users

-- A name is taken once.
unfoldable pub create_user : ℕ → String → String → Bool → Bool → Store → Option (User × Store)
create_user now username hash is_admin must_change st =
    let u : User = record {
      id = st.next_user;
      username = username;
      is_admin = is_admin;
      must_change_password = must_change;
      disabled = false;
      created_at = now;
      last_login = none;
      last_login_ip = none;
      password_hash = hash;
    } in
    if any (has_username username) st.users
    then none
    else some (u, record st { users = st.users ++ u ∷ []; next_user = suc st.next_user })

unfoldable pub user_by_name : String → Store → Option User
user_by_name name st = find (has_username name) st.users

-- `SetPassword`, `SetUserDisabled` and `ResetUserPassword`.
unfoldable pub set_password : ℕ → String → Store → Store
set_password i hash st = record st {
  users =
      update_where (has_user_id i)
        (λ u. record u { password_hash = hash; must_change_password = false }) st.users;
}

unfoldable pub set_user_disabled : ℕ → Bool → Store → Store
set_user_disabled i d st = record st {
  users = update_where (has_user_id i) (λ u. record u { disabled = d }) st.users;
}

unfoldable pub reset_user_password : ℕ → String → Store → Store
reset_user_password i hash st = record st {
  users =
      update_where (has_user_id i)
        (λ u. record u { password_hash = hash; must_change_password = true }) st.users;
}

abbrev pub of_user : ℕ → Session → Bool
of_user i s = s.user_id == i

-- `DeleteUser`, whose sessions go with it.
unfoldable pub delete_user : ℕ → Store → Bool × Store
delete_user i st = (
  ltb 0 (count_where (has_user_id i) st.users),
  record st {
    users = drop_where (has_user_id i) st.users;
    sessions = drop_where (of_user i) st.sessions;
  },
)

unfoldable pub record_login : ℕ → ℕ → String → Store → Store
record_login now i ip st = record st {
  users =
      update_where (has_user_id i)
        (λ u. record u { last_login = some now; last_login_ip = nil_if_empty ip }) st.users;
}

abbrev pub has_token : String → Session → Bool
has_token token s = str_eq s.token token

-- The row that `CreateSession` inserts.
unfoldable pub insert_session : ℕ → String → ℕ → ℤ → String → String → Store → Store
insert_session now token i ttl ip agent st = record st {
  sessions =
      st.sessions
      ++ record {
        token = token;
        user_id = i;
        expires_at = after now ttl;
        ip = nil_if_empty ip;
        user_agent = agent;
        last_seen = now;
      }
        ∷ [];
}

-- `CreateSession`, which fails on a token that a session has, and for a user that is not there.
unfoldable pub create_session : ℕ → String → ℕ → ℤ → String → String → Store → Option Store
unfolding insert_session
create_session now token i ttl ip agent st =
    if any (has_token token) st.sessions || not (any (has_user_id i) st.users)
    then none
    else some (insert_session now token i ttl ip agent st)

-- A session of the token that has not expired.
abbrev pub is_current : ℕ → String → Session → Bool
is_current now token s = str_eq s.token token && ltb now s.expires_at

abbrev pub enabled_user : ℕ → User → Bool
enabled_user i u = u.id == i && not u.disabled

-- The join of sessions and users, its first row.
unfoldable pub joined : ℕ → String → List User → List Session → Option User
joined now token users [] = none
joined now token users (s ∷ more) =
    let rest = joined now token users more in
    if is_current now token s
    then elim (find (enabled_user s.user_id) users) [ some u ↦ some u | none ↦ rest ]
    else rest

-- `SessionUser`: a session that is found is stamped.
unfoldable pub session_user : ℕ → String → Store → Option User × Store
unfolding joined
session_user now token st = elim (joined now token st.users st.sessions) [
  | none ↦ (none, st)
  | some u ↦ (
    some u,
    record st {
      sessions = update_where (has_token token) (λ s. record s { last_seen = now }) st.sessions;
    },
  )
]

-- `DeleteSession`, `DeleteUserSessions` and `PurgeExpiredSessions`.
unfoldable pub delete_session : String → Store → Store
delete_session token st = record st { sessions = drop_where (has_token token) st.sessions }

unfoldable pub delete_user_sessions : ℕ → String → Store → Store
delete_user_sessions i kept st = record st {
  sessions = drop_where (λ s. of_user i s && not (has_token kept s)) st.sessions;
}

unfoldable pub purge_expired_sessions : ℕ → Store → Store
purge_expired_sessions now st = record st {
  sessions = drop_where (λ s. ltb s.expires_at now) st.sessions;
}
