-- ===== src/Auth/Attempts.antt =====
-- The statements on login attempts and on address rules (backend/internal/db/auth.go); `now` is a
-- statement's time.
use pmacct_suricata_analyzer.Prelude.{
  ℕ, Bool, true, false, not, ◌&&◌, [], ◌∷◌, ◌++◌, String, Option, none, some, if◌then◌else◌, ltb,
  str_eq, any, drop_where, update_where, count_where,
}
use pmacct_suricata_analyzer.Prelude.Int.{ℤ, sub_ℕ, ltb_ℤ}
use pmacct_suricata_analyzer.Auth.Rows.{
  Attempt, Action, allow, deny, Source, manual, auto, IpRule, Store, Addresses, after, nil_if_empty,
}

unfoldable pub record_attempt : ℕ → String → String → Bool → String → String → Store → Store
record_attempt now ip username success reason agent st = record st {
  attempts =
      st.attempts
      ++ record {
        ip = nil_if_empty ip;
        username = nil_if_empty username;
        success = success;
        reason = nil_if_empty reason;
        user_agent = agent;
        ts = now;
      }
        ∷ [];
}

abbrev from_ip : String → Option String → Bool
from_ip ip none = false
from_ip ip (some i) = str_eq i ip

-- A failed attempt from the address within the window.
abbrev pub is_recent_failure : ℕ → ℤ → String → Attempt → Bool
is_recent_failure now window ip a =
    from_ip ip a.ip && not a.success && ltb_ℤ (sub_ℕ now a.ts) window

unfoldable pub recent_failures : ℕ → ℤ → String → Store → ℕ
recent_failures now window ip st =
    if str_eq ip "" then 0 else count_where (is_recent_failure now window ip) st.attempts

abbrev pub is_allow : Action → Bool
is_allow allow = true
is_allow deny = false

abbrev pub is_auto : Source → Bool
is_auto auto = true
is_auto manual = false

abbrev in_force : ℕ → Option ℕ → Bool
in_force now none = true
in_force now (some t) = ltb now t

abbrev pub allows : Addresses → String → IpRule → Bool
allows n ip r = is_allow r.action && n.within ip r.net

-- A deny rule in force, of the source.
abbrev pub denies : Addresses → ℕ → Bool → String → IpRule → Bool
denies n now by_auto ip r =
    not (is_allow r.action)
    && (if by_auto then is_auto r.source else not (is_auto r.source))
    && n.within ip r.net
    && in_force now r.expires_at

pub record Decision : Type 0 where
  pub denied_manual : Bool
  pub denied_auto : Bool
  pub allowed : Bool
  pub has_allow_list : Bool

abbrev pub no_decision : Decision
no_decision = record {
  denied_manual = false;
  denied_auto = false;
  allowed = false;
  has_allow_list = false;
}

-- `CheckIPAccess`.
unfoldable pub check_ip_access : Addresses → ℕ → String → Store → Decision
check_ip_access n now ip st = if str_eq ip "" then no_decision else record {
  denied_manual = any (denies n now false ip) st.ip_access;
  denied_auto = any (denies n now true ip) st.ip_access;
  allowed = any (allows n ip) st.ip_access;
  has_allow_list = any (λ r. is_allow r.action) st.ip_access;
}

abbrev pub auto_deny : String → ℕ → IpRule
auto_deny net expires = record {
  net = net;
  action = deny;
  source = auto;
  expires_at = some expires;
}

abbrev pub has_net : String → IpRule → Bool
has_net net r = str_eq r.net net

abbrev pub extended : ℕ → IpRule → IpRule
extended expires r = record r { expires_at = some expires }

-- `AutoBlock`: nothing for an allowed address; an automatic rule of the network is extended, and a
-- manual one is left.
unfoldable pub auto_block : Addresses → ℕ → String → ℤ → Store → Store
auto_block n now ip lockout st =
    if any (allows n ip) st.ip_access
    then st
    else if any (has_net (n.net_of ip)) st.ip_access
    then record st {
      ip_access =
          update_where (λ r. has_net (n.net_of ip) r && is_auto r.source)
            (extended (after now lockout)) st.ip_access;
    }
    else record st { ip_access = st.ip_access ++ auto_deny (n.net_of ip) (after now lockout) ∷ [] }

-- `UpsertIPRule` of a network in its canonical text.
unfoldable pub upsert_ip_rule : IpRule → Store → Store
upsert_ip_rule r st =
    if any (has_net r.net) st.ip_access
    then record st { ip_access = update_where (has_net r.net) (λ _. r) st.ip_access }
    else record st { ip_access = st.ip_access ++ r ∷ [] }

-- `DeleteIPRule` and `PurgeExpiredIPRules`.
unfoldable pub delete_ip_rule : String → Store → Bool × Store
delete_ip_rule net st = (
  ltb 0 (count_where (has_net net) st.ip_access),
  record st { ip_access = drop_where (has_net net) st.ip_access },
)

abbrev lapsed : ℕ → Option ℕ → Bool
lapsed now none = false
lapsed now (some t) = ltb t now

unfoldable pub purge_expired_ip_rules : ℕ → Store → Store
purge_expired_ip_rules now st = record st {
  ip_access = drop_where (λ r. lapsed now r.expires_at) st.ip_access;
}
