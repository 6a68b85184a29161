-- ===== src/Suricata/Names.antt =====
-- Learning names of addresses from events (backend/internal/suricata/suricata.go, `handle`, and
-- backend/internal/db/ids.go, `UpsertIPName`).
use pmacct_suricata_analyzer.Prelude.{
  ℕ, ◌+◌, Bool, true, false, not, ◌&&◌, ◌||◌, List, [], ◌∷◌, ◌++◌, String, none, some, Result, ok,
  err, str_eq, ltb, any, get, is_some, trim_space, trim_suffix_dot, update_where, if◌then◌else◌,
}
use pmacct_suricata_analyzer.Alerts.{failed}
use pmacct_suricata_analyzer.Rules.Types.{RuleError, db_error}
use pmacct_suricata_analyzer.Suricata.Types.{Dns, Answer, Feed, NameRow, Station}

-- What an operation leaves and answers.
abbrev pub Step : Type 0
Step = Station × Result RuleError (Unit {0})

-- The next step, which an error skips.
abbrev pub next : Step → (Station → Step) → Step
next (st, ok _) f = f st
next (st, err e) f = (st, err e)

unfoldable pub tidy_name : Feed → String → String
tidy_name feed name = feed.env.net.to_lower (trim_suffix_dot (trim_space name))

abbrev pub is_name_row : String → String → NameRow → Bool
is_name_row ip name r = str_eq r.ip ip && str_eq r.name name

-- `INSERT INTO ip_names … ON CONFLICT (ip, name) DO UPDATE`.
unfoldable pub put_name : ℕ → String → String → String → List NameRow → List NameRow
put_name now ip name source rows =
    if any (is_name_row ip name) rows
    then update_where (is_name_row ip name)
        (λ r. record r { last_seen = now; hits = r.hits + 1; source = source }) rows
    else rows ++ record { ip = ip; name = name; source = source; hits = 1; last_seen = now } ∷ []

-- `UpsertIPName`.
unfoldable pub upsert_ip_name : Feed → ℕ → String → String → String → Station → Step
unfolding tidy_name put_name
upsert_ip_name feed now ip name source st =
    let tidy = tidy_name feed name in
    if str_eq tidy "" || ltb 253 (feed.byte_length tidy)
    then (st, ok tt)
    else elim (feed.env.inet ip) [
      | none ↦ (st, err (db_error failed))
      | some a ↦
          if feed.name_write_fails a tidy
          then (st, err (db_error failed))
          else (record st { names = put_name now a tidy source st.names }, ok tt)
    ]

-- `l.names.Add(1)`.
abbrev pub count_name : Station → Station
count_name st = record st { listener = record (st.listener) { names = st.listener.names + 1 } }

unfoldable pub learn : Feed → ℕ → String → String → String → Station → Step
unfolding upsert_ip_name
learn feed now ip name source st = upsert_ip_name feed now ip name source (count_name st)

-- `add`.
unfoldable pub add_answer : Feed → ℕ → String → String → Station → Step
unfolding learn
add_answer feed now name ip st =
    if not (is_some (feed.env.net.parse_addr ip)) || str_eq name ""
    then (st, ok tt)
    else learn feed now ip name "dns" st

abbrev pub is_address_type : String → Bool
is_address_type t = str_eq t "A" || str_eq t "AAAA"

-- The name that an answer leaves in `name`.
abbrev pub name_after : String → Answer → String
name_after name a =
    if is_address_type a.rr_type && not (str_eq a.rr_name "") then a.rr_name else name

unfoldable pub last_name : String → List Answer → String
last_name name [] = name
last_name name (a ∷ as') = last_name (name_after name a) as'

unfoldable pub add_answers : Feed → ℕ → String → List Answer → Station → Step
unfolding add_answer
add_answers feed now name [] st = (st, ok tt)
add_answers feed now name (a ∷ as') st =
    next
      (if is_address_type a.rr_type
        then add_answer feed now (name_after name a) a.r_data st
        else (st, ok tt))
      (add_answers feed now (name_after name a) as')

unfoldable pub add_all : Feed → ℕ → String → List String → Station → Step
unfolding add_answer
add_all feed now name [] st = (st, ok tt)
add_all feed now name (ip ∷ ips) st =
    next (add_answer feed now name ip st) (add_all feed now name ips)

abbrev pub grouped : String → List (String × List String) → List String
grouped key m = elim (get key m) [ none ↦ [] | some ips ↦ ips ]

abbrev pub is_full {ℓ} : {A : Type ℓ} → List A → Bool
is_full [] = false
is_full (_ ∷ _) = true

-- An event of DNS that carries an answer.
abbrev pub is_answer : Dns → Bool
is_answer d =
    str_eq d.kind "answer" || (is_full d.answers || (is_full d.grouped || not (str_eq d.r_data "")))

-- The address of the event itself.
unfoldable pub add_single : Feed → ℕ → String → Dns → Station → Step
add_single feed now name d st =
    if is_address_type d.rr_type && not (str_eq d.r_data "")
    then add_answer feed now name d.r_data st
    else (st, ok tt)

unfoldable pub add_v6 : Feed → ℕ → String → Dns → Station → Step
unfolding add_single
add_v6 feed now name d st =
    next (add_all feed now name (grouped "AAAA" d.grouped) st) (add_single feed now name d)

unfoldable pub add_v4 : Feed → ℕ → String → Dns → Station → Step
unfolding add_v6
add_v4 feed now name d st =
    next (add_all feed now name (grouped "A" d.grouped) st) (add_v6 feed now name d)

-- The `case "dns"` of `handle`.
unfoldable pub handle_dns : Feed → ℕ → Dns → Station → Step
unfolding add_answers add_v4
handle_dns feed now d st =
    if not (is_answer d)
    then (st, ok tt)
    else next (add_answers feed now d.rr_name d.answers st)
        (add_v4 feed now (last_name d.rr_name d.answers) d)
