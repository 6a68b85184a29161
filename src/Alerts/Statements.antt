-- ===== src/Alerts/Statements.antt =====
-- Every statement of backend/internal/db/alerts.go keeps the table sound, and so does any run of
-- them.
use pmacct_suricata_analyzer.Prelude.{
  All-any, All-update_where, ◌<◌, >>=-eq-ok, ok-injective, sym, ◌∙◌, ℕ, ◌≡◌, refl, Bool, true,
  false, not, ◌&&◌, List, [], ◌∷◌, String, Option, some, arith, ok, inl, inr, Bool-cases,
  if◌then◌else◌, ltb, str_eq, eq_iff, update_where, All, count_where,
}
use pmacct_suricata_analyzer.Prelude.Int.{ℤ}
use pmacct_suricata_analyzer.Alerts.Rows.{Finding, Alert, Table, is_live}
use pmacct_suricata_analyzer.Alerts.{
  has_id, rival, can_reopen, Upserted, insert_or_bump, upsert_alert, nullable_inet, set_alert_state,
  reopen_alert, resolve_alerts, delete_resolved_alerts, delete_alert, auto_resolve_stale,
  mark_notified, ack, resolve, unack, reopened, is_stale, listed, is_acked,
}
use pmacct_suricata_analyzer.Alerts.Unique.{
  Apart, Distinct, IsSound, update_where-IsSound, drop_where-IsSound, insert_or_bump-IsSound,
}

-- Inversion of a successful upsert.
pub upsert_alert-eq-ok :
    (inet : String → Option String) (now : ℕ) (f : Finding) (t : Table) {u : Upserted}
    → upsert_alert inet now f t ≡ ok u
    → (host peer : Option String) × (insert_or_bump now f host peer t ≡ u)
unfolding upsert_alert
upsert_alert-eq-ok inet now f t e =
    let (host, _, e') = >>=-eq-ok (nullable_inet inet f.host) _ e in
    let (peer, _, e'') = >>=-eq-ok (nullable_inet inet f.peer) _ e' in
    (host, peer, ok-injective e'')

pub upsert_alert-IsSound :
    (inet : String → Option String) (now : ℕ) (f : Finding) (t : Table) {u : Upserted}
    → IsSound t
    → upsert_alert inet now f t ≡ ok u
    → IsSound u.table
upsert_alert-IsSound inet now f t s e =
    let (host, peer, same) = upsert_alert-eq-ok inet now f t e in
    rw (← same) (insert_or_bump-IsSound now f host peer t s)

-- A row that the test picks has no live rival among the rows, and is the only one with its id.
module _ (i now : ℕ) (p : Alert → Bool) where
  apart :
      (x y : Alert)
      → Apart x y
      → ((a : Alert) → p a ≡ true → (a.id ≡ i) × (rival a x ≡ false) × (rival a y ≡ false))
      → Apart (if p x then reopened now x else x) (if p y then reopened now y else y)
  apart x y (ne, cl) h = elim (Bool-cases (p x)) [
    | inl e ↦
        let (i₁, _, r) = h x e in
        elim (Bool-cases (p y)) [
          | inl e' ↦ let (i₂, _, _) = h y e' in absurd (ne (i₁ ∙ sym i₂))
          | inr e' ↦
              rw (e, e')
                (
                  ne,
                  ground
                      (arith, eq_iff x.dedupe_key y.dedupe_key, eq_iff y.dedupe_key x.dedupe_key),
                )
        ]
    | inr e ↦ elim (Bool-cases (p y)) [
      | inl e' ↦ let (_, r, _) = h y e' in rw (e, e') (ne, ground arith)
      | inr e' ↦ rw (e, e') (ne, cl)
    ]
  ]

  Apart-reopened :
      (x : Alert) (rows : List Alert)
      → ((a : Alert) → p a ≡ true → (a.id ≡ i) × All (λ b. rival a b ≡ false) (x ∷ rows))
      → All (Apart x) rows
      → All (Apart (if p x then reopened now x else x)) (update_where p (reopened now) rows)
  Apart-reopened x [] h q = tt
  Apart-reopened x (y ∷ rows) h (q, qs) = (
    apart x y q (λ a e. let (j, (r, (r', _))) = h a e in (j, r, r')),
    Apart-reopened x rows (λ a e. let (j, (r, (_, rs))) = h a e in (j, (r, rs))) qs,
  )

  Distinct-reopened :
      (rows : List Alert)
      → ((a : Alert) → p a ≡ true → (a.id ≡ i) × All (λ b. rival a b ≡ false) rows)
      → Distinct rows
      → Distinct (update_where p (reopened now) rows)
  Distinct-reopened [] h d = tt
  Distinct-reopened (x ∷ rows) h (q, d) = (
    Apart-reopened x rows h q,
    Distinct-reopened rows (λ a e. let (j, (_, rs)) = h a e in (j, rs)) d,
  )

pub reopen_alert-IsSound : (now id : ℕ) (t : Table) → IsSound t → IsSound (reopen_alert now id t).2
unfolding reopen_alert
reopen_alert-IsSound now id t s =
    elim (Bool-cases (ltb 0 (count_where (can_reopen id t.rows) t.rows))) [
      | inl e ↦ rw e record {
        fresh =
            All-update_where (λ a. a.id < t.next_id) (can_reopen id t.rows) (reopened now) t.rows
              (λ a h. h) s.fresh;
        distinct =
            Distinct-reopened id now (can_reopen id t.rows) t.rows
              (λ a h. (ground arith, All-any (rival a) t.rows (ground arith))) s.distinct;
      }
      | inr e ↦ rw e s
    ]

module _ (now id : ℕ) (state : String) (t : Table) where
  pub set_alert_state-IsSound :
      {r : Bool × Table} → IsSound t → set_alert_state now id state t ≡ ok r → IsSound r.1
  unfolding set_alert_state
  set_alert_state-IsSound s e = elim (Bool-cases (str_eq state "acked")) [
    | inl a ↦
        let same = ok-injective (rw a at e) in
        rw (← same)
          (update_where-IsSound (λ a. has_id id a && is_live a) (ack now) (λ x h. ground arith) t s)
    | inr a ↦ elim (Bool-cases (str_eq state "resolved")) [
      | inl b ↦
          let same = ok-injective (rw (a, b) at e) in
          rw (← same) (
            update_where-IsSound (λ a. has_id id a && is_live a) (resolve now) (λ x h. ground arith)
              t s)
      | inr b ↦ elim (Bool-cases (str_eq state "open")) [
        | inl c ↦
            let same = ok-injective (rw (a, b, c) at e) in
            rw (← same) (
              update_where-IsSound (λ a. has_id id a && is_acked a.state) unack
                (λ x h. ground arith) t s)
        | inr c ↦ absurd (cc (rw (a, b, c) at e))
      ]
    ]
  ]

pub resolve_alerts-IsSound :
    (inet : String → Option String) (now : ℕ) (rule host : String) (t : Table) {r : ℕ × Table}
    → IsSound t
    → resolve_alerts inet now rule host t ≡ ok r
    → IsSound r.1
unfolding resolve_alerts
resolve_alerts-IsSound inet now rule host t s e =
    let (ip, _, e') = >>=-eq-ok (nullable_inet inet host) _ e in
    rw (← (ok-injective e')) (update_where-IsSound _ (resolve now) (λ x h. ground arith) t s)

pub delete_resolved_alerts-IsSound :
    (inet : String → Option String) (rule host severity : String) (t : Table) {r : ℕ × Table}
    → IsSound t
    → delete_resolved_alerts inet rule host severity t ≡ ok r
    → IsSound r.1
unfolding delete_resolved_alerts
delete_resolved_alerts-IsSound inet rule host severity t s e =
    let (ip, _, e') = >>=-eq-ok (nullable_inet inet host) _ e in
    rw (← (ok-injective e')) (drop_where-IsSound _ t s)

pub delete_alert-IsSound : (id : ℕ) (t : Table) → IsSound t → IsSound (delete_alert id t).2
unfolding delete_alert
delete_alert-IsSound id t s =
    elim (Bool-cases (ltb 0 (count_where (λ a. has_id id a && not (is_live a)) t.rows))) [
      | inl e ↦ rw e (drop_where-IsSound _ t s)
      | inr e ↦ rw e s
    ]

pub auto_resolve_stale-IsSound :
    (now : ℕ) (after : ℤ) (t : Table) → IsSound t → IsSound (auto_resolve_stale now after t).1
unfolding auto_resolve_stale
auto_resolve_stale-IsSound now after t s =
    update_where-IsSound (is_stale now after) (resolve now) (λ x h. ground arith) t s

pub mark_notified-IsSound :
    (now : ℕ) (ids : List ℕ) (t : Table) → IsSound t → IsSound (mark_notified now ids t)
unfolding mark_notified
mark_notified-IsSound now ids t s =
    update_where-IsSound (listed ids) (λ a. record a { notified_at = some now })
      (λ x h. (refl, refl, λ l. l)) t s

-- One statement of the program on the table, whatever it answers.
pub data Step (inet : String → Option String) (t u : Table) : Type 0 where
  upsert :
      (now : ℕ) (f : Finding) (r : Upserted)
      → upsert_alert inet now f t ≡ ok r
      → u ≡ r.table
      → Step inet t u
  set_state :
      (now id : ℕ) (state : String) (r : Bool × Table)
      → set_alert_state now id state t ≡ ok r
      → u ≡ r.1
      → Step inet t u
  reopen : (now id : ℕ) → u ≡ (reopen_alert now id t).2 → Step inet t u
  resolve_all :
      (now : ℕ) (rule host : String) (r : ℕ × Table)
      → resolve_alerts inet now rule host t ≡ ok r
      → u ≡ r.1
      → Step inet t u
  delete_resolved :
      (rule host severity : String) (r : ℕ × Table)
      → delete_resolved_alerts inet rule host severity t ≡ ok r
      → u ≡ r.1
      → Step inet t u
  delete : (id : ℕ) → u ≡ (delete_alert id t).2 → Step inet t u
  auto_resolve : (now : ℕ) (after : ℤ) → u ≡ (auto_resolve_stale now after t).1 → Step inet t u
  notified : (now : ℕ) (ids : List ℕ) → u ≡ mark_notified now ids t → Step inet t u

pub data Reach (inet : String → Option String) (t : Table) : Table → Type 0 where
  here : Reach inet t t
  next : {u v : Table} → Reach inet t u → Step inet u v → Reach inet t v

module _ (inet : String → Option String) where
  pub Step-IsSound : (t u : Table) → Step inet t u → IsSound t → IsSound u
  Step-IsSound t u (upsert now f r e same) s = rw same (upsert_alert-IsSound inet now f t s e)
  Step-IsSound t u (set_state now id state r e same) s =
      rw same (set_alert_state-IsSound now id state t s e)
  Step-IsSound t u (reopen now id same) s = rw same (reopen_alert-IsSound now id t s)
  Step-IsSound t u (resolve_all now rule host r e same) s =
      rw same (resolve_alerts-IsSound inet now rule host t s e)
  Step-IsSound t u (delete_resolved rule host severity r e same) s =
      rw same (delete_resolved_alerts-IsSound inet rule host severity t s e)
  Step-IsSound t u (delete id same) s = rw same (delete_alert-IsSound id t s)
  Step-IsSound t u (auto_resolve now after same) s =
      rw same (auto_resolve_stale-IsSound now after t s)
  Step-IsSound t u (notified now ids same) s = rw same (mark_notified-IsSound now ids t s)

  -- From a sound table, any run of statements (upserts, state changes, reopenings, bulk
  -- resolutions, deletions, auto-resolution, notification stamps), with any arguments, leads to a
  -- table with distinct ids below the sequence in which no two live alerts share a dedupe key.
  pub Reach-IsSound : {t u : Table} → IsSound t → Reach inet t u → IsSound u
  Reach-IsSound s here = s
  Reach-IsSound s (next {u = m} {v = n} r st) = Step-IsSound m n st (Reach-IsSound s r)
