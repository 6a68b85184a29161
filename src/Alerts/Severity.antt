-- ===== src/Alerts/Severity.antt =====
-- `UpsertAlert` of backend/internal/db/alerts.go: one live alert for a key, whose severity only
-- escalates.
use pmacct_suricata_analyzer.Prelude.{
  ℕ, suc, ◌≤◌, ◌≡◌, refl, max, Bool, true, false, List, [], ◌∷◌, String, Option, none, some, arith,
  inl, inr, ◌⊎◌, ◌∙◌, ap, Bool-cases, Option-cases, str_eq, eq_iff, find, find-eq-none_iff_any, any,
  update_where, count_where-none, count_where-snoc, count_where, All,
}
use pmacct_suricata_analyzer.Alerts.Rows.{
  Finding, Alert, Table, dedupe_key, severity_rank, escalate,
}
use pmacct_suricata_analyzer.Alerts.{matches, bump, new_alert, insert_or_bump}
use pmacct_suricata_analyzer.Alerts.Unique.{Apart, Distinct, IsSound}

escalate_info : (new : String) → severity_rank (escalate new "info") ≡ max (severity_rank new) 1
unfolding severity_rank escalate
escalate_info new = elim (Bool-cases (str_eq new "critical")) [
  | inl c ↦ rw ((eq_iff new "critical").0 c) refl
  | inr c ↦ elim (Bool-cases (str_eq new "warning")) [
    | inl w ↦ rw ((eq_iff new "warning").0 w) refl
    | inr w ↦ rw (c, w) (ground arith)
  ]
]

-- On a known old severity, a conflicting insert leaves the higher of the two severities.
pub severity_rank-escalate :
    (new old : String)
    → 1 ≤ severity_rank old
    → severity_rank (escalate new old) ≡ max (severity_rank new) (severity_rank old)
unfolding severity_rank escalate
severity_rank-escalate new old h = elim (Bool-cases (str_eq old "info")) [
  | inl e ↦ rw ((eq_iff old "info").0 e) (escalate_info new)
  | inr e ↦ elim (Bool-cases (str_eq new "critical")) [
    | inl c ↦ rw c (ground arith)
    | inr c ↦ elim (Bool-cases (str_eq new "warning")) [
      | inl w ↦ rw (c, w, e) (ground arith)
      | inr w ↦ rw (c, w) (ground arith)
    ]
  ]
]

-- In distinct rows at most one is live under a key.
no_other :
    (key : String) (a : Alert) (rows : List Alert)
    → matches key a ≡ true
    → All (Apart a) rows
    → count_where (matches key) rows ≡ 0
no_other key a [] m h = refl
no_other key a (x ∷ rows) m (q, h) = ground (
  arith,
  eq_iff a.dedupe_key key,
  eq_iff x.dedupe_key key,
  eq_iff a.dedupe_key x.dedupe_key,
  no_other key a rows m h,
)

one_of_find :
    (key : String) (rows : List Alert) (a : Alert)
    → Distinct rows
    → find (matches key) rows ≡ some a
    → count_where (matches key) rows ≡ 1
one_of_find key [] a d e = ground arith
one_of_find key (x ∷ rows) a (q, d) e = elim (Bool-cases (matches key x)) [
  | inl m ↦ rw m (omega (arith, no_other key x rows m q))
  | inr m ↦ rw m (one_of_find key rows a d (ground arith))
]

-- A change that keeps which rows match keeps their number.
count_where-update :
    (p : Alert → Bool) (f : Alert → Alert) (rows : List Alert)
    → ((a : Alert) → p (f a) ≡ p a)
    → count_where p (update_where p f rows) ≡ count_where p rows
count_where-update p f [] h = refl
count_where-update p f (x ∷ rows) h = elim (Bool-cases (p x)) [
  | inl e ↦ rw (e, h x, e) (ground (arith, count_where-update p f rows h))
  | inr e ↦ rw (e, e) (count_where-update p f rows h)
]

module _ (now : ℕ) (f : Finding) (host peer : Option String) (t : Table) (s : IsSound t) where
  -- After an upsert of a finding into a sound table exactly one live row has the finding's key.
  pub upsert_one_live :
      count_where (matches (dedupe_key f)) (insert_or_bump now f host peer t).table.rows ≡ 1
  unfolding insert_or_bump
  upsert_one_live = elim (Option-cases (find (matches (dedupe_key f)) t.rows)) [
    | inl e ↦
        rw (e, insert_or_bump)
          (count_where-snoc (matches (dedupe_key f)) t.rows (new_alert t.next_id now f host peer)
              (unfold new_alert in ground (arith, eq_iff (dedupe_key f) (dedupe_key f)))
            ∙ ap suc (count_where-none _ t.rows (find-eq-none_iff_any _ t.rows e)))
    | inr (a, e) ↦
        rw (e, insert_or_bump)
          (count_where-update (matches (dedupe_key f)) (bump now f) t.rows
              (λ x. unfold bump in refl)
            ∙ one_of_find (dedupe_key f) t.rows a s.distinct e)
  ]

-- The row that is found is the changed one, where the change keeps which rows match.
find-update :
    (p : Alert → Bool) (f : Alert → Alert) (rows : List Alert) (a : Alert)
    → ((x : Alert) → p (f x) ≡ p x)
    → find p rows ≡ some a
    → find p (update_where p f rows) ≡ some (f a)
find-update p f [] a h e = absurd (ground arith)
find-update p f (x ∷ rows) a h e = elim (Bool-cases (p x)) [
  | inl m ↦
      let same : some x ≡ some a = rw m at e in
      rw (m, h x, m) (ap (λ o. elim o [ none ↦ none | some y ↦ some (f y) ]) same)
  | inr m ↦ rw (m, m) (find-update p f rows a h (rw m at e))
]

-- An insert that finds a live row with the key leaves in the table, under that key, the row that it
-- returns, with the higher of the row's severity before, if that is a known one, and the finding's.
pub upsert_escalates :
    (now : ℕ) (f : Finding) (host peer : Option String) (t : Table) (a : Alert)
    → find (matches (dedupe_key f)) t.rows ≡ some a
    → 1 ≤ severity_rank a.severity
    → (find (matches (dedupe_key f)) (insert_or_bump now f host peer t).table.rows
        ≡ some (insert_or_bump now f host peer t).alert)
      × (severity_rank (insert_or_bump now f host peer t).alert.severity
          ≡ max (severity_rank f.severity) (severity_rank a.severity))
unfolding insert_or_bump bump
upsert_escalates now f host peer t a e k = (
  rw (e, insert_or_bump)
      (find-update (matches (dedupe_key f)) (bump now f) t.rows a (λ x. unfold bump in refl) e),
  rw (e, insert_or_bump) (severity_rank-escalate f.severity a.severity k),
)

-- `Inserted` is reported exactly when no live row has the finding's key, and the count is then 1;
-- otherwise the row that has it is returned with its count one higher, its id, first_seen, state and
-- notified_at kept, and last_seen set to the statement's time.
pub upsert_reports :
    (now : ℕ) (f : Finding) (host peer : Option String) (t : Table)
    → ((any (matches (dedupe_key f)) t.rows ≡ false)
        × ((insert_or_bump now f host peer t).inserted ≡ true)
        × ((insert_or_bump now f host peer t).alert.count ≡ 1))
      ⊎ ((a : Alert) × (find (matches (dedupe_key f)) t.rows ≡ some a)
          × ((insert_or_bump now f host peer t).inserted ≡ false)
          × ((insert_or_bump now f host peer t).alert.count ≡ suc a.count)
          × ((insert_or_bump now f host peer t).alert.id ≡ a.id)
          × ((insert_or_bump now f host peer t).alert.first_seen ≡ a.first_seen)
          × ((insert_or_bump now f host peer t).alert.last_seen ≡ now)
          × ((insert_or_bump now f host peer t).alert.state ≡ a.state)
          × ((insert_or_bump now f host peer t).alert.notified_at ≡ a.notified_at))
unfolding insert_or_bump bump new_alert
upsert_reports now f host peer t = elim (Option-cases (find (matches (dedupe_key f)) t.rows)) [
  | inl e ↦ inl (find-eq-none_iff_any _ t.rows e, rw (e, insert_or_bump), rw (e, insert_or_bump))
  | inr (a, e) ↦ inr (
    a,
    e,
    rw (e, insert_or_bump),
    rw (e, insert_or_bump),
    rw (e, insert_or_bump),
    rw (e, insert_or_bump),
    rw (e, insert_or_bump),
    rw (e, insert_or_bump),
    rw (e, insert_or_bump),
  )
]
