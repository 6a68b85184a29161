-- ===== src/Alerts/Unique.antt =====
-- The rows keep distinct ids below the sequence, and no two live rows share a key: what the unique
-- partial index of backend/internal/db/migrations/004_alerts.sql demands, kept by every statement
-- of backend/internal/db/alerts.go.
use pmacct_suricata_analyzer.Prelude.{
  inl, inr, ℕ, suc, ◌<◌, ◌≡◌, ◌≢◌, refl, Bool, true, false, ◌&&◌, List, [], ◌∷◌, ◌++◌, String,
  Option, arith, Bool-cases, Option-cases, if◌then◌else◌, str_eq, any, find, find-eq-none_iff_any,
  update_where, drop_where, All, All-append, All-drop_where, All-map,
}
use pmacct_suricata_analyzer.Alerts.Rows.{Finding, Alert, Table, is_live, dedupe_key}
use pmacct_suricata_analyzer.Alerts.{matches, bump, new_alert, insert_or_bump}

-- Two live rows with one key.
abbrev pub clash : Alert → Alert → Bool
clash a b = is_live a && is_live b && str_eq a.dedupe_key b.dedupe_key

abbrev pub Apart : Alert → Alert → Type 0
Apart a b = (a.id ≢ b.id) × (clash a b ≡ false)

abbrev pub Distinct : List Alert → Type 0
Distinct [] = Unit
Distinct (a ∷ rows) = All (Apart a) rows × Distinct rows

pub record IsSound (t : Table) : Type 0 where
  pub fresh : All (λ a. a.id < t.next_id) t.rows
  pub distinct : Distinct t.rows

-- A change of a row that keeps its id and key and brings no row to life.
abbrev pub Calms : Alert → Alert → Type 0
Calms a b = (b.id ≡ a.id) × (b.dedupe_key ≡ a.dedupe_key) × (is_live b ≡ true → is_live a ≡ true)

Apart-calm : (a b c d : Alert) → Calms a c → Calms b d → Apart a b → Apart c d
Apart-calm a b c d (i, k, l) (j, m, n) (ne, cl) = (ground arith, ground arith)

Calms-refl : (a : Alert) → Calms a a
Calms-refl a = (refl, refl, λ h. h)

module _ (p : Alert → Bool) (f : Alert → Alert)
    (calm : (a : Alert) → p a ≡ true → Calms a (f a)) where
  Calms-if : (a : Alert) → Calms a (if p a then f a else a)
  Calms-if a = elim (Bool-cases (p a)) [ inl e ↦ rw e (calm a e) | inr e ↦ rw e (Calms-refl a) ]

  All-Apart-update :
      (a b : Alert) (rows : List Alert)
      → Calms a b
      → All (Apart a) rows
      → All (Apart b) (update_where p f rows)
  All-Apart-update a b [] c h = tt
  All-Apart-update a b (x ∷ rows) c (q, h) =
      (Apart-calm a x b (if p x then f x else x) c (Calms-if x) q, All-Apart-update a b rows c h)

  Distinct-update_where : (rows : List Alert) → Distinct rows → Distinct (update_where p f rows)
  Distinct-update_where [] h = tt
  Distinct-update_where (x ∷ rows) (q, h) = (
    All-Apart-update x (if p x then f x else x) rows (Calms-if x) q,
    Distinct-update_where rows h,
  )

  pub fresh-update_where :
      (n : ℕ) (rows : List Alert)
      → All (λ a. a.id < n) rows
      → All (λ a. a.id < n) (update_where p f rows)
  fresh-update_where n [] h = tt
  fresh-update_where n (x ∷ rows) (q, h) = (rw ((Calms-if x).0) q, fresh-update_where n rows h)

  pub update_where-IsSound :
      (t : Table) → IsSound t → IsSound (record t { rows = update_where p f t.rows })
  update_where-IsSound t s = record {
    fresh = fresh-update_where t.next_id t.rows s.fresh;
    distinct = Distinct-update_where t.rows s.distinct;
  }

module _ (p : Alert → Bool) where
  Distinct-drop_where : (rows : List Alert) → Distinct rows → Distinct (drop_where p rows)
  Distinct-drop_where [] h = tt
  Distinct-drop_where (x ∷ rows) (q, h) = elim (Bool-cases (p x)) [
    | inl e ↦ rw e (Distinct-drop_where rows h)
    | inr e ↦ rw e (All-drop_where (Apart x) p rows q, Distinct-drop_where rows h)
  ]

  pub drop_where-IsSound :
      (t : Table) → IsSound t → IsSound (record t { rows = drop_where p t.rows })
  drop_where-IsSound t s = record {
    fresh = All-drop_where (λ a. a.id < t.next_id) p t.rows s.fresh;
    distinct = Distinct-drop_where t.rows s.distinct;
  }

Distinct-snoc :
    (rows : List Alert) (a : Alert)
    → Distinct rows
    → All (λ b. Apart b a) rows
    → Distinct (rows ++ a ∷ [])
Distinct-snoc [] a h k = (tt, tt)
Distinct-snoc (x ∷ rows) a (q, h) (r, k) =
    (All-append (Apart x) rows (a ∷ []) q (r, tt), Distinct-snoc rows a h k)

-- A new row with a fresh id and a key that no live row has is apart from all rows.
Apart-new :
    (n : ℕ) (a : Alert) (rows : List Alert)
    → a.id ≡ n
    → All (λ b. b.id < n) rows
    → any (matches a.dedupe_key) rows ≡ false
    → All (λ b. Apart b a) rows
Apart-new n a [] e h k = tt
Apart-new n a (x ∷ rows) e (q, h) k =
    ((omega arith, ground arith), Apart-new n a rows e h (ground arith))

pub insert_or_bump-IsSound :
    (now : ℕ) (f : Finding) (host peer : Option String) (t : Table)
    → IsSound t
    → IsSound (insert_or_bump now f host peer t).table
unfolding insert_or_bump
insert_or_bump-IsSound now f host peer t s =
    elim (Option-cases (find (matches (dedupe_key f)) t.rows)) [
      | inr (a, e) ↦
          rw (e, insert_or_bump)
            (update_where-IsSound (matches (dedupe_key f)) (bump now f)
              (λ x h. unfold bump in (refl, refl, λ l. l)) t s)
      | inl e ↦
          rw (e, insert_or_bump)
            record {
              fresh =
                  All-append (λ a. a.id < suc t.next_id) t.rows
                    (new_alert t.next_id now f host peer ∷ [])
                    (All-map (λ a. a.id < t.next_id) (λ a. a.id < suc t.next_id) t.rows
                      (λ a h. omega arith) s.fresh)
                    (unfold new_alert in omega arith, tt);
              distinct = Distinct-snoc t.rows (new_alert t.next_id now f host peer) s.distinct (
                  Apart-new t.next_id (new_alert t.next_id now f host peer) t.rows
                    (unfold new_alert in refl) s.fresh
                    (unfold new_alert in find-eq-none_iff_any (matches (dedupe_key f)) t.rows e));
            }
    ]
