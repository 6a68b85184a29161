-- ===== src/Retention/Valid.antt =====
-- Retention settings are always within their limits, and pruning leaves live alerts alone
-- (backend/internal/db/alert_retention.go).
use pmacct_suricata_analyzer.Prelude.{
  ℕ, ◌≡◌, refl, ◌∙◌, Bool, true, false, List, [], ◌∷◌, String, Option, none, some, Result, ok, err,
  ensure, >>=-eq-ok, ok-injective, Result-cases, Option-cases, Bool-cases, inl, inr, arith,
  if-split, eq_iff, get, keep,
}
use pmacct_suricata_analyzer.Prelude.Int.{ℤ, pos, leb_ℤ}
use pmacct_suricata_analyzer.Alerts.Rows.{Table, is_live}
use pmacct_suricata_analyzer.Alerts.Lifecycle.{keep-drop_where}
use pmacct_suricata_analyzer.Rules.Overrides.{get-put}
use pmacct_suricata_analyzer.Retention.{
  RetentionError, AlertRetention, default_days, default_alert_retention, within, fill, fill_all,
  check_severities, validate, get_alert_retention, is_old, prune,
}

-- A severity with days within the limits.
abbrev pub IsStored : String → List (String × ℤ) → Type 0
IsStored s days = (v : ℤ) × (get s days ≡ some v) × (within (pos 0) (pos 3650) v ≡ true)

-- Settings within their limits, for each severity.
pub record IsValid (r : AlertRetention) : Type 0 where
  pub auto_resolve : within (pos 1) (pos 365) r.auto_resolve_days ≡ true
  pub info : IsStored "info" r.delete_resolved_days
  pub warning : IsStored "warning" r.delete_resolved_days
  pub critical : IsStored "critical" r.delete_resolved_days

module _ (s : String) (d : ℤ) (days : List (String × ℤ))
    (fits : within (pos 0) (pos 3650) d ≡ true) where
  fill-IsStored : {out : List (String × ℤ)} → fill s d days ≡ ok out → IsStored s out
  unfolding fill
  fill-IsStored h = elim (Option-cases (get s days)) [
    | inl e ↦
        rw (← (ok-injective (rw (e, fill) at h)))
          (d, ground (arith, get-put s s d days, eq_iff s s), fits)
    | inr (v, e) ↦ elim (Bool-cases (within (pos 0) (pos 3650) v)) [
      | inl w ↦ rw (← (ok-injective (rw w at (rw (e, fill) at h)))) (v, e, w)
      | inr w ↦ absurd (cc (rw w at (rw (e, fill) at h)))
    ]
  ]

  fill-keeps :
      (k : String) {out : List (String × ℤ)}
      → fill s d days ≡ ok out
      → IsStored k days
      → IsStored k out
  unfolding fill
  fill-keeps k h (v, there, w) = elim (Option-cases (get s days)) [
    | inl e ↦
        rw (← (ok-injective (rw (e, fill) at h)))
          (v, ground (arith, get-put s k d days, eq_iff s k), w)
    | inr (u, e) ↦ elim (Bool-cases (within (pos 0) (pos 3650) u)) [
      | inl x ↦ rw (← (ok-injective (rw x at (rw (e, fill) at h)))) (v, there, w)
      | inr x ↦ absurd (cc (rw x at (rw (e, fill) at h)))
    ]
  ]

defaults : IsValid default_alert_retention
defaults = record {
  auto_resolve = refl;
  info = (pos 7, refl, refl);
  warning = (pos 60, refl, refl);
  critical = (pos 60, refl, refl);
}

fill_all-IsValid :
    (r : AlertRetention) {days : List (String × ℤ)}
    → within (pos 1) (pos 365) r.auto_resolve_days ≡ true
    → fill_all default_days r.delete_resolved_days ≡ ok days
    → IsValid (record r { delete_resolved_days = days })
unfolding fill_all
fill_all-IsValid r {days} fits h =
    let (a, e₁, h₁) = >>=-eq-ok (fill "info" (pos 7) r.delete_resolved_days) _ h in
    let (b, e₂, h₂) = >>=-eq-ok (fill "warning" (pos 60) a) _ h₁ in
    let (c, e₃, h₃) = >>=-eq-ok (fill "critical" (pos 60) b) _ h₂ in
    let info = fill-IsStored "info" (pos 7) r.delete_resolved_days refl e₁ in
    let warning = fill-IsStored "warning" (pos 60) a refl e₂ in
    let set = IsStored-of (ok-injective h₃) in
    record {
      auto_resolve = fits;
      info = set "info" (
          fill-keeps "critical" (pos 60) b refl "info" e₃
            (fill-keeps "warning" (pos 60) a refl "info" e₂ info));
      warning = set "warning" (fill-keeps "critical" (pos 60) b refl "warning" e₃ warning);
      critical = set "critical" (fill-IsStored "critical" (pos 60) b refl e₃);
    }
  where
    IsStored-of :
        {xs ys : List (String × ℤ)} → xs ≡ ys → (s : String) → IsStored s xs → IsStored s ys
    IsStored-of e s h = rw (← e) h

ensure-true : {E : Type 0} (b : Bool) (e : E) {u : Unit {0}} → ensure b e ≡ ok u → b ≡ true
ensure-true true e h = refl
ensure-true false e h = cc

IsValid-of : {r r' : AlertRetention} → r ≡ r' → IsValid r → IsValid r'
IsValid-of e h = rw (← e) h

validate-IsValid : (r : AlertRetention) {r' : AlertRetention} → validate r ≡ ok r' → IsValid r'
unfolding validate
validate-IsValid r h =
    let (_, fits, h₁) = >>=-eq-ok (ensure (within (pos 1) (pos 365) r.auto_resolve_days) _) _ h in
    let (_, _, h₂) = >>=-eq-ok (check_severities r.delete_resolved_days) _ h₁ in
    let (days, e, h₃) = >>=-eq-ok (fill_all default_days r.delete_resolved_days) _ h₂ in
    IsValid-of (ok-injective h₃) (fill_all-IsValid r (ensure-true _ _ fits) e)

-- Whatever the setting holds, and also where it cannot be read, the retention that is used resolves
-- after 1 to 365 days and has, for each of the three severities, days from 0 to 3650.
pub get_alert_retention-IsValid :
    (stored : Result RetentionError (Option AlertRetention))
    → IsValid (get_alert_retention stored).0
unfolding get_alert_retention
get_alert_retention-IsValid (err e) = defaults
get_alert_retention-IsValid (ok none) = defaults
get_alert_retention-IsValid (ok (some r)) = elim (Result-cases (validate r)) [
  | inl (x, e) ↦ rw (e, get_alert_retention) defaults
  | inr (r', e) ↦ rw (e, get_alert_retention) (validate-IsValid r e)
]

-- Pruning, with any retention and whether or not a statement fails, leaves every live alert, and
-- changes no sequence value.
pub prune-keep-live :
    (now : ℕ) (fails : String → Bool) (days : List (String × ℤ)) (out : List (String × ℕ))
    (t : Table)
    → (keep is_live (prune now fails days out t).1.rows ≡ keep is_live t.rows)
      × ((prune now fails days out t).1.next_id ≡ t.next_id)
unfolding prune
prune-keep-live now fails [] out t = (refl, refl)
prune-keep-live now fails ((s, d) ∷ days) out t =
    let goal = λ (r : Result RetentionError (List (String × ℕ)) × Table).
      (keep is_live r.1.rows ≡ keep is_live t.rows) × (r.1.next_id ≡ t.next_id) in
    if-split goal (leb_ℤ d (pos 0)) _ _ (λ _. prune-keep-live now fails days out t)
      (λ _.
        if-split goal (fails s) _ _ (λ _. (refl, refl))
          (λ _.
            let (live, next) = prune-keep-live now fails days _ _ in
            (live ∙ keep-drop_where is_live (is_old now s d) t.rows (λ a h. ground arith), next)))
