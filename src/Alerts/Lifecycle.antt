-- ===== src/Alerts/Lifecycle.antt =====
-- The life of an alert in backend/internal/db/alerts.go: deletion leaves live alerts alone, and stale
-- ones are resolved once.
use pmacct_suricata_analyzer.Prelude.{
  ℕ, ◌≡◌, refl, sym, ◌∙◌, Bool, true, false, List, [], ◌∷◌, String, Option, arith, ok, >>=-eq-ok,
  ok-injective, inl, inr, ◌⊎◌, ◌<◌, ◌+◌, some, Option-cases, count_where, Bool-cases, keep,
  drop_where, update_where,
}
use pmacct_suricata_analyzer.Prelude.Int.{ℤ, back}
use pmacct_suricata_analyzer.Alerts.Rows.{Alert, Table, is_live, resolved}
use pmacct_suricata_analyzer.Alerts.{
  nullable_inet, delete_resolved_alerts, auto_resolve_stale, resolve, is_stale,
}

-- Deleting rows that a test picks keeps the rows of another test that excludes it.
pub keep-drop_where :
    (p q : Alert → Bool) (rows : List Alert)
    → ((a : Alert) → q a ≡ true → p a ≡ false)
    → keep p (drop_where q rows) ≡ keep p rows
keep-drop_where p q [] h = refl
keep-drop_where p q (x ∷ rows) h = elim (Bool-cases (q x)) [
  | inl e ↦ rw (e, h x e) (keep-drop_where p q rows h)
  | inr e ↦ rw e (ground (arith, keep-drop_where p q rows h))
]

-- A bulk deletion, whatever its filters, leaves every live alert and removes no sequence value.
pub delete_resolved_alerts-keep-live :
    (inet : String → Option String) (rule host severity : String) (t : Table) {r : ℕ × Table}
    → delete_resolved_alerts inet rule host severity t ≡ ok r
    → (keep is_live r.1.rows ≡ keep is_live t.rows) × (r.1.next_id ≡ t.next_id)
unfolding delete_resolved_alerts
delete_resolved_alerts-keep-live inet rule host severity t e =
    let (ip, _, e') = >>=-eq-ok (nullable_inet inet host) _ e in
    rw (← (ok-injective e')) (keep-drop_where is_live _ t.rows (λ a h. ground arith), refl)

-- A live alert that was last seen, and reopened if ever, before a time.
pub record IsIdle (cut : ℕ) (a : Alert) : Type 0 where
  pub live : is_live a ≡ true
  pub seen : a.last_seen < cut
  pub reopened : (t : ℕ) → a.reopened_at ≡ some t → t < cut

-- An alert and what an automatic resolution makes of it: an idle one is resolved and nothing else of
-- it changes, any other stays.
abbrev pub Settles : ℕ → ℕ → Alert → Alert → Type 0
Settles now cut a b =
    (IsIdle cut a × (b ≡ record a { state = resolved; resolved_at = some now }))
    ⊎ ((IsIdle cut a → ⊥) × (b ≡ a))

abbrev pub AllSettle : ℕ → ℕ → List Alert → List Alert → Type 0
AllSettle now cut [] [] = Unit
AllSettle now cut [] (_ ∷ _) = ⊥
AllSettle now cut (_ ∷ _) [] = ⊥
AllSettle now cut (a ∷ as') (b ∷ bs) = Settles now cut a b × AllSettle now cut as' bs

stale-IsIdle :
    (now : ℕ) (after : ℤ) (a : Alert) → is_stale now after a ≡ true → IsIdle (back now after) a
stale-IsIdle now after a e = elim (Option-cases a.reopened_at) [
  | inl n ↦ record {
    live = ground arith;
    seen = ground arith;
    reopened = λ t some_time. absurd (cc (sym n ∙ some_time));
  }
  | inr (u, n) ↦ record {
    live = ground arith;
    seen = ground arith;
    reopened = λ t same. ground arith;
  }
]

idle-is_stale :
    (now : ℕ) (after : ℤ) (a : Alert) → IsIdle (back now after) a → is_stale now after a ≡ true
idle-is_stale now after a h = elim (Option-cases a.reopened_at) [
  | inl n ↦ ground (arith, h.live, h.seen)
  | inr (u, n) ↦ ground (arith, h.live, h.seen, h.reopened u n)
]

settled :
    (now : ℕ) (after : ℤ) (rows : List Alert)
    → AllSettle now (back now after) rows (update_where (is_stale now after) (resolve now) rows)
settled now after [] = tt
settled now after (a ∷ rows) = elim (Bool-cases (is_stale now after a)) [
  | inl e ↦ rw e (inl (stale-IsIdle now after a e, refl), settled now after rows)
  | inr e ↦ rw e (inr (λ h. cc (sym e ∙ idle-is_stale now after a h), refl), settled now after rows)
]

fewer_live :
    (now : ℕ) (after : ℤ) (rows : List Alert)
    → count_where is_live (update_where (is_stale now after) (resolve now) rows)
        + count_where (is_stale now after) rows
      ≡ count_where is_live rows
fewer_live now after [] = refl
fewer_live now after (a ∷ rows) = ground (arith, fewer_live now after rows)

-- Auto-resolution resolves exactly the live alerts that were last seen, and reopened if ever, longer
-- ago than the given duration; nothing else of them and no other alert changes, and the number it
-- answers is that by which the live alerts become fewer.
pub auto_resolve-settles :
    (now : ℕ) (after : ℤ) (t : Table)
    → AllSettle now (back now after) t.rows (auto_resolve_stale now after t).1.rows
      × (count_where is_live (auto_resolve_stale now after t).1.rows
            + (auto_resolve_stale now after t).0
          ≡ count_where is_live t.rows)
unfolding auto_resolve_stale
auto_resolve-settles now after t = (settled now after t.rows, fewer_live now after t.rows)
