-- ===== src/Agents/Tokens.antt =====
-- Tokens that were used, in the list of tokens (backend/internal/db/agents.go, `EnrollAgent`).
use pmacct_suricata_analyzer.Prelude.{
  ℕ, ◌≤◌, ◌≡◌, refl, sym, ◌∙◌, Bool-cases, inl, inr, any-append, true, false, List, [], ◌∷◌, ◌++◌,
  String, none, str_eq, any, find, update_where, count_where, arith, eq_iff,
}
use pmacct_suricata_analyzer.Agents.Rows.{EnrollToken, token_is, is_unused, is_usable}
use pmacct_suricata_analyzer.Agents.Store.{used_by}

-- The tokens after those that are usable by the hash `k` were used.
abbrev pub spend : ℕ → String → ℕ → List EnrollToken → List EnrollToken
spend now k id ts = update_where (is_usable now k) (used_by now id) ts

module _ (now : ℕ) (h k : String) (id : ℕ) where
  pub any-spend :
      (ts : List EnrollToken) → any (token_is h) (spend now k id ts) ≡ any (token_is h) ts
  any-spend [] = refl
  any-spend (t ∷ ts) = ground (arith, any-spend ts)

  pub count_where-spend :
      (ts : List EnrollToken)
      → count_where (token_is h) (spend now k id ts) ≡ count_where (token_is h) ts
  count_where-spend [] = refl
  count_where-spend (t ∷ ts) = ground (arith, count_where-spend ts)

  pub spend_unused :
      (ts : List EnrollToken)
      → any (is_unused h) ts ≡ false
      → any (is_unused h) (spend now k id ts) ≡ false
  spend_unused [] e = refl
  spend_unused (t ∷ ts) e = ground (arith, spend_unused ts)

-- A new token has a hash of its own.
pub snoc_there :
    (h : String) (t : EnrollToken) (ts : List EnrollToken)
    → any (token_is h) ts ≡ true
    → any (token_is h) (ts ++ t ∷ []) ≡ true
snoc_there h t ts e = rw (any-append (token_is h) ts (t ∷ []), e) refl

pub snoc_unused :
    (h : String) (t : EnrollToken) (ts : List EnrollToken)
    → any (token_is h) ts ≡ true
    → any (token_is t.token_hash) ts ≡ false
    → any (is_unused h) ts ≡ false
    → any (is_unused h) (ts ++ t ∷ []) ≡ false
snoc_unused h t ts there free unused = elim (Bool-cases (str_eq t.token_hash h)) [
  | inl e ↦
      let absent : any (token_is h) ts ≡ false = rw (sym ((eq_iff t.token_hash h).0 e)) free in
      absurd (cc (sym there ∙ absent))
  | inr e ↦ rw (any-append (is_unused h) ts (t ∷ []), unused, e) refl
]

module _ (now : ℕ) (h : String) where
  pub unused-absent :
      (ts : List EnrollToken) → count_where (token_is h) ts ≡ 0 → any (is_unused h) ts ≡ false
  unused-absent [] e = refl
  unused-absent (t ∷ ts) e = ground (arith, unused-absent ts)

  usable-unused :
      (ts : List EnrollToken) → any (is_unused h) ts ≡ false → any (is_usable now h) ts ≡ false
  usable-unused [] e = refl
  usable-unused (t ∷ ts) e = ground (arith, usable-unused ts)

  pub spend-all :
      (id : ℕ) (ts : List EnrollToken)
      → count_where (token_is h) ts ≤ 1
      → any (is_usable now h) ts ≡ true
      → any (is_unused h) (spend now h id ts) ≡ false
  spend-all id [] c e = refl
  spend-all id (t ∷ ts) c e =
      ground
        (arith, spend-all id ts, spend_unused now h h id ts, unused-absent ts, usable-unused ts)

  pub find-unusable :
      (ts : List EnrollToken) → any (is_unused h) ts ≡ false → find (is_usable now h) ts ≡ none
  find-unusable [] e = refl
  find-unusable (t ∷ ts) e = ground (arith, find-unusable ts)

pub any-there :
    (h : String) (now : ℕ) (ts : List EnrollToken)
    → any (is_usable now h) ts ≡ true
    → any (token_is h) ts ≡ true
any-there h now [] e = e
any-there h now (t ∷ ts) e = ground (arith, any-there h now ts)
