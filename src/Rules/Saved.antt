-- ===== src/Rules/Saved.antt =====
-- Saving, updating and deleting custom rules (backend/internal/rules/custom.go, `SaveCustom`,
-- `DeleteCustom`, and `UpdateConfig` of a custom rule) never leaves two live rules of one name.
use pmacct_suricata_analyzer.Prelude.{
  ◌≡◌, refl, sym, ap, ◌∙◌, true, List, [], ◌∷◌, ◌++◌, map, String, none, some, ok, ok-injective,
  inl, inr, arith, Bool-cases, Option-cases, if-either, str_eq, eq_iff, any, any-append, any-find,
  find, find-passes, find-eq-none_iff_any, All, All-append, All-find,
}
use pmacct_suricata_analyzer.Rules.Types.{
  Detector, CustomRule, Rule, RuleState, Engine, Env, rule, rules, to_rule, is_named, is_custom,
  builtin_rule,
}
use pmacct_suricata_analyzer.Rules.Custom.{
  build_custom, replace_rule, install_rule, install, remove_rule,
}
use pmacct_suricata_analyzer.Rules.Names.{
  names, Unique, names-append, names-replace_rule, any-names, names-remove_rule,
  Unique-append-without, Unique-append-snoc,
}

-- A live rule made from a row of its name.
abbrev pub IsCustom : Rule → Type 0
IsCustom r = (row : CustomRule) × (r.custom ≡ some row) × (row.name ≡ r.definition.name)

-- No two live rules have one name, and the custom ones are each made from a row of their name.
pub record IsNamed (e : Engine) : Type 0 where
  pub distinct : Unique (names (rules e))
  pub customs : All IsCustom e.custom

pub build_custom-IsCustom :
    (env : Env) (e : Engine) (row : CustomRule) {r : Rule}
    → build_custom env e row ≡ ok r
    → (r.custom ≡ some row) × (row.name ≡ r.definition.name)
unfolding build_custom
build_custom-IsCustom env e row h = elim (Bool-cases (str_eq row.kind "sql")) [
  | inl sql ↦ let same = ok-injective (rw sql at h) in rw (← same) (refl, refl)
  | inr not_sql ↦ elim (Bool-cases (str_eq row.kind "builtin")) [
    | inl b ↦ elim (Option-cases (builtin_rule e row.base)) [
      | inl gone ↦ absurd (cc (rw (not_sql, b, gone) at h))
      | inr (d, f) ↦ let same = ok-injective (rw (not_sql, b, f) at h) in rw (← same) (refl, refl)
    ]
    | inr neither ↦ absurd (cc (rw (not_sql, neither) at h))
  ]
]

All-replace_rule :
    (P : Rule → Type 0) (r : Rule) (cs : List Rule) → P r → All P cs → All P (replace_rule r cs)
unfolding replace_rule
All-replace_rule P r [] p h = tt
All-replace_rule P r (c ∷ cs) p (q, h) =
    (if-either P (is_named r.definition.name c) r c p q, All-replace_rule P r cs p h)

All-remove_rule :
    (P : Rule → Type 0) (n : String) (cs : List Rule) → All P cs → All P (remove_rule n cs)
unfolding remove_rule
All-remove_rule P n [] h = tt
All-remove_rule P n (c ∷ cs) (q, h) =
    if-either (All P) (is_named n c) cs (c ∷ remove_rule n cs) h (q, All-remove_rule P n cs h)

find-custom :
    (n : String) (b : List Detector) (cs : List Rule) (r : Rule)
    → find (is_named n) (map to_rule b ++ cs) ≡ some r
    → is_custom r ≡ true
    → find (is_named n) cs ≡ some r
find-custom n [] cs r f c = f
find-custom n (d ∷ b) cs r f c = elim (Bool-cases (is_named n (to_rule d))) [
  | inl e ↦
      let same : to_rule d ≡ r = ground (arith, rw e at f) in
      let mine : is_custom (to_rule d) ≡ true = ap is_custom same ∙ c in absurd (cc mine)
  | inr e ↦ find-custom n b cs r (rw e at f) c
]

-- A name that only a custom rule may have.
abbrev pub Usable : String → Engine → Type 0
Usable n e = any (is_named n) (rules e) ≡ any (is_named n) e.custom

module _ (e : Engine) (h : IsNamed e) where
  distinct_names : Unique (names (map to_rule e.builtin) ++ names e.custom)
  unfolding rules
  distinct_names = rw (← (names-append (map to_rule e.builtin) e.custom)) h.distinct

  any-distinct :
      (n : String)
      → any (str_eq n) (names (map to_rule e.builtin) ++ names e.custom)
        ≡ any (is_named n) (rules e)
  unfolding rules
  any-distinct n = rw (← (names-append (map to_rule e.builtin) e.custom)) (any-names n (rules e))

  pub install-IsNamed : (r : Rule) → IsCustom r → Usable r.definition.name e → IsNamed (install r e)
  unfolding install install_rule rules
  install-IsNamed r c u = elim (Bool-cases (any (is_named r.definition.name) e.custom)) [
    | inl old ↦ rw old record {
      distinct =
          rw
            (
              names-append (map to_rule e.builtin) (replace_rule r e.custom),
              names-replace_rule r e.custom,
            )
            distinct_names;
      customs = All-replace_rule IsCustom r e.custom c h.customs;
    }
    | inr new ↦ rw new record {
      distinct =
          rw
            (
              names-append (map to_rule e.builtin) (e.custom ++ r ∷ []),
              names-append e.custom (r ∷ []),
            )
            (Unique-append-snoc r.definition.name (names (map to_rule e.builtin)) (names e.custom)
              distinct_names (any-distinct r.definition.name ∙ (u ∙ new)));
      customs = All-append IsCustom e.custom (r ∷ []) h.customs (c, tt);
    }
  ]

  pub remove-IsNamed :
      (n : String) (st : List (String × RuleState))
      → IsNamed (record e { custom = remove_rule n e.custom; state = st })
  unfolding rules
  remove-IsNamed n st = record {
    distinct =
        rw
          (
            names-append (map to_rule e.builtin) (remove_rule n e.custom),
            names-remove_rule n e.custom,
          )
          (Unique-append-without n (names (map to_rule e.builtin)) (names e.custom) distinct_names);
    customs = All-remove_rule IsCustom n e.custom h.customs;
  }

  pub free-Usable : (n : String) → rule e n ≡ none → Usable n e
  unfolding rule rules
  free-Usable n f =
      let unused = find-eq-none_iff_any (is_named n) (rules e) f in
      ground (arith, unused, any-append (is_named n) (map to_rule e.builtin) e.custom)

  -- A custom rule found by its name.
  pub found-IsCustom :
      (n : String) (r : Rule)
      → rule e n ≡ some r
      → is_custom r ≡ true
      → IsCustom r × (r.definition.name ≡ n) × Usable n e
  unfolding rule rules
  found-IsCustom n r f c =
      let g = find-custom n e.builtin e.custom r f c in
      (
        All-find IsCustom (is_named n) e.custom r h.customs g,
        (eq_iff r.definition.name n).0 (find-passes (is_named n) e.custom r g),
        any-find (is_named n) (rules e) r f ∙ sym (any-find (is_named n) e.custom r g),
      )
