-- ===== src/Rules/Accepted.antt =====
-- What a specification that `toRow` accepts promises (backend/internal/rules/custom.go): its row, and
-- that `buildCustom` makes a rule of it.
use pmacct_suricata_analyzer.Prelude.{
  ℕ, ◌<◌, ◌≡◌, refl, ◌≢◌, Bool, true, false, not, String, Option, none, some, ok, ◌⊎◌, inl, inr,
  arith, >>=-eq-ok, ok-injective, Bool-cases, Result-cases, ltb, str_eq, eq_iff, trim_space, codes,
  ensure, ensure-ok,
}
use pmacct_suricata_analyzer.Values.{Params}
use pmacct_suricata_analyzer.Alerts.Rows.{severity_rank}
use pmacct_suricata_analyzer.Exclusions.{is_nil}
use pmacct_suricata_analyzer.Rules.Types.{CustomRule, Rule, Engine, Env, builtin_rule, Detector}
use pmacct_suricata_analyzer.Rules.Config.{parse_timing, check_params, given_params}
use pmacct_suricata_analyzer.Rules.Spec.{
  CustomSpec, KindPart, is_custom_name, is_reserved, validate_rule_sql, spec_severity, kind_part,
  to_row, sql_kind, builtin_kind, sql_result, base_of,
}
use pmacct_suricata_analyzer.Rules.Custom.{build_custom}

-- The two kinds of a row: a query that is allowed, or a base that exists.
pub IsOfKind : Env → Engine → String → String → String → Type 0
IsOfKind env e kind base sql =
    ((kind ≡ "sql") × (validate_rule_sql env.to_upper sql ≡ none))
    ⊎ ((kind ≡ "builtin") × (base ≢ "ids") × ((d : Detector) × (builtin_rule e base ≡ some d)))

pub record IsRow (env : Env) (e : Engine) (row : CustomRule) : Type 0 where
  pub named : is_custom_name (codes row.name) ≡ true
  pub free : is_reserved row.name ≡ false
  pub ranked : 0 < severity_rank row.severity
  pub kinds : IsOfKind env e row.kind row.base row.sql

not_holds : (b : Bool) → not b ≡ true → b ≡ false
not_holds false h = refl
not_holds true h = absurd (cc h)

ltb_holds : (n : ℕ) → ltb 0 n ≡ true → 0 < n
ltb_holds n h = ground arith

sql_result_holds : (m : Option String) {u : Unit {0}} → sql_result m ≡ ok u → m ≡ none
sql_result_holds none h = refl
sql_result_holds (some m) h = cc

base_of_holds :
    (name : String) (m : Option Detector) {d : Detector}
    → base_of name m ≡ ok d
    → (m ≡ some d) × (name ≢ "ids")
base_of_holds name none h = absurd (cc h)
base_of_holds name (some d) h = elim (Bool-cases (str_eq name "ids")) [
  | inl bad ↦ absurd (ground arith)
  | inr fine ↦
      let same = ok-injective (rw fine at h) in
      (rw same refl, λ p. absurd (ground (arith, eq_iff name "ids")))
]

module _ (env : Env) (e : Engine) (spec : CustomSpec) where
  sql_kind-IsOfKind :
      (ps : Params) {k : KindPart}
      → sql_kind env spec ps ≡ ok k
      → validate_rule_sql env.to_upper k.sql ≡ none
  sql_kind-IsOfKind ps h =
      let (_, good, h₁) =
        >>=-eq-ok (sql_result (validate_rule_sql env.to_upper (trim_space spec.sql))) _ h in
      let (_, _, h₂) = >>=-eq-ok (ensure (is_nil ps) _) _ h₁ in
      let same = ok-injective h₂ in rw (← same) (sql_result_holds _ good)

  builtin_kind-IsOfKind :
      (ps : Params) {k : KindPart}
      → builtin_kind e spec ps ≡ ok k
      → (k.base ≢ "ids") × ((d : Detector) × (builtin_rule e k.base ≡ some d))
  builtin_kind-IsOfKind ps h =
      let (d, found, h₁) =
        >>=-eq-ok (base_of (trim_space spec.base) (builtin_rule e (trim_space spec.base))) _ h in
      let (_, _, h₂) = >>=-eq-ok (check_params _ d.params ps) _ h₁ in
      let same = ok-injective h₂ in let (a, b) = base_of_holds _ _ found in rw (← same) (b, (d, a))

  kind_part-IsOfKind :
      (ps : Params) {k : KindPart}
      → kind_part env e spec ps ≡ ok k
      → IsOfKind env e (trim_space spec.kind) k.base k.sql
  unfolding IsOfKind
  kind_part-IsOfKind ps h = elim (Bool-cases (str_eq (trim_space spec.kind) "sql")) [
    | inl a ↦ inl ((eq_iff _ _).0 a, sql_kind-IsOfKind ps (rw a at h))
    | inr a ↦ elim (Bool-cases (str_eq (trim_space spec.kind) "builtin")) [
      | inl b ↦
          let (real, found) = builtin_kind-IsOfKind ps (rw (a, b) at h) in
          inr ((eq_iff _ _).0 b, real, found)
      | inr b ↦ absurd (ground arith)
    ]
  ]

  -- A specification is accepted only with a name that is allowed and not reserved, a severity that
  -- has a rank, and either a query that the validation allows or the name, other than "ids", of a
  -- built-in rule that exists: the row that is stored has them.
  pub to_row-IsRow : {row : CustomRule} → to_row env e spec ≡ ok row → IsRow env e row
  unfolding to_row
  to_row-IsRow h =
      let (_, nam, h₁) = >>=-eq-ok (ensure (is_custom_name (codes (trim_space spec.name))) _) _ h in
      let (_, fre, h₂) = >>=-eq-ok (ensure (not (is_reserved (trim_space spec.name))) _) _ h₁ in
      let (_, sev, h₃) =
        >>=-eq-ok (ensure (ltb 0 (severity_rank (spec_severity env spec))) _) _ h₂ in
      let (k, kin, h₄) = >>=-eq-ok (kind_part env e spec (given_params spec.params)) _ h₃ in
      let (iv, _, h₅) =
        >>=-eq-ok (parse_timing env.parse_duration "interval" spec.interval _ _) _ h₄ in
      let (win, _, h₆) =
        >>=-eq-ok (parse_timing env.parse_duration "window" spec.window _ _) _ h₅ in
      let same = ok-injective h₆ in
      let free_name = ensure-ok _ _ fre in
      let known = ensure-ok _ _ sev in
      rw (← same) (record {
        named = ensure-ok _ _ nam;
        free = not_holds _ free_name;
        ranked = ltb_holds _ known;
        kinds = kind_part-IsOfKind _ kin;
      })

  -- Every specification that is accepted gives a row that a rule can be built of, against the same
  -- engine.
  pub to_row-builds :
      {row : CustomRule} → to_row env e spec ≡ ok row → (r : Rule) × (build_custom env e row ≡ ok r)
  unfolding build_custom IsOfKind
  to_row-builds {row} h = elim (Result-cases (build_custom env e row)) [
    | inr built ↦ built
    | inl (_, bad) ↦ absurd (elim ((to_row-IsRow h).kinds) [
      | inl (sql, _) ↦ cc (rw ((eq_iff _ _).1 sql) at bad)
      | inr (base, _, (d, found)) ↦ elim (Bool-cases (str_eq row.kind "sql")) [
        | inl a ↦ cc (rw a at bad)
        | inr a ↦ cc (rw (a, (eq_iff _ _).1 base, found) at bad)
      ]
    ])
  ]
