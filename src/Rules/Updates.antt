-- ===== src/Rules/Updates.antt =====
-- The operations on rules (backend/internal/rules/custom.go, `SaveCustom` and `DeleteCustom`, and
-- `UpdateConfig` of rules.go) never leave two live rules of one name.
use pmacct_suricata_analyzer.Prelude.{
  ◌≡◌, refl, sym, ap, ◌∙◌, Bool, true, false, not, String, some, Result, ok, err, >>=-eq-ok,
  ok-injective, inl, inr, Bool-cases, Option-cases, Result-cases,
}
use pmacct_suricata_analyzer.Rules.Types.{
  RuleError, unknown_rule, invalid, db_error, other, RuleConfig, Detector, CustomRule, Rule, Engine,
  Env, Sys, rule, rules, is_custom,
}
use pmacct_suricata_analyzer.Rules.Custom.{
  build_custom, name_check, as_invalid, prepare, save_custom, store_and_install, updated_row,
  update_custom_config, delete_custom,
}
use pmacct_suricata_analyzer.Rules.Spec.{CustomSpec, to_row}
use pmacct_suricata_analyzer.Rules.Config.{validate_config}
use pmacct_suricata_analyzer.Rules.Engine.{update_config, store_config}
use pmacct_suricata_analyzer.Rules.Saved.{
  IsCustom, IsNamed, Usable, build_custom-IsCustom, install-IsNamed, remove-IsNamed, free-Usable,
  found-IsCustom,
}

as_invalid-eq-ok : (m : Result RuleError Rule) {r : Rule} → as_invalid m ≡ ok r → m ≡ ok r
as_invalid-eq-ok (ok a) h = h
as_invalid-eq-ok (err (other m)) h = absurd (cc h)
as_invalid-eq-ok (err (unknown_rule n)) h = absurd (cc h)
as_invalid-eq-ok (err (invalid i)) h = absurd (cc h)
as_invalid-eq-ok (err (db_error d)) h = absurd (cc h)

-- Inversion of the checks of a save.
pub prepare-eq-ok :
    (env : Env) (e : Engine) (spec : CustomSpec) (create : Bool) {row : CustomRule} {r : Rule}
    → prepare env e spec create ≡ ok (row, r)
    → (to_row env e spec ≡ ok row)
      × (name_check create row.name (rule e row.name) ≡ ok tt)
      × (build_custom env e row ≡ ok r)
unfolding prepare
prepare-eq-ok env e spec create {row} {r} h =
    let (row', a, h₁) = >>=-eq-ok (to_row env e spec) _ h in
    let (_, b, h₂) = >>=-eq-ok (name_check create row'.name (rule e row'.name)) _ h₁ in
    let (r', c, h₃) = >>=-eq-ok (as_invalid (build_custom env e row')) _ h₂ in
    let pair = ok-injective h₃ in
    let same_row : row' ≡ row = ap (λ (p : CustomRule × Rule). p.0) pair in
    let same_rule : r' ≡ r = ap (λ (p : CustomRule × Rule). p.1) pair in
    prepared row' row r' r same_row same_rule a b (as_invalid-eq-ok _ c)
  where
    prepared :
        (row' row : CustomRule) (r' r : Rule)
        → row' ≡ row
        → r' ≡ r
        → to_row env e spec ≡ ok row'
        → name_check create row'.name (rule e row'.name) ≡ ok tt
        → build_custom env e row' ≡ ok r'
        → (to_row env e spec ≡ ok row)
          × (name_check create row.name (rule e row.name) ≡ ok tt)
          × (build_custom env e row ≡ ok r)
    prepared row' row r' r p q a b c = rw (← p, ← q) (a, b, c)

-- A statement on the custom rules leaves the alerts as they were.
module _ (env : Env) (s : Sys) (h : IsNamed s.engine) where
  store_and_install-IsNamed :
      (row : CustomRule) (r : Rule)
      → IsCustom r
      → Usable r.definition.name s.engine
      → IsNamed (store_and_install env row r s).0.engine
  unfolding store_and_install
  store_and_install-IsNamed row r c u = elim (Bool-cases env.custom_write_fails) [
    | inl e ↦ rw e h
    | inr e ↦ rw e (install-IsNamed s.engine h r c u)
  ]

  name_check-Usable :
      (create : Bool) (n : String)
      → name_check create n (rule s.engine n) ≡ ok tt
      → Usable n s.engine
  unfolding name_check
  name_check-Usable true n k = elim (Option-cases (rule s.engine n)) [
    | inl e ↦ free-Usable s.engine h n e
    | inr (r, e) ↦ absurd (cc (rw (e, name_check) at k))
  ]
  name_check-Usable false n k = elim (Option-cases (rule s.engine n)) [
    | inl e ↦ absurd (cc (rw (e, name_check) at k))
    | inr (r, e) ↦ elim (Bool-cases (is_custom r)) [
      | inl c ↦ (found-IsCustom s.engine h n r e c).2
      | inr c ↦ absurd (cc (rw c at (rw (e, name_check) at k)))
    ]
  ]

  pub save_custom-IsNamed :
      (spec : CustomSpec) (create : Bool) → IsNamed (save_custom env spec create s).0.engine
  unfolding save_custom
  save_custom-IsNamed spec create = elim (Result-cases (prepare env s.engine spec create)) [
    | inl (x, e) ↦ rw (e, save_custom) h
    | inr ((row, r), e) ↦
        let (_, named, built) = prepare-eq-ok env s.engine spec create e in
        let (made, same) = build_custom-IsCustom env s.engine row built in
        rw (e, save_custom)
          (store_and_install-IsNamed row r (row, made, same)
            (rw same at (name_check-Usable create row.name named)))
  ]

  update_custom_config-IsNamed :
      (row : CustomRule) (rc : RuleConfig)
      → Usable row.name s.engine
      → IsNamed (update_custom_config env row rc s).0.engine
  unfolding update_custom_config updated_row
  update_custom_config-IsNamed row rc u =
      let new = updated_row env.parse_duration rc row in
      elim (Result-cases (build_custom env s.engine new)) [
        | inl (x, e) ↦ rw (e, update_custom_config) h
        | inr (r, e) ↦
            let (made, same) = build_custom-IsCustom env s.engine new e in
            rw (e, update_custom_config)
              (store_and_install-IsNamed new r (new, made, same) (rw same at u))
      ]

  pub delete_custom-IsNamed : (n : String) → IsNamed (delete_custom env n s).0.engine
  unfolding delete_custom
  delete_custom-IsNamed n = elim (Option-cases (rule s.engine n)) [
    | inl e ↦ rw (e, delete_custom) h
    | inr (r, e) ↦
        rw (e, delete_custom)
          (elim (Bool-cases (not (is_custom r))) [
            | inl c ↦ rw c h
            | inr c ↦ rw c (elim (Bool-cases env.custom_write_fails) [
              | inl f ↦ rw f h
              | inr f ↦ rw f (remove-IsNamed s.engine h n _)
            ])
          ])
  ]

  row-Usable :
      (n : String) (r : Rule) (row : CustomRule)
      → rule s.engine n ≡ some r
      → r.custom ≡ some row
      → Usable row.name s.engine
  row-Usable n r row e b =
      let custom : is_custom r ≡ true = rw b refl in
      let ((row', made, same), named, usable) = found-IsCustom s.engine h n r e custom in
      let row_same : row' ≡ row = cc in
      let name_same : n ≡ row.name =
        sym (sym (ap (λ (x : CustomRule). x.name) row_same) ∙ (same ∙ named)) in
      rw name_same at usable

  store_config-IsNamed :
      (d : Detector) (rc : RuleConfig) → IsNamed (store_config env d rc s).0.engine
  unfolding store_config rules
  store_config-IsNamed d rc = elim (Bool-cases env.setting_write_fails) [
    | inl e ↦ rw e record { distinct = h.distinct; customs = h.customs }
    | inr e ↦ rw e record { distinct = h.distinct; customs = h.customs }
  ]

  pub update_config-IsNamed :
      (n : String) (rc : RuleConfig) → IsNamed (update_config env n rc s).0.engine
  unfolding update_config
  update_config-IsNamed n rc = elim (Option-cases (rule s.engine n)) [
    | inl e ↦ rw (e, update_config) h
    | inr (r, e) ↦ elim (Result-cases (validate_config env.parse_duration r rc)) [
      | inl (x, v) ↦ rw (e, update_config) (rw (v, update_config) h)
      | inr (_, v) ↦
          rw (e, update_config)
            (rw (v, update_config)
              (elim (Option-cases r.custom) [
                | inl b ↦ rw (b, update_config) (store_config-IsNamed r.definition rc)
                | inr (row, b) ↦
                    rw (b, update_config)
                      (update_custom_config-IsNamed row rc (row-Usable n r row e b))
              ]))
    ]
  ]
