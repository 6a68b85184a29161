-- ===== src/Rules/Timing.antt =====
-- What the validation of an update accepts (backend/internal/rules/rules.go, `parseTiming` and
-- `validateConfig`).
use pmacct_suricata_analyzer.Prelude.{
  ◌<◌, ◌≡◌, refl, true, false, ◌||◌, List, [], ◌∷◌, String, Option, some, ok, ◌⊎◌, inl, inr, ◌↔◌,
  arith, >>=-eq-ok, ok-injective, Bool-cases, Option-cases, ltb, str_eq, eq_iff, trim_space, All,
  ensure, ensure-ok,
}
use pmacct_suricata_analyzer.Prelude.Int.{ℤ, pos, ltb_ℤ, ◌≤ℤ◌}
use pmacct_suricata_analyzer.Values.{Params}
use pmacct_suricata_analyzer.Alerts.Rows.{severity_rank}
use pmacct_suricata_analyzer.Rules.Types.{Invalid, RuleConfig, Param, Rule, unknown_parameter}
use pmacct_suricata_analyzer.Rules.Config.{
  min_interval, max_interval, min_window, max_window, parse_timing, is_param, check_params,
  given_params, validate_config,
}

-- A blank text, or one that is trimmed to a duration within the limits.
abbrev pub IsTiming : (String → Option ℤ) → String → ℤ → ℤ → Type 0
IsTiming parse s min max =
    (trim_space s ≡ "") ⊎ ((d : ℤ) × (parse (trim_space s) ≡ some d) × (min ≤ℤ d) × (d ≤ℤ max))

module _ (parse : String → Option ℤ) (what s : String) (min max : ℤ) where
  -- A text is accepted as a timing only if it is blank, and then gives 0, or if it is trimmed to the
  -- duration that is given, which lies within the limits.
  pub parse_timing_sound :
      (d : ℤ)
      → parse_timing parse what s min max ≡ ok d
      → ((trim_space s ≡ "") × (d ≡ pos 0))
        ⊎ ((parse (trim_space s) ≡ some d) × (min ≤ℤ d) × (d ≤ℤ max))
  unfolding parse_timing
  parse_timing_sound d h = elim (Bool-cases (str_eq (trim_space s) "")) [
    | inl blank ↦ inl ((eq_iff _ _).0 blank, ground arith)
    | inr full ↦ elim (Option-cases (parse (trim_space s))) [
      | inl bad ↦ absurd (ground arith)
      | inr (v, e) ↦ elim (Bool-cases (ltb_ℤ v min || ltb_ℤ max v)) [
        | inl out ↦ absurd (ground arith)
        | inr within ↦
            let same : v ≡ d = ok-injective (rw (full, e, within) at h) in
            rw (← same) (inr (e, ground arith, ground arith))
      ]
    ]
  ]

  parse_timing_complete :
      IsTiming parse s min max → (d : ℤ) × (parse_timing parse what s min max ≡ ok d)
  unfolding parse_timing
  parse_timing_complete (inl blank) = (pos 0, rw ((eq_iff _ _).1 blank))
  parse_timing_complete (inr (d, e, low, high)) = elim (Bool-cases (str_eq (trim_space s) "")) [
    | inl blank ↦ (pos 0, rw blank)
    | inr full ↦
        let within : (ltb_ℤ d min || ltb_ℤ max d) ≡ false = ground arith in
        (d, rw (full, e, within))
  ]

check_params_iff :
    (bad : String → Invalid) (ps : List Param) (given : Params)
    → (check_params bad ps given ≡ ok tt) ↔ All (λ kv. is_param kv.0 ps ≡ true) given
unfolding check_params
check_params_iff bad ps [] = ((λ h. tt), λ h. refl)
check_params_iff bad ps ((k, v) ∷ given) = elim (Bool-cases (is_param k ps)) [
  | inl e ↦ rw e (
    (λ h. (refl, (check_params_iff bad ps given).0 h)),
    λ h. (check_params_iff bad ps given).1 h.1,
  )
  | inr e ↦ rw e ((λ h. absurd (ground arith)), λ h. absurd (ground arith))
]

-- An update is accepted exactly when its severity is empty or known, every parameter given is one
-- that the rule defines, and its interval and window are blank or trimmed to durations within the
-- limits.
pub record Accepts (parse : String → Option ℤ) (r : Rule) (rc : RuleConfig) : Type 0 where
  pub severity : (rc.severity ≡ "") ⊎ (0 < severity_rank rc.severity)
  pub params : All (λ kv. is_param kv.0 r.definition.params ≡ true) (given_params rc.params)
  pub interval : IsTiming parse rc.interval min_interval max_interval
  pub window : IsTiming parse rc.window min_window max_window

IsTiming-of_ok :
    (parse : String → Option ℤ) (what s : String) (min max d : ℤ)
    → parse_timing parse what s min max ≡ ok d
    → IsTiming parse s min max
IsTiming-of_ok parse what s min max d h = elim (parse_timing_sound parse what s min max d h) [
  | inl (blank, _) ↦ inl blank
  | inr (e, low, high) ↦ inr (d, e, low, high)
]

module _ (parse : String → Option ℤ) (r : Rule) (rc : RuleConfig) where
  validate_config_sound : validate_config parse r rc ≡ ok tt → Accepts parse r rc
  unfolding validate_config
  validate_config_sound h =
      let (_, sev, h₁) =
        >>=-eq-ok (ensure (str_eq rc.severity "" || ltb 0 (severity_rank rc.severity)) _) _ h in
      let (_, par, h₂) =
        >>=-eq-ok (check_params _ r.definition.params (given_params rc.params)) _ h₁ in
      let (iv, e₁, h₃) =
        >>=-eq-ok (parse_timing parse "interval" rc.interval min_interval max_interval) _ h₂ in
      let (win, e₂, _) =
        >>=-eq-ok (parse_timing parse "window" rc.window min_window max_window) _ h₃ in
      let known = ensure-ok _ _ sev in
      record {
        severity = ground (arith, eq_iff rc.severity "");
        params = (check_params_iff _ r.definition.params (given_params rc.params)).0 par;
        interval = IsTiming-of_ok parse "interval" rc.interval min_interval max_interval iv e₁;
        window = IsTiming-of_ok parse "window" rc.window min_window max_window win e₂;
      }

  validate_config_complete : Accepts parse r rc → validate_config parse r rc ≡ ok tt
  unfolding validate_config
  validate_config_complete a =
      let (iv, e₁) =
        parse_timing_complete parse "interval" rc.interval min_interval max_interval a.interval in
      let (win, e₂) =
        parse_timing_complete parse "window" rc.window min_window max_window a.window in
      let sev : (str_eq rc.severity "" || ltb 0 (severity_rank rc.severity)) ≡ true =
        ground (arith, eq_iff rc.severity "", a.severity) in
      rw (
        sev,
        (check_params_iff (λ k. unknown_parameter k r.definition.name) r.definition.params
              (given_params rc.params)).1
            a.params,
        e₁,
        e₂,
      )

  -- An update is accepted exactly when its severity is empty or known, every parameter given is
  -- one that the rule defines, and its interval and window are each blank or trimmed to a duration
  -- within the limits.
  pub validate_config_iff : (validate_config parse r rc ≡ ok tt) ↔ Accepts parse r rc
  validate_config_iff = (validate_config_sound, validate_config_complete)
