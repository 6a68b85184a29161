-- ===== src/Explain/Levels.antt =====
-- The level of an assessment is told by the facts alone (backend/internal/explain/explain.go,
-- `Assess`).
use mathlib.Core.Bool.{or_assoc}
use pmacct_suricata_analyzer.Prelude.{
  ℕ, ◌≡◌, refl, ◌∙◌, Bool, false, List, [], ◌∷◌, String, Option, any, length, ltb, arith,
  if◌then◌else◌, ◌==◌, count_where,
}
use pmacct_suricata_analyzer.Explain.Types.{
  Signal, Style, info, expected, review, suspicious, Report, Known,
}
use pmacct_suricata_analyzer.Explain.Facts.{signal}
use pmacct_suricata_analyzer.Explain.Assess.{is_critical, is_warn, gathered, verdict, assess}
use pmacct_suricata_analyzer.Explain.Causes.{is_danger, is_caution}
use pmacct_suricata_analyzer.Explain.Spoken.{
  Says, Says-append, Says-as, program-Says, destinations-Says,
}

count_where-any : (p : Signal → Bool) (xs : List Signal) → ltb 0 (count_where p xs) ≡ any p xs
count_where-any p [] = refl
count_where-any p (x ∷ xs) = ground (arith, count_where-any p xs)

-- The remark of a report with no signals says nothing that counts.
filled-Says :
    (xs : List Signal) (remark : String) {a b : Bool}
    → Says xs a b
    → Says (if length xs == 0 then signal info remark else xs) a b
filled-Says [] remark h = record { criticals = h.criticals; warnings = h.warnings }
filled-Says (x ∷ xs) remark {a} {b} h =
    let some_there : (length (x ∷ xs) == 0) ≡ false = ground arith in rw some_there h

gathered-Says :
    (style : Style) (now : ℕ) (rep : Report)
    → Says
        (gathered style now rep)
        (is_danger rep.program rep.destinations)
        (is_caution style rep.program rep.destinations)
unfolding gathered
gathered-Says style now rep = filled-Says _ _ (
    Says-as (Says-append (program-Says style now rep.program) (destinations-Says rep.destinations))
      (simp (or_assoc)) (simp (or_assoc)))

verdict-level :
    (crit warns : ℕ) (k : Option Known)
    → (verdict crit warns k).level
      ≡ (if ltb 0 crit then suspicious else if ltb 0 warns then review else expected)
unfolding verdict
verdict-level crit warns k = ground arith

module _ (style : Style) (now : ℕ) (rep : Report) where
  -- A report is suspicious exactly when the program is a core process of the system, its file was
  -- changed or has an invalid signature, its file is malware by three engines or by the registry,
  -- or an untrusted destination is on a threat list or flagged by two engines; of the others it is
  -- to be reviewed exactly when one of the listed causes for caution is there, and is as expected
  -- otherwise.
  pub assess-level : (assess style now rep).assessment.level ≡ (
      if is_danger rep.program rep.destinations
      then suspicious
      else if is_caution style rep.program rep.destinations
      then review
      else expected)
  unfolding assess
  assess-level =
      let said = gathered-Says style now rep in
      let danger = count_where-any is_critical (gathered style now rep) ∙ said.criticals in
      let caution = count_where-any is_warn (gathered style now rep) ∙ said.warnings in
      rw (verdict-level, danger, caution)
