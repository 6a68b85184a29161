-- ===== src/Scheduler/Tests.antt =====
-- The quotas at a concrete lane.
use pmacct_suricata_analyzer.Prelude.{
  ◌≡◌, refl, ok, err, ok-injective, Result, false, true, List, [], ◌∷◌, String, arith, length,
  if◌then◌else◌, if-split,
}
use pmacct_suricata_analyzer.Prelude.Int.{ℤ, pos, ◌≤ℤ◌, leb_ℤ}
use pmacct_suricata_analyzer.Scheduler.{found, LaneState, QuotaLane, run_vt, run_files_vt}
use pmacct_suricata_analyzer.Scheduler.Quota.{IsWithin, run_vt-IsWithin, run_files_vt-IsWithin}

abbrev two_keys : List String
two_keys = "10.0.0.5" ∷ "10.0.0.6" ∷ []

-- Two addresses, if the limit admits them.
abbrev candidates : ℤ → Result String (List String)
candidates l = if leb_ℤ (pos 2) l then ok two_keys else err "limit"

candidates-limited : (l : ℤ) (xs : List String) → candidates l ≡ ok xs → pos (length xs) ≤ℤ l
candidates-limited l xs =
    if-split (λ (r : Result String (List String)). r ≡ ok xs → pos (length xs) ≤ℤ l)
      (leb_ℤ (pos 2) l) _ _
      (λ e k. let same : two_keys ≡ xs = ok-injective k in rw (← same) (ground arith))
      (λ e k. absurd (cc k))

abbrev lane : QuotaLane
lane = record {
  enabled = true;
  daily_quota = pos 10;
  monthly_quota = pos 100;
  batch_size = pos 4;
  usage = ok (7, 97);
  candidates = candidates;
  pass = record { lookup = λ x. found "ok"; cancelled = λ i. false; store_fails = λ k. false };
}

abbrev fresh : LaneState
fresh = record {
  lane = record {
    running = false;
    last_run = 0;
    last_n = 0;
    runs = 0;
    lookups = 0;
    failures = 0;
    quota_hit = false;
  };
  saved = [];
}

run_vt_example : IsWithin lane 7 97 (run_vt 50 lane fresh).0
run_vt_example = run_vt-IsWithin lane 7 97 refl candidates-limited 50 fresh

run_files_vt_example : IsWithin lane 7 97 (run_files_vt lane fresh).0
run_files_vt_example = run_files_vt-IsWithin lane 7 97 refl candidates-limited fresh
