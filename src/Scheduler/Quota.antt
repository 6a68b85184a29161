-- ===== src/Scheduler/Quota.antt =====
-- A pass stays within the quotas (backend/internal/scheduler/scheduler.go, `RunVTOnce`, `runFilesVT`
-- and `RunRepOnce`).
use pmacct_suricata_analyzer.Prelude.{
  ℕ, suc, ◌+◌, ◌≤◌, ◌≡◌, refl, true, false, not, ◌||◌, List, [], ◌∷◌, String, Result, ok, err, inl,
  inr, ◌⊎◌, arith, Bool-cases, if-either, length,
}
use pmacct_suricata_analyzer.Prelude.Int.{ℤ, pos, ltb_ℤ, leb_ℤ, ◌≤ℤ◌}
use pmacct_suricata_analyzer.Scheduler.{
  Lookup, found, quota_exceeded, failed, LaneState, Pass, attempt, attempt_all, minus, vt_budget,
  batch_limit, QuotaLane, run_files_vt, run_vt, set_hit, work_through, work_and_finish, finish,
}

attempt_all-length :
    (p : Pass) (i : ℕ) (xs : List String) (s : LaneState) → (attempt_all p i xs s).0 ≤ length xs
unfolding attempt_all
attempt_all-length p i [] s = omega arith
attempt_all-length p i (x ∷ xs) s =
    let ih = attempt_all-length p (suc i) xs (attempt p x s).1 in
    if-either (λ (r : ℕ × LaneState). r.0 ≤ length (x ∷ xs)) (p.cancelled i) _ _ (omega arith)
      (if-either (λ (r : ℕ × LaneState). r.0 ≤ length (x ∷ xs)) (attempt p x s).0 _ _ (omega arith)
        (omega (arith, ih)))

attempt-lookups :
    (p : Pass) (x : String) (s : LaneState) → (attempt p x s).1.lane.lookups ≡ suc s.lane.lookups
unfolding attempt
attempt-lookups p x s = of_answer (p.lookup x) refl
  where
    of_answer : (a : Lookup) → p.lookup x ≡ a → (attempt p x s).1.lane.lookups ≡ suc s.lane.lookups
    of_answer quota_exceeded e = rw (e, attempt) refl
    of_answer (failed m) e =
        rw (e, attempt)
          (if-either (λ (r : LaneState). r.lane.lookups ≡ suc s.lane.lookups) (p.store_fails x) _ _
            refl refl)
    of_answer (found st) e =
        rw (e, attempt)
          (if-either (λ (r : LaneState). r.lane.lookups ≡ suc s.lane.lookups) (p.store_fails x) _ _
            refl refl)

-- A pass counts each of its attempts as one lookup.
attempt_all-lookups :
    (p : Pass) (i : ℕ) (xs : List String) (s : LaneState)
    → (attempt_all p i xs s).1.lane.lookups ≡ s.lane.lookups + (attempt_all p i xs s).0
unfolding attempt_all
attempt_all-lookups p i [] s = omega arith
attempt_all-lookups p i (x ∷ xs) s =
    let one = attempt-lookups p x s in
    let ih = attempt_all-lookups p (suc i) xs (attempt p x s).1 in
    let goal = λ (r : ℕ × LaneState). r.1.lane.lookups ≡ s.lane.lookups + r.0 in
    if-either goal (p.cancelled i) _ _ (omega arith)
      (if-either goal (attempt p x s).0 _ _ (omega (arith, one)) (omega (arith, one, ih)))

minus-bound : (d : ℤ) (used n : ℕ) → pos n ≤ℤ minus d used → pos (used + n) ≤ℤ d
minus-bound d used n h = ground arith

≤ℤ-of_ltb : (n : ℕ) (a b : ℤ) → ltb_ℤ a b ≡ true → pos n ≤ℤ a → pos n ≤ℤ b
≤ℤ-of_ltb n a b h k = ground arith

≤ℤ-of_not_ltb : (n : ℕ) (a b : ℤ) → ltb_ℤ a b ≡ false → pos n ≤ℤ b → pos n ≤ℤ a
≤ℤ-of_not_ltb n a b h k = ground arith

no_quota : (m : ℤ) → ltb_ℤ (pos 0) m ≡ false → m ≤ℤ pos 0
no_quota m h = ground arith

-- What is left of the quotas is within both.
vt_budget-bounds :
    (daily monthly : ℤ) (used used_month n : ℕ)
    → pos n ≤ℤ vt_budget daily monthly used used_month
    → (pos (used + n) ≤ℤ daily) × ((monthly ≤ℤ pos 0) ⊎ (pos (used_month + n) ≤ℤ monthly))
unfolding vt_budget
vt_budget-bounds daily monthly used used_month n h =
    let d = minus daily used in
    let m = minus monthly used_month in
    elim (Bool-cases (ltb_ℤ (pos 0) monthly)) [
      | inr no_month ↦
          (minus-bound daily used n (rw no_month at h), inl (no_quota monthly no_month))
      | inl month ↦ elim (Bool-cases (ltb_ℤ m d)) [
        | inl less ↦
            let k : pos n ≤ℤ m = rw (month, less) at h in
            (
              minus-bound daily used n (≤ℤ-of_ltb n m d less k),
              inr (minus-bound monthly used_month n k),
            )
        | inr more ↦
            let k : pos n ≤ℤ d = rw (month, more) at h in
            (
              minus-bound daily used n k,
              inr (minus-bound monthly used_month n (≤ℤ-of_not_ltb n m d more k)),
            )
      ]
    ]

batch_limit-bound : (batch budget : ℤ) (n : ℕ) → pos n ≤ℤ batch_limit batch budget → pos n ≤ℤ budget
unfolding batch_limit
batch_limit-bound batch budget n h = elim (Bool-cases (ltb_ℤ budget batch)) [
  | inl less ↦ rw less at h
  | inr more ↦ ≤ℤ-of_not_ltb n budget batch more (rw more at h)
]

-- A pass that attempts `n` lookups on a reported use: none, or no more than the quotas leave.
abbrev pub IsWithin : QuotaLane → ℕ → ℕ → ℕ → Type 0
IsWithin q used used_month n =
    (n ≡ 0)
    ⊎ ((pos (used + n) ≤ℤ q.daily_quota)
        × ((q.monthly_quota ≤ℤ pos 0) ⊎ (pos (used_month + n) ≤ℤ q.monthly_quota)))

-- A lane whose candidates are no more than the limit asked for.
module _ (q : QuotaLane) (used used_month : ℕ) (reported : q.usage ≡ ok (used, used_month))
    (limited : (l : ℤ) (xs : List String) → q.candidates l ≡ ok xs → pos (length xs) ≤ℤ l) where
  attempts-IsWithin :
      (xs : List String) (n : ℕ)
      → q.candidates
          (batch_limit q.batch_size (vt_budget q.daily_quota q.monthly_quota used used_month))
        ≡ ok xs
      → n ≤ length xs
      → IsWithin q used used_month n
  attempts-IsWithin xs n e short =
      let budget = vt_budget q.daily_quota q.monthly_quota used used_month in
      let some_left = batch_limit-bound q.batch_size budget (length xs) (limited _ xs e) in
      inr (
        vt_budget-bounds q.daily_quota q.monthly_quota used used_month n
          (omega (arith, some_left, short)))

  work_through-IsWithin :
      (s : LaneState)
      → IsWithin q used used_month
          (work_through q (vt_budget q.daily_quota q.monthly_quota used used_month) s).0
  work_through-IsWithin s =
      by_candidates
        (q.candidates
          (batch_limit q.batch_size (vt_budget q.daily_quota q.monthly_quota used used_month)))
        refl
    where
      by_candidates :
          (c : Result String (List String))
          → q.candidates
              (batch_limit q.batch_size (vt_budget q.daily_quota q.monthly_quota used used_month))
            ≡ c
          → IsWithin q used used_month
              (elim c as (λ _. ℕ × LaneState) [
                | err _ ↦ (0, s)
                | ok xs ↦ attempt_all q.pass 0 xs (set_hit false s)
              ]).0
      by_candidates (err x) e = inl refl
      by_candidates (ok xs) e =
          attempts-IsWithin xs _ e (attempt_all-length q.pass 0 xs (set_hit false s))

  work_and_finish-IsWithin :
      (now : ℕ) (s : LaneState)
      → IsWithin q used used_month
          (work_and_finish now q (vt_budget q.daily_quota q.monthly_quota used used_month) s).0
  work_and_finish-IsWithin now s =
      by_candidates
        (q.candidates
          (batch_limit q.batch_size (vt_budget q.daily_quota q.monthly_quota used used_month)))
        refl
    where
      by_candidates :
          (c : Result String (List String))
          → q.candidates
              (batch_limit q.batch_size (vt_budget q.daily_quota q.monthly_quota used used_month))
            ≡ c
          → IsWithin q used used_month
              (elim c as (λ _. ℕ × LaneState) [
                | err _ ↦ (0, s)
                | ok xs ↦
                    let (n, s') = attempt_all q.pass 0 xs (set_hit false s) in (n, finish now n s')
              ]).0
      by_candidates (err x) e = inl refl
      by_candidates (ok xs) e =
          attempts-IsWithin xs _ e (attempt_all-length q.pass 0 xs (set_hit false s))

  -- A VirusTotal pass over addresses attempts no lookup, or only so many that the use that the
  -- query for it reports and the attempts together are within the day's quota and, if there is one, the
  -- month's. The reported use is a lower bound of the real one, as the query sees only the latest
  -- lookup of a record, so nothing is said of the real use. The candidates are taken to be no more
  -- than the limit they are asked with.
  pub run_vt-IsWithin : (now : ℕ) (s : LaneState) → IsWithin q used used_month (run_vt now q s).0
  unfolding run_vt
  run_vt-IsWithin now s =
      let budget = vt_budget q.daily_quota q.monthly_quota used used_month in
      let goal = λ (r : ℕ × LaneState). IsWithin q used used_month r.0 in
      if-either goal (not q.enabled || s.lane.running) _ _ (inl refl) (
        rw (reported, run_vt)
          (if-either goal (leb_ℤ budget (pos 0)) _ _ (inl refl) (work_and_finish-IsWithin now s)))

  -- A VirusTotal pass over files attempts no lookup, or only so many that the use that the
  -- query for it reports and the attempts together are within the day's quota and, if there is one, the
  -- month's. The reported use is a lower bound of the real one, as the query sees only the latest
  -- lookup of a record, so nothing is said of the real use. The candidates are taken to be no more
  -- than the limit they are asked with.
  pub run_files_vt-IsWithin : (s : LaneState) → IsWithin q used used_month (run_files_vt q s).0
  unfolding run_files_vt
  run_files_vt-IsWithin s =
      let budget = vt_budget q.daily_quota q.monthly_quota used used_month in
      let goal = λ (r : ℕ × LaneState). IsWithin q used used_month r.0 in
      rw (reported, run_files_vt)
        (if-either goal (leb_ℤ budget (pos 0)) _ _ (inl refl) (work_through-IsWithin s))
