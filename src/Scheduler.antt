-- ===== src/Scheduler.antt =====
-- The quota-limited lanes of backend/internal/scheduler/scheduler.go: VirusTotal for addresses and
-- for files, the Malware Hash Registry, and the reputation sources. A pass runs at `now`; its
-- pauses take no part. The lock on the VirusTotal quota makes its two consumers run one after the
-- other, so a pass is one function.
pub mod Quota
mod Tests
use pmacct_suricata_analyzer.Prelude.{
  ℕ, suc, ◌+◌, Bool, true, false, not, ◌&&◌, ◌||◌, List, [], ◌∷◌, ◌++◌, String, Option, none, some,
  Result, ok, err, if◌then◌else◌, str_eq, length,
}
use pmacct_suricata_analyzer.Prelude.Int.{ℤ, pos, pos_part, neg_part, sub_ℕ, ltb_ℤ, leb_ℤ}

-- A lane's statistics and its flags.
pub record Lane : Type 0 where
  pub running : Bool
  pub last_run : ℕ
  pub last_n : ℕ
  pub runs : ℕ
  pub lookups : ℕ
  pub failures : ℕ
  pub quota_hit : Bool

-- What a lookup gives: a result, by its status, the provider's refusal, or another error.
pub data Lookup : Type 0 where
  found : String → Lookup
  quota_exceeded : Lookup
  failed : String → Lookup

-- A result as it is stored: the key, the status, and the error of a failed lookup.
pub record Saved : Type 0 where
  pub key : String
  pub status : String
  pub error : Option String

pub record LaneState : Type 0 where
  pub lane : Lane
  pub saved : List Saved

-- What a pass is given: the provider's answers, whether the context ends before the n-th candidate,
-- and which results cannot be stored.
pub record Pass : Type 0 where
  pub lookup : String → Lookup
  pub cancelled : ℕ → Bool
  pub store_fails : String → Bool

-- `lane.finish`.
unfoldable pub finish : ℕ → ℕ → LaneState → LaneState
finish now n s =
    let l = s.lane in record s { lane = record l { last_run = now; last_n = n; runs = suc l.runs } }

abbrev pub set_hit : Bool → LaneState → LaneState
set_hit b s = let l = s.lane in record s { lane = record l { quota_hit = b } }

abbrev pub count_lookup : LaneState → LaneState
count_lookup s = let l = s.lane in record s { lane = record l { lookups = suc l.lookups } }

abbrev pub count_failure : LaneState → LaneState
count_failure s = let l = s.lane in record s { lane = record l { failures = suc l.failures } }

abbrev pub save : Pass → Saved → LaneState → LaneState
save p r s = if p.store_fails r.key then s else record s { saved = s.saved ++ r ∷ [] }

-- `LookupVT` and the like: whether the quota is exceeded, in which case nothing is stored.
unfoldable pub attempt : Pass → String → LaneState → Bool × LaneState
attempt p x s = elim (p.lookup x) [
  | quota_exceeded ↦ (true, count_lookup s)
  | failed m ↦ (
    false,
    save p (record { key = x; status = "failed"; error = some m }) (count_failure (count_lookup s)),
  )
  | found status ↦
      (false, save p (record { key = x; status = status; error = none }) (count_lookup s))
]

-- The loop over the candidates, which the passes share: how many were attempted.
unfoldable pub attempt_all : Pass → ℕ → List String → LaneState → ℕ × LaneState
unfolding attempt
attempt_all p i [] s = (0, s)
attempt_all p i (x ∷ xs) s =
    let (exceeded, s') = attempt p x s in
    let (n, s'') = attempt_all p (suc i) xs s' in
    if p.cancelled i then (0, s) else if exceeded then (1, set_hit true s') else (suc n, s'')

-- A number of lookups less those used.
abbrev pub minus : ℤ → ℕ → ℤ
minus d used = sub_ℕ (pos_part d) (neg_part d + used)

-- What is left of the day's quota and, if there is one, of the month's.
unfoldable pub vt_budget : ℤ → ℤ → ℕ → ℕ → ℤ
vt_budget daily monthly used used_month =
    if ltb_ℤ (pos 0) monthly && ltb_ℤ (minus monthly used_month) (minus daily used)
    then minus monthly used_month
    else minus daily used

unfoldable pub batch_limit : ℤ → ℤ → ℤ
batch_limit batch budget = if ltb_ℤ budget batch then budget else batch

-- A lane with its quotas, the day's and the month's use that the database reports, and the
-- candidates that it answers for a limit.
pub record QuotaLane : Type 0 where
  pub enabled : Bool
  pub daily_quota : ℤ
  pub monthly_quota : ℤ
  pub batch_size : ℤ
  pub usage : Result String (ℕ × ℕ)
  pub candidates : ℤ → Result String (List String)
  pub pass : Pass

abbrev pub work_through : QuotaLane → ℤ → LaneState → ℕ × LaneState
work_through q budget s = elim (q.candidates (batch_limit q.batch_size budget)) [
  | err _ ↦ (0, s)
  | ok xs ↦ attempt_all q.pass 0 xs (set_hit false s)
]

-- `runFilesVT`.
unfoldable pub run_files_vt : QuotaLane → LaneState → ℕ × LaneState
unfolding attempt_all vt_budget batch_limit
run_files_vt q s = elim q.usage [
  | err _ ↦ (0, s)
  | ok (used, used_month) ↦
      let budget = vt_budget q.daily_quota q.monthly_quota used used_month in
      if leb_ℤ budget (pos 0) then (0, set_hit true s) else work_through q budget s
]

-- A pass whose candidates were read counts as a run.
abbrev pub work_and_finish : ℕ → QuotaLane → ℤ → LaneState → ℕ × LaneState
work_and_finish now q budget s = elim (q.candidates (batch_limit q.batch_size budget)) [
  | err _ ↦ (0, s)
  | ok xs ↦ let (n, s') = attempt_all q.pass 0 xs (set_hit false s) in (n, finish now n s')
]

-- `RunVTOnce`.
unfoldable pub run_vt : ℕ → QuotaLane → LaneState → ℕ × LaneState
unfolding attempt_all vt_budget batch_limit finish
run_vt now q s = if not q.enabled || s.lane.running then (0, s) else elim q.usage [
  | err _ ↦ (0, s)
  | ok (used, used_month) ↦
      let budget = vt_budget q.daily_quota q.monthly_quota used used_month in
      if leb_ℤ budget (pos 0)
      then (0, finish now 0 (set_hit true s))
      else work_and_finish now q budget s
]

-- `RunRepOnce`, which knows no month's quota.
unfoldable pub run_rep : ℕ → QuotaLane → LaneState → ℕ × LaneState
unfolding attempt_all batch_limit finish
run_rep now q s = if s.lane.running then (0, s) else elim q.usage [
  | err _ ↦ (0, s)
  | ok (used, _) ↦
      let budget = minus q.daily_quota used in
      if leb_ℤ budget (pos 0)
      then (0, finish now 0 (set_hit true s))
      else work_and_finish now q budget s
]

-- A file for the Malware Hash Registry.
pub record FileHashes : Type 0 where
  pub sha256 : String
  pub md5 : String
  pub sha1 : String

-- The registry's lane: its answer to a hash, and the candidates; an error in reading them is logged
-- and leaves none.
pub record Registry : Type 0 where
  pub lookup : String → Result String String
  pub candidates : Result String (List FileHashes)
  pub cancelled : ℕ → Bool
  pub store_fails : String → Bool

abbrev pub hash_of : FileHashes → String
hash_of c = if str_eq c.md5 "" then c.sha1 else c.md5

abbrev save_mhr : Registry → Saved → LaneState → LaneState
save_mhr r x s = if r.store_fails x.key then s else record s { saved = s.saved ++ x ∷ [] }

unfoldable pub mhr_attempt : Registry → FileHashes → LaneState → LaneState
mhr_attempt r c s = elim (r.lookup (hash_of c)) [
  | err m ↦
      save_mhr r (record { key = c.sha256; status = "failed"; error = some m })
        (count_failure (count_lookup s))
  | ok status ↦
      save_mhr r (record { key = c.sha256; status = status; error = none }) (count_lookup s)
]

unfoldable pub mhr_all : Registry → ℕ → List FileHashes → LaneState → ℕ × LaneState
unfolding mhr_attempt
mhr_all r i [] s = (0, s)
mhr_all r i (c ∷ cs) s =
    let (n, s') = mhr_all r (suc i) cs (mhr_attempt r c s) in
    if r.cancelled i then (0, s) else (suc n, s')

abbrev run_mhr : Option Registry → LaneState → ℕ × LaneState
run_mhr none s = (0, s)
run_mhr (some r) s = elim r.candidates [ err _ ↦ (0, s) | ok cs ↦ mhr_all r 0 cs s ]

abbrev run_vt_files : Option QuotaLane → LaneState → ℕ × LaneState
run_vt_files none s = (0, s)
run_vt_files (some q) s = run_files_vt q s

-- `RunFilesOnce`.
unfoldable pub run_files : ℕ → Option Registry → Option QuotaLane → LaneState → ℕ × LaneState
unfolding mhr_all run_files_vt finish
run_files now registry vt s =
    let (m, s') = run_mhr registry s in
    let (n, s'') = run_vt_files vt s' in
    if s.lane.running then (0, s) else (m + n, finish now (m + n) s'')
