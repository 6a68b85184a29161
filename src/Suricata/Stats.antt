-- ===== src/Suricata/Stats.antt =====
-- The snapshot of the listener's counters (backend/internal/suricata/suricata.go, `Stats`).
use Prim.Native.String.{compare}
use text.Mathlib.Text.{is_lt}
use pmacct_suricata_analyzer.Prelude.{
  ℕ, Bool, ◌&&◌, ◌||◌, ◌==◌, ltb, List, [], ◌∷◌, map, String, Option, if◌then◌else◌,
}
use pmacct_suricata_analyzer.Suricata.Types.{TypeStat, Listener}
use pmacct_suricata_analyzer.Suricata.Handle.{used_for}

-- `TypeStat`, as it is shown.
pub record TypeCount : Type 0 where
  pub kind : String
  pub count : ℕ
  pub last : ℕ
  pub used : String

pub record Stats : Type 0 where
  pub received : ℕ
  pub alerts : ℕ
  pub names : ℕ
  pub dropped : ℕ
  pub malformed : ℕ
  pub ignored : ℕ
  pub last_event : Option ℕ
  pub last_error : String
  pub last_error_at : Option ℕ
  pub types : List TypeCount

unfoldable pub type_count : String × TypeStat → TypeCount
type_count (k, v) = record { kind = k; count = v.count; last = v.last; used = used_for k }

-- The order of `sort.Slice`: by falling count, then by name.
abbrev pub goes_before : TypeCount → TypeCount → Bool
goes_before a b = ltb b.count a.count || (a.count == b.count && is_lt (compare a.kind b.kind))

unfoldable pub place_count : TypeCount → List TypeCount → List TypeCount
place_count t [] = t ∷ []
place_count t (u ∷ us) =
    let rest = place_count t us in if goes_before u t then u ∷ rest else t ∷ u ∷ us

unfoldable pub sort_counts : List TypeCount → List TypeCount
unfolding place_count
sort_counts [] = []
sort_counts (t ∷ ts) = place_count t (sort_counts ts)

unfoldable pub stats : Listener → Stats
unfolding type_count sort_counts
stats l = record {
  received = l.received;
  alerts = l.alerts;
  names = l.names;
  dropped = l.dropped;
  malformed = l.malformed;
  ignored = l.ignored;
  last_event = l.last_at;
  last_error = l.last_err;
  last_error_at = l.last_err_at;
  types = sort_counts (map type_count l.types);
}
