-- ===== src/Suricata/Shown.antt =====
-- The counts that the listener shows (backend/internal/suricata/suricata.go, `Stats`): sorting
-- them loses none.
use pmacct_suricata_analyzer.Prelude.{ℕ, ◌+◌, ◌≡◌, refl, List, [], ◌∷◌, map, String, arith, length}
use pmacct_suricata_analyzer.Suricata.Types.{TypeStat}
use pmacct_suricata_analyzer.Suricata.Stats.{TypeCount, type_count, place_count, sort_counts}
use pmacct_suricata_analyzer.Suricata.Table.{total}

-- The events that the shown types count.
abbrev pub shown : List TypeCount → ℕ
shown [] = 0
shown (t ∷ ts) = t.count + shown ts

place_count-shown :
    (t : TypeCount) (ts : List TypeCount) → shown (place_count t ts) ≡ t.count + shown ts
unfolding place_count
place_count-shown t [] = refl
place_count-shown t (u ∷ us) = ground (arith, place_count-shown t us)

place_count-length :
    (t : TypeCount) (ts : List TypeCount) → length (place_count t ts) ≡ length ts + 1
unfolding place_count
place_count-length t [] = omega arith
place_count-length t (u ∷ us) = ground (arith, place_count-length t us)

pub sort_counts-shown :
    (types : List (String × TypeStat)) → shown (sort_counts (map type_count types)) ≡ total types
unfolding sort_counts type_count
sort_counts-shown [] = refl
sort_counts-shown ((k, v) ∷ types) = omega (
  arith,
  place_count-shown (type_count (k, v)) (sort_counts (map type_count types)),
  sort_counts-shown types,
)

pub sort_counts-length :
    (types : List (String × TypeStat)) → length (sort_counts (map type_count types)) ≡ length types
unfolding sort_counts
sort_counts-length [] = refl
sort_counts-length ((k, v) ∷ types) = omega (
  arith,
  place_count-length (type_count (k, v)) (sort_counts (map type_count types)),
  sort_counts-length types,
)
