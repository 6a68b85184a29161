-- ===== src/Values.antt =====
-- The values of Go's `map[string]any`: rule parameters and alert details
-- (backend/internal/rules/rules.go, `params`).
use pmacct_suricata_analyzer.Prelude.{
  ℕ, ◌/◌, ◌+◌, ◌-◌, Bool, List, String, Option, some, get, ◌≡◌, refl, if◌then◌else◌, ◌==◌, [], ◌∷◌,
}
use pmacct_suricata_analyzer.Prelude.Int.{ℤ, pos, negsuc}

-- A `float64 m k` is the finite float m / 2 ^ k, with `d` = 2 ^ k given; a `json.Number` is taken
-- by what its `Int64` returns. Lists are those of texts.
pub data Value : Type 0 where
  int : ℤ → Value
  int64 : ℤ → Value
  float64 : ℤ → ℕ → Value
  json_number : ℤ → Value
  bool : Bool → Value
  text : String → Value
  texts : List String → Value

abbrev pub Params : Type 0
Params = List (String × Value)

-- `int(v)` of a float drops the fraction, towards zero.
unfoldable pub truncate : ℤ → ℕ → ℤ
truncate (pos m) d = pos (m / d)
truncate (negsuc m) d = let q = (m + 1) / d in if q == 0 then pos 0 else negsuc (q - 1)

unfoldable pub int_of : Option Value → ℤ
unfolding truncate
int_of (some (int n)) = n
int_of (some (int64 n)) = n
int_of (some (float64 m d)) = truncate m d
int_of (some (json_number n)) = n
int_of _ = pos 0

-- `params.Int`.
unfoldable pub param_int : Params → String → ℤ
unfolding int_of
param_int p k = int_of (get k p)

param_int_test : param_int (("n", float64 (negsuc 4) 2) ∷ []) "n" ≡ negsuc 1
unfolding param_int
param_int_test = refl
