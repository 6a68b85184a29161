-- ===== src/Notify/Quiet.antt =====
-- Quiet hours (backend/internal/notify/notify.go, `inQuietHours`): the range "HH-HH" of local hours.
use pmacct_suricata_analyzer.Prelude.{
  ℕ, ◌+◌, ◌-◌, ◌*◌, ◌≡◌, refl, Bool, true, false, not, ◌&&◌, ◌||◌, List, [], ◌∷◌, String, Option,
  none, some, arith, if◌then◌else◌, leb, ◌==◌, str_eq, codes, split, trim_space,
}
use pmacct_suricata_analyzer.Prelude.Int.{ℤ, pos, negsuc, ltb_ℤ, leb_ℤ, eqb_ℤ}

abbrev digits : ℕ → List ℕ → Option ℕ
digits n [] = some n
digits n (c ∷ cs) =
    let rest = digits (n * 10 + (c - b'0')) cs in if leb b'0' c && leb c b'9' then rest else none

abbrev some_digits : List ℕ → Option ℕ
some_digits [] = none
some_digits (c ∷ cs) = digits 0 (c ∷ cs)

-- A number out of the range of 64 bits is an error.
abbrev positive : Option ℕ → Option ℤ
positive none = none
positive (some n) = if leb n 9_223_372_036_854_775_807 then some (pos n) else none

abbrev negative : Option ℕ → Option ℤ
negative none = none
negative (some n) =
    if n == 0
    then some (pos 0)
    else if leb n 9_223_372_036_854_775_808
    then some (negsuc (n - 1))
    else none

-- `strconv.Atoi`.
unfoldable pub atoi : List ℕ → Option ℤ
atoi [] = none
atoi (c ∷ cs) =
    if c == b'-'
    then negative (some_digits cs)
    else if c == b'+'
    then positive (some_digits cs)
    else positive (some_digits (c ∷ cs))

-- The hours from one to before another, over midnight if the first is later.
unfoldable pub within_hours : ℤ → ℤ → ℤ → Bool
within_hours from to h =
    if leb_ℤ from to then leb_ℤ from h && ltb_ℤ h to else leb_ℤ from h || ltb_ℤ h to

abbrev within_range : Option ℤ → Option ℤ → ℕ → Bool
within_range (some from) (some to) h = within_hours from to (pos h)
within_range _ _ h = false

abbrev within_parts : List String → ℕ → Bool
within_parts (a ∷ b ∷ []) h =
    within_range (atoi (codes (trim_space a))) (atoi (codes (trim_space b))) h
within_parts _ h = false

unfoldable pub in_quiet_hours : String → ℕ → Bool
unfolding atoi within_hours
in_quiet_hours hours h =
    let q = trim_space hours in if str_eq q "" then false else within_parts (split q b'-') h

-- Two different hours cut the day in two: an hour is within the range from the second to the first
-- exactly when it is not within that from the first to the second.
pub within_hours-swap :
    (from to h : ℤ) → eqb_ℤ from to ≡ false → within_hours to from h ≡ not (within_hours from to h)
unfolding within_hours
within_hours-swap from to h ne = ground arith

night_test : in_quiet_hours " 22-7 " 23 ≡ true
unfolding in_quiet_hours trim_space split
night_test = refl
