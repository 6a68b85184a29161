-- ===== src/Prelude/Text.antt =====
-- Texts: whole ones are compared by `str_eq`; `trim_space` is Go's `strings.TrimSpace` over code
-- points, `decimal` is `fmt.Sprint` of a number, and `join` is `strings.Join`.
use Prim.Native.Nat.{ℕ, zero, suc, ◌/◌, ◌%◌}
use Prim.Native.Char.{Char, code}
use Prim.Native.String
use Prim.Native.String.{String}
use mathlib.Core.Path.{◌≡◌, refl, sym, ◌∙◌}
use mathlib.Core.Logic.{◌≢◌}
use text.Mathlib.TextEquality.{eq_iff}
use mathlib.Core.Bool.{Bool, true, false, ◌||◌, ◌&&◌}
use mathlib.Core.Option.{Option, none, some}
use mathlib.Core.List.{List, [], ◌∷◌}
use text.Mathlib.Text
use pmacct_suricata_analyzer.Prelude.Tests.{ltb, leb, ◌==◌, if◌then◌else◌}

abbrev pub str_eq : String → String → Bool
str_eq s t = Text.◌==◌ s t

infixl 65 ◌^^◌
abbrev pub ◌^^◌ : String → String → String
s ^^ t = String.◌++◌ s t

-- `unicode.IsSpace`.
abbrev is_space : ℕ → Bool
is_space c =
    (leb 9 c && leb c 13)
    || c == 32
    || c == 0x85
    || c == 0xa0
    || c == 0x1680
    || (leb 0x2000 c && leb c 0x200a)
    || c == 0x2028
    || c == 0x2029
    || c == 0x202f
    || c == 0x205f
    || c == 0x3000

trim_left : String → String
trim_left String.[] = String.[]
trim_left (String.◌∷◌ c s) =
    let rest = trim_left s in if is_space (code c) then rest else String.◌∷◌ c s

-- Drops a run of spaces that reaches the end.
trim_right : String → String
trim_right String.[] = String.[]
trim_right (String.◌∷◌ c s) =
    let rest = trim_right s in
    if str_eq rest String.[] && is_space (code c) then String.[] else String.◌∷◌ c rest

unfoldable pub trim_space : String → String
unfolding trim_left trim_right
trim_space s = trim_right (trim_left s)

abbrev digit : ℕ → String
digit d =
    if d == 0
    then "0"
    else if d == 1
    then "1"
    else if d == 2
    then "2"
    else if d == 3
    then "3"
    else if d == 4
    then "4"
    else if d == 5
    then "5"
    else if d == 6
    then "6"
    else if d == 7
    then "7"
    else if d == 8
    then "8"
    else "9"

decimal_from : ℕ → ℕ → String
decimal_from zero n = ""
decimal_from (suc fuel) n =
    let rest = decimal_from fuel (n / 10) ^^ digit (n % 10) in if ltb n 10 then digit n else rest

-- `fmt.Sprint` of a number; a number has fewer digits than it has units.
unfoldable pub decimal : ℕ → String
unfolding decimal_from
decimal n = decimal_from (suc n) n

unfoldable pub join : String → List String → String
join sep [] = ""
join sep (x ∷ []) = x
join sep (x ∷ y ∷ r) = x ^^ sep ^^ join sep (y ∷ r)

-- An association list for a Go map: a key stands in it once if it is built by `put`.
module _ {ℓ} {V : Type ℓ} where
  -- `delete(m, key)`.
  abbrev pub remove : String → List (String × V) → List (String × V)
  remove key [] = []
  remove key ((name, held) ∷ others) =
      let kept = remove key others in if str_eq name key then kept else (name, held) ∷ kept

  -- `m[key]`, with its `ok`.
  abbrev pub get : String → List (String × V) → Option V
  get key [] = none
  get key ((name, held) ∷ others) = if str_eq name key then some held else get key others

  -- `m[key] = fresh`.
  abbrev pub put : String → V → List (String × V) → List (String × V)
  put key fresh [] = (key, fresh) ∷ []
  put key fresh ((name, held) ∷ others) =
      if str_eq name key then (key, fresh) ∷ others else (name, held) ∷ put key fresh others

-- Go's `[]rune(text)`.
abbrev pub codes : String → List ℕ
codes (String.◌∷◌ first others) = code first ∷ codes others
codes String.[] = []

abbrev is_prefix : List ℕ → List ℕ → Bool
is_prefix [] s = true
is_prefix (c ∷ p) [] = false
is_prefix (c ∷ p) (d ∷ s) = c == d && is_prefix p s

-- `strings.HasPrefix`.
abbrev pub has_prefix : String → String → Bool
has_prefix s p = is_prefix (codes p) (codes s)

abbrev onto_first : Char → List String → List String
onto_first c [] = String.◌∷◌ c String.[] ∷ []
onto_first c (w ∷ ws) = String.◌∷◌ c w ∷ ws

-- `strings.Split` at a separator of one character.
unfoldable pub split : String → ℕ → List String
split String.[] sep = String.[] ∷ []
split (String.◌∷◌ c s) sep =
    let rest = split s sep in if code c == sep then String.[] ∷ rest else onto_first c rest

-- `strings.TrimSuffix(s, ".")`.
abbrev pub trim_suffix_dot : String → String
trim_suffix_dot String.[] = String.[]
trim_suffix_dot (String.◌∷◌ c s) =
    let rest = trim_suffix_dot s in
    if str_eq s String.[] && code c == b'.' then String.[] else String.◌∷◌ c rest

-- Texts that the test tells apart.
pub ne_of_str_eq : (s t : String) → str_eq s t ≡ false → s ≢ t
ne_of_str_eq s t h e = absurd (cc (sym h ∙ (eq_iff s t).1 e))

-- A text that is one is not another.
pub str_eq_apart : (s a b : String) → str_eq a b ≡ false → str_eq s a ≡ true → str_eq s b ≡ false
str_eq_apart s a b other same = rw ((eq_iff s a).0 same) other

trim_test : trim_space " \t5m \n" ≡ "5m"
unfolding trim_space
trim_test = refl

decimal_test : decimal 40370 ≡ "40370"
unfolding decimal
decimal_test = refl

split_test : split "a,,b" b',' ≡ "a" ∷ "" ∷ "b" ∷ []
unfolding split
split_test = refl
