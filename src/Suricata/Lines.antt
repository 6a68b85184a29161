-- ===== src/Suricata/Lines.antt =====
-- Finding the JSON object in a syslog line (backend/internal/suricata/suricata.go, `ExtractJSON`).
-- Offsets count characters where Go's count bytes: the slices are the same.
use Prim.Native.Char.{code}
use pmacct_suricata_analyzer.Prelude.{
  ℕ, zero, suc, ◌≡◌, refl, Bool, true, false, String, Option, none, some, if◌then◌else◌, ◌==◌, leb,
  has_prefix, trim_space,
}

-- `strings.Index` of one character.
unfoldable pub index : ℕ → String → Option ℕ
index x String.[] = none
index x (String.◌∷◌ c s) =
    let later = index x s in
    if code c == x then some 0 else elim later [ none ↦ none | some i ↦ some (suc i) ]

-- `strings.LastIndex` of one character.
unfoldable pub last_index : ℕ → String → Option ℕ
last_index x String.[] = none
last_index x (String.◌∷◌ c s) = elim (last_index x s) [
  | some i ↦ some (suc i)
  | none ↦ if code c == x then some 0 else none
]

-- `s[n:]` and `s[:n]`.
unfoldable pub drop_text : ℕ → String → String
drop_text zero s = s
drop_text (suc n) String.[] = String.[]
drop_text (suc n) (String.◌∷◌ c s) = drop_text n s

unfoldable pub take_text : ℕ → String → String
take_text zero s = String.[]
take_text (suc n) String.[] = String.[]
take_text (suc n) (String.◌∷◌ c s) = String.◌∷◌ c (take_text n s)

-- `line[i : j+1]`, where there is a "}" behind the "{".
abbrev pub between : String → Option ℕ → Option ℕ → Option String
between line none j = none
between line (some i) none = none
between line (some i) (some j) =
    if leb j i then none else some (drop_text i (take_text (suc j) line))

-- `ExtractJSON`.
unfoldable pub extract_json : String → Option String
unfolding index last_index take_text drop_text
extract_json line = between line (index b'{' line) (last_index b'}' line)

-- The line opens a record, and so is a truncated one where no object is found.
unfoldable pub opens_record : String → Bool
unfolding index drop_text
opens_record line = elim (index b'{' line) [
  | none ↦ false
  | some i ↦ has_prefix (trim_space (drop_text i line)) "{\""
]

extract_test : extract_json "<134>pf: {\"a\":{}} x" ≡ some "{\"a\":{}}"
unfolding extract_json
extract_test = refl

truncated_test : opens_record "<134>pf: {\"a\":1" ≡ true
unfolding opens_record trim_space
truncated_test = refl
