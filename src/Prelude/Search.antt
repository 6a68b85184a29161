-- ===== src/Prelude/Search.antt =====
-- Searching and replacing in texts (Go's strings package), and numbers with a sign as text.
use Prim.Native.Nat.{ℕ, zero, suc, ◌-◌}
use Prim.Native.Char.{code}
use Prim.Native.String.{String}
use mathlib.Core.Path.{◌≡◌, refl}
use mathlib.Core.Bool.{Bool, true, ◌||◌, ◌&&◌}
use pmacct_suricata_analyzer.Prelude.Tests.{◌==◌, if◌then◌else◌}
use pmacct_suricata_analyzer.Prelude.Text.{str_eq, ◌^^◌, has_prefix, decimal, codes}
use pmacct_suricata_analyzer.Prelude.Lists.{any}
use pmacct_suricata_analyzer.Prelude.Int.{ℤ, pos, negsuc}

-- `strings.Contains`.
unfoldable pub contains : String → String → Bool
contains String.[] part = has_prefix String.[] part
contains (String.◌∷◌ c s) part = has_prefix (String.◌∷◌ c s) part || contains s part

-- `strings.HasSuffix`.
unfoldable pub has_suffix : String → String → Bool
has_suffix String.[] part = str_eq String.[] part
has_suffix (String.◌∷◌ c s) part = str_eq (String.◌∷◌ c s) part || has_suffix s part

-- `strings.ReplaceAll(s, old, new)` for an `old` of one character.
unfoldable pub replace_char : ℕ → String → String → String
replace_char old new String.[] = String.[]
replace_char old new (String.◌∷◌ c s) =
    let others = replace_char old new s in
    if code c == old then new ^^ others else String.◌∷◌ c others

abbrev text_length : String → ℕ
text_length String.[] = 0
text_length (String.◌∷◌ _ s) = suc (text_length s)

-- `strings.ReplaceAll(s, old, new)` for an `old` that is not empty: of a match, `skip` characters
-- are still to be passed over.
replace_from : ℕ → String → String → String → String
replace_from skip old new String.[] = String.[]
replace_from zero old new (String.◌∷◌ c s) =
    let matched = new ^^ replace_from (text_length old - 1) old new s in
    let kept = String.◌∷◌ c (replace_from zero old new s) in
    if has_prefix (String.◌∷◌ c s) old then matched else kept
replace_from (suc skip) old new (String.◌∷◌ c s) = replace_from skip old new s

unfoldable pub replace_all : String → String → String → String
unfolding replace_from
replace_all s old new = replace_from 0 old new s

-- `fmt.Sprint` of an integer.
unfoldable pub decimal_ℤ : ℤ → String
decimal_ℤ (pos n) = decimal n
decimal_ℤ (negsuc n) = "-" ^^ decimal (suc n)

-- `strings.TrimSuffix`.
unfoldable pub trim_suffix : String → String → String
trim_suffix String.[] part = String.[]
trim_suffix (String.◌∷◌ c s) part =
    let shorter = trim_suffix s part in
    if str_eq (String.◌∷◌ c s) part then String.[] else String.◌∷◌ c shorter

-- `strings.TrimRight` of one character.
unfoldable pub trim_right_char : ℕ → String → String
trim_right_char x String.[] = String.[]
trim_right_char x (String.◌∷◌ c s) =
    let rest = trim_right_char x s in
    if str_eq rest String.[] && code c == x then String.[] else String.◌∷◌ c rest

-- What follows the last of a character, or the whole text.
unfoldable pub after_last : ℕ → String → String
after_last x String.[] = String.[]
after_last x (String.◌∷◌ c s) =
    let later = after_last x s in
    if any (λ d. d == x) (codes s) then later else if code c == x then s else String.◌∷◌ c s

-- `path.Base`.
unfoldable pub path_base : String → String
unfolding trim_right_char after_last
path_base s =
    if str_eq s ""
    then "."
    else let last = after_last b'/' (trim_right_char b'/' s) in if str_eq last "" then "/" else last

base_test : path_base "/usr/bin/ssh//" ≡ "ssh"
unfolding path_base
base_test = refl

search_test : contains "/usr/tmp/x" "/tmp/" ≡ true
unfolding contains
search_test = refl

suffix_test : has_suffix "nt\\system" "\\system" ≡ true
unfolding has_suffix
suffix_test = refl

replace_test : replace_char b'\\' "/" "a\\b" ≡ "a/b"
unfolding replace_char
replace_test = refl

replace_all_test : replace_all "a <pid> b" "<pid>" "42" ≡ "a 42 b"
unfolding replace_all
replace_all_test = refl
