-- ===== src/Exclusions/Regexp.antt =====
-- The regular expression of a hostname pattern (backend/internal/db/exclusions.go,
-- `NewExclusionSet`): its text as the code builds it with `regexp.QuoteMeta` and
-- `strings.ReplaceAll`, and the part of Go's package regexp that such a text needs.
use pmacct_suricata_analyzer.Prelude.{
  ℕ, Bool, true, false, not, ◌&&◌, ◌||◌, ◌==◌, List, [], ◌∷◌, ◌++◌, Option, none, some,
  if◌then◌else◌,
}

abbrev pub backslash : ℕ
backslash = 92

-- The characters with a meaning, `\.+*?()|[]{}^$`.
abbrev pub is_other_meta : ℕ → Bool
is_other_meta c =
    c == b'+'
    || (c == b'?'
        || (c == b'('
            || (c == b')'
                || (c == b'|' || (c == b'[' || (c == b']' || (c == b'{' || c == b'}')))))))

abbrev pub is_meta : ℕ → Bool
is_meta c =
    c == backslash || (c == b'*' || (c == b'.' || (c == b'^' || (c == b'$' || is_other_meta c))))

-- `regexp.QuoteMeta`.
unfoldable pub quote_meta : List ℕ → List ℕ
quote_meta [] = []
quote_meta (c ∷ p) = (if is_meta c then backslash ∷ c ∷ [] else c ∷ []) ++ quote_meta p

-- `strings.ReplaceAll` of `\*` by `.*`, from left to right: whether a backslash is held back, and
-- what a character puts out.
abbrev pub hold : Bool → ℕ → Bool × List ℕ
hold false c = if c == backslash then (true, []) else (false, c ∷ [])
hold true c =
    if c == b'*'
    then (false, b'.' ∷ b'*' ∷ [])
    else if c == backslash
    then (true, backslash ∷ [])
    else (false, backslash ∷ c ∷ [])

unfoldable pub replace_stars : Bool → List ℕ → List ℕ
replace_stars false [] = []
replace_stars true [] = backslash ∷ []
replace_stars held (c ∷ s) = (hold held c).1 ++ replace_stars (hold held c).0 s

-- The text that is compiled.
unfoldable pub name_regexp : List ℕ → List ℕ
unfolding quote_meta replace_stars
name_regexp p = b'^' ∷ (replace_stars false (quote_meta p) ++ b'$' ∷ [])

pub data Token : Type 0 where
  -- `^`, `$` and `.*`.
  begin finish any_run : Token
  -- A character that stands for itself.
  literal : ℕ → Token

pub data Scan : Type 0 where
  plain escaped dotted : Scan

abbrev pub scan_one : Scan → ℕ → Option (Scan × List Token)
scan_one plain c =
    if c == backslash
    then some (escaped, [])
    else if c == b'.'
    then some (dotted, [])
    else if c == b'^'
    then some (plain, begin ∷ [])
    else if c == b'$'
    then some (plain, finish ∷ [])
    else if is_meta c
    then none
    else some (plain, literal c ∷ [])
scan_one escaped c = if is_meta c then some (plain, literal c ∷ []) else none
scan_one dotted c = if c == b'*' then some (plain, any_run ∷ []) else none

abbrev pub after_tokens : List Token → Option (List Token) → Option (List Token)
after_tokens out none = none
after_tokens out (some more) = some (out ++ more)

-- `regexp.Compile`, of texts made of these; any other text is `none`.
unfoldable pub scan : Scan → List ℕ → Option (List Token)
scan plain [] = some []
scan escaped [] = none
scan dotted [] = none
scan m (c ∷ s) = elim (scan_one m c) [
  | none ↦ none
  | some (next, out) ↦ after_tokens out (scan next s)
]

-- A run of any characters but newlines, and the rest behind it. The Boolean says whether the text
-- has been taken from its beginning.
unfoldable pub star : (Bool → List ℕ → Bool) → Bool → List ℕ → Bool
star rest first [] = rest first []
star rest first (c ∷ s) =
    let later = star rest false s in rest first (c ∷ s) || (not (c == b'\n') && later)

abbrev pub take_literal : ℕ → (Bool → List ℕ → Bool) → List ℕ → Bool
take_literal c rest [] = false
take_literal c rest (d ∷ s) = c == d && rest false s

abbrev pub at_end : List ℕ → Bool
at_end [] = true
at_end (_ ∷ _) = false

-- Whether the expression matches a beginning of the text.
unfoldable pub run : List Token → Bool → List ℕ → Bool
unfolding star
run [] first s = true
run (begin ∷ ts) first s = first && run ts first s
run (finish ∷ ts) first s = at_end s && run ts first s
run (any_run ∷ ts) first s = star (run ts) first s
run (literal c ∷ ts) first s = take_literal c (run ts) s

-- `MatchString`: whether it matches from anywhere in the text.
unfoldable pub search_from : List Token → Bool → List ℕ → Bool
unfolding run
search_from ts first [] = run ts first []
search_from ts first (c ∷ s) = let later = search_from ts false s in run ts first (c ∷ s) || later

-- The compiled pattern, run on a text; a pattern that does not compile matches nothing.
unfoldable pub glob : List ℕ → List ℕ → Bool
unfolding name_regexp scan search_from
glob p s = elim (scan plain (name_regexp p)) [ none ↦ false | some ts ↦ search_from ts true s ]
