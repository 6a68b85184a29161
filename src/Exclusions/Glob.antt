-- ===== src/Exclusions/Glob.antt =====
-- What hostname patterns match (backend/internal/db/exclusions.go, `NewExclusionSet`).
use pmacct_suricata_analyzer.Prelude.{
  ℕ, Bool, true, false, ◌||◌, List, [], ◌∷◌, ◌++◌, ◌==◌, ◌≡◌, ◌≢◌, refl, ◌↔◌, ◌∙◌, sym, arith,
  if◌then◌else◌, inl, inr, Bool-cases, some,
}
use pmacct_suricata_analyzer.Exclusions.Regexp.{
  backslash, is_meta, is_other_meta, quote_meta, replace_stars, name_regexp, Token, begin, finish,
  any_run, literal, plain, scan_one, scan, after_tokens, star, take_literal, run, search_from, glob,
}

-- What a pattern means: a star is any run of characters but newlines, and all else stands for itself.
pub data Matches : List ℕ → List ℕ → Type 0 where
  done : Matches [] []
  same : {c : ℕ} {p s : List ℕ} → c ≢ b'*' → Matches p s → Matches (c ∷ p) (c ∷ s)
  stop : {c : ℕ} {p s : List ℕ} → c ≡ b'*' → Matches p s → Matches (c ∷ p) s
  take :
      {c d : ℕ} {p s : List ℕ} → c ≡ b'*' → d ≢ b'\n' → Matches (c ∷ p) s → Matches (c ∷ p) (d ∷ s)

abbrev is_star : ℕ → Bool
is_star c = c == b'*'

-- The expression of one character of a pattern.
abbrev piece : ℕ → List ℕ
piece c = if is_star c then b'.' ∷ b'*' ∷ [] else if is_meta c then backslash ∷ c ∷ [] else c ∷ []

abbrev pieces : List ℕ → List ℕ
pieces [] = []
pieces (c ∷ p) = piece c ++ pieces p

abbrev token_of : ℕ → Token
token_of c = if is_star c then any_run else literal c

abbrev tokens_of : List ℕ → List Token
tokens_of [] = finish ∷ []
tokens_of (c ∷ p) = token_of c ∷ tokens_of p

or_false : (a b : Bool) → (a || b) ≡ false → (a ≡ false) × (b ≡ false)
or_false true b h = absurd (ground arith)
or_false false b h = (refl, h)

-- A character that is not quoted is none of those that `scan` and `hold` test.
record IsPlain (c : ℕ) : Type 0 where
  backslash : (c == backslash) ≡ false
  star : (c == b'*') ≡ false
  dot : (c == b'.') ≡ false
  caret : (c == b'^') ≡ false
  dollar : (c == b'$') ≡ false
  other : is_other_meta c ≡ false

not_meta : (c : ℕ) → is_meta c ≡ false → IsPlain c
not_meta c h =
    let (b, h₁) = or_false (c == backslash) _ h in
    let (s, h₂) = or_false (c == b'*') _ h₁ in
    let (d, h₃) = or_false (c == b'.') _ h₂ in
    let (k, h₄) = or_false (c == b'^') _ h₃ in
    let (l, o) = or_false (c == b'$') (is_other_meta c) h₄ in
    record { backslash = b; star = s; dot = d; caret = k; dollar = l; other = o }

-- A backslash held back before a quoted text is put out: no quoted text begins with a star.
held_back :
    (p : List ℕ)
    → replace_stars true (quote_meta p) ≡ backslash ∷ replace_stars false (quote_meta p)
unfolding replace_stars quote_meta
held_back [] = refl
held_back (c ∷ p) = elim (Bool-cases (is_meta c)) [
  | inl m ↦ rw m
  | inr m ↦ let plain = not_meta c m in rw (m, plain.backslash, plain.star)
]

replace_stars-quote_meta : (p : List ℕ) → replace_stars false (quote_meta p) ≡ pieces p
unfolding replace_stars quote_meta
replace_stars-quote_meta [] = refl
replace_stars-quote_meta (c ∷ p) = elim (Bool-cases (is_star c)) [
  | inl e ↦ let star_char : c ≡ b'*' = ground arith in rw (star_char, replace_stars-quote_meta p)
  | inr e ↦ elim (Bool-cases (is_meta c)) [
    | inl m ↦ elim (Bool-cases (c == backslash)) [
      | inl b ↦
          let slash : c ≡ backslash = ground arith in
          rw (slash, held_back p, replace_stars-quote_meta p)
      | inr b ↦ rw (m, e, b, replace_stars-quote_meta p)
    ]
    | inr m ↦ rw (m, e, (not_meta c m).backslash, replace_stars-quote_meta p)
  ]
]

scan_one-plain : (c : ℕ) → is_meta c ≡ false → scan_one plain c ≡ some (plain, literal c ∷ [])
scan_one-plain c m =
    let q = not_meta c m in rw (q.backslash, q.dot, q.caret, q.dollar, q.star, q.other)

scan-plain :
    (c : ℕ) (s : List ℕ)
    → is_meta c ≡ false
    → scan plain (c ∷ s) ≡ after_tokens (literal c ∷ []) (scan plain s)
unfolding scan
scan-plain c s m = rw (scan, scan_one-plain c m)

scan-pieces : (p : List ℕ) → scan plain (pieces p ++ b'$' ∷ []) ≡ some (tokens_of p)
unfolding scan
scan-pieces [] = refl
scan-pieces (c ∷ p) = elim (Bool-cases (is_star c)) [
  | inl e ↦ let star_char : c ≡ b'*' = ground arith in rw (star_char, scan-pieces p)
  | inr e ↦ elim (Bool-cases (is_meta c)) [
    | inl m ↦ rw (m, e) (rw m (rw (scan-pieces p)))
    | inr m ↦ rw (m, e) (scan-plain c (pieces p ++ b'$' ∷ []) m ∙ rw (scan-pieces p))
  ]
]

scan-name_regexp : (p : List ℕ) → scan plain (name_regexp p) ≡ some (begin ∷ tokens_of p)
unfolding scan name_regexp
scan-name_regexp p = rw (replace_stars-quote_meta p, scan-pieces p)

-- What the compiled pattern does behind its beginning.
star_sound :
    (c : ℕ) (p : List ℕ) (rest : Bool → List ℕ → Bool) (first : Bool) (s : List ℕ)
    → c ≡ b'*'
    → ((b : Bool) (r : List ℕ) → rest b r ≡ true → Matches p r)
    → star rest first s ≡ true
    → Matches (c ∷ p) s
unfolding star
star_sound c p rest first [] e ih h = stop e (ih first [] h)
star_sound c p rest first (d ∷ s) e ih h = elim (Bool-cases (rest first (d ∷ s))) [
  | inl now ↦ stop e (ih first (d ∷ s) now)
  | inr later ↦ take e (ground arith) (star_sound c p rest false s e ih (ground arith))
]

literal_sound :
    (c : ℕ) (p : List ℕ) (rest : Bool → List ℕ → Bool) (s : List ℕ)
    → c ≢ b'*'
    → ((b : Bool) (r : List ℕ) → rest b r ≡ true → Matches p r)
    → take_literal c rest s ≡ true
    → Matches (c ∷ p) s
literal_sound c p rest [] ne ih h = absurd (ground arith)
literal_sound c p rest (d ∷ s) ne ih h =
    let eq : c ≡ d = ground arith in rw (← eq) (same ne (ih false s (ground arith)))

run_sound :
    (p : List ℕ) (first : Bool) (s : List ℕ) → run (tokens_of p) first s ≡ true → Matches p s
unfolding run
run_sound [] first [] h = done
run_sound [] first (_ ∷ _) h = absurd (ground arith)
run_sound (c ∷ p) first s h = elim (Bool-cases (is_star c)) [
  | inl e ↦ star_sound c p (run (tokens_of p)) first s (ground arith) (run_sound p) (rw e at h)
  | inr e ↦ literal_sound c p (run (tokens_of p)) s (ground arith) (run_sound p) (rw e at h)
]

star-stop :
    (rest : Bool → List ℕ → Bool) (first : Bool) (s : List ℕ)
    → rest first s ≡ true
    → star rest first s ≡ true
unfolding star
star-stop rest first [] h = h
star-stop rest first (c ∷ s) h = ground arith

run_complete : {p s : List ℕ} → Matches p s → (first : Bool) → run (tokens_of p) first s ≡ true
unfolding run star
run_complete done first = refl
run_complete (same {c} {p} {s} ne m) first =
    let e : is_star c ≡ false = ground arith in
    let own : (c == c) ≡ true = ground arith in rw (e, own, run_complete m false)
run_complete (stop {c} {p} {s} e m) first =
    rw e (star-stop (run (tokens_of p)) first s (run_complete m first))
run_complete (take {c} {d} {p} {s} e ne m) first =
    let any_char : is_star c ≡ true = ground arith in
    let ih = run_complete m false in
    let later : star (run (tokens_of p)) false s ≡ true = rw any_char at ih in
    rw any_char (ground arith)

-- An expression that begins with `^` is found at the beginning of the text or nowhere.
search_from-begin_false : (ts : List Token) (s : List ℕ) → search_from (begin ∷ ts) false s ≡ false
unfolding search_from run
search_from-begin_false ts [] = refl
search_from-begin_false ts (c ∷ s) = search_from-begin_false ts s

search_from-begin : (ts : List Token) (s : List ℕ) → search_from (begin ∷ ts) true s ≡ run ts true s
unfolding search_from run
search_from-begin ts [] = refl
search_from-begin ts (c ∷ s) = ground (arith, search_from-begin_false ts s)

glob-run : (p s : List ℕ) → glob p s ≡ run (tokens_of p) true s
unfolding glob
glob-run p s = rw (glob, scan-name_regexp p, search_from-begin (tokens_of p) s)

-- The regular expression that is built for a pattern compiles, and matches just the texts that the
-- pattern means, in which a star is any run of characters but newlines and each other character is
-- itself, whatever it means in an expression.
pub glob_iff : (p s : List ℕ) → (glob p s ≡ true) ↔ Matches p s
glob_iff p s =
    (λ h. run_sound p true s (sym (glob-run p s) ∙ h), λ m. glob-run p s ∙ run_complete m true)
