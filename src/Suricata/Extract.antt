-- ===== src/Suricata/Extract.antt =====
-- The object that a line carries is the one that is found in it
-- (backend/internal/suricata/suricata.go, `ExtractJSON`).
use Prim.Native.Char.{Char}
use text.Mathlib.TextLemmas.{nil-append, cons-append, append_assoc}
use pmacct_suricata_analyzer.Prelude.{
  ℕ, suc, ◌+◌, ◌≡◌, refl, ◌∙◌, ap, String, none, some, arith, ◌^^◌,
}
use pmacct_suricata_analyzer.Suricata.Lines.{
  index, last_index, take_text, drop_text, between, extract_json,
}

abbrev len : String → ℕ
len String.[] = 0
len (String.◌∷◌ c s) = suc (len s)

nil_then : (t : String) → "" ^^ t ≡ t
nil_then t = nil-append t

cons_then : (c : Char) (s t : String) → String.◌∷◌ c s ^^ t ≡ String.◌∷◌ c (s ^^ t)
cons_then c s t = cons-append c s t

index-append :
    (x : ℕ) (s t : String) (i : ℕ)
    → index x s ≡ none
    → index x t ≡ some i
    → index x (s ^^ t) ≡ some (len s + i)
unfolding index
index-append x String.[] t i a b = rw (nil_then t, b) (ap some (omega arith))
index-append x (String.◌∷◌ c s) t i a b =
    rw (cons_then c s t) (ground (arith, index-append x s t i))

last_index-append :
    (x : ℕ) (s t : String) (i : ℕ)
    → last_index x t ≡ some i
    → last_index x (s ^^ t) ≡ some (len s + i)
unfolding last_index
last_index-append x String.[] t i b = rw (nil_then t, b) (ap some (omega arith))
last_index-append x (String.◌∷◌ c s) t i b =
    rw (cons_then c s t, last_index, last_index-append x s t i b) (ap some (omega arith))

drop-append : (s t : String) → drop_text (len s) (s ^^ t) ≡ t
unfolding drop_text
drop-append String.[] t = nil_then t
drop-append (String.◌∷◌ c s) t = rw (cons_then c s t) (drop-append s t)

take-append : (s t : String) → take_text (len s) (s ^^ t) ≡ s
unfolding take_text
take-append String.[] t = refl
take-append (String.◌∷◌ c s) t = rw (cons_then c s t, take-append s t) refl

len-append : (s t : String) → len (s ^^ t) ≡ len s + len t
len-append String.[] t = rw (nil_then t) (omega arith)
len-append (String.◌∷◌ c s) t = rw (cons_then c s t) (omega (arith, len-append s t))

abbrev pub object : String → String
object mid = "{" ^^ mid ^^ "}"

-- The line, with what stands before the last brace, and with what stands after it.
opened :
    (pre mid post : String) → pre ^^ object mid ^^ post ≡ pre ^^ ("{" ^^ (mid ^^ ("}" ^^ post)))
opened pre mid post = simp append_assoc

closed :
    (pre mid post : String) → pre ^^ object mid ^^ post ≡ (pre ^^ ("{" ^^ mid)) ^^ ("}" ^^ post)
closed pre mid post = simp append_assoc

brace_first : (rest : String) → index b'{' ("{" ^^ rest) ≡ some 0
unfolding index
brace_first rest = rw (cons_then "{" "" rest) refl

brace_last : (post : String) → last_index b'}' post ≡ none → last_index b'}' ("}" ^^ post) ≡ some 0
unfolding last_index
brace_last post e = rw (cons_then "}" "" post, nil_then post, e) refl

len_one : (c : Char) (s : String) → len (String.◌∷◌ c "" ^^ s) ≡ suc (len s)
len_one c s = rw (cons_then c "" s, nil_then s) refl

-- The places of the two braces.
object_at :
    (pre mid post : String)
    → index b'{' pre ≡ none
    → index b'{' (pre ^^ object mid ^^ post) ≡ some (len pre)
object_at pre mid post before = rw (opened pre mid post) (
    index-append b'{' pre ("{" ^^ (mid ^^ ("}" ^^ post))) 0 before
      (brace_first (mid ^^ ("}" ^^ post)))
    ∙ ap some (omega arith))

object_end :
    (pre mid post : String)
    → last_index b'}' post ≡ none
    → last_index b'}' (pre ^^ object mid ^^ post) ≡ some (len pre + suc (len mid))
object_end pre mid post after = rw (closed pre mid post) (
    last_index-append b'}' (pre ^^ ("{" ^^ mid)) ("}" ^^ post) 0 (brace_last post after)
    ∙ ap some (omega (arith, len-append pre ("{" ^^ mid), len_one "{" mid)))

len-object : (pre mid : String) → suc (len pre + suc (len mid)) ≡ len (pre ^^ object mid)
len-object pre mid =
    omega (arith, len-append pre (object mid), len-append ("{" ^^ mid) "}", len_one "{" mid)

cut_object :
    (pre mid post : String)
    → drop_text (len pre) (take_text (suc (len pre + suc (len mid))) (pre ^^ object mid ^^ post))
      ≡ object mid
cut_object pre mid post =
    rw (len-object pre mid, take-append (pre ^^ object mid) post) (drop-append pre (object mid))

between_braces :
    (line : String) (i n : ℕ)
    → between line (some i) (some (i + suc n))
      ≡ some (drop_text i (take_text (suc (i + suc n)) line))
between_braces line i n = ground arith

-- The object that stands in a line, with no "{" before it and no "}" after it, is the one that is found:
-- a message of syslog gives back what was put into it.
pub extract_json-object :
    (pre mid post : String)
    → index b'{' pre ≡ none
    → last_index b'}' post ≡ none
    → extract_json (pre ^^ object mid ^^ post) ≡ some (object mid)
unfolding extract_json
extract_json-object pre mid post before after =
    rw (object_at pre mid post before, object_end pre mid post after)
      (between_braces (pre ^^ object mid ^^ post) (len pre) (len mid)
        ∙ ap some (cut_object pre mid post))
