-- ===== src/Rules/Names.antt =====
-- The names of the live rules stay distinct (backend/internal/rules/custom.go): saving, updating and
-- deleting a custom rule never leaves two rules of one name.
use pmacct_suricata_analyzer.Prelude.{
  ◌≡◌, refl, sym, ap, false, List, [], ◌∷◌, ◌++◌, String, inl, inr, arith, Bool-cases,
  if◌then◌else◌, str_eq, eq_iff, any, any-append,
}
use pmacct_suricata_analyzer.Rules.Types.{Rule, is_named}
use pmacct_suricata_analyzer.Rules.Custom.{replace_rule, remove_rule}

abbrev pub names : List Rule → List String
names [] = []
names (r ∷ rs) = r.definition.name ∷ names rs

abbrev pub Unique : List String → Type 0
Unique [] = Unit
Unique (n ∷ ns) = (any (str_eq n) ns ≡ false) × Unique ns

pub names-append : (xs ys : List Rule) → names (xs ++ ys) ≡ names xs ++ names ys
names-append [] ys = refl
names-append (x ∷ xs) ys = ap (λ l. x.definition.name ∷ l) (names-append xs ys)

pub names-replace_rule : (r : Rule) (cs : List Rule) → names (replace_rule r cs) ≡ names cs
unfolding replace_rule
names-replace_rule r [] = refl
names-replace_rule r (c ∷ cs) = elim (Bool-cases (is_named r.definition.name c)) [
  | inl e ↦ rw (e, names-replace_rule r cs) (ap (λ n. n ∷ names cs) (sym ((eq_iff _ _).0 e)))
  | inr e ↦ rw (e, names-replace_rule r cs) refl
]

pub any-names : (n : String) (rs : List Rule) → any (str_eq n) (names rs) ≡ any (is_named n) rs
any-names n [] = refl
any-names n (r ∷ rs) =
    ground (arith, any-names n rs, eq_iff n r.definition.name, eq_iff r.definition.name n)

Unique-snoc :
    (n : String) (ns : List String) → Unique ns → any (str_eq n) ns ≡ false → Unique (ns ++ n ∷ [])
Unique-snoc n [] u h = (refl, tt)
Unique-snoc n (m ∷ ns) (q, u) h = (
  ground (arith, any-append (str_eq m) ns (n ∷ []), eq_iff n m, eq_iff m n),
  Unique-snoc n ns u (ground arith),
)

-- The names without the first that is `n`.
abbrev without : String → List String → List String
without n [] = []
without n (m ∷ ns) = let rest = without n ns in if str_eq m n then ns else m ∷ rest

pub names-remove_rule :
    (n : String) (cs : List Rule) → names (remove_rule n cs) ≡ without n (names cs)
unfolding remove_rule
names-remove_rule n [] = refl
names-remove_rule n (c ∷ cs) = elim (Bool-cases (is_named n c)) [
  | inl e ↦ rw e refl
  | inr e ↦ rw e (ap (λ l. c.definition.name ∷ l) (names-remove_rule n cs))
]

any-without :
    (m n : String) (ns : List String)
    → any (str_eq m) ns ≡ false
    → any (str_eq m) (without n ns) ≡ false
any-without m n [] h = refl
any-without m n (k ∷ ns) h = ground (arith, any-without m n ns)

Unique-without : (n : String) (ns : List String) → Unique ns → Unique (without n ns)
Unique-without n [] u = tt
Unique-without n (m ∷ ns) (q, u) = elim (Bool-cases (str_eq m n)) [
  | inl e ↦ rw e u
  | inr e ↦ rw e (any-without m n ns q, Unique-without n ns u)
]

pub Unique-append-without :
    (n : String) (xs ys : List String) → Unique (xs ++ ys) → Unique (xs ++ without n ys)
Unique-append-without n [] ys u = Unique-without n ys u
Unique-append-without n (x ∷ xs) ys (q, u) = (
  ground (
    arith,
    any-append (str_eq x) xs ys,
    any-append (str_eq x) xs (without n ys),
    any-without x n ys,
  ),
  Unique-append-without n xs ys u,
)

pub Unique-append-snoc :
    (n : String) (xs ys : List String)
    → Unique (xs ++ ys)
    → any (str_eq n) (xs ++ ys) ≡ false
    → Unique (xs ++ (ys ++ n ∷ []))
Unique-append-snoc n [] ys u h = Unique-snoc n ys u h
Unique-append-snoc n (x ∷ xs) ys (q, u) h = (
  ground (
    arith,
    any-append (str_eq x) xs ys,
    any-append (str_eq x) xs (ys ++ n ∷ []),
    any-append (str_eq x) ys (n ∷ []),
    eq_iff n x,
    eq_iff x n,
  ),
  Unique-append-snoc n xs ys u (ground arith),
)
