-- ===== src/Exclusions/Trusted.antt =====
-- What the compiled trusted list covers, against the list it was compiled from
-- (backend/internal/db/exclusions.go).
use pmacct_suricata_analyzer.Prelude.{
  Bool, false, not, ◌&&◌, ◌||◌, List, [], ◌∷◌, ◌++◌, String, Option, none, some, ◌≡◌, refl, sym,
  ◌∙◌, arith, if◌then◌else◌, str_eq, eq_iff, is_some, get, put, any, find, inl, inr, Option-cases,
}
use pmacct_suricata_analyzer.Exclusions.{
  Net, Kind, ip, cidr, name, Exclusion, ExclusionSet, add_exclusion, compile_from, no_exclusions,
  new_exclusion_set, is_nil, covering, match_ip, plain_name, name_matches, match_names, match,
}

-- A test on an address, if there is one.
abbrev pub holds : (String → Bool) → Option String → Bool
holds p none = false
holds p (some c) = p c

module _ (n : Net) (a : String) (known : List String) where
  -- A name of the address that a test passes.
  abbrev pub some_name : (String → Bool) → Bool
  some_name p = any (λ s. not (str_eq (plain_name n s) "") && p (plain_name n s)) known

  -- The canonical address, unless the text is empty.
  abbrev pub address : Option String
  address = if str_eq a "" then none else n.parse_addr a

  abbrev network_holds : Option String → Bool
  network_holds none = false
  network_holds (some net) = holds (n.contains net) address

  -- Whether one pattern of the list covers the address or one of its names.
  abbrev pub covers : Exclusion → Kind → Bool
  covers e ip = holds (str_eq e.pattern) address
  covers e cidr = network_holds (n.parse_prefix e.pattern)
  covers e name = some_name (λ s. name_matches s e.pattern)

  -- The same of the compiled parts.
  abbrev matched : ExclusionSet → Bool
  matched s =
      holds (λ c. is_some (get c s.ips) || is_some (covering n c s.cidrs)) address
      || some_name (λ x. any (name_matches x) s.names)

is_some-get-put :
    {V : Type 0} (c k : String) (v : V) (m : List (String × V))
    → is_some (get c (put k v m)) ≡ (is_some (get c m) || str_eq k c)
is_some-get-put c k v [] = ground arith
is_some-get-put c k v ((j, w) ∷ m) =
    ground (arith, eq_iff j k, eq_iff j c, eq_iff k c, is_some-get-put c k v m)

is_some-covering-snoc :
    (n : Net) (c net p : String) (cidrs : List (String × String))
    → is_some (covering n c (cidrs ++ (net, p) ∷ []))
      ≡ (is_some (covering n c cidrs) || n.contains net c)
unfolding covering
is_some-covering-snoc n c net p [] = ground arith
is_some-covering-snoc n c net p ((m, q) ∷ cidrs) =
    ground (arith, is_some-covering-snoc n c net p cidrs)

any-snoc :
    {A : Type 0} (p : A → Bool) (xs : List A) (x : A) → any p (xs ++ x ∷ []) ≡ (any p xs || p x)
any-snoc p [] x = ground arith
any-snoc p (y ∷ xs) x = ground (arith, any-snoc p xs x)

any-or :
    {A : Type 0} (t p q r : A → Bool) (xs : List A)
    → ((x : A) → r x ≡ (p x || q x))
    → any (λ x. t x && r x) xs ≡ (any (λ x. t x && p x) xs || any (λ x. t x && q x) xs)
any-or t p q r [] h = refl
any-or t p q r (x ∷ xs) h = ground (arith, h x, any-or t p q r xs h)

is_some-find : {A : Type 0} (p : A → Bool) (xs : List A) → is_some (find p xs) ≡ any p xs
is_some-find p [] = refl
is_some-find p (x ∷ xs) = ground (arith, is_some-find p xs)

module _ (n : Net) (a : String) (known : List String) where
  is_some-match_names :
      (patterns : List String)
      → is_some (match_names n patterns known)
        ≡ some_name n a known (λ x. any (name_matches x) patterns)
  unfolding match_names
  is_some-match_names patterns = go known
    where
      go :
          (ks : List String)
          → is_some (match_names n patterns ks)
            ≡ any
                (λ s.
                  not (str_eq (plain_name n s) "") && any (name_matches (plain_name n s)) patterns)
                ks
      go [] = refl
      go (k ∷ ks) = ground (arith, go ks, is_some-find (name_matches (plain_name n k)) patterns)

  no_names : some_name n a known (λ x. false) ≡ false
  no_names = go known
    where
      go : (ks : List String) → any (λ s. not (str_eq (plain_name n s) "") && false) ks ≡ false
      go [] = refl
      go (k ∷ ks) = ground (arith, go ks)

  is_some-names :
      (patterns : List String)
      → is_some (if is_nil patterns then none else match_names n patterns known)
        ≡ some_name n a known (λ x. any (name_matches x) patterns)
  is_some-names [] = sym no_names
  is_some-names (p ∷ patterns) = is_some-match_names (p ∷ patterns)

  is_some-match_ip :
      (s : ExclusionSet)
      → is_some (match_ip n s a)
        ≡ holds (λ c. is_some (get c s.ips) || is_some (covering n c s.cidrs)) (address n a known)
  unfolding match_ip
  is_some-match_ip s = ground arith

  is_some-match : (s : ExclusionSet) → is_some (match n s a known) ≡ matched n a known s
  unfolding match match_ip
  is_some-match s = ground (arith, is_some-match_ip s, is_some-names s.names)

  matched-add :
      (e : Exclusion) (k : Kind) (s : ExclusionSet)
      → matched n a known (add_exclusion n e k s) ≡ (matched n a known s || covers n a known e k)
  unfolding add_exclusion
  matched-add e ip s = of_address (address n a known)
    where
      of_address :
          (o : Option String)
          → (holds
                (λ c.
                  is_some (get c (put e.pattern e.pattern s.ips)) || is_some (covering n c s.cidrs))
                o
              || some_name n a known (λ x. any (name_matches x) s.names))
            ≡ ((holds (λ c. is_some (get c s.ips) || is_some (covering n c s.cidrs)) o
                  || some_name n a known (λ x. any (name_matches x) s.names))
                || holds (str_eq e.pattern) o)
      of_address none = ground arith
      of_address (some c) = ground (arith, is_some-get-put c e.pattern e.pattern s.ips)
  matched-add e cidr s = elim (Option-cases (n.parse_prefix e.pattern)) [
    | inl q ↦ rw (q, add_exclusion) (ground arith)
    | inr (net, q) ↦ rw (q, add_exclusion) (in_network net (address n a known))
  ]
    where
      in_network :
          (net : String) (o : Option String)
          → (holds
                (λ c.
                  is_some (get c s.ips)
                  || is_some (covering n c (s.cidrs ++ (net, e.pattern) ∷ [])))
                o
              || some_name n a known (λ x. any (name_matches x) s.names))
            ≡ ((holds (λ c. is_some (get c s.ips) || is_some (covering n c s.cidrs)) o
                  || some_name n a known (λ x. any (name_matches x) s.names))
                || holds (n.contains net) o)
      in_network net none = ground arith
      in_network net (some c) = ground (arith, is_some-covering-snoc n c net e.pattern s.cidrs)
  matched-add e name s = ground (
    arith,
    any-or (λ x. not (str_eq (plain_name n x) ""))
        (λ x. any (name_matches (plain_name n x)) s.names)
        (λ x. name_matches (plain_name n x) e.pattern)
        (λ x. any (name_matches (plain_name n x)) (s.names ++ e.pattern ∷ [])) known
        (λ x. any-snoc (name_matches (plain_name n x)) s.names e.pattern),
  )

  matched-compile :
      (s : ExclusionSet) (list : List Exclusion)
      → matched n a known (compile_from n s list)
        ≡ (matched n a known s || any (λ e. covers n a known e e.kind) list)
  unfolding compile_from
  matched-compile s [] = ground arith
  matched-compile s (e ∷ list) =
      ground (arith, matched-compile (add_exclusion n e e.kind s) list, matched-add e e.kind s)

  nothing_matched : matched n a known no_exclusions ≡ false
  unfolding covering
  nothing_matched = of_address (address n a known)
    where
      of_address :
          (o : Option String)
          → (holds (λ c. is_some (get {V = String} c []) || is_some (covering n c [])) o
              || some_name n a known (λ x. false))
            ≡ false
      of_address none = no_names
      of_address (some c) = no_names

  -- The compiled list matches an address with the names known for it exactly when one of the
  -- patterns that it was compiled from covers them: the pattern is the canonical address, a network
  -- that parses and contains it, or a glob that matches one of the names, each trimmed, without its
  -- last dot, in lower case and not empty.
  pub match-covers :
      (list : List Exclusion)
      → is_some (match n (new_exclusion_set n list) a known)
        ≡ any (λ e. covers n a known e e.kind) list
  unfolding new_exclusion_set
  match-covers list =
      is_some-match (compile_from n no_exclusions list)
      ∙ ground (arith, matched-compile no_exclusions list, nothing_matched)
