-- ===== src/Explain/Order.antt =====
-- The order of the signals of a report, and the destinations that it leaves out
-- (backend/internal/explain/explain.go, `Assess`).
use pmacct_suricata_analyzer.Prelude.{
  ℕ, ◌≡◌, refl, Bool, true, false, List, [], ◌∷◌, ◌++◌, ltb, str_eq, All, All-append, keep, inl,
  inr, Bool-cases, ◌∙◌, ap,
}
use pmacct_suricata_analyzer.Explain.Types.{
  Level, info, warn, critical, Signal, Style, Report, Destination,
}
use pmacct_suricata_analyzer.Explain.Assess.{
  is_critical, is_warn, rank, place_signal, sort_signals, gathered, assess,
}
use pmacct_suricata_analyzer.Explain.Peers.{destination_signals, all_destination_signals}

abbrev is_level_critical : Level → Bool
is_level_critical l = elim l [ critical ↦ true | _ ↦ false ]

abbrev is_level_warn : Level → Bool
is_level_warn l = elim l [ warn ↦ true | _ ↦ false ]

abbrev pub is_info : Signal → Bool
is_info s = elim s.level [ info ↦ true | _ ↦ false ]

abbrev pub by_level : List Signal → List Signal
by_level ss = keep is_critical ss ++ (keep is_warn ss ++ keep is_info ss)

critical_level : (l : Level) → is_level_critical l ≡ true → l ≡ critical
critical_level critical h = refl
critical_level warn h = cc
critical_level info h = cc

warn_level : (l : Level) → is_level_warn l ≡ true → l ≡ warn
warn_level critical h = cc
warn_level warn h = refl
warn_level info h = cc

info_level : (l : Level) → elim l [ info ↦ true | _ ↦ false ] ≡ true → l ≡ info
info_level critical h = cc
info_level warn h = cc
info_level info h = refl

-- Whether a signal of this level goes behind one that has been gathered after it.
abbrev goes_behind : Level → Signal → Bool
goes_behind l t = ltb (rank l) (rank t.level)

keep-All :
    (p : Signal → Bool) (P : Signal → Type 0)
    → ((t : Signal) → p t ≡ true → P t)
    → (ss : List Signal) → All P (keep p ss)
keep-All p P h [] = tt
keep-All p P h (s ∷ ss) = elim (Bool-cases (p s)) [
  | inl e ↦ rw e (h s e, keep-All p P h ss)
  | inr e ↦ rw e (keep-All p P h ss)
]

place_signal-front :
    (s : Signal) (ss : List Signal)
    → All (λ t. goes_behind s.level t ≡ false) ss
    → place_signal s ss ≡ s ∷ ss
unfolding place_signal
place_signal-front s [] h = refl
place_signal-front s (t ∷ ts) (e, h) = rw e

place_signal-behind :
    (s : Signal) (ss more : List Signal)
    → All (λ t. goes_behind s.level t ≡ true) ss
    → place_signal s (ss ++ more) ≡ ss ++ place_signal s more
unfolding place_signal
place_signal-behind s [] more h = refl
place_signal-behind s (t ∷ ts) more (e, h) = rw (e, place_signal-behind s ts more h)

-- The tests of the three levels, as premises on what stands in a report.
module _ (l : Level) (ss : List Signal) where
  all_critical :
      (b : Bool)
      → ltb (rank l) (rank critical) ≡ b
      → All (λ t. goes_behind l t ≡ b) (keep is_critical ss)
  all_critical b h = keep-All is_critical _ (λ t k. rw (critical_level t.level k) h) ss

  all_warn :
      (b : Bool) → ltb (rank l) (rank warn) ≡ b → All (λ t. goes_behind l t ≡ b) (keep is_warn ss)
  all_warn b h = keep-All is_warn _ (λ t k. rw (warn_level t.level k) h) ss

  all_info :
      (b : Bool) → ltb (rank l) (rank info) ≡ b → All (λ t. goes_behind l t ≡ b) (keep is_info ss)
  all_info b h = keep-All is_info _ (λ t k. rw (info_level t.level k) h) ss

module _ (s : Signal) (ss : List Signal) where
  place_critical : s.level ≡ critical → place_signal s (by_level ss) ≡ by_level (s ∷ ss)
  place_critical e =
      place_signal-front s (by_level ss) (
        rw e (
          All-append _ _ _ (all_critical critical ss false refl)
            (All-append _ _ _ (all_warn critical ss false refl) (all_info critical ss false refl))))
      ∙ rw e

  place_warn : s.level ≡ warn → place_signal s (by_level ss) ≡ by_level (s ∷ ss)
  place_warn e =
      place_signal-behind s (keep is_critical ss) _ (rw e (all_critical warn ss true refl))
      ∙ (ap (λ rest. keep is_critical ss ++ rest)
            (place_signal-front s (keep is_warn ss ++ keep is_info ss)
              (rw e (All-append _ _ _ (all_warn warn ss false refl) (all_info warn ss false refl))))
          ∙ rw e)

  place_info : s.level ≡ info → place_signal s (by_level ss) ≡ by_level (s ∷ ss)
  place_info e =
      place_signal-behind s (keep is_critical ss) _ (rw e (all_critical info ss true refl))
      ∙ (ap (λ rest. keep is_critical ss ++ rest)
            (place_signal-behind s (keep is_warn ss) _ (rw e (all_warn info ss true refl))
              ∙ ap (λ rest. keep is_warn ss ++ rest)
                  (place_signal-front s (keep is_info ss) (rw e (all_info info ss false refl))))
          ∙ rw e)

  place_signal-by_level : place_signal s (by_level ss) ≡ by_level (s ∷ ss)
  place_signal-by_level = at s.level refl
    where
      at : (l : Level) → s.level ≡ l → place_signal s (by_level ss) ≡ by_level (s ∷ ss)
      at critical e = place_critical e
      at warn e = place_warn e
      at info e = place_info e

sort_signals-by_level : (ss : List Signal) → sort_signals ss ≡ by_level ss
unfolding sort_signals
sort_signals-by_level [] = refl
sort_signals-by_level (s ∷ ss) = rw (sort_signals-by_level ss) (place_signal-by_level s ss)

abbrev is_untrusted : Destination → Bool
is_untrusted d = str_eq d.trusted ""

trusted_silent : (d : Destination) → is_untrusted d ≡ false → destination_signals d ≡ []
unfolding destination_signals
trusted_silent d e = rw e

untrusted_signals :
    (ds : List Destination)
    → all_destination_signals (keep is_untrusted ds) ≡ all_destination_signals ds
unfolding all_destination_signals
untrusted_signals [] = refl
untrusted_signals (d ∷ ds) = elim (Bool-cases (is_untrusted d)) [
  | inl e ↦ rw (e, untrusted_signals ds)
  | inr e ↦ rw (e, trusted_silent d e, untrusted_signals ds)
]

abbrev pub without_trusted : Report → Report
without_trusted rep = record rep { destinations = keep is_untrusted rep.destinations }

module _ (style : Style) (now : ℕ) (rep : Report) where
  -- The signals of a report are the critical ones, then the warnings, then the others, each of these
  -- in the order in which they were gathered: none is lost, made up or reordered.
  pub assess-order :
      (assess style now rep).signals
      ≡ keep is_critical (gathered style now rep)
        ++ (keep is_warn (gathered style now rep) ++ keep is_info (gathered style now rep))
  unfolding assess
  assess-order = sort_signals-by_level (gathered style now rep)

  gathered-untrusted : gathered style now (without_trusted rep) ≡ gathered style now rep
  unfolding gathered
  gathered-untrusted = rw (untrusted_signals rep.destinations)

  -- A destination that is trusted has no part in the report's signals and assessment: they are those
  -- of the report without its trusted destinations.
  pub assess-untrusted :
      ((assess style now (without_trusted rep)).signals ≡ (assess style now rep).signals)
      × ((assess style now (without_trusted rep)).assessment ≡ (assess style now rep).assessment)
  unfolding assess
  assess-untrusted = (rw gathered-untrusted, rw gathered-untrusted)
