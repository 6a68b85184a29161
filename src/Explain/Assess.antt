-- ===== src/Explain/Assess.antt =====
-- The overall assessment and the order of the signals (backend/internal/explain/explain.go, `Assess`
-- and `rank`).
use pmacct_suricata_analyzer.Prelude.{
  ℕ, Bool, true, false, List, [], ◌∷◌, ◌++◌, Option, none, some, ◌^^◌, decimal, count_where, length,
  if◌then◌else◌, ltb, ◌==◌,
}
use pmacct_suricata_analyzer.Explain.Types.{
  Known, Level, info, warn, critical, Signal, expected, review, suspicious, Assessment, Report,
  Style,
}
use pmacct_suricata_analyzer.Explain.Facts.{signal}
use pmacct_suricata_analyzer.Explain.Program.{program_signals}
use pmacct_suricata_analyzer.Explain.Peers.{all_destination_signals}

-- Every signal, in the order in which `add` is called.
unfoldable pub gathered : Style → ℕ → Report → List Signal
unfolding program_signals all_destination_signals
gathered style now rep =
    let signals =
      program_signals style now rep.program ++ all_destination_signals rep.destinations in
    if length signals == 0
    then signal info
        "Nothing unusual: known program, ordinary destinations, no reputation or timing anomalies."
    else signals

abbrev pub is_critical : Signal → Bool
is_critical s = elim s.level [ critical ↦ true | _ ↦ false ]

abbrev pub is_warn : Signal → Bool
is_warn s = elim s.level [ warn ↦ true | _ ↦ false ]

-- The overall level and its summary, from the numbers of critical signals and of warnings.
unfoldable pub verdict : ℕ → ℕ → Option Known → Assessment
verdict crit warns k =
    if ltb 0 crit
    then record {
      level = suspicious;
      summary = decimal crit ^^ " critical finding(s) — investigate now.";
    }
    else if ltb 0 warns
    then record {
      level = review;
      summary = decimal warns ^^ " thing(s) worth a look; nothing conclusive.";
    }
    else record {
      level = expected;
      summary = elim k [
        | some known ↦ known.title ^^ " behaving as expected."
        | none ↦ "Unknown program, but nothing about its traffic stands out."
      ];
    }

abbrev pub rank : Level → ℕ
rank critical = 3
rank warn = 2
rank info = 1

-- `sort.SliceStable` by falling rank: a signal goes before the first one of no higher rank that
-- came after it.
unfoldable pub place_signal : Signal → List Signal → List Signal
place_signal s [] = s ∷ []
place_signal s (t ∷ ts) =
    let later = place_signal s ts in
    if ltb (rank s.level) (rank t.level) then t ∷ later else s ∷ t ∷ ts

unfoldable pub sort_signals : List Signal → List Signal
unfolding place_signal
sort_signals [] = []
sort_signals (s ∷ ss) = place_signal s (sort_signals ss)

-- `Assess`.
unfoldable pub assess : Style → ℕ → Report → Report
unfolding gathered verdict sort_signals
assess style now rep =
    let signals = gathered style now rep in
    record rep {
      signals = sort_signals signals;
      assessment =
          verdict (count_where is_critical signals) (count_where is_warn signals) rep.program.known;
    }
