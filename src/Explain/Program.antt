-- ===== src/Explain/Program.antt =====
-- The signals of a program itself (backend/internal/explain/explain.go, `Assess`).
use pmacct_suricata_analyzer.Prelude.{
  ℕ, Bool, false, not, ◌&&◌, ◌||◌, List, [], ◌++◌, String, Option, none, some, str_eq, ◌^^◌, join,
  decimal, is_some, length, if◌then◌else◌, ltb,
}
use pmacct_suricata_analyzer.Prelude.Int.{ℤ, pos, ltb_ℤ, sub_ℕ}
use pmacct_suricata_analyzer.Prelude.Search.{has_suffix}
use pmacct_suricata_analyzer.Explain.Types.{
  LolBin, Known, Program, info, warn, critical, Signal, Style,
}
use pmacct_suricata_analyzer.Explain.Facts.{
  signal, where_some, when, suspicious_path, catalogue_name, identity_signals,
}

abbrev pub unknown_owner : Program → Bool
unknown_owner p = str_eq p.exe "" && (str_eq p.name "" || str_eq p.name "(unknown process)")

abbrev pub has_risk : String → Option Known → Bool
has_risk risk none = false
has_risk risk (some k) = str_eq k.risk risk

unfoldable pub abusable : LolBin → String
unfolding catalogue_name
abusable l = catalogue_name l.source ^^ " as abusable for " ^^ join ", " l.functions

-- The first `switch`, of a program that is known.
unfoldable pub known_signals : Program → Known → List Signal
unfolding abusable
known_signals p k =
    if str_eq k.risk "no-network"
    then signal critical (
        p.name
        ^^ " is a core system process that should never open outbound connections; this points to code injection or a spoofed process name.")
    else if str_eq k.risk "lolbin"
    then elim p.lolbin [
      | some l ↦ signal warn (
          p.name
          ^^ " is a system utility listed by "
          ^^ abusable l
          ^^ "; check the command line and the parent process.")
      | none ↦ signal warn (
          p.name
          ^^ " is a scriptable system utility that malware commonly abuses; check the command line and the parent process.")
    ]
    else if str_eq k.risk "interpreter"
    then signal info (
        p.name
        ^^ " is an interpreter — the real identity is the script; enable command-line reporting to see it.")
    else []

unfoldable pub owner_signals : Style → Program → List Signal
unfolding known_signals
owner_signals style p =
    if unknown_owner p
    then signal info (
        "Sockets whose owning process the agent could not resolve: the process exited before the next poll, or its file descriptors were not readable (another user's or a container's namespace without permission). "
        ^^ (if style.equal_fold p.os "windows"
            then "These are usually connections from processes that exited between two polls; the ETW backend will attribute them at connect time."
            else "Switch the agent to eBPF capture (auto/ebpf), which attributes connections at connect() time instead of polling."))
    else elim p.known [
      | none ↦
          signal info (
            p.name ^^ " is not in the knowledge base — identify it by path, hash and destinations.")
      | some k ↦ known_signals p k
    ]

unfoldable pub lolbin_signals : Program → List Signal
unfolding abusable
lolbin_signals p = where_some p.lolbin (λ l. when (not (has_risk "lolbin" p.known)) (
    signal warn (
      p.name
      ^^ " is listed by "
      ^^ abusable l
      ^^ " — check the command line and the parent process.")))

unfoldable pub path_signals : Style → Program → List Signal
unfolding suspicious_path
path_signals style p = when (suspicious_path style p.exe) (
    signal warn (
      "Executable lives in a temporary/download location (" ^^ p.exe
      ^^ ") — legitimate software rarely runs from there."))

-- A day, in nanoseconds.
abbrev pub day : ℤ
day = pos 86_400_000_000_000

-- What follows `identitySignals`, before the destinations.
unfoldable pub history_signals : Style → ℕ → Program → List Signal
history_signals style now p =
    when (str_eq p.exe "" && not (unknown_owner p)) (
      signal info
        "The agent could not read the executable path (process exited quickly, or a kernel thread).")
    ++ (when (ltb 1 (length p.hashes)) (
          signal warn (
            "The binary changed during the window ("
            ^^ decimal (length p.hashes)
            ^^ " different SHA-256 hashes) — an update, or a replaced file."))
        ++ where_some p.first_seen (λ t.
          when (ltb_ℤ (sub_ℕ now t) day)
            (signal info ("First seen on this machine " ^^ style.minute t ^^ " — new program."))))

unfoldable pub user_signals : Style → Program → List Signal
user_signals style p =
    let u = style.to_lower p.user in
    when
      ((str_eq u "root" || has_suffix u "\\system" || str_eq u "system") && not (is_some p.known))
      (signal warn ("Runs as " ^^ p.user ^^ " and is not a known program."))

unfoldable pub program_signals : Style → ℕ → Program → List Signal
unfolding owner_signals lolbin_signals path_signals history_signals user_signals
program_signals style now p =
    owner_signals style p
    ++ (lolbin_signals p
        ++ (path_signals style p
            ++ (identity_signals style p ++ (history_signals style now p ++ user_signals style p))))
