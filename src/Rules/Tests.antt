-- ===== src/Rules/Tests.antt =====
-- The configuration of the engine with one built-in rule, and runs of its operations.
use pmacct_suricata_analyzer.Prelude.{
  ◌≡◌, ◌≢◌, ◌↔◌, refl, String, ok, arith, trim_space, ne_of_str_eq,
}
use pmacct_suricata_analyzer.Prelude.Int.{pos}
use pmacct_suricata_analyzer.Rules.Types.{to_rule, rule, rules}
use pmacct_suricata_analyzer.Rules.Config.{parse_timing, check_params, validate_config, effective}
use pmacct_suricata_analyzer.Rules.Engine.{update_config, tick}
use pmacct_suricata_analyzer.Rules.Timing.{Accepts, validate_config_iff}
use pmacct_suricata_analyzer.Rules.Overrides.{interval_takes_effect, padded_interval_ignored}
use pmacct_suricata_analyzer.Rules.Reach.{IsWell, here, next, ticks, Reaches-IsWell}
use pmacct_suricata_analyzer.Rules.Sample.{port_scan, five_minutes, env, start, every_five, padded}

start-IsWell : IsWell start
unfolding rules
start-IsWell = record {
  named = record { distinct = (refl, tt); customs = tt };
  alerts = record { fresh = tt; distinct = tt };
}

Reaches_example : IsWell (tick env 50 start)
Reaches_example =
    Reaches-IsWell {s = start} {u = tick env 50 start} start-IsWell
      (next {u = start} here (ticks env 50 refl))

validate_config_iff_example :
    (validate_config five_minutes (to_rule port_scan) padded ≡ ok tt)
    ↔ Accepts five_minutes (to_rule port_scan) padded
validate_config_iff_example = validate_config_iff five_minutes (to_rule port_scan) padded

interval_takes_effect_example :
    (effective five_minutes
      (update_config env "port_scan" every_five start).0.engine
      (to_rule port_scan)).interval
    ≡ pos 300_000_000_000
unfolding rule rules validate_config parse_timing check_params trim_space
interval_takes_effect_example =
    interval_takes_effect env "port_scan" every_five start (to_rule port_scan) refl refl refl
      (pos 300_000_000_000) refl refl (omega arith)

is_padded : ◌≢◌ {A = String} " 5m" ""
is_padded = ne_of_str_eq " 5m" "" refl

padded_interval_ignored_example :
    (effective five_minutes
      (update_config env "port_scan" padded start).0.engine
      (to_rule port_scan)).interval
    ≡ pos 60_000_000_000
unfolding rule rules validate_config parse_timing check_params trim_space
padded_interval_ignored_example =
    padded_interval_ignored env "port_scan" padded start (to_rule port_scan) refl refl refl
      is_padded refl refl

is_other : ◌≢◌ {A = String} "port_scan" "beacon"
is_other = ne_of_str_eq "port_scan" "beacon" refl
