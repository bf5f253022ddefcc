-- ===== src/Tests/Main.antt =====
-- A process on the default configuration and one zone file.
use rr_dns.Prelude.{false, Option, none, some, Error, panic, ok, Result, ◌≡◌, refl}
use rr_dns.Prelude.Bytes.{Bytes, codes}
use rr_dns.Log.{Logger, new_zap_logger, configure}
use rr_dns.Config.{AppConfig, Libraries, load}
use rr_dns.Transport.Listener.{new_udp_transport, start, stop}
use rr_dns.App.{run}
use rr_dns.App.Main.{completed, crashed, after_run, main}
use rr_dns.Tests.App.{example_env, example_built}

-- No environment variable is set, and every configuration passes.
abbrev defaults : Libraries
defaults = record {
  K = AppConfig;
  load_defaults = λ cfg. ok cfg;
  load_env = λ transform cfg. ok cfg;
  unmarshal = λ cfg. ok cfg;
  register = ok tt;
  validate = λ test cfg. ok tt;
}

-- Levels are their names.
abbrev parse_level : Bytes → Result Bytes
parse_level name = ok name

abbrev at_start : Logger Bytes
at_start = new_zap_logger false (codes "info")

abbrev binds : Bytes → Option Error
binds addr = none

-- Nothing fails, and the process ends without an error.
main_completes : main example_env defaults parse_level binds none false none at_start ≡ completed
unfolding main load configure run start stop new_udp_transport after_run
main_completes = rw (main, example_built) refl

-- As before, but a goroutine that handles a packet dies between `Start` and `Stop`.
main_crashes :
    main example_env defaults parse_level binds none false (some panic) at_start ≡ crashed panic
unfolding main load configure run start stop new_udp_transport after_run
main_crashes = rw (main, example_built) refl
