-- ===== src/App/Main.antt =====
-- `main`: the configuration is loaded, the logger configured, the application built and run.
use rr_dns.Prelude.{Bool, Option, none, some, Result, ok, err, Error}
use rr_dns.Prelude.Bytes.{Bytes}
use rr_dns.Log.{Logger, configure}
use rr_dns.Config.{Libraries, load}
use rr_dns.Transport.Listener.{Udp}
use rr_dns.App.{Environment, build_application, run}

-- How the process ends: `os.Exit(1)`, by itself or through zap's `Fatal`, with the error that is
-- written; the end of `main`; or a panic.
pub data Ending : Type 0 where
  exited : Error → Ending
  completed : Ending
  crashed : Error → Ending

unfoldable pub after_run : Result (Udp × Option Error) → Ending
after_run (err e) = crashed e
after_run (ok (t, some e)) = exited e
after_run (ok (t, none)) = completed

-- `parse` is zap's `ParseLevel`, `global` the logger of the package at the start, and the other
-- arguments are those of `run`.
module _ {L : Type 0} (env : Environment) (libs : Libraries) (parse : Bytes → Result L)
    (bind : Bytes → Option Error) (closing : Option Error) (late : Bool)
    (death : Option Error) where
  unfoldable pub main : Logger L → Ending
  unfolding after_run
  main global = elim (load libs) [
    | err e ↦ exited e
    | ok cfg ↦ elim (configure parse cfg.environment cfg.log_level global).1 [
      | some e ↦ exited e
      | none ↦ elim (build_application env cfg) [
        | err e ↦ exited e
        | ok app ↦ after_run (run bind closing late death app.transport)
      ]
    ]
  ]
