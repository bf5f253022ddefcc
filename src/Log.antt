-- ===== src/Log.antt =====
-- common/log/log.go: the loggers and the global one. What zap makes of an entry is that library's;
-- what it is handed is modelled. `V` is any value of a field, `F` and `to_field` are zap's field and its
-- `zap.Any`, and `L` are its levels.
use rr_dns.Prelude.{
  Bool, not, List, [], ◌∷◌, Option, none, some, Result, ok, err, Error, wrap, log_level_invalid,
  ◌≡◌, arith,
}
use rr_dns.Prelude.Bytes.{Bytes, bytes_eq, codes}
use rr_dns.Prelude.Assoc.{Assoc}
use rr_dns.Text.{to_lower}

-- The methods of `Logger`.
pub data Severity : Type 0 where
  as_info as_error as_debug as_warn as_panic as_fatal : Severity

-- What `newZapLogger` sets: the base configuration, the coloured level names, the level and the keys.
pub record ZapLogger (L : Type 0) : Type 0 where
  pub development : Bool
  pub coloured : Bool
  pub level : L
  pub time_key : Bytes
  pub message_key : Bytes
  pub level_key : Bytes

pub data Logger (L : Type 0) : Type 0 where
  zap : ZapLogger L → Logger L
  noop : Logger L

-- A message on its way to zap.
pub record Entry (F : Type 0) : Type 0 where
  pub severity : Severity
  pub fields : List F
  pub message : Bytes

unfoldable pub new_zap_logger : {L : Type 0} → Bool → L → Logger L
new_zap_logger dev level = zap (record {
  development = dev;
  coloured = dev;
  level = level;
  time_key = codes "time";
  message_key = codes "msg";
  level_key = codes "level";
})

unfoldable pub new_noop_logger : {L : Type 0} → Logger L
new_noop_logger = noop

-- The global logger is a state: `SetLogger` and `GetLogger`.
unfoldable pub set_logger : {L : Type 0} → Logger L → Logger L → Logger L
set_logger l global = l

unfoldable pub get_logger : {L : Type 0} → Logger L → Logger L
get_logger global = global

-- `Configure`, with zap's `ParseLevel`: the global logger behind it, and its error.
unfoldable pub configure :
    {L : Type 0} → (Bytes → Result L) → Bytes → Bytes → Logger L → Logger L × Option Error
unfolding new_zap_logger
configure parse env level global = elim (parse (to_lower level)) [
  | err e ↦ (global, some (wrap log_level_invalid e))
  | ok lvl ↦ (new_zap_logger (not (bytes_eq env (codes "prod"))) lvl, none)
]

module _ {V F : Type 0} (to_field : Bytes → V → F) where
  -- In the order in which Go ranges over the map.
  unfoldable pub zap_fields : Assoc V → List F
  zap_fields [] = []
  zap_fields ((k, v) ∷ m) = to_field k v ∷ zap_fields m

module _ {V F L : Type 0} (to_field : Bytes → V → F) where
  -- A method of a logger: what it hands to zap, by which logger.
  unfoldable pub log_with : Logger L → Severity → Assoc V → Bytes → Option (ZapLogger L × Entry F)
  unfolding zap_fields
  log_with (zap z) severity fields msg =
      some (z, record { severity = severity; fields = zap_fields to_field fields; message = msg })
  log_with noop severity fields msg = none

  -- `Info`, `Error`, `Debug`, `Warn`, `Panic` and `Fatal` of the package.
  unfoldable pub log : Logger L → Severity → Assoc V → Bytes → Option (ZapLogger L × Entry F)
  unfolding log_with
  log global severity fields msg = log_with (get_logger global) severity fields msg

  -- A message that is logged after `Configure` goes to a logger with the parsed level, of a
  -- development configuration exactly outside "prod"; if the level does not parse, it goes where it
  -- went before.
  log-configure :
      (parse : Bytes → Result L) (env level : Bytes) (global : Logger L) (severity : Severity)
      (fields : Assoc V) (msg : Bytes)
      → log (configure parse env level global).0 severity fields msg
        ≡ (elim (parse (to_lower level)) [
          | err e ↦ log global severity fields msg
          | ok lvl ↦
              log (new_zap_logger (not (bytes_eq env (codes "prod"))) lvl) severity fields msg
        ])
  unfolding configure
  log-configure parse env level global severity fields msg = ground arith
