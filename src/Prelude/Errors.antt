-- ===== src/Prelude/Errors.antt =====
-- Errors as values. A wrapped error (`%w`) keeps the error that it wraps; of a message only the
-- arguments that identify the cause are kept.
use Prim.Native.Nat.{ℕ}
use mathlib.Core.Path.{◌≡◌, refl}
use mathlib.Core.Bool.{Bool, true, false}
use mathlib.Core.Logic.{◌⊎◌, inl, inr}
use mathlib.Core.List.{List}

pub data Section : Type 0 where
  answer authority additional : Section

pub data Error : Type 0 where
  -- domain
  name_empty : Error
  unsupported_type : ℕ → Error
  unsupported_class : ℕ → Error
  text_and_data_empty : Error
  invalid_rcode : ℕ → Error
  invalid_record : Section → ℕ → Error → Error
  -- wire
  label_too_long : Error
  offset_out_of_bounds : Error
  pointer_out_of_bounds : Error
  label_out_of_bounds : Error
  truncated_question : Error
  too_short : Error
  question_count : ℕ → Error
  too_many_answers : ℕ → Error
  data_too_large : ℕ → Error
  id_mismatch : ℕ → ℕ → Error
  truncated_question_name : Error
  truncated_record : Error
  truncated_record_after_name : Error
  truncated_rdata : Error
  record_name_failed : Error → Error
  rdata_failed : Error → Error
  record_invalid : Error → Error
  parse_failed : Section → ℕ → Error → Error
  -- alias chase
  alias_depth_exceeded : Error
  alias_loop_detected : Error
  alias_target_invalid : List ℕ → Error
  alias_question_build : Error → Error
  -- caches and upstream
  multiple_keys : Error
  no_upstream : Error
  all_servers_failed : ℕ → Error → Error
  no_server_answered : ℕ → Error
  query_timeout : Error
  upstream_io : ℕ → Error
  -- rdata
  invalid_rdata : ℕ → Error
  not_implemented : ℕ → Error
  -- repos/zone, by the path of the file
  zone_file_unreadable : List ℕ → Error
  zone_root_missing : List ℕ → Error
  zone_record_invalid : List ℕ → Error → Error
  zone_file_failed : List ℕ → Error → Error
  walk_failed : Error
  -- gateways/transport and cmd/rr-dnsd
  already_running : Error
  transport_planned : Error
  transport_unsupported : Error
  address_failed : Error
  no_servers : Error
  zones_failed : Error → Error
  cache_failed : Error → Error
  upstream_failed : Error → Error
  codec_required : Error
  cache_too_large : ℕ → Error
  repositories_failed : Error → Error
  gateways_failed : Error → Error
  start_failed : Error → Error
  shutdown_timeout : Error
  log_level_invalid : Error → Error
  -- config, around what the libraries return
  defaults_failed : Error → Error
  env_failed : Error → Error
  unmarshal_failed : Error → Error
  registration_failed : Error → Error
  validation_failed : Error → Error
  -- a Go run-time panic, and a run that the given fuel does not finish
  panic : Error
  out_of_fuel : Error

-- A panic and a run that has not ended are no error values of the program.
abbrev pub is_value : Error → Bool
is_value panic = false
is_value out_of_fuel = false
is_value _ = true

abbrev pub wrap : (Error → Error) → Error → Error
wrap f e = elim (is_value e) [ true ↦ f e | false ↦ e ]

pub data Result {ℓ} (A : Type ℓ) : Type ℓ where
  ok : A → Result A
  err : Error → Result A

-- The two results `(value, error)` of a Go function, checked before the next step.
infixl 5 ◌>>=◌ ◌>>◌
abbrev pub ◌>>=◌ {κ ℓ} : {B : Type κ} {C : Type ℓ} → Result B → (B → Result C) → Result C
err failure >>= next = err failure
ok value >>= next = next value

-- A step that only checks.
abbrev pub ◌>>◌ {κ} : {C : Type κ} → Result (Unit {0}) → Result C → Result C
check >> next = check >>= λ _. next

-- Wraps the error of a failed step, `fmt.Errorf("...: %w", err)`.
abbrev pub wrap_err {ℓ} : {A : Type ℓ} → (Error → Error) → Result A → Result A
wrap_err f (ok a) = ok a
wrap_err f (err e) = err (wrap f e)

pub >>=-eq-ok {κ ℓ} :
    {B : Type κ} {C : Type ℓ} (r : Result B) (next : B → Result C) {c : C}
    → (r >>= next) ≡ ok c
    → (value : B) × (r ≡ ok value) × (next value ≡ ok c)
>>=-eq-ok (err failure) next h = cc
>>=-eq-ok (ok value) next h = (value, refl, h)

-- To split on a computed result and keep the equation.
pub Result-cases {ℓ} :
    {A : Type ℓ} (r : Result A) → ((a : A) × (r ≡ ok a)) ⊎ ((e : Error) × (r ≡ err e))
Result-cases (ok a) = inl (a, refl)
Result-cases (err e) = inr (e, refl)

pub ok_injective {κ} : {B : Type κ} {b c : B} → ok b ≡ ok c → b ≡ c
ok_injective e = cc
