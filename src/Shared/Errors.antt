-- ===== src/Shared/Errors.antt =====
-- core/shared/errors.py, with the built-in exceptions that the program raises or meets. An
-- exception carries its message where the program reads it back by `str(exc)`.
use domain_watcher.Prelude.{Bool, true, false, [], ◌≡◌, refl, ◌⊎◌, inl, inr}
use domain_watcher.Shared.Text.{Text}

pub data Error : Type 0 where
  domain_watcher_error checking_error config_error : Text → Error
  transient_check_error permanent_check_error : Text → Error
  parse_error no_matching_rule_error rule_validation_error : Text → Error
  -- the message, `transient` and `permanent`
  suggestion_error : Text → Bool → Bool → Error
  notification_error delivery_failed_error : Text → Error
  value_error type_error key_error runtime_error : Error
  domain_not_monitored_error checker_not_registered_error : Error
  plugin_conflict_error plugin_not_found_error : Error
  -- any other `Exception`
  exception : Text → Error

-- `isinstance(exc, ParseError)`
unfoldable pub is_parse_error : Error → Bool
is_parse_error (parse_error _) = true
is_parse_error (no_matching_rule_error _) = true
is_parse_error (rule_validation_error _) = true
is_parse_error (suggestion_error _ _ _) = true
is_parse_error _ = false

-- `isinstance(exc, NotificationError)`
unfoldable pub is_notification_error : Error → Bool
is_notification_error (notification_error _) = true
is_notification_error (delivery_failed_error _) = true
is_notification_error _ = false

-- `str(exc)`, for the classes that carry a message
unfoldable pub message : Error → Text
message (domain_watcher_error m) = m
message (checking_error m) = m
message (config_error m) = m
message (transient_check_error m) = m
message (permanent_check_error m) = m
message (parse_error m) = m
message (no_matching_rule_error m) = m
message (rule_validation_error m) = m
message (suggestion_error m _ _) = m
message (notification_error m) = m
message (delivery_failed_error m) = m
message (exception m) = m
message _ = []

pub data Result {ℓ} (A : Type ℓ) : Type ℓ where
  ok : A → Result A
  raise : Error → Result A

infixl 5 ◌>>=◌ ◌>>◌
abbrev pub ◌>>=◌ {ℓ κ} : {A : Type ℓ} {B : Type κ} → Result A → (A → Result B) → Result B
ok a >>= f = f a
raise e >>= f = raise e

abbrev pub ◌>>◌ {ℓ} : {B : Type ℓ} → Result (Unit {0}) → Result B → Result B
m >> k = m >>= λ _. k

-- `if test: raise e`
abbrev pub raise_if : Bool → Error → Result (Unit {0})
raise_if true e = raise e
raise_if false e = ok tt

pub Result-cases {ℓ} :
    {A : Type ℓ} (r : Result A) → ((a : A) × (r ≡ ok a)) ⊎ ((e : Error) × (r ≡ raise e))
Result-cases (ok a) = inl (a, refl)
Result-cases (raise e) = inr (e, refl)
