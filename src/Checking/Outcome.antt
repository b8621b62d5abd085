-- ===== src/Checking/Outcome.antt =====
-- `CheckOutcome` of core/checking/value_objects.py.
pub data CheckOutcome : Type 0 where
  ok transient_error permanent_error : CheckOutcome
