-- ===== src/Error/Conditions.antt =====
-- include/boost/socks/impl/error.ipp: the condition of a value, and whether it is a failure.
use socks.Base.{ℕ, ◌≡◌, ◌↔◌, false, some, arith}
use socks.Error.{
  Error, Condition, to_int, of_int, category_failed, default_error_condition, of_condition,
}

-- Reading an enumerator back from its value gives the enumerator.
pub of_int-to_int : (e : Error) → of_int (to_int e) ≡ some e
unfolding of_int to_int
of_int-to_int e = ground arith

-- A value fails exactly when its condition is not `succeeded`.
pub category_failed-condition :
    (ev : ℕ)
    → (category_failed ev ≡ false) ↔ (default_error_condition ev ≡ of_condition Condition.succeeded)
unfolding category_failed default_error_condition
category_failed-condition ev = ground arith
