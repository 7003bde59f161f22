-- ===== src/Base.antt =====
-- The names that the other modules share: the libraries', passed on, and those of the children.
mod Tests
mod Strings
mod Lists
mod Go
mod Kept
mod Runs
mod Decimal
mod Trim
pub use Tests.*
unfoldable pub use Strings.{
  ◌==◌, is_prefix, contains, has_suffix, split, trim_left, trim_space, itoa, number_from, is_digits,
  split_sep, text_le, insert_sorted, sort_strings,
}
pub use Trim.{trim_space-trim}
pub use Decimal.{is_digits-itoa, itoa-Cons, split_sep-eth}
pub use Strings.{Text, codes, eq_iff, eq_refl, eq_false_of_ne, number_from-itoa, itoa_inj}
unfoldable pub use Lists.{lookup, insert, member}
pub use Lists.{length, take, get_elem?, get_or, length-append, GoMap, lookup-insert, or_empty}
unfoldable pub use Go.{pure, raise, crash, lift, wrap, attempt, ◌>>=◌}
pub use Go.{GoResult, ok, err, panic, Returned, value, error, Cmd, rethrow, ◌>>◌, GoResult-cases}
pub use Kept.{
  Keeps, Keeps-pure, Keeps-raise, Keeps-crash, Keeps-lift, Keeps-wrap, Keeps-attempt, Keeps-bind,
  Keeps-if, Keeps-bind_of, keeps_rules, Gives, Gives-pure, Gives-bind, Gives-bind_of, Gives-raise,
  Gives-if, OnValue, Gives-attempt, Gives-wrap,
}
pub use Runs.{
  bind-ok, bind-err, bind-panic, wrap-ok, wrap-err, wrap-state, attempt-ok, attempt-err,
  attempt-bind_ok, attempt-bind_err, attempt-bind_panic, bind-run, wrap-run, attempt-run,
  wrap-lift_run, wrap-ok_iff, bind-done, wrap-done, attempt-bind_crash, wrap-lift_done, bind-stop,
}
pub use Prim.Native.Nat.{ℕ, zero, suc, ◌+◌, ◌-◌, ◌*◌, ◌/◌, ◌%◌, ◌^◌, ◌≤◌, ◌<◌}
pub use mathlib.Core.Path.{◌≡◌, refl, sym, ap, ◌∙◌}
pub use mathlib.Core.Logic.{◌≢◌, ◌↔◌, ◌⊎◌, inl, inr}
pub use mathlib.Core.Bool.{Bool, true, false, not, ◌&&◌, ◌||◌}
pub use mathlib.Core.Option.{Option, none, some}
pub use mathlib.Core.List.{List, [], ◌∷◌, ◌++◌, map, append_assoc, append-nil}
pub use native.Mathlib.Omega.{arith}
