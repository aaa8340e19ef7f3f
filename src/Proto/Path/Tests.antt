-- ===== src/Proto/Path/Tests.antt =====
-- The theorems about paths at concrete inputs.
use alloyfs.Base.{◌≡◌, refl, ◌↔◌, arith}
use alloyfs.Base.Text.{chars}
use alloyfs.Proto.Errors.{ok}
use alloyfs.Proto.Path.{validate}
use alloyfs.Proto.Path.Laws.{IsName, IsPath, validate_iff}

report-IsName : IsName (chars "b.txt")
report-IsName = record {
  not_empty = λ e. cc;
  not_dot = λ e. ground arith;
  not_dot_dot = λ e. ground arith;
  no_slash = refl;
  no_backslash = refl;
}

validate_iff_example : (validate (chars "a/../b") ≡ ok tt) ↔ IsPath (chars "a/../b")
validate_iff_example = validate_iff (chars "a/../b")
