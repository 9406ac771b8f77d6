-- ===== src/Common/Responsibility/Checking.antt =====
-- `Responsibility.Check`: which zones a controller with a class takes.
use kubedns.Prelude.{Text, ◌≡◌, ◌↔◌, true, Option, none, some, arith}
use kubedns.Common.Responsibility.{Responsibility, check, check_class}

check_class-accepts :
    (r : Responsibility) (c d runtime : Option Text)
    → (check_class r c d runtime ≡ true) ↔ ((c ≡ none) × (d ≡ none))
unfolding check_class
check_class-accepts r none none runtime = ground arith
check_class-accepts r none (some d) runtime = ground arith
check_class-accepts r (some c) none runtime = ground arith
check_class-accepts r (some c) (some d) runtime = ground arith

-- `Check` accepts a zone exactly when neither the root nor the controller has a class; the runtimes
-- do not matter.
pub check-accepts :
    (r : Responsibility) (class runtime : Option Text)
    → (check r class runtime ≡ true) ↔ ((r.class ≡ none) × (class ≡ none))
unfolding check
check-accepts r class runtime = check_class-accepts r r.class class runtime
