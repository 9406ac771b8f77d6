-- ===== src/Server/Options.antt =====
-- internal/controller/server/options.go: `IsMaster`.
pub mod Mastering
use kubedns.Prelude.{if◌then◌else◌, ◌==◌, nat_eq, text_eq, Bool, true, false, not, List, [], ◌∷◌}
use kubedns.Api.{Condition}
use kubedns.Api.Conditions.{server_condition_type}

-- The loop: no condition of another type.
unfoldable pub is_plain : List Condition → Bool
is_plain [] = true
is_plain (c ∷ cs) = if not (c.kind == server_condition_type) then false else is_plain cs

unfoldable pub is_master : Bool → List Condition → Bool
unfolding is_plain
is_master slave conditions = if not slave then true else is_plain conditions
