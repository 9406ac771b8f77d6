-- ===== src/Server/Options/Mastering.antt =====
-- When a server manages the state of an object by itself.
use kubedns.Prelude.{All, text_beq_iff, ◌≡◌, ◌↔◌, ◌⊎◌, Bool, true, false, List, [], ◌∷◌, arith}
use kubedns.Api.{Condition}
use kubedns.Api.Conditions.{server_condition_type}
use kubedns.Server.Options.{is_plain, is_master}

is_plain-All :
    (cs : List Condition) → (is_plain cs ≡ true) ↔ All (λ c. c.kind ≡ server_condition_type) cs
unfolding is_plain
is_plain-All [] = ground arith
is_plain-All (c ∷ cs) = ground (arith, is_plain-All cs, text_beq_iff c.kind server_condition_type)

-- A server is the master exactly when it is no slave, or when the object has no conditions but the
-- server's own.
pub is_master_iff :
    (slave : Bool) (cs : List Condition)
    → (is_master slave cs ≡ true) ↔ ((slave ≡ false) ⊎ All (λ c. c.kind ≡ server_condition_type) cs)
unfolding is_master
is_master_iff false cs = ground arith
is_master_iff true cs = ground (arith, is_plain-All cs)
