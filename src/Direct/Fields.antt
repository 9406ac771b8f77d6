-- ===== src/Direct/Fields.antt =====
-- internal/controller/direct/hostedzone/validation.go: the helpers on bytes and fields. A setter
-- returns what it says and the new value of the field.
pub mod Setting
use kubedns.Prelude.{
  leb, nat_beq, if◌then◌else◌, Eq, ◌==◌, nat_eq, Text, text_eq, ℕ, Bool, true, false, not, ◌&&◌,
  ◌||◌, Option, none, some, [], ◌∷◌,
}

abbrev within : ℕ → ℕ → ℕ → Bool
within lo hi b = leb lo b && leb b hi

unfoldable pub is_ascii_alnum : ℕ → Bool
is_ascii_alnum b = within b'a' b'z' b || within b'A' b'Z' b || within b'0' b'9' b

-- The loop; on the empty text it ends at once with true.
unfoldable pub is_ascii_alnum_string : Text → Bool
unfolding is_ascii_alnum
is_ascii_alnum_string [] = true
is_ascii_alnum_string (b ∷ s) = if not (is_ascii_alnum b) then false else is_ascii_alnum_string s

-- `SetField`
unfoldable pub set_field {ℓ} : {A : Type ℓ} ⦃e : Eq A⦄ → A → A → Bool × A
set_field target value = if target == value then (false, target) else (true, value)

-- A pointer: nil, or an address with the value there.
abbrev pub Pointer {ℓ} : Type ℓ → Type ℓ
Pointer A = Option (ℕ × A)

abbrev pub same_pointer {ℓ} : {A : Type ℓ} → Pointer A → Pointer A → Bool
same_pointer none none = true
same_pointer none (some q) = false
same_pointer (some p) none = false
same_pointer (some (a, x)) (some (b, y)) = nat_beq a b

-- `SetPointerField` with the method `Equals` of the target's type.
unfoldable pub set_pointer_field {ℓ} :
    {A : Type ℓ} → (A → Pointer A → Bool) → Pointer A → Pointer A → Bool × Pointer A
set_pointer_field equals none value =
    if same_pointer none value then (false, none) else (true, value)
set_pointer_field equals (some (a, x)) value =
    if same_pointer (some (a, x)) value
    then (false, some (a, x))
    else if not (equals x value)
    then (false, some (a, x))
    else (true, value)
