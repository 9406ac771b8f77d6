-- ===== src/Direct/Fields/Setting.antt =====
-- What `SetPointerField` does to a pointer.
use kubedns.Prelude.{Bool-cases, ℕ, ◌≡◌, refl, ◌⊎◌, inl, inr, Bool, true, false, some}
use kubedns.Direct.Fields.{Pointer, same_pointer, set_pointer_field}

-- `SetPointerField` reports a change of a pointer that is not nil only when the new value equals the
-- old one; otherwise it leaves the old pointer in place.
pub set_pointer_field-equal {ℓ} :
    {A : Type ℓ} (equals : A → Pointer A → Bool) (a : ℕ) (v : A) (value : Pointer A)
    → ((set_pointer_field equals (some (a, v)) value ≡ (true, value)) × (equals v value ≡ true))
      ⊎ (set_pointer_field equals (some (a, v)) value ≡ (false, some (a, v)))
unfolding set_pointer_field
set_pointer_field-equal equals a v value = elim (Bool-cases (same_pointer (some (a, v)) value)) [
  | inl same ↦ inr (rw same refl)
  | inr other ↦ elim (Bool-cases (equals v value)) [
    | inl e ↦ inl (rw (other, e) refl, e)
    | inr e ↦ inr (rw (other, e) refl)
  ]
]
