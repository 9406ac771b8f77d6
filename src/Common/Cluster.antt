-- ===== src/Common/Cluster.antt =====
-- What the controllers see of a cluster and of the reconcile library. Reading an object is a
-- parameter; the problem that a reconciliation returns is its kind and its message.
use kubedns.Prelude.{
  Eq, ◌==◌, nat_eq, Text, text_eq, ◌≡◌, refl, ◌⊎◌, inl, inr, Bool, false, ◌||◌, Option, none, some,
  List, [], ◌∷◌,
}

-- The answer of a read: the object, `errors.IsNotFound`, or another error.
pub data Fetched {ℓ} (A : Type ℓ) : Type ℓ where
  found : A → Fetched A
  not_found : Fetched A
  get_error : Text → Fetched A

pub fetched-cases {ℓ} :
    {A : Type ℓ} (f : Fetched A)
    → (f ≡ not_found) ⊎ (((e : Text) × (f ≡ get_error e)) ⊎ ((a : A) × (f ≡ found a)))
fetched-cases (found a) = inr (inr (a, refl))
fetched-cases not_found = inl refl
fetched-cases (get_error e) = inr (inl (e, refl))

-- reconcile.Problem, by the function that makes it
pub data Problem : Type 0 where
  failed temporary requeue watch_backed : Text → Problem

-- slices.Contains
unfoldable pub contains {ℓ} : {A : Type ℓ} ⦃e : Eq A⦄ → List A → A → Bool
contains [] a = false
contains (x ∷ xs) a = x == a || contains xs a

-- String(s, def)
unfoldable pub string_or : Option Text → Text → Text
string_or none def = def
string_or (some s) def = s
