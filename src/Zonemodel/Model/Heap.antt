-- ===== src/Zonemodel/Model/Heap.antt =====
-- Reads after an assignment through a pointer, and what such assignments keep.
use kubedns.Prelude.{
  nat_beq, if◌then◌else◌, nat_beq_iff, Bool-cases, Option-cases, nat_eq, ◌==◌, length, get_elem?,
  All, length-set, get_elem?-set, All-set, All-get_elem?, put, remove, Text, text_beq_iff, text_eq,
  ℕ, ◌≡◌, refl, ◌∙◌, ◌≢◌, inl, inr, Option, none, some, List, [], ◌∷◌, arith,
}
use kubedns.Zonemodel.Model.{
  Zone, update, detach, adopt_one, adopt, attach, External, HostedZone, wants_parent, ZoneKey,
}
use mathlib.Core.Option

-- A read through `q` after an assignment through `p`.
pub get_elem?-update :
    (p q : ℕ) (f : Zone → Zone) (h : List Zone)
    → get_elem? (update p f h) q
      ≡ (if nat_beq p q then Option.map f (get_elem? h q) else get_elem? h q)
unfolding update
get_elem?-update p q f h = elim (Option-cases (get_elem? h p)) [
  | inl e ↦ rw (e, update) (ground (arith, nat_beq_iff p q, e))
  | inr (z, e) ↦
      rw (e, update) (rw (get_elem?-set h p q (f z) z e) (ground (arith, nat_beq_iff p q, e)))
]

pub length-update : (p : ℕ) (f : Zone → Zone) (h : List Zone) → length (update p f h) ≡ length h
unfolding update
length-update p f h = elim (Option-cases (get_elem? h p)) [
  | inl e ↦ rw (e, update)
  | inr (z, e) ↦ rw (e, update) (length-set h p (f z))
]

pub All-update {ℓ} :
    (P : Zone → Type ℓ) (p : ℕ) (f : Zone → Zone) (h : List Zone)
    → ((z : Zone) → get_elem? h p ≡ some z → P z → P (f z))
    → All P h
    → All P (update p f h)
unfolding update
All-update P p f h keep all = elim (Option-cases (get_elem? h p)) [
  | inl e ↦ rw (e, update) all
  | inr (z, e) ↦ rw (e, update) (All-set P h p (f z) all (keep z e (All-get_elem? P h p z all e)))
]

pub All-imp {ℓ κ μ} :
    {A : Type ℓ} (P : A → Type κ) (Q : A → Type μ) (xs : List A)
    → ((a : A) → P a → Q a)
    → All P xs
    → All Q xs
All-imp P Q [] f h = tt
All-imp P Q (x ∷ xs) f h = (f x h.0, All-imp P Q xs f h.1)

-- `detach` leaves the heap alone or takes a child from one zone.
pub detach_cases {ℓ} :
    (P : List Zone → Type ℓ) (old : ℕ) (zone : HostedZone) (h : List Zone)
    → P h
    → ((q : ℕ) → P (update q (λ u. record u { children = remove zone.meta.name u.children }) h))
    → P (detach old zone h)
unfolding detach
detach_cases P old zone h same taken = elim (Option-cases (get_elem? h old)) [
  | inl e ↦ rw (e, detach) same
  | inr (z, e) ↦ elim (Option-cases z.parent) [
    | inl ep ↦ rw (e, detach, ep) same
    | inr (q, ep) ↦ elim (Option-cases (get_elem? h q)) [
      | inl eq ↦ rw (e, detach, ep, eq) same
      | inr (w, eq) ↦ elim (Bool-cases (w.key.name == zone.spec.parent_ref)) [
        | inl named ↦ rw (e, detach, ep, eq, named) same
        | inr moved ↦ rw (e, detach, ep, eq, moved) (taken q)
      ]
    ]
  ]
]

-- `adopt_one` leaves the heap alone, or links a zone that names a parent with the zone at `old`.
pub adopt_one_cases {ℓ} :
    (P : List Zone → Type ℓ) (key : ZoneKey) (old : ℕ) (k : ZoneKey) (p : ℕ) (h : List Zone)
    → P h
    → ((z : Zone)
        → get_elem? h p ≡ some z
        → z.parent_name ≢ []
        → P (
            update old
              (λ o. record o { children = put k.name p o.children })
              (update p (λ c. record c { parent = some old }) h)))
    → P (adopt_one key old k p h)
unfolding adopt_one wants_parent
adopt_one_cases P key old k p h same linked = elim (Option-cases (get_elem? h p)) [
  | inl e ↦ rw (e, adopt_one) same
  | inr (z, e) ↦ elim (Bool-cases (wants_parent key k z)) [
    | inr other ↦ rw (e, adopt_one, other) same
    | inl mine ↦
        rw (e, adopt_one, mine) (linked z e (λ n. ground (arith, text_beq_iff z.parent_name [])))
  ]
]

length-adopt_one :
    (key : ZoneKey) (old : ℕ) (k : ZoneKey) (p : ℕ) (h : List Zone)
    → length (adopt_one key old k p h) ≡ length h
length-adopt_one key old k p h =
    adopt_one_cases (λ a. length a ≡ length h) key old k p h refl
      λ z e ne. length-update old _ _ ∙ length-update p _ h

pub length-adopt :
    (key : ZoneKey) (old : ℕ) (zones : List (ZoneKey × ℕ)) (h : List Zone)
    → length (adopt key old zones h) ≡ length h
unfolding adopt
length-adopt key old [] h = refl
length-adopt key old ((k, p) ∷ rest) h =
    length-adopt key old rest (adopt_one key old k p h) ∙ length-adopt_one key old k p h

pub length-detach :
    (old : ℕ) (zone : HostedZone) (h : List Zone) → length (detach old zone h) ≡ length h
length-detach old zone h =
    detach_cases (λ k. length k ≡ length h) old zone h refl (λ q. length-update q _ h)

pub length-attach :
    (x : External) (s : Text) (zone : HostedZone) (old : ℕ) (parent : Option ℕ) (h : List Zone)
    → length (attach x s zone old parent h) ≡ length h
unfolding attach
length-attach x s zone old none h = refl
length-attach x s zone old (some q) h = length-update q _ h
