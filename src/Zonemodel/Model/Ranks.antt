-- ===== src/Zonemodel/Model/Ranks.antt =====
-- Root zones and nested zones: what `AddZone` and `RemoveZone` keep as long as no nested zone is
-- made a root zone.
use kubedns.Prelude.{
  nat_beq, Bool-cases, Option-cases, nat_eq, length, get_elem?, All, lt_of_get_elem?,
  get_elem?-append, get_elem?-append_end, All-append, All-get_elem?, All-put, All-remove, Text,
  text_eq, ℕ, ◌≡◌, refl, sym, ◌∙◌, subst, ◌≢◌, ◌⊎◌, inl, inr, none, some, List, [], ◌∷◌, ◌++◌,
  arith,
}
use kubedns.Api.{HostedZone}
use kubedns.Zonemodel.Keys.{ZoneKey}
use kubedns.Zonemodel.Model.{Zone, update, adopt_one, adopt, detach, new_zone}
use kubedns.Zonemodel.Model.Heap.{
  get_elem?-update, All-update, All-imp, adopt_one_cases, detach_cases,
}
use kubedns.Zonemodel.Resolve.Forwarding.{IsRelative, IsNested}

-- A pointer to a zone that names a parent.
abbrev pub IsRanked : List Zone → ℕ → Type 0
IsRanked h q = (z : Zone) × (get_elem? h q ≡ some z) × (z.parent_name ≢ [])

-- All children of all zones are `ok`.
abbrev pub Children : (ℕ → Type 0) → List Zone → Type 0
Children ok h = All (λ z. All (λ c. ok c.1) z.children) h

-- A zone that names a parent has relative names.
abbrev pub NamesFit : Zone → Type 0
NamesFit z = (z.parent_name ≢ []) → All IsRelative z.names

pub record IsOrdered (h : List Zone) : Type 0 where
  pub ranked : Children (IsRanked h) h
  pub fitting : All NamesFit h

-- The names of a child are relative, so queries may walk down to it.
pub IsOrdered-IsNested : (h : List Zone) → IsOrdered h → IsNested h
IsOrdered-IsNested h o =
    All-imp _ _ h
      (λ z hz.
        All-imp _ _ z.children
          (λ c (w, e, ne). (w, e, All-get_elem? NamesFit h c.1 w o.fitting e ne)) hz)
      o.ranked

-- An assignment that keeps `parent_name`, as a step on heaps.
abbrev pub SameRanks : List Zone → List Zone → Type 0
SameRanks h k = (q : ℕ) → IsRanked h q → IsRanked k q

pub update-SameRanks :
    (p : ℕ) (f : Zone → Zone) (h : List Zone)
    → ((z : Zone) → (f z).parent_name ≡ z.parent_name)
    → SameRanks h (update p f h)
update-SameRanks p f h keep q (z, e, ne) = elim (Bool-cases (nat_beq p q)) [
  | inl same ↦ (f z, get_elem?-update p q f h ∙ rw (same, e), λ n. ne (sym (keep z) ∙ n))
  | inr other ↦ (z, get_elem?-update p q f h ∙ rw (other) e, ne)
]

pub SameRanks-update :
    (p : ℕ) (f : Zone → Zone) (h : List Zone)
    → ((z : Zone) → (f z).parent_name ≡ z.parent_name)
    → SameRanks (update p f h) h
SameRanks-update p f h keep q (w, e, ne) = elim (Bool-cases (nat_beq p q)) [
  | inl same ↦ elim (Option-cases (get_elem? h q)) [
    | inl gone ↦
        let eq : get_elem? (update p f h) q ≡ none = get_elem?-update p q f h ∙ rw (same, gone) in
        cc (e, eq)
    | inr (z, here) ↦
        let eq : some w ≡ some (f z) = sym e ∙ get_elem?-update p q f h ∙ rw (same, here) in
        let named : w.parent_name ≡ (f z).parent_name = cc in
        (z, here, λ n. ne (named ∙ keep z ∙ n))
  ]
  | inr other ↦ (w, sym (get_elem?-update p q f h ∙ rw other) ∙ e, ne)
]

pub append-SameRanks : (h : List Zone) (n : Zone) → SameRanks h (h ++ n ∷ [])
append-SameRanks h n q (z, e, ne) =
    (z, get_elem?-append h q n ∙ ground (arith, lt_of_get_elem? h q z), ne)

pub Children-imp :
    (P Q : ℕ → Type 0) (h : List Zone) → ((q : ℕ) → P q → Q q) → Children P h → Children Q h
Children-imp P Q h f =
    All-imp _ _ h (λ z. All-imp (λ c. P c.1) (λ c. Q c.1) z.children (λ c. f c.1))

pub Children-update :
    (P : ℕ → Type 0) (p : ℕ) (f : Zone → Zone) (h : List Zone)
    → ((z : Zone) → All (λ c. P c.1) z.children → All (λ c. P c.1) (f z).children)
    → Children P h
    → Children P (update p f h)
Children-update P p f h keep = All-update (λ z. All (λ c. P c.1) z.children) p f h (λ z e. keep z)

-- An assignment that keeps the parent's name and the names, and adds no child that is not ranked.
pub update-IsOrdered :
    (p : ℕ) (f : Zone → Zone) (h : List Zone)
    → ((z : Zone) → (f z).parent_name ≡ z.parent_name)
    → ((z : Zone) → (f z).names ≡ z.names)
    → ((z : Zone) → All (λ c. IsRanked h c.1) z.children → All (λ c. IsRanked h c.1) (f z).children)
    → IsOrdered h
    → IsOrdered (update p f h)
update-IsOrdered p f h keep same kids o = record {
  ranked =
      Children-imp (IsRanked h) (IsRanked (update p f h)) _ (update-SameRanks p f h keep)
        (Children-update (IsRanked h) p f h kids o.ranked);
  fitting =
      All-update NamesFit p f h
        (λ z e fit ne. subst (All IsRelative) (sym (same z)) (fit (λ n. ne (keep z ∙ n))))
        o.fitting;
}

adopt_one-IsOrdered :
    (key : ZoneKey) (old : ℕ) (k : ZoneKey) (p : ℕ) (h : List Zone)
    → IsOrdered h
    → IsOrdered (adopt_one key old k p h)
adopt_one-IsOrdered key old k p h o = adopt_one_cases IsOrdered key old k p h o λ z e ne.
    let set_parent = λ (c : Zone). record c { parent = some old } in
    update-IsOrdered old _ (update p set_parent h) (λ c. refl) (λ c. refl)
      (λ c kids.
        All-put _ k.name p c.children
          (λ j. update-SameRanks p set_parent h (λ c. refl) p (z, e, ne)) kids)
      (update-IsOrdered p set_parent h (λ c. refl) (λ c. refl) (λ c kids. kids) o)

pub adopt-IsOrdered :
    (key : ZoneKey) (old : ℕ) (zones : List (ZoneKey × ℕ)) (h : List Zone)
    → IsOrdered h
    → IsOrdered (adopt key old zones h)
unfolding adopt
adopt-IsOrdered key old [] h o = o
adopt-IsOrdered key old ((k, p) ∷ rest) h o =
    adopt-IsOrdered key old rest (adopt_one key old k p h) (adopt_one-IsOrdered key old k p h o)

SameRanks-adopt_one :
    (key : ZoneKey) (old : ℕ) (k : ZoneKey) (p : ℕ) (h : List Zone)
    → SameRanks (adopt_one key old k p h) h
SameRanks-adopt_one key old k p h =
    adopt_one_cases (λ a. SameRanks a h) key old k p h (λ q r. r)
      λ z e ne q r. SameRanks-update p _ h (λ c. refl) q (SameRanks-update old _ _ (λ c. refl) q r)

pub SameRanks-adopt :
    (key : ZoneKey) (old : ℕ) (zones : List (ZoneKey × ℕ)) (h : List Zone)
    → SameRanks (adopt key old zones h) h
unfolding adopt
SameRanks-adopt key old [] h q r = r
SameRanks-adopt key old ((k, p) ∷ rest) h q r =
    SameRanks-adopt_one key old k p h q (SameRanks-adopt key old rest (adopt_one key old k p h) q r)

-- The state while `AddZone` works on the zone at `old`: its children are ranked, but for `old`.
abbrev pub IsRankedOr : ℕ → List Zone → ℕ → Type 0
IsRankedOr old h q = IsRanked h q ⊎ (q ≡ old)

pub detach-IsOrdered :
    (old : ℕ) (zone : HostedZone) (h : List Zone) → IsOrdered h → IsOrdered (detach old zone h)
detach-IsOrdered old zone h o = detach_cases IsOrdered old zone h o λ q.
    update-IsOrdered q _ h (λ c. refl) (λ c. refl)
      (λ c kids. All-remove (λ e. IsRanked h e.1) zone.meta.name c.children kids) o

pub SameRanks-detach :
    (old : ℕ) (zone : HostedZone) (h : List Zone) → SameRanks (detach old zone h) h
SameRanks-detach old zone h =
    detach_cases (λ k. SameRanks k h) old zone h (λ q r. r) λ p. SameRanks-update p _ h (λ c. refl)

pub append-IsOrdered :
    (h : List Zone) (s : Text) (key : ZoneKey) → IsOrdered h → IsOrdered (h ++ new_zone s key ∷ [])
unfolding new_zone
append-IsOrdered h s key o = record {
  ranked =
      All-append _ h (new_zone s key ∷ [])
        (Children-imp (IsRanked h) _ h (append-SameRanks h (new_zone s key)) o.ranked) (tt, tt);
  fitting = All-append NamesFit h (new_zone s key ∷ []) o.fitting ((λ ne. tt), tt);
}

pub new_zone-not-IsRanked :
    (h : List Zone) (s : Text) (key : ZoneKey) → ¬ IsRanked (h ++ new_zone s key ∷ []) (length h)
unfolding new_zone
new_zone-not-IsRanked h s key (z, e, ne) =
    let same : some z ≡ some (new_zone s key) = sym e ∙ get_elem?-append_end h (new_zone s key) in
    ne (cc same)
