-- ===== src/Zonemodel/Resolve/Gathering.antt =====
-- `ResolveIP`: which answers are meant, and how the loop over the children puts them together.
use kubedns.Prelude.{
  get_elem?, All, Any, Text, ℕ, zero, suc, ◌≡◌, refl, ◌≢◌, ◌⊎◌, inl, inr, some, List, [], ◌∷◌, ◌++◌,
}
use kubedns.External.{External}
use kubedns.Api.{CoreDnsEntry}
use kubedns.Zonemodel.Model.{Zone}
use kubedns.Zonemodel.Outcome.{Outcome, ok, err}
use kubedns.Zonemodel.Resolve.{Index, Info, gather, entries, failed, Lookup}
use kubedns.Zonemodel.Resolve.Addresses.{products, known_by}

-- The zones below `p`: every pointer leads to a zone, and no path of children is longer than `n`.
abbrev pub Depth : List Zone → ℕ → ℕ → Type 0
Depth heap zero p = ⊥
Depth heap (suc n) p =
    (z : Zone) × (get_elem? heap p ≡ some z) × All (λ c. Depth heap n c.1) z.children

-- A path of children from the zone at `p`, under the suffixes given, to the zone `w` at `q`, with
-- the names that `w` has at its end: every zone on the path puts its names before the suffixes.
pub data Below (x : External) (heap : List Zone)
    : ℕ → List Text → ℕ → Zone → List Text → Type 0 where
  here :
      (p : ℕ) (fqdns : List Text) (z : Zone)
      → get_elem? heap p ≡ some z
      → Below x heap p fqdns p z (products x z.names fqdns)
  down :
      (p : ℕ) (fqdns : List Text) (z : Zone) (c q : ℕ) (w : Zone) (names : List Text)
      → get_elem? heap p ≡ some z
      → Any (λ k. k.1 ≡ c) z.children
      → Below x heap c (products x z.names fqdns) q w names
      → Below x heap p fqdns q w names

abbrev pub Mem : Info → List Info → Type 0
Mem i list = Any (λ j. j ≡ i) list

abbrev pub Within : List Info → List Info → Type 0
Within l list = (i : Info) → Mem i l → Mem i list

-- The answer of the zone at `q`: all its entries, under the names that they have in the zone.
abbrev pub IsAnswer : External → ℕ → List Text → List CoreDnsEntry → Info → Type 0
IsAnswer x q names es i =
    (i.zone ≡ some q)
    × (i.zone_names ≡ names)
    × (i.entries ≡ es)
    × (i.entry_names ≡ known_by x es names)

Mem-append_left : (i : Info) (l k : List Info) → Mem i l → Mem i (l ++ k)
Mem-append_left i [] k h = absurd h
Mem-append_left i (j ∷ l) k (inl h) = inl h
Mem-append_left i (j ∷ l) k (inr h) = inr (Mem-append_left i l k h)

Mem-append_right : (i : Info) (l k : List Info) → Mem i k → Mem i (l ++ k)
Mem-append_right i [] k h = h
Mem-append_right i (j ∷ l) k h = inr (Mem-append_right i l k h)

All-both_append : (P : Info → Type 0) (l k : List Info) → All P l → All P k → All P (l ++ k)
All-both_append P [] k h g = g
All-both_append P (j ∷ l) k h g = (h.0, All-both_append P l k h.1 g)

All-imp_info : (P Q : Info → Type 0) (l : List Info) → ((i : Info) → P i → Q i) → All P l → All Q l
All-imp_info P Q [] f h = tt
All-imp_info P Q (i ∷ l) f h = (f i h.0, All-imp_info P Q l f h.1)

module _ (x : External) (index : Index) (heap : List Zone) (ip : Text) where
  abbrev pub looked_up : Zone → Lookup
  looked_up w = index.lookup_ip w.source w.key ip

  -- An answer of a zone below `p`, which has entries for the address.
  abbrev pub Serves : ℕ → List Text → Info → Type 0
  Serves p fqdns i =
      (q : ℕ) × (w : Zone) × (names : List Text) × Below x heap p fqdns q w names
      × (looked_up w ≡ entries i.entries)
      × (i.entries ≢ [])
      × IsAnswer x q names i.entries i

  -- The answers are just those of the zones below `p` that have entries for the address.
  abbrev pub IsExact : ℕ → List Text → List Info → Type 0
  IsExact p fqdns list =
      All (Serves p fqdns) list
      × ((q : ℕ) (w : Zone) (names : List Text) (e : CoreDnsEntry) (es : List CoreDnsEntry)
          → Below x heap p fqdns q w names
          → looked_up w ≡ entries (e ∷ es)
          → (i : Info) × Mem i list × IsAnswer x q names (e ∷ es) i)

  -- The index failed for a zone below `p`.
  abbrev pub IsFailure : ℕ → List Text → Text → Type 0
  IsFailure p fqdns e =
      (q : ℕ) × (w : Zone) × (names : List Text) × Below x heap p fqdns q w names
      × (looked_up w ≡ failed e)

  abbrev pub Resolves : ℕ → List Text → Outcome (List Info) → Type 0
  Resolves p fqdns r =
      ((list : List Info) × (r ≡ ok list) × IsExact p fqdns list)
      ⊎ ((e : Text) × (r ≡ err e) × IsFailure p fqdns e)

  -- What the loop over children makes of their answers.
  abbrev pub Gathers :
      (Info → Type 0) → List Text → List Info → List (Text × ℕ) → Outcome (List Info) → Type 0
  Gathers P fqdns result children r =
      ((list : List Info) × (r ≡ ok list)
        × All P list
        × Within result list
        × All (λ c. (l : List Info) × IsExact c.1 fqdns l × Within l list) children)
      ⊎ ((e : Text) × (r ≡ err e) × Any (λ c. IsFailure c.1 fqdns e) children)

  gather_more :
      (P : Info → Type 0) (fqdns : List Text) (result l : List Info) (c : Text × ℕ)
      (rest : List (Text × ℕ)) (r : Outcome (List Info))
      → IsExact c.1 fqdns l
      → Gathers P fqdns (result ++ l) rest r
      → Gathers P fqdns result (c ∷ rest) r
  gather_more P fqdns result l c rest r exact (inl (list, e, all, within, more)) = inl (
    list,
    e,
    all,
    (λ i h. within i (Mem-append_left i result l h)),
    ((l, exact, λ i h. within i (Mem-append_right i result l h)), more),
  )
  gather_more P fqdns result l c rest r exact (inr (e, eq, f)) = inr (e, eq, inr f)

  pub gather-Gathers :
      (ask : ℕ → Outcome (List Info)) (P : Info → Type 0) (fqdns : List Text) (result : List Info)
      (children : List (Text × ℕ))
      → All P result
      → All (λ c. ((i : Info) → Serves c.1 fqdns i → P i) × Resolves c.1 fqdns (ask c.1)) children
      → Gathers P fqdns result children (gather ask result children)
  unfolding gather
  gather-Gathers ask P fqdns result [] h hc = inl (result, refl, h, (λ i m. m), tt)
  gather-Gathers ask P fqdns result ((k, q) ∷ rest) h ((lift, inl (l, e, exact)), hc) = rw e (
      gather_more P fqdns result l (k, q) rest _ exact
        (gather-Gathers ask P fqdns (result ++ l) rest
          (All-both_append P result l h (All-imp_info (Serves q fqdns) P l lift exact.0)) hc))
  gather-Gathers ask P fqdns result ((k, q) ∷ rest) h ((lift, inr (e, eq, f)), hc) =
      rw eq (inr (e, refl, inl f))
