-- ===== src/Zonemodel/Resolve/Forwarding.antt =====
-- The walk of `ResolveFQDN` down the nested zones: each step takes a name off the query, so the
-- walk ends, and no slice is out of range.
use kubedns.Prelude.{
  Bool-cases, length, get_elem?, take, is_empty, ne-nil_of_is_empty, nil_of_is_empty, length-pos,
  All, Any, length-append, length-take, All-get_elem?, Text, dot, has_suffix_dot, ℕ, zero, suc, ◌+◌,
  ◌-◌, ◌≤◌, ◌<◌, ◌≡◌, refl, sym, subst, ap, ◌≢◌, inl, inr, true, false, Option, none, some, List,
  [], ◌∷◌, ◌++◌, arith,
}
use kubedns.External.{External, Documented}
use kubedns.Zonemodel.Model.{Zone}
use kubedns.Zonemodel.Outcome.{Outcome, ok}
use kubedns.Zonemodel.Resolve.{matches, cut_end, find_nested, Forwarded, forward, rdn}
use kubedns.Zonemodel.Resolve.Matching.{Covers, matches-longest}
use kubedns.Zonemodel.Names.Laws.{
  Stripped, rdn-Stripped, join_two, has_suffix_dot-rdn, joined, joined-ne-nil, rdn-length-le,
}

-- No dot at the end, as `Rdn` leaves a name.
abbrev pub IsRelative : Text → Type 0
IsRelative s = has_suffix_dot s ≡ false

-- A pointer to a zone whose names are all relative.
abbrev pub PointsToNested : List Zone → Text × ℕ → Type 0
PointsToNested heap c = (z : Zone) × (get_elem? heap c.1 ≡ some z) × All IsRelative z.names

-- All children of all zones are such pointers.
abbrev pub IsNested : List Zone → Type 0
IsNested heap = All (λ z. All (PointsToNested heap) z.children) heap

-- The call ends with a value for which `P` holds.
abbrev pub Ends {ℓ κ} : {A : Type ℓ} → (A → Type κ) → Outcome A → Type (ℓ ⊔ κ)
Ends {A} P r = (a : A) × (r ≡ ok a) × P a

-- A child none of whose names covers the text.
abbrev pub Misses : External → List Zone → Text → Text × ℕ → Type 0
Misses x heap s c = (z : Zone) × (get_elem? heap c.1 ≡ some z) × (matches x z s ≡ [])

-- The first of the children that matches, with the zone it points to.
abbrev pub FirstMatch : External → List Zone → Text → List (Text × ℕ) → ℕ → Zone → Type 0
FirstMatch x heap s children q z =
    (before : List (Text × ℕ)) × (k : Text) × (after : List (Text × ℕ)) × (children
      ≡ before ++ (k, q) ∷ after)
    × All (Misses x heap s) before
    × (get_elem? heap q ≡ some z)
    × (matches x z s ≢ [])

-- What is left of a query without as many bytes at its end as the name of the zone has, and
-- without the dots before them.
abbrev pub SplitsOff : Text → Text → Text → Type 0
SplitsOff zn sub rest =
    (front : Text) × (end : Text) × (sub ≡ front ++ end)
    × (length end ≡ length zn)
    × Stripped front rest

-- The descent as it is meant, from the zone at `p` with the name `zn` that covers the query `sub`:
-- the name is joined before the names so far; the rest of the query is handed to the first child
-- that covers it, and without such a child the descent ends.
pub data Descent (x : External) (heap : List Zone)
    : Text → Text → ℕ → Text → Forwarded → Type 0 where
  stop :
      (zn sub rest cur : Text) (p : ℕ) (z : Zone)
      → get_elem? heap p ≡ some z
      → SplitsOff zn sub rest
      → All (Misses x heap rest) z.children
      → Descent x heap zn sub p cur
          (record { zone = z; pointer = p; current = joined x zn cur; relative = rest })
  down :
      (zn sub rest cur : Text) (p q : ℕ) (z c : Zone) (f : Forwarded)
      → get_elem? heap p ≡ some z
      → SplitsOff zn sub rest
      → FirstMatch x heap rest z.children q c
      → Descent x heap (matches x c rest) rest q (joined x zn cur) f
      → Descent x heap zn sub p cur f

-- What the search for a nested zone finds: no child that matches, or one with its match.
abbrev NestedResult : External → List Zone → Text → List (Text × ℕ) → Option (Text × ℕ) → Type 0
NestedResult x heap s children none = All (Misses x heap s) children
NestedResult x heap s children (some (r, q)) =
    (z : Zone) × FirstMatch x heap s children q z × (r ≡ matches x z s) × (length r ≤ length s)

NestedResult-cons :
    (x : External) (heap : List Zone) (s : Text) (c : Text × ℕ) (rest : List (Text × ℕ))
    (o : Option (Text × ℕ))
    → Misses x heap s c
    → NestedResult x heap s rest o
    → NestedResult x heap s (c ∷ rest) o
NestedResult-cons x heap s c rest none m h = (m, h)
NestedResult-cons x heap s c rest (some (r, q)) m (z, first, same, le) =
    let (before, k, after, e, miss, located, hit) = first in
    (z, (c ∷ before, k, after, ap (λ l. c ∷ l) e, (m, miss), located, hit), same, le)

-- Where the walk must end: at a zone of the heap, with a relative rest of the query that no child
-- of the zone covers.
pub record IsResponsible (x : External) (heap : List Zone) (f : Forwarded) : Type 0 where
  pub located : get_elem? heap f.pointer ≡ some f.zone
  pub relative : IsRelative f.relative
  pub deepest : All (Misses x heap f.relative) f.zone.children
  pub named : f.current ≢ []

take_rest :
    (n : ℕ) (s : Text)
    → n ≤ length s
    → (end : Text) × (s ≡ take n s ++ end) × (n + length end ≡ length s)
take_rest zero s h = (s, refl, omega arith)
take_rest (suc n) [] h = absurd (omega arith)
take_rest (suc n) (c ∷ s) h =
    let (end, e, total) = take_rest n s (omega arith) in
    (end, ap (λ r. c ∷ r) e, omega (arith, total))

module _ (x : External) (d : Documented x) where
  -- A relative name that covers a relative text is no longer than it.
  relative-length :
      (n s : Text) → IsRelative n → IsRelative s → x.is_sub_domain n s ≡ true → length n ≤ length s
  relative-length n s hn hs sub = ground (
    arith,
    d.is_sub_domain_length n s sub,
    d.fqdn_lem n,
    d.fqdn_lem s,
    d.fqdn_suffix n,
    d.fqdn_suffix s,
    length-append n (dot ∷ []),
    length-append s (dot ∷ []),
  )

  -- The same for fully qualified ones.
  qualified-length :
      (n s : Text)
      → x.is_fqdn n ≡ true
      → x.is_fqdn s ≡ true
      → x.is_sub_domain n s ≡ true
      → length n ≤ length s
  qualified-length n s hn hs sub =
      ground (arith, d.is_sub_domain_length n s sub, d.fqdn_lem n, d.fqdn_lem s)

  Any-length :
      (names : List Text) (s r : Text)
      → All IsRelative names
      → IsRelative s
      → Any (Covers x s r) names
      → length r ≤ length s
  Any-length [] s r h hs a = absurd a
  Any-length (n ∷ names) s r h hs (inl (e, sub)) =
      omega (arith, ap (length {A = ℕ}) e, relative-length n s h.0 hs sub)
  Any-length (n ∷ names) s r h hs (inr a) = Any-length names s r h.1 hs a

  matches-length :
      (z : Zone) (s : Text)
      → All IsRelative z.names
      → IsRelative s
      → length (matches x z s) ≤ length s
  matches-length z s h hs = elim ((matches-longest x z s).0) [
    | inl e ↦ omega (arith, ap (length {A = ℕ}) e)
    | inr a ↦ Any-length z.names s _ h hs a
  ]

  cut_end-Ends :
      (sub zn : Text)
      → length zn ≤ length sub
      → cut_end sub zn ≡ ok (take (length sub - length zn) sub)
  unfolding cut_end
  cut_end-Ends sub zn h = ground arith

  split_off :
      (sub zn : Text)
      → length zn ≤ length sub
      → SplitsOff zn sub (rdn (take (length sub - length zn) sub))
  split_off sub zn le =
      let n = length sub - length zn in
      let (end, e, total) = take_rest n sub (omega arith) in
      (take n sub, end, e, omega (arith, total), rdn-Stripped (take n sub))

  find_nested-Ends :
      (heap : List Zone) (s : Text) (children : List (Text × ℕ))
      → IsRelative s
      → All (PointsToNested heap) children
      → Ends (NestedResult x heap s children) (find_nested x heap s children)
  unfolding find_nested
  find_nested-Ends heap s [] hs h = (none, refl, tt)
  find_nested-Ends heap s ((k, q) ∷ rest) hs ((z, e, names), h) =
      elim (Bool-cases (is_empty (matches x z s))) [
        | inl missed ↦
            let (o, eq, r) = find_nested-Ends heap s rest hs h in
            rw (e, find_nested, missed)
              (o, eq, NestedResult-cons x heap s (k, q) rest o (z, e, nil_of_is_empty _ missed) r)
        | inr hit ↦
            rw (e, find_nested, hit)
              (
                some (matches x z s, q),
                refl,
                (
                  z,
                  ([], k, rest, refl, tt, e, ne-nil_of_is_empty _ hit),
                  refl,
                  matches-length z s names hs,
                ),
              )
      ]

  -- Where the walk ends that begins at `p`.
  abbrev pub Arrives : List Zone → Text → Text → ℕ → Text → Forwarded → Type 0
  Arrives heap zn sub p cur f = IsResponsible x heap f × Descent x heap zn sub p cur f

  -- One round of the loop, after the search for a nested zone.
  forward_next :
      (f : ℕ) (heap : List Zone) (zn sub rest : Text) (p : ℕ) (cur : Text) (z : Zone)
      (o : Option (Text × ℕ))
      → get_elem? heap p ≡ some z
      → SplitsOff zn sub rest
      → NestedResult x heap rest z.children o
      → ((q : ℕ) (c : Zone)
          → get_elem? heap q ≡ some c
          → matches x c rest ≢ []
          → length (matches x c rest) ≤ length rest
          → Ends
              (Arrives heap (matches x c rest) rest q (joined x zn cur))
              (forward f x heap (matches x c rest) rest q (joined x zn cur)))
      → Ends (Arrives heap zn sub p cur) (elim o [
        | none ↦ ok (record { zone = z; pointer = p; current = joined x zn cur; relative = rest })
        | some (r, q) ↦ forward f x heap r rest q (joined x zn cur)
      ])
  forward_next f heap zn sub rest p cur z none e split r next = (
    record { zone = z; pointer = p; current = joined x zn cur; relative = rest },
    refl,
    (
      record { located = e; relative = split.4.2; deepest = r; named = joined-ne-nil x d zn cur },
      stop zn sub rest cur p z e split r,
    ),
  )
  forward_next f heap zn sub rest p cur z (some (r, q)) e split (c, first, same, le) next =
      let (before, k, after, parts, miss, ec, ne) = first in
      let (g, eq, (resp, walk)) = next q c ec ne (subst (λ n. length n ≤ length rest) same le) in
      (
        g,
        subst (λ n. forward f x heap n rest q (joined x zn cur) ≡ ok g) (sym same) eq,
        (resp, down zn sub rest cur p q z c g e split first walk),
      )

  -- From a name that fits the query, and with more fuel than the query is long, the walk down the
  -- nested zones ends without a panic at a responsible zone, and it is the descent that is meant.
  pub forward-Ends :
      (fuel : ℕ) (heap : List Zone) (zn sub : Text) (p : ℕ) (cur : Text) (z : Zone)
      → IsNested heap
      → length sub < fuel
      → zn ≢ []
      → length zn ≤ length sub
      → get_elem? heap p ≡ some z
      → Ends (Arrives heap zn sub p cur) (forward fuel x heap zn sub p cur)
  unfolding forward
  forward-Ends zero heap zn sub p cur z nested h hz le e = absurd (omega arith)
  forward-Ends (suc f) heap zn sub p cur z nested h hz le e =
      let front = take (length sub - length zn) sub in
      let rest = rdn front in
      let (o, found, r) =
        find_nested-Ends heap rest z.children (has_suffix_dot-rdn front)
          (All-get_elem? (λ z. All (PointsToNested heap) z.children) heap p z nested e) in
      let shorter : length rest < f = omega (
        arith,
        rdn-length-le front,
        length-take (length sub - length zn) sub (omega arith),
        length-pos zn hz,
      ) in
      rw (cut_end-Ends sub zn le, join_two x zn cur (inl hz), e, found)
        (forward_next f heap zn sub rest p cur z o e (split_off sub zn le) r λ q c ec ne le'.
          forward-Ends f heap (matches x c rest) rest q (joined x zn cur) c nested shorter ne le'
            ec)
