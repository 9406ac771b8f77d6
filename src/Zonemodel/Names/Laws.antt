-- ===== src/Zonemodel/Names/Laws.antt =====
-- What `Rdn` and `Join` compute.
use kubedns.Prelude.{
  if◌then◌else◌, nat_beq_iff, Bool-cases, ◌==◌, nat_eq, length, take, length-append, length-take,
  Text, text, text_beq, text_eq, dot, has_suffix_dot, ℕ, zero, suc, ◌-◌, ◌≤◌, ◌≡◌, refl, sym, ap,
  ◌∙◌, ◌≢◌, ◌⊎◌, inl, inr, true, false, some, [], ◌∷◌, ◌++◌, arith,
}
use native.Mathlib.Numerals.{unary_clauses}
use mathlib.Core.List.{append-nil, append_assoc}
use kubedns.Zonemodel.Names.{rdn_loop, rdn, External, join}
use kubedns.External.{Documented}
use mathlib.Core.Option

abbrev pub dots : ℕ → Text
dots zero = []
dots (suc n) = dot ∷ dots n

-- A text that ends in a dot is its prefix and the dot.
take_before_dot : (s : Text) → has_suffix_dot s ≡ true → take (length s - 1) s ++ dot ∷ [] ≡ s
unfolding has_suffix_dot
take_before_dot [] h = cc
take_before_dot (c ∷ []) h = ground (arith, nat_beq_iff c dot)
take_before_dot (c ∷ d ∷ s) h =
    simp unary_clauses (ap (◌∷◌ c) (simp unary_clauses at (take_before_dot (d ∷ s) h)))

dots-snoc : (n : ℕ) → dots n ++ dot ∷ [] ≡ dot ∷ dots n
dots-snoc zero = refl
dots-snoc (suc n) = ap (◌∷◌ dot) (dots-snoc n)

length-take_pred : (s : Text) → length (take (length s - 1) s) ≡ length s - 1
length-take_pred s = length-take (length s - 1) s (omega arith)

-- A decomposition of a text into a part with no dot at its end and the dots behind it.
abbrev pub Stripped : Text → Text → Type 0
Stripped s t = (n : ℕ) × (s ≡ t ++ dots n) × (has_suffix_dot t ≡ false)

rdn_loop-Stripped : (fuel : ℕ) (s : Text) → length s ≤ fuel → Stripped s (rdn_loop fuel s)
unfolding rdn_loop
rdn_loop-Stripped zero [] h = (0, refl, unfold has_suffix_dot in refl)
rdn_loop-Stripped zero (c ∷ s) h = absurd (omega arith)
rdn_loop-Stripped (suc f) s h = elim (Bool-cases (has_suffix_dot s)) [
  | inr plain ↦ rw plain (0, sym (append-nil s), plain)
  | inl dotted ↦ rw dotted (
      longer dotted
        (rdn_loop-Stripped f (take (length s - 1) s) (omega (arith, length-take_pred s))))
]
  where
    longer :
        has_suffix_dot s ≡ true
        → Stripped (take (length s - 1) s) (rdn_loop f (take (length s - 1) s))
        → Stripped s (rdn_loop f (take (length s - 1) s))
    longer dotted (n, e, plain) = (suc n, more, plain)
      where
        more : s ≡ rdn_loop f (take (length s - 1) s) ++ dots (suc n)
        more =
            sym (take_before_dot s dotted)
            ∙ ap (λ t. t ++ dot ∷ []) e
            ∙ append_assoc _ (dots n) _
            ∙ ap (◌++◌ (rdn_loop f (take (length s - 1) s))) (dots-snoc n)

-- `Rdn` takes off all the dots at the end and nothing else.
pub rdn-Stripped : (s : Text) → Stripped s (rdn s)
unfolding rdn
rdn-Stripped s = rdn_loop-Stripped (length s) s (omega arith)

pub rdn-length-le : (s : Text) → length (rdn s) ≤ length s
rdn-length-le s =
    let (n, e, plain) = rdn-Stripped s in omega (arith, ap length e, length-append (rdn s) (dots n))

-- A text that does not end in a dot is left alone.
pub rdn_plain : (s : Text) → has_suffix_dot s ≡ false → rdn s ≡ s
unfolding rdn rdn_loop
rdn_plain [] h = refl
rdn_plain (c ∷ s) h = rw h

pub has_suffix_dot-rdn : (s : Text) → has_suffix_dot (rdn s) ≡ false
has_suffix_dot-rdn s = (rdn-Stripped s).2

-- A second `Rdn` changes nothing.
pub rdn-rdn : (s : Text) → rdn (rdn s) ≡ rdn s
rdn-rdn s = rdn_plain (rdn s) (has_suffix_dot-rdn s)

-- What `Join` makes of two labels that are not both empty.
abbrev pub joined : External → Text → Text → Text
joined x l [] = if l == text "." then text "." else x.fqdn l
joined x l (c ∷ s) = if (c ∷ s) == text "." then l ++ text "." else x.fqdn (l ++ dot ∷ c ∷ s)

-- An empty second label is dropped, a root label gives the final dot, and any other pair is joined
-- by a dot and made fully qualified; with one label not empty there is no index out of range.
pub join_two :
    (x : External) (l r : Text) → (l ≢ []) ⊎ (r ≢ []) → join x (l ∷ r ∷ []) ≡ some (joined x l r)
unfolding join
join_two x [] [] (inl h) = absurd (h refl)
join_two x [] [] (inr h) = absurd (h refl)
join_two x (c ∷ l) [] h = ground arith
join_two x [] (d ∷ r) h = ground arith
join_two x (c ∷ l) (d ∷ r) h = ground arith

dotted_of_dots :
    (c : ℕ) (t : Text) (n m : ℕ) → (c ∷ t) ++ dots n ≡ dots m → has_suffix_dot (c ∷ t) ≡ true
unfolding has_suffix_dot
dotted_of_dots c [] n zero e = cc
dotted_of_dots c [] n (suc m) e = ground (arith, nat_beq_iff c dot)
dotted_of_dots c (d ∷ t) n zero e = cc
dotted_of_dots c (d ∷ t) n (suc m) e = dotted_of_dots d t n m (cc)

pub has_suffix_dot-nil : has_suffix_dot [] ≡ false
unfolding has_suffix_dot
has_suffix_dot-nil = refl

relative-tail : (c : ℕ) (s : Text) → has_suffix_dot (c ∷ s) ≡ false → has_suffix_dot s ≡ false
unfolding has_suffix_dot
relative-tail c [] h = refl
relative-tail c (d ∷ s) h = h

stripped_unique :
    (s t : Text) (m n : ℕ)
    → has_suffix_dot s ≡ false
    → has_suffix_dot t ≡ false
    → s ++ dots m ≡ t ++ dots n
    → s ≡ t
stripped_unique [] [] m n hs ht e = refl
stripped_unique [] (c ∷ t) m n hs ht e = cc (dotted_of_dots c t n m (sym e))
stripped_unique (c ∷ s) [] m n hs ht e = cc (dotted_of_dots c s m n e)
stripped_unique (c ∷ s) (d ∷ t) m n hs ht e =
    let tails : s ≡ t =
      stripped_unique s t m n (relative-tail c s hs) (relative-tail d t ht) (cc) in
    let heads : c ≡ d = cc in cc

-- Dots behind a name that does not end in one are taken off.
pub rdn-append-dots : (s : Text) (n : ℕ) → has_suffix_dot s ≡ false → rdn (s ++ dots n) ≡ s
rdn-append-dots s n h =
    let (m, e, plain) = rdn-Stripped (s ++ dots n) in
    stripped_unique (rdn (s ++ dots n)) s m n plain h (sym e)

relative-append :
    (l : Text) (c : ℕ) (r : Text)
    → has_suffix_dot (c ∷ r) ≡ false
    → has_suffix_dot (l ++ dot ∷ c ∷ r) ≡ false
unfolding has_suffix_dot
relative-append [] c r h = h
relative-append (b ∷ []) c r h = h
relative-append (b ∷ d ∷ l) c r h = relative-append (d ∷ l) c r h

relative-ne-root : (l : Text) → has_suffix_dot l ≡ false → text_beq l (text ".") ≡ false
unfolding has_suffix_dot
relative-ne-root [] h = refl
relative-ne-root (c ∷ []) h = ground arith
relative-ne-root (c ∷ d ∷ l) h = ground arith

-- A label before a relative name.
abbrev pub dotted : Text → Text → Text
dotted l [] = l
dotted l (c ∷ r) = l ++ dot ∷ c ∷ r

pub relative-dotted :
    (l r : Text)
    → has_suffix_dot l ≡ false ⊎ (r ≢ [])
    → has_suffix_dot r ≡ false
    → has_suffix_dot (dotted l r) ≡ false
relative-dotted l [] (inl h) hr = h
relative-dotted l [] (inr h) hr = absurd (h refl)
relative-dotted l (c ∷ r) h hr = relative-append l c r hr

pub dotted-ne-nil : (l r : Text) → (l ≢ []) ⊎ (r ≢ []) → dotted l r ≢ []
dotted-ne-nil [] [] (inl h) e = h refl
dotted-ne-nil [] [] (inr h) e = h refl
dotted-ne-nil (c ∷ l) [] h e = cc
dotted-ne-nil [] (c ∷ r) h e = cc
dotted-ne-nil (c ∷ l) (d ∷ r) h e = cc

module _ (x : External) (d : Documented x) where
  fqdn-ne-nil : (s : Text) → x.fqdn s ≢ []
  fqdn-ne-nil s e = ground (
    arith,
    d.fqdn_lem s,
    d.fqdn_suffix s,
    d.is_fqdn-fqdn s,
    length-append s (dot ∷ []),
    has_suffix_dot-nil,
    ap (length {A = ℕ}) e,
  )

  pub joined-ne-nil : (l r : Text) → joined x l r ≢ []
  joined-ne-nil l [] e = ground (arith, fqdn-ne-nil l)
  joined-ne-nil l (c ∷ r) e =
      ground
        (arith, fqdn-ne-nil (l ++ dot ∷ c ∷ r), length-append l (dot ∷ []), ap (length {A = ℕ}) e)

  -- `Fqdn` adds one dot to a relative name, and `Rdn` takes it off again.
  pub rdn-fqdn : (s : Text) → has_suffix_dot s ≡ false → rdn (x.fqdn s) ≡ s
  rdn-fqdn s h = ground (arith, d.fqdn_lem s, d.fqdn_suffix s, rdn-append-dots s 1 h)

  pub rdn-joined :
      (l r : Text)
      → has_suffix_dot l ≡ false ⊎ (r ≢ [])
      → has_suffix_dot r ≡ false
      → rdn (joined x l r) ≡ dotted l r
  rdn-joined l [] (inl h) hr = rw (relative-ne-root l h) (rdn-fqdn l h)
  rdn-joined l [] (inr h) hr = absurd (h refl)
  rdn-joined l (c ∷ r) h hr =
      rw (relative-ne-root (c ∷ r) hr) (rdn-fqdn (l ++ dot ∷ c ∷ r) (relative-append l c r hr))

  -- For a label and a relative name that are not both empty and do not end in a dot, where a label
  -- before a name may: `Join(l, rel)` does not panic, and `Rdn(Join(l, rel))` is the label before
  -- the name, with a dot between them, or the label alone if the name is empty.
  pub rdn-join :
      (l r : Text)
      → (l ≢ []) ⊎ (r ≢ [])
      → has_suffix_dot l ≡ false ⊎ (r ≢ [])
      → has_suffix_dot r ≡ false
      → Option.map rdn (join x (l ∷ r ∷ [])) ≡ some (dotted l r)
  rdn-join l r n h hr = rw (join_two x l r n) (ap some (rdn-joined l r h hr))
