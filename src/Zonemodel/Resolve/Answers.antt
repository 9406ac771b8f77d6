-- ===== src/Zonemodel/Resolve/Answers.antt =====
-- `ResolveFQDN` as a whole.
use kubedns.Prelude.{
  Bool-cases, length, get_elem?, is_empty, ne-nil_of_is_empty, nil_of_is_empty, Any, length-append,
  Text, dot, ℕ, ◌≤◌, ◌<◌, ◌≡◌, refl, sym, ap, ◌∙◌, ◌⊎◌, inl, inr, true, none, some, List, [], ◌∷◌,
  reverse, arith,
}
use kubedns.External.{External, Documented}
use kubedns.Zonemodel.Model.{Zone}
use kubedns.Zonemodel.Outcome.{ok, ◌>>=◌}
use kubedns.Zonemodel.Resolve.{Index, Forwarded, matches, answer, resolve_fqdn}
use kubedns.Zonemodel.Resolve.Matching.{Covers, matches-longest}
use kubedns.Zonemodel.Resolve.Forwarding.{
  IsRelative, IsNested, IsResponsible, Descent, forward-Ends,
}
use kubedns.Zonemodel.Resolve.Walking.{HeadIsLabel, walk_names, walk_labels-eq-walk_names}
use kubedns.Zonemodel.Names.Laws.{has_suffix_dot-nil}
use mathlib.Core.List.{reverse-reverse, reverse-cons}

module _ (x : External) (d : Documented x) where
  -- A name that covers a fully qualified query is no longer than it.
  covering-length :
      (n q : Text) → x.is_fqdn q ≡ true → x.is_sub_domain n q ≡ true → length n ≤ length q
  covering-length n q hq sub = ground (
    arith,
    d.is_sub_domain_length n q sub,
    d.fqdn_lem n,
    d.fqdn_lem q,
    length-append n (dot ∷ []),
  )

  Any-covering :
      (names : List Text) (q r : Text)
      → x.is_fqdn q ≡ true
      → Any (Covers x q r) names
      → length r ≤ length q
  Any-covering [] q r h a = absurd a
  Any-covering (n ∷ names) q r h (inl (e, sub)) =
      omega (arith, ap (length {A = ℕ}) e, covering-length n q h sub)
  Any-covering (n ∷ names) q r h (inr a) = Any-covering names q r h a

  matches-fits : (z : Zone) (q : Text) → x.is_fqdn q ≡ true → length (matches x z q) ≤ length q
  matches-fits z q h = elim ((matches-longest x z q).0) [
    | inl e ↦ omega (arith, ap (length {A = ℕ}) e)
    | inr a ↦ Any-covering z.names q _ h a
  ]

  HeadIsLabel-reverse :
      (s : Text) (labels rev : List Text)
      → IsRelative s
      → x.split_domain_name s ≡ labels
      → reverse labels ≡ rev
      → HeadIsLabel rev
  HeadIsLabel-reverse s labels [] rel e h = tt
  HeadIsLabel-reverse s labels (l ∷ ls) rel e h =
      d.split_domain_name_last s l (reverse ls) rel
        (e ∙ sym (reverse-reverse labels) ∙ ap reverse h ∙ reverse-cons l ls)

  -- On a model whose children are nested zones, and with more fuel than the query is long,
  -- `ResolveFQDN` never panics and never runs out: either no name of the zone covers the query
  -- and the answer is empty; or the descent that is meant leads from the zone, by the name that
  -- covers the query, to a responsible zone and a rest of the query, and the answer is that of the
  -- walk over the labels of this rest.
  pub resolve_fqdn_lem :
      (index : Index) (fuel : ℕ) (heap : List Zone) (p : ℕ) (z : Zone) (name : Text)
      → IsNested heap
      → get_elem? heap p ≡ some z
      → length (x.fqdn name) < fuel
      → ((matches x z (x.fqdn name) ≡ []) × (resolve_fqdn fuel x index heap p name ≡ ok none))
        ⊎ ((f : Forwarded) × IsResponsible x heap f
            × Descent x heap (matches x z (x.fqdn name)) (x.fqdn name) p [] f
            × (resolve_fqdn fuel x index heap p name ≡ (
                walk_names x index f.zone (reverse (x.split_domain_name f.relative)) f.current [] []
                >>= λ w. ok (some (answer f w)))))
  unfolding resolve_fqdn
  resolve_fqdn_lem index fuel heap p z name nested e h =
      elim (Bool-cases (is_empty (matches x z (x.fqdn name)))) [
        | inl none_covers ↦ inl (nil_of_is_empty _ none_covers, rw (e, none_covers))
        | inr covers ↦
            let (f, eq, (resp, walk)) =
              forward-Ends x d fuel heap (matches x z (x.fqdn name)) (x.fqdn name) p [] z nested h
                (ne-nil_of_is_empty _ covers) (matches-fits z (x.fqdn name) (d.is_fqdn-fqdn name))
                e in
            inr (
              f,
              resp,
              walk,
              rw (
                e,
                covers,
                eq,
                walk_labels-eq-walk_names x d index f.zone
                    (reverse (x.split_domain_name f.relative)) f.current [] [] resp.named
                    has_suffix_dot-nil
                    (inr (HeadIsLabel-reverse f.relative _ _ resp.relative refl refl)),
              ),
            )
      ]
