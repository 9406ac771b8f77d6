-- ===== src/Zonemodel/Resolve/Reverse.antt =====
-- `ResolveIP`: the answers are just those of the zones below, each under the names it has there.
use kubedns.Prelude.{
  get_elem?, All, Any, Text, ℕ, zero, suc, ◌≤◌, ◌≡◌, refl, sym, ◌∙◌, subst, inl, inr, some, List,
  [], ◌∷◌, arith,
}
use kubedns.External.{External}
use kubedns.Api.{CoreDnsEntry}
use kubedns.Zonemodel.Model.{Zone}
use kubedns.Zonemodel.Outcome.{Outcome}
use kubedns.Zonemodel.Resolve.{
  Index, Info, own_info, gather, resolve_ip_from, entries, failed, Lookup,
}
use kubedns.Zonemodel.Resolve.Addresses.{products, expand-eq-products, expand_entries-eq-known_by}
use kubedns.Zonemodel.Resolve.Gathering.{
  Depth, Below, here, down, Mem, Within, IsAnswer, Serves, IsExact, IsFailure, Resolves, Gathers,
  looked_up, gather-Gathers,
}

module _ (x : External) (index : Index) (heap : List Zone) (ip : Text) where
  own_info-Serves :
      (p : ℕ) (fqdns : List Text) (z : Zone) (list : List CoreDnsEntry)
      → get_elem? heap p ≡ some z
      → looked_up x index heap ip z ≡ entries list
      → All (Serves x index heap ip p fqdns) (own_info x p list (products x z.names fqdns))
  unfolding own_info
  own_info-Serves p fqdns z [] ez el = tt
  own_info-Serves p fqdns z (e ∷ es) ez el =
      let names = products x z.names fqdns in
      (
        (
          p,
          z,
          names,
          here p fqdns z ez,
          el,
          (λ n. cc n),
          (refl, refl, refl, expand_entries-eq-known_by x (e ∷ es) names []),
        ),
        tt,
      )

  own_info-Mem :
      (p : ℕ) (names : List Text) (e : CoreDnsEntry) (es : List CoreDnsEntry)
      → (i : Info) × Mem i (own_info x p (e ∷ es) names) × IsAnswer x p names (e ∷ es) i
  unfolding own_info
  own_info-Mem p names e es =
      (_, inl refl, (refl, refl, refl, expand_entries-eq-known_by x (e ∷ es) names []))

  -- The answers of the children, seen from their parent.
  child_answers :
      (ask : ℕ → Outcome (List Info)) (p n : ℕ) (fqdns : List Text) (z : Zone)
      (children : List (Text × ℕ))
      → get_elem? heap p ≡ some z
      → ((c : ℕ) → Any (λ k. k.1 ≡ c) children → Any (λ k. k.1 ≡ c) z.children)
      → ((c : ℕ) → Depth heap n c → Resolves x index heap ip c (products x z.names fqdns) (ask c))
      → All (λ c. Depth heap n c.1) children
      → All
          (λ c.
            ((i : Info)
              → Serves x index heap ip c.1 (products x z.names fqdns) i
              → Serves x index heap ip p fqdns i)
            × Resolves x index heap ip c.1 (products x z.names fqdns) (ask c.1))
          children
  child_answers ask p n fqdns z [] ez mem ih h = tt
  child_answers ask p n fqdns z ((k, c) ∷ rest) ez mem ih h = (
    (
      (λ i (q, w, names, path, more, ne, is).
          (q, w, names, down p fqdns z c q w names ez (mem c (inl refl)) path, more, ne, is)),
      ih c h.0,
    ),
    child_answers ask p n fqdns z rest ez (λ d m. mem d (inr m)) ih h.1,
  )

  -- A zone below a child is answered for by the child.
  child_answered :
      (fqdns names : List Text) (c q : ℕ) (w : Zone) (e : CoreDnsEntry) (es : List CoreDnsEntry)
      (children : List (Text × ℕ)) (list : List Info)
      → All (λ k. (l : List Info) × IsExact x index heap ip k.1 fqdns l × Within l list) children
      → Any (λ k. k.1 ≡ c) children
      → Below x heap c fqdns q w names
      → looked_up x index heap ip w ≡ entries (e ∷ es)
      → (i : Info) × Mem i list × IsAnswer x q names (e ∷ es) i
  child_answered fqdns names c q w e es [] list h m path el = absurd m
  child_answered fqdns names c q w e es (k ∷ rest) list ((l, exact, within), h) (inl same) path el =
      let (i, mem, is) =
        exact.1 q w names e es (subst (λ j. Below x heap j fqdns q w names) (sym same) path) el in
      (i, within i mem, is)
  child_answered fqdns names c q w e es (k ∷ rest) list (g, h) (inr m) path el =
      child_answered fqdns names c q w e es rest list h m path el

  -- Every zone below `p` is `p` itself or below one of its children.
  zone_answered :
      (p : ℕ) (fqdns : List Text) (z : Zone) (found : List CoreDnsEntry) (list : List Info)
      → get_elem? heap p ≡ some z
      → looked_up x index heap ip z ≡ entries found
      → Within (own_info x p found (products x z.names fqdns)) list
      → All
          (λ k.
            (l : List Info) × IsExact x index heap ip k.1 (products x z.names fqdns) l
            × Within l list)
          z.children
      → (q : ℕ) (w : Zone) (names : List Text) (e : CoreDnsEntry) (es : List CoreDnsEntry)
      → Below x heap p fqdns q w names
      → looked_up x index heap ip w ≡ entries (e ∷ es)
      → (i : Info) × Mem i list × IsAnswer x q names (e ∷ es) i
  zone_answered p fqdns z found list ez ef own h q w names e es (here _ _ _ ew) el =
      let same : z ≡ w = cc (sym ez ∙ ew) in
      let all : found ≡ e ∷ es = cc (
        sym ef
        ∙ subst (λ (v : Zone). looked_up x index heap ip v ≡ entries (e ∷ es)) (sym same) el) in
      let (i, mem, is) = own_info-Mem p (products x z.names fqdns) e es in
      (
        i,
        own i (subst (λ f. Mem i (own_info x p f (products x z.names fqdns))) (sym all) mem),
        subst (λ (v : Zone). IsAnswer x p (products x v.names fqdns) (e ∷ es) i) same is,
      )
  zone_answered p fqdns z found list ez ef own h q w names e es (down _ _ z' c _ _ _ ez' m path)
        el =
      let same : z' ≡ z = cc (sym ez' ∙ ez) in
      child_answered (products x z.names fqdns) names c q w e es z.children list h
        (subst (λ (v : Zone). Any (λ k. k.1 ≡ c) v.children) same m)
        (subst (λ (v : Zone). Below x heap c (products x v.names fqdns) q w names) same path) el

  -- A failing child fails its parent.
  failed_child :
      (p : ℕ) (fqdns : List Text) (z : Zone) (e : Text) (children : List (Text × ℕ))
      → get_elem? heap p ≡ some z
      → ((c : ℕ) → Any (λ k. k.1 ≡ c) children → Any (λ k. k.1 ≡ c) z.children)
      → Any (λ c. IsFailure x index heap ip c.1 (products x z.names fqdns) e) children
      → IsFailure x index heap ip p fqdns e
  failed_child p fqdns z e [] ez mem h = absurd h
  failed_child p fqdns z e (c ∷ rest) ez mem (inl (q, w, names, path, f)) =
      (q, w, names, down p fqdns z c.1 q w names ez (mem c.1 (inl refl)) path, f)
  failed_child p fqdns z e (c ∷ rest) ez mem (inr h) =
      failed_child p fqdns z e rest ez (λ d m. mem d (inr m)) h

  gathered-Resolves :
      (p : ℕ) (fqdns : List Text) (z : Zone) (found : List CoreDnsEntry) (r : Outcome (List Info))
      → get_elem? heap p ≡ some z
      → looked_up x index heap ip z ≡ entries found
      → Gathers x index heap ip
          (Serves x index heap ip p fqdns)
          (products x z.names fqdns)
          (own_info x p found (products x z.names fqdns))
          z.children
          r
      → Resolves x index heap ip p fqdns r
  gathered-Resolves p fqdns z found r ez ef (inl (list, e, all, within, kids)) =
      inl (list, e, (all, zone_answered p fqdns z found list ez ef within kids))
  gathered-Resolves p fqdns z found r ez ef (inr (e, eq, f)) =
      inr (e, eq, failed_child p fqdns z e z.children ez (λ c m. m) f)

  resolve_ip_zone :
      (n fuel : ℕ) (fqdns : List Text) (p : ℕ) (z : Zone) (lk : Lookup)
      → get_elem? heap p ≡ some z
      → looked_up x index heap ip z ≡ lk
      → All (λ c. Depth heap n c.1) z.children
      → ((c : ℕ)
          → Depth heap n c
          → Resolves x index heap ip c
              (products x z.names fqdns)
              (resolve_ip_from fuel x index heap ip (products x z.names fqdns) c))
      → Resolves x index heap ip p fqdns (resolve_ip_from (suc fuel) x index heap ip fqdns p)
  unfolding resolve_ip_from
  resolve_ip_zone n fuel fqdns p z (failed e) ez el h ih =
      rw (ez, el) (inr (e, refl, (p, z, products x z.names fqdns, here p fqdns z ez, el)))
  resolve_ip_zone n fuel fqdns p z (entries found) ez el h ih =
      let names = products x z.names fqdns in
      let ask = resolve_ip_from fuel x index heap ip names in
      rw (ez, el, expand-eq-products x z.names fqdns [])
        (gathered-Resolves p fqdns z found (gather ask (own_info x p found names) z.children) ez el
          (gather-Gathers x index heap ip ask (Serves x index heap ip p fqdns) names
            (own_info x p found names) z.children (own_info-Serves p fqdns z found ez el)
            (child_answers ask p n fqdns z z.children ez (λ c m. m) ih h)))

  -- When the pointers below `p` lead to zones and no path of children is longer than the fuel, the
  -- search for an address ends with just the answers of the zones below `p` that have entries for
  -- the address, each with all its entries under the names that the zone has at the end of the path;
  -- or it ends with the error of the index for one of these zones.
  pub resolve_ip_from-Resolves :
      (n fuel : ℕ) (fqdns : List Text) (p : ℕ)
      → Depth heap n p
      → n ≤ fuel
      → Resolves x index heap ip p fqdns (resolve_ip_from fuel x index heap ip fqdns p)
  resolve_ip_from-Resolves zero fuel fqdns p h le = absurd h
  resolve_ip_from-Resolves (suc n) zero fqdns p h le = absurd (omega arith)
  resolve_ip_from-Resolves (suc n) (suc fuel) fqdns p (z, e, h) le =
      resolve_ip_zone n fuel fqdns p z _ e refl h
        (λ c hc. resolve_ip_from-Resolves n fuel (products x z.names fqdns) c hc (omega arith))
