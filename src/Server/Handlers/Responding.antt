-- ===== src/Server/Handlers/Responding.antt =====
-- The handler of names on a model that calls of `AddZone` and `RemoveZone` lead to.
use kubedns.Prelude.{
  length, get_elem?, All, Text, ℕ, ◌<◌, ◌≡◌, refl, subst, ◌⊎◌, inl, inr, Option, none, some, List,
  [], ◌∷◌,
}
use kubedns.Zonemodel.Resolve.{
  first_delegation, Walk, delegated, arrived, Forwarded, answer, Info, resolve_fqdn, Index, Info,
  Lookup, entries, fetch, Walk, delegated, arrived, Forwarded, answer, matches, first_delegation,
  resolve_fqdn,
}
use kubedns.Zonemodel.Resolve
use kubedns.Zonemodel.Outcome.{Outcome, ok, err, panicked, unfinished, ◌>>=◌}
use kubedns.Zonemodel.Keys.{ZoneKey, new_zone_key}
use kubedns.Zonemodel.Model.{Zone, get_zone}
use kubedns.Server.Records.{zone_part, prepare_info}
use kubedns.Zonemodel.Histories.{Reach, reachable_resolve}
use kubedns.Server.Handlers.{
  answer_name, handle_names, split_slash, trim_prefix, path_zones, found_or_404, route, Response,
  or_error, Context, ObjectKey, External,
}
use kubedns.Api.{CoreDnsEntry}
use kubedns.Zonemodel.Resolve.Walking.{walk_names}
use kubedns.Zonemodel.Names.Laws.{dotted, joined}
use kubedns.External.{Documented}

-- The call returns a value or an error.
abbrev pub Settles : {A : Type 0} → Outcome A → Type 0
Settles (ok a) = Unit
Settles (err e) = Unit
Settles panicked = ⊥
Settles unfinished = ⊥

-- The handler sends a response.
abbrev pub Responds : Outcome Response → Type 0
Responds r = (a : Response) × (r ≡ ok a)

Settles-bind :
    {A B : Type 0} (m : Outcome A) (f : A → Outcome B)
    → Settles m
    → ((a : A) → Settles (f a))
    → Settles (m >>= f)
Settles-bind (ok a) f h g = g a
Settles-bind (err e) f h g = tt
Settles-bind panicked f h g = h
Settles-bind unfinished f h g = h

fetch-Settles : (l : Lookup) → Settles (fetch l)
fetch-Settles (entries l) = tt
fetch-Settles (Resolve.failed e) = tt

or_error-Responds :
    {A : Type 0} (m : Outcome A) (f : A → Outcome Response)
    → Settles m
    → ((a : A) → Responds (f a))
    → Responds (or_error m f)
or_error-Responds (ok a) f h g = g a
or_error-Responds (err e) f h g = (_, refl)
or_error-Responds panicked f h g = absurd h
or_error-Responds unfinished f h g = absurd h

choose-Settles :
    (o : Option CoreDnsEntry) (f : CoreDnsEntry → Outcome Walk) (b : Outcome Walk)
    → ((e : CoreDnsEntry) → Settles (f e))
    → Settles b
    → Settles (elim o [ some e ↦ f e | none ↦ b ])
choose-Settles (some e) f b h g = h e
choose-Settles none f b h g = g

walk_names-Settles :
    (x : External) (index : Index) (z : Zone) (labels : List Text) (cur rel : Text)
    (list : List CoreDnsEntry)
    → Settles (walk_names x index z labels cur rel list)
unfolding walk_names
walk_names-Settles x index z [] cur rel list = tt
walk_names-Settles x index z (l ∷ ls) cur rel list =
    Settles-bind (fetch (index.lookup_relative_domain_name z.source z.key (dotted l rel))) _
      (fetch-Settles _)
      (λ found.
        choose-Settles (first_delegation found) _ _ (λ e. tt)
          (walk_names-Settles x index z ls (joined x l cur) (dotted l rel) found))

module _ (c : Context) (gets : (s : Text) (k : ObjectKey) → Settles (c.get s k)) where
  zone_part-Settles :
      (o : Option ℕ)
      → (o ≡ none) ⊎ ((p : ℕ) × (z : Zone) × (o ≡ some p) × (get_elem? c.model.heap p ≡ some z))
      → Settles (zone_part c.get c.model.heap o)
  unfolding zone_part
  zone_part-Settles o (inl e) = rw (e, zone_part) tt
  zone_part-Settles o (inr (p, z, e, there)) =
      rw (e, zone_part, there)
        (Settles-bind (c.get z.source (record { namespace = z.key.namespace; name = z.key.name })) _
          (gets _ _) (λ w. tt))

  settled :
      (i : Info)
      → Settles (zone_part c.get c.model.heap i.zone)
      → Settles (prepare_info c.get c.model.heap i)
  unfolding prepare_info
  settled i h = Settles-bind (zone_part c.get c.model.heap i.zone) _ h (λ z. tt)

  answer_name-Responds :
      (o : Option Info)
      → ((i : Info) → o ≡ some i → Settles (zone_part c.get c.model.heap i.zone))
      → Responds (answer_name c o)
  unfolding answer_name
  answer_name-Responds none h = (_, refl)
  answer_name-Responds (some i) h =
      or_error-Responds (prepare_info c.get c.model.heap i) _ (settled i (h i refl))
        (λ w. (_, refl))

  -- The answer of a walk that starts at a zone of the heap.
  answer-Settles :
      (f : Forwarded) (w : Walk)
      → get_elem? c.model.heap f.pointer ≡ some f.zone
      → Settles (zone_part c.get c.model.heap (answer f w).zone)
  unfolding answer
  answer-Settles f (delegated e cur) there = zone_part-Settles none (inl refl)
  answer-Settles f (arrived list cur) there =
      zone_part-Settles (some f.pointer) (inr (f.pointer, f.zone, refl, there))

  walked-Responds :
      (f : Forwarded) (m : Outcome Walk)
      → get_elem? c.model.heap f.pointer ≡ some f.zone
      → Settles m
      → Responds (or_error (m >>= λ w. ok (some (answer f w))) (answer_name c))
  walked-Responds f (ok w) there h = answer_name-Responds (some (answer f w)) (λ i e.
      let eq : answer f w ≡ i = cc e in
      subst (λ j. Settles (zone_part c.get c.model.heap j.zone)) eq (answer-Settles f w there))
  walked-Responds f (err e) there h = (_, refl)
  walked-Responds f panicked there h = absurd h
  walked-Responds f unfinished there h = absurd h

  module _ (d : Documented c.external) (reached : Reach c.external c.model) where
    served-Responds :
        (key : ZoneKey) (q : Text) (o : Option ℕ)
        → get_zone c.model key ≡ o
        → length (c.external.fqdn q) < c.fuel
        → Responds (
            found_or_404 o (λ p.
              or_error (resolve_fqdn c.fuel c.external c.index c.model.heap p q) (answer_name c)))
    served-Responds key q none e lt = (_, refl)
    served-Responds key q (some p) e lt =
        elim (reachable_resolve c.external d c.index c.model key p c.fuel q reached e lt) [
          | inl (z, there, empty, eq) ↦ rw eq (answer_name-Responds none (λ i n. cc n))
          | inr (z, f, there, resp, walk, eq) ↦ rw eq (
              walked-Responds f _ resp.located
                (walk_names-Settles c.external c.index f.zone _ f.current [] []))
        ]

    route-Responds :
        (fields : List Text)
        → All (λ q. length (c.external.fqdn q) < c.fuel) fields
        → Responds (
            route c.model fields (λ p q.
              or_error (resolve_fqdn c.fuel c.external c.index c.model.heap p q) (answer_name c)))
    route-Responds [] h = (_, refl)
    route-Responds (a ∷ []) h = (_, refl)
    route-Responds (a ∷ b ∷ []) h = (_, refl)
    route-Responds (a ∷ b ∷ n ∷ []) h = (_, refl)
    route-Responds (a ∷ b ∷ n ∷ q ∷ []) (ha, (hb, (hn, (hq, t)))) =
        served-Responds (new_zone_key a b n) q _ refl hq
    route-Responds (a ∷ b ∷ n ∷ q ∷ r ∷ rest) h = (_, refl)

    -- With the documented behaviour of the external operations, on every model that calls of
    -- `AddZone` and `RemoveZone` lead to, none of which makes a root zone of a nested one, and when
    -- reading a zone returns a zone or an error, the handler of names sends a response for every
    -- path: it neither panics nor, with more fuel than a field of the path is long, runs on.
    pub handle_names-Responds :
        (path : Text)
        → All
            (λ q. length (c.external.fqdn q) < c.fuel)
            (split_slash [] (trim_prefix path path_zones))
        → Responds (handle_names c path)
    unfolding handle_names
    handle_names-Responds path h = route-Responds (split_slash [] (trim_prefix path path_zones)) h
