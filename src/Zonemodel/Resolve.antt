-- ===== src/Zonemodel/Resolve.antt =====
-- internal/controller/server/zonemodel/model.go: the queries, `Zone.Matches`, `Zone.ResolveFQDN`
-- and `Zone.ResolveIP`. The `Index` is an interface that the caller fills, so it is a parameter. A
-- zone is given by its pointer; logging is left out.
pub mod Matching
pub mod Forwarding
pub mod Walking
pub mod Answers
pub mod Addresses
pub mod Gathering
pub mod Reverse
use kubedns.Prelude.{
  ltb, leb, if◌then◌else◌, length, get_elem?, take, is_empty, Text, ℕ, zero, suc, ◌-◌, ◌&&◌, Option,
  none, some, List, [], ◌∷◌, ◌++◌, reverse,
}
use kubedns.External.{External}
use kubedns.Api.{CoreDnsEntry}
use kubedns.Zonemodel.Names.{rdn, join}
use kubedns.Zonemodel.Keys.{ZoneKey}
use kubedns.Zonemodel.Model.{Zone}
use kubedns.Zonemodel.Outcome.{Outcome, ok, err, panicked, unfinished, ◌>>=◌, or_panic}

-- The entries that an index lookup gives, or its error.
pub data Lookup : Type 0 where
  entries : List CoreDnsEntry → Lookup
  failed : Text → Lookup

pub record Index : Type 0 where
  pub lookup_relative_domain_name : Text → ZoneKey → Text → Lookup
  pub lookup_ip : Text → ZoneKey → Text → Lookup

abbrev pub fetch : Lookup → Outcome (List CoreDnsEntry)
fetch (entries l) = ok l
fetch (failed e) = err e

pub record Info : Type 0 where
  pub zone : Option ℕ
  pub zone_names : List Text
  pub entries : List CoreDnsEntry
  pub entry_names : List Text

-- The loop of `Matches` over the names, with the best name so far.
unfoldable pub best_match : External → Text → Text → List Text → Text
best_match x qname zone [] = zone
best_match x qname zone (zname ∷ rest) =
    best_match x qname
      (if x.is_sub_domain zname qname && ltb (length zone) (length zname) then zname else zone) rest

unfoldable pub matches : External → Zone → Text → Text
unfolding best_match
matches x z qname = best_match x qname [] z.names

-- sub[:len(sub)-len(zn)], a panic if `zn` is longer than `sub`
unfoldable pub cut_end : Text → Text → Outcome Text
cut_end sub zn =
    if leb (length zn) (length sub) then ok (take (length sub - length zn) sub) else panicked

-- The first child that matches, with its match.
unfoldable pub find_nested :
    External → List Zone → Text → List (Text × ℕ) → Outcome (Option (Text × ℕ))
unfolding matches
find_nested x heap sub [] = ok none
find_nested x heap sub ((k, p) ∷ rest) =
    let later = find_nested x heap sub rest in
    elim (get_elem? heap p) [
      | none ↦ panicked
      | some nested ↦ let r = matches x nested sub in if is_empty r then later else ok (some (r, p))
    ]

-- Where the walk down the nested zones ends.
pub record Forwarded : Type 0 where
  pub zone : Zone
  pub pointer : ℕ
  pub current : Text
  pub relative : Text

-- The loop `nextForward`.
unfoldable pub forward : ℕ → External → List Zone → Text → Text → ℕ → Text → Outcome Forwarded
unfolding cut_end find_nested
forward zero x heap zn sub p cur = unfinished
forward (suc fuel) x heap zn sub p cur = do
  front ← cut_end sub zn
  cur' ← or_panic (join x (zn ∷ cur ∷ []))
  z ← or_panic (get_elem? heap p)
  next ← find_nested x heap (rdn front) z.children
  elim next [
    | none ↦ ok (record { zone = z; pointer = p; current = cur'; relative = rdn front })
    | some (r, q) ↦ forward fuel x heap r (rdn front) q cur'
  ]

unfoldable pub first_delegation : List CoreDnsEntry → Option CoreDnsEntry
first_delegation [] = none
first_delegation (e ∷ rest) = if is_empty e.spec.ns then first_delegation rest else some e

-- What the loop over the labels finds: a delegation and the name that it stands at, or the entries
-- of the last lookup and the full name.
pub data Walk : Type 0 where
  delegated : CoreDnsEntry → Text → Walk
  arrived : List CoreDnsEntry → Text → Walk

-- The loop over the labels, which are given from the last to the first.
unfoldable pub walk_labels :
    External → Index → Zone → List Text → Text → Text → List CoreDnsEntry → Outcome Walk
unfolding first_delegation
walk_labels x index z [] cur rel list = ok (arrived list cur)
walk_labels x index z (l ∷ ls) cur rel list = do
  cur' ← or_panic (join x (l ∷ cur ∷ []))
  joined ← or_panic (join x (l ∷ rel ∷ []))
  found ← fetch (index.lookup_relative_domain_name z.source z.key (rdn joined))
  elim (first_delegation found) [
    | some e ↦ ok (delegated e cur')
    | none ↦ walk_labels x index z ls cur' (rdn joined) found
  ]

unfoldable pub answer : Forwarded → Walk → Info
answer f (delegated e cur) = record {
  zone = none;
  zone_names = cur ∷ [];
  entries = e ∷ [];
  entry_names = cur ∷ [];
}
answer f (arrived list cur) = record {
  zone = some f.pointer;
  zone_names = f.current ∷ [];
  entries = list;
  entry_names = cur ∷ [];
}

-- `ResolveFQDN` at the zone that `p` points to; `none` says that the name is not in its domain.
unfoldable pub resolve_fqdn : ℕ → External → Index → List Zone → ℕ → Text → Outcome (Option Info)
unfolding matches forward walk_labels answer
resolve_fqdn fuel x index heap p name = do
  let qname = x.fqdn name
  z ← or_panic (get_elem? heap p)
  let zn = matches x z qname
  if is_empty zn then ok none else do
    f ← forward fuel x heap zn qname p []
    w ← walk_labels x index f.zone (reverse (x.split_domain_name f.relative)) f.current [] []
    ok (some (answer f w))

-- The inner and the outer loop of `expand`.
unfoldable pub expand_one : External → Text → List Text → List Text → List Text
expand_one x n [] list = list
expand_one x n (f ∷ fs) list = expand_one x n fs (list ++ (x.fqdn n ++ f) ∷ [])

unfoldable pub expand : External → List Text → List Text → List Text → List Text
unfolding expand_one
expand x [] fqdns list = list
expand x (n ∷ ns) fqdns list = expand x ns fqdns (expand_one x n fqdns list)

-- for _, e := range list { names = expand(e.Spec.DNSNames, fqdns, names) }
unfoldable pub expand_entries : External → List CoreDnsEntry → List Text → List Text → List Text
unfolding expand
expand_entries x [] fqdns names = names
expand_entries x (e ∷ es) fqdns names =
    expand_entries x es fqdns (expand x e.spec.dns_names fqdns names)

-- The answer of the zone itself, if it has entries.
unfoldable pub own_info : External → ℕ → List CoreDnsEntry → List Text → List Info
unfolding expand_entries
own_info x p [] fqdns = []
own_info x p (e ∷ es) fqdns =
    record {
      zone = some p;
      zone_names = fqdns;
      entries = e ∷ es;
      entry_names = expand_entries x (e ∷ es) fqdns [];
    }
    ∷ []

-- for _, s := range z.children: the answers of the children, one after the other.
unfoldable pub gather :
    (ℕ → Outcome (List Info)) → List Info → List (Text × ℕ) → Outcome (List Info)
gather ask result [] = ok result
gather ask result ((k, p) ∷ rest) = do list ← ask p; gather ask (result ++ list) rest

-- `resolveIP`
unfoldable pub resolve_ip_from :
    ℕ → External → Index → List Zone → Text → List Text → ℕ → Outcome (List Info)
unfolding own_info gather expand
resolve_ip_from zero x index heap ip fqdns p = unfinished
resolve_ip_from (suc fuel) x index heap ip fqdns p = do
  z ← or_panic (get_elem? heap p)
  list ← fetch (index.lookup_ip z.source z.key ip)
  let fqdns' = expand x z.names fqdns []
  gather (resolve_ip_from fuel x index heap ip fqdns') (own_info x p list fqdns') z.children

unfoldable pub resolve_ip : ℕ → External → Index → List Zone → ℕ → Text → Outcome (List Info)
unfolding resolve_ip_from
resolve_ip fuel x index heap p ip = resolve_ip_from fuel x index heap ip ([] ∷ []) p
