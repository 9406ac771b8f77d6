-- ===== src/Server/Indexer/Keys.antt =====
-- The keys of an entry against the key of a query.
use kubedns.Prelude.{
  Bool-cases, ◌==◌, nat_eq, set, Any, Text, text_beq_iff, text_eq, ◌≡◌, refl, ap, ◌≢◌, ◌↔◌, ◌⊎◌,
  inl, inr, Bool, false, List, [], ◌∷◌, ◌++◌, map, arith,
}
use kubedns.External.{External}
use kubedns.Api.{CoreDnsEntry}
use kubedns.Api.Conditions.{server_condition_type}
use kubedns.Zonemodel.Keys.{ZoneKey}
use kubedns.Zonemodel.Names.{rdn}
use kubedns.Server.Indexer.{index_key, not_served, index_names}

append-cancel : (p a b : Text) → p ++ a ≡ p ++ b → a ≡ b
append-cancel [] a b e = e
append-cancel (c ∷ p) a b e = append-cancel p a b (cc e)

-- Keys of the same zone agree exactly when what they are for agrees.
entry_key-injective :
    (ns z a b : Text) → ns ++ (b'/' ∷ z ++ (b'/' ∷ a)) ≡ ns ++ (b'/' ∷ z ++ (b'/' ∷ b)) → a ≡ b
entry_key-injective ns z a b e =
    let inner : z ++ b'/' ∷ a ≡ z ++ b'/' ∷ b =
      cc (append-cancel ns (b'/' ∷ z ++ b'/' ∷ a) (b'/' ∷ z ++ b'/' ∷ b) e) in
    cc (append-cancel z (b'/' ∷ a) (b'/' ∷ b) inner)

-- The entry is in the index: in slave mode only after the server accepted it.
abbrev pub IsIndexed : External → Bool → CoreDnsEntry → Type 0
IsIndexed x slave e =
    (slave ≡ false)
    ⊎ (not_served (x.find_status_condition e.status.conditions server_condition_type) ≡ false)

mapped_keys :
    (zk : ZoneKey) (rel : Text) (names : List Text)
    → Any
        (λ k. k ≡ index_key zk rel)
        (map (λ item. zk.namespace ++ (b'/' ∷ zk.name ++ (b'/' ∷ item))) (map rdn names))
      ↔ Any (λ n. rdn n ≡ rel) names
unfolding index_key
mapped_keys zk rel [] = ((λ a. a), λ a. a)
mapped_keys zk rel (n ∷ names) =
    let rest = mapped_keys zk rel names in
    (
      λ a. elim a [
        | inl e ↦ inl (entry_key-injective zk.namespace zk.name (rdn n) rel e)
        | inr b ↦ inr (rest.0 b)
      ],
      λ a. elim a [
        | inl e ↦ inl (ap (λ r. zk.namespace ++ (b'/' ∷ zk.name ++ (b'/' ∷ r))) e)
        | inr b ↦ inr (rest.1 b)
      ],
    )

-- The query for a relative name in the zone of the entry finds the entry exactly when the entry is
-- in the index and one of its DNS names is that name without the dots at its end.
pub index_names-index_key :
    (x : External) (slave : Bool) (e : CoreDnsEntry) (zk : ZoneKey) (rel : Text)
    → e.spec.zone_ref ≢ []
    → e.spec.zone_ref ≡ zk.name
    → e.meta.namespace ≡ zk.namespace
    → Any (λ k. k ≡ index_key zk rel) (index_names x slave e)
      ↔ (IsIndexed x slave e × Any (λ n. rdn n ≡ rel) e.spec.dns_names)
unfolding index_names
index_names-index_key x slave e zk rel set zone namespace =
    let keys = mapped_keys zk rel e.spec.dns_names in
    let assigned : (e.spec.zone_ref == []) ≡ false =
      ground (arith, text_beq_iff e.spec.zone_ref [], set) in
    elim (Bool-cases
      (not_served (x.find_status_condition e.status.conditions server_condition_type))) [
        | inl hidden ↦ elim (Bool-cases slave) [
          | inl s ↦ rw (assigned, s, hidden) ((λ a. absurd a), λ h. absurd (ground (arith, h.0)))
          | inr m ↦ rw (assigned, m, zone, namespace) ((λ a. (inl refl, keys.0 a)), λ h. keys.1 h.1)
        ]
        | inr shown ↦ elim (Bool-cases slave) [
          | inl s ↦
              rw (assigned, s, shown, zone, namespace)
                ((λ a. (inr refl, keys.0 a)), λ h. keys.1 h.1)
          | inr m ↦ rw (assigned, m, zone, namespace) ((λ a. (inl refl, keys.0 a)), λ h. keys.1 h.1)
        ]
      ]
