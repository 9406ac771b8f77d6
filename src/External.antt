-- ===== src/External.antt =====
-- What the program takes from packages that are not part of the repository: github.com/miekg/dns,
-- kubecrtutils/objutils, k8s.io/apimachinery's api/meta, and the parsers net.ParseIP and
-- mail.ParseAddress. The operations are a parameter of the model; `Documented` states the
-- behaviour that their documentation promises and that the code relies on.
pub mod Sample
use kubedns.Prelude.{
  if◌then◌else◌, nat_eq, ◌==◌, length, Text, text_eq, dot, has_suffix_dot, ◌≤◌, ◌≡◌, ◌≢◌, Bool,
  true, false, Option, none, some, List, [], ◌∷◌, ◌++◌,
}
use kubedns.Api.{ObjectKey, ObjectMeta, Condition}

-- A text that net.ParseIP rejects, and the addresses for which To4 is not nil or nil.
pub data ParsedIp : Type 0 where
  no_ip ipv4 ipv6 : ParsedIp

pub record External : Type 0 where
  -- dns.IsFqdn: the name ends in a dot that is not escaped.
  pub is_fqdn : Text → Bool
  -- dns.Fqdn
  pub fqdn : Text → Text
  -- dns.IsSubDomain(parent, child)
  pub is_sub_domain : Text → Text → Bool
  -- dns.SplitDomainName
  pub split_domain_name : Text → List Text
  -- objutils.RefObjectKeyFor(obj, ref)
  pub ref_object_key_for : ObjectMeta → Text → ObjectKey
  -- dns.IsDomainName, its second result
  pub is_domain_name : Text → Bool
  -- net.ParseIP with To4
  pub parse_ip : Text → ParsedIp
  -- mail.ParseAddress: the message of its error
  pub parse_address : Text → Option Text
  -- meta.FindStatusCondition
  pub find_status_condition : List Condition → Text → Option Condition
  -- meta.SetStatusCondition; the time of the last transition is not modelled.
  pub set_status_condition : List Condition → Condition → List Condition
  -- meta.RemoveStatusCondition
  pub remove_status_condition : List Condition → Text → List Condition

pub record Documented (x : External) : Type 0 where
  -- A fully qualified name ends in a dot.
  pub fqdn_suffix : (s : Text) → x.is_fqdn s ≡ true → has_suffix_dot s ≡ true
  -- `Fqdn` leaves such a name alone and adds a dot to any other.
  pub fqdn_lem : (s : Text) → x.fqdn s ≡ (if x.is_fqdn s then s else s ++ dot ∷ [])
  -- The result is fully qualified.
  pub is_fqdn-fqdn : (s : Text) → x.is_fqdn (x.fqdn s) ≡ true
  -- The labels of the parent are the last labels of the child, both read as fully qualified.
  pub is_sub_domain_length :
      (parent child : Text)
      → x.is_sub_domain parent child ≡ true
      → length (x.fqdn parent) ≤ length (x.fqdn child)
  -- The last label of a name that does not end in a dot is not empty, nor does it end in one.
  pub split_domain_name_last :
      (s l : Text) (ls : List Text)
      → has_suffix_dot s ≡ false
      → x.split_domain_name s ≡ ls ++ l ∷ []
      → (l ≢ []) × (has_suffix_dot l ≡ false)
  -- A condition that was set is found by its type, and the others are found as before.
  pub find-set_status_condition :
      (cs : List Condition) (c : Condition) (kind : Text)
      → x.find_status_condition (x.set_status_condition cs c) kind
        ≡ (if c.kind == kind then some c else x.find_status_condition cs kind)
  -- A condition that was removed is not found, and the others are found as before.
  pub find-remove_status_condition :
      (cs : List Condition) (removed kind : Text)
      → x.find_status_condition (x.remove_status_condition cs removed) kind
        ≡ (if removed == kind then none else x.find_status_condition cs kind)
  -- The key has the name that is referred to, in the namespace of the object.
  pub ref_object_key_for_lem :
      (m : ObjectMeta) (ref : Text)
      → x.ref_object_key_for m ref ≡ record { namespace = m.namespace; name = ref }
