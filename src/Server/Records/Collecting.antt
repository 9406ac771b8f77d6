-- ===== src/Server/Records/Collecting.antt =====
-- What `prepareInfo` puts together from the entries.
use kubedns.Prelude.{if◌then◌else◌, is_empty, Text, ◌≡◌, refl, sym, ap, ◌∙◌, List, [], ◌∷◌, ◌++◌}
use kubedns.Api.{CoreDnsEntry}
use kubedns.Server.Wire.{Records}
use kubedns.Server.Records.{copy_r, add_entry, collect, no_records}
use mathlib.Core.List.{append-nil, append_assoc}

-- The lists of all entries, one after the other.
unfoldable pub gathered : (CoreDnsEntry → List Text) → List CoreDnsEntry → List Text
gathered f [] = []
gathered f (e ∷ es) = f e ++ gathered f es

-- The first canonical name that is not empty.
unfoldable pub first_cname : Text → List CoreDnsEntry → Text
first_cname c [] = c
first_cname c (e ∷ es) = first_cname (if is_empty c then e.spec.cname else c) es

copy_r-append : (list tgt : List Text) → copy_r list tgt ≡ tgt ++ list
unfolding copy_r
copy_r-append [] tgt = sym (append-nil tgt)
copy_r-append (a ∷ list) tgt = refl

-- One field of the records, whose rounds copy a list of the entry.
collect-field :
    (field : Records → List Text) (f : CoreDnsEntry → List Text)
    → ((e : CoreDnsEntry) (r : Records) → field (add_entry e r) ≡ copy_r (f e) (field r))
    → (es : List CoreDnsEntry) (r : Records) → field (collect es r) ≡ field r ++ gathered f es
unfolding collect gathered
collect-field field f step [] r = sym (append-nil (field r))
collect-field field f step (e ∷ es) r =
    collect-field field f step es (add_entry e r)
    ∙ ap (λ l. l ++ gathered f es) (step e r ∙ copy_r-append (f e) (field r))
    ∙ append_assoc (field r) (f e) (gathered f es)

collect-cname :
    (es : List CoreDnsEntry) (r : Records) → (collect es r).cname ≡ first_cname r.cname es
unfolding collect first_cname add_entry
collect-cname [] r = refl
collect-cname (e ∷ es) r = collect-cname es (add_entry e r)

-- The records of an answer are all the addresses, texts and name servers of its entries in their
-- order, and the first canonical name that an entry has.
pub collect-gathered :
    (es : List CoreDnsEntry)
    → ((collect es no_records).a ≡ gathered (λ e. e.spec.a) es)
      × ((collect es no_records).aaaa ≡ gathered (λ e. e.spec.aaaa) es)
      × ((collect es no_records).txt ≡ gathered (λ e. e.spec.txt) es)
      × ((collect es no_records).ns ≡ gathered (λ e. e.spec.ns) es)
      × ((collect es no_records).cname ≡ first_cname [] es)
unfolding add_entry
collect-gathered es = (
  collect-field (λ r. r.a) (λ e. e.spec.a) (λ e r. refl) es no_records,
  collect-field (λ r. r.aaaa) (λ e. e.spec.aaaa) (λ e r. refl) es no_records,
  collect-field (λ r. r.txt) (λ e. e.spec.txt) (λ e r. refl) es no_records,
  collect-field (λ r. r.ns) (λ e. e.spec.ns) (λ e r. refl) es no_records,
  collect-cname es no_records,
)
