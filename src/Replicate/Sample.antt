-- ===== src/Replicate/Sample.antt =====
-- A concrete form of what the replication takes from outside, for zones.
use kubedns.Prelude.{
  if◌then◌else◌, Bool-cases, nat_eq, ◌==◌, lookup, put, lookup-put, Text, text, text_beq_iff,
  text_eq, ◌≡◌, refl, ap, inl, inr, true, false, Option, none, some, List, [], ◌∷◌, ◌++◌, arith,
}
use kubedns.Api.{HostedZone, HostedZoneStatus, ObjectMeta}
use kubedns.Common.Cluster.{not_found, contains}
use kubedns.Replicate.Objects.{Objects, Documented, Clusters}

abbrev with_meta : HostedZone → ObjectMeta → HostedZone
with_meta z m = record z { meta = m }

abbrev pub with_finalizers : HostedZone → List Text → HostedZone
with_finalizers z fs = with_meta z (record z.meta { finalizers = fs })

abbrev value_or_empty : Option Text → Text
value_or_empty none = []
value_or_empty (some v) = v

-- The list without a finalizer.
unfoldable pub without : List Text → Text → List Text
without [] f = []
without (g ∷ gs) f = let rest = without gs f in if g == f then rest else g ∷ rest

contains-without : (fs : List Text) (f : Text) → contains (without fs f) f ≡ false
unfolding contains without
contains-without [] f = refl
contains-without (g ∷ gs) f = ground (arith, contains-without gs f)

contains-snoc : (fs : List Text) (f : Text) → contains (fs ++ f ∷ []) f ≡ true
unfolding contains
contains-snoc [] f = ground (arith, text_beq_iff f f)
contains-snoc (g ∷ gs) f = ground (arith, contains-snoc gs f)

lookup-put_self : (k v : Text) (m : List (Text × Text)) → lookup k (put k v m) ≡ some v
lookup-put_self k v m = ground (arith, lookup-put k k v m, text_beq_iff k k)

abbrev pub sample_objects : Objects HostedZone HostedZoneStatus
sample_objects = record {
  meta = λ z. z.meta;
  get_annotation = λ z k. value_or_empty (lookup k z.meta.annotations);
  set_annotation =
      λ z k v. with_meta z (record z.meta { annotations = put k v z.meta.annotations });
  add_finalizer = λ z f.
      if contains z.meta.finalizers f
      then (z, false)
      else (with_finalizers z (z.meta.finalizers ++ f ∷ []), true);
  remove_finalizer =
      λ z f. (with_finalizers z (without z.meta.finalizers f), contains z.meta.finalizers f);
  set_finalizers = with_finalizers;
  set_namespace = λ z n. with_meta z (record z.meta { namespace = n });
  set_name = λ z n. with_meta z (record z.meta { name = n });
  cleanup_meta = λ z. with_meta z (record z.meta { resource_version = [] });
  get_status = λ z. inr z.status;
  set_status = λ z st. inr (record z { status = st });
}

pub sample_objects-Documented : Documented HostedZone HostedZoneStatus sample_objects
sample_objects-Documented = record {
  add_finalizer_lem = λ z f. elim (Bool-cases (contains z.meta.finalizers f)) [
    | inl e ↦ rw e (e, refl)
    | inr e ↦ rw e (contains-snoc z.meta.finalizers f, refl)
  ];
  remove_finalizer_lem = λ z f. (contains-without z.meta.finalizers f, refl);
  get-set_annotation = λ z k v. ap value_or_empty (lookup-put_self k v z.meta.annotations);
  get_annotation-remove_finalizer = λ z f k. refl;
  get_annotation-set_finalizers = λ z fs k. refl;
  has_finalizer-set_status = λ z w st f e. cc e;
}

-- No call fails, and the target cluster is empty.
abbrev pub sample_clusters : Clusters HostedZone
sample_clusters = record {
  source_id = text "source";
  generate_unique_name = λ prefix id name namespace n. prefix ++ text "-" ++ namespace;
  max_namelen = 253;
  max_namespacelen = 63;
  patch = λ log z. none;
  get = λ log k. not_found;
  create = λ log z. none;
  delete = λ log z. none;
  apply = λ log z w. none;
  set_original = λ log k. none;
  remove_original = λ log k. none;
  set_owner = λ log z w. inr w;
}
