-- ===== src/Direct/Options.antt =====
-- internal/controller/direct/hostedzone/options.go: the checks of the options and the name of the
-- lock for the election of a leader. The clusters and the registry of DNS modes are parameters.
use kubedns.Prelude.{
  if◌then◌else◌, is_empty, Text, text, ◌⊎◌, inl, inr, Bool, not, Option, none, some, ◌++◌,
}
use kubedns.Direct.DnsModes.{DnsHandler}

pub record Options : Type 0 where
  pub runtime : Option Text
  pub class : Option Text
  pub dns_handler : Option DnsHandler

-- What `Validate` asks: the common options, nil when they are missing, the error of the clusters,
-- which of the two clusters there are, and the DNS mode or the error of its creation.
pub record OptionsCalls : Type 0 where
  pub common : Option (Option Text × Option Text)
  pub clusters_error : Option Text
  pub has_dataplane : Bool
  pub has_runtime : Bool
  pub create_mode : Options → Text ⊎ DnsHandler

abbrev of_mode : Options → Text ⊎ DnsHandler → Option Text × Options
of_mode o (inl m) = (some (text "dns mode: " ++ m), record o { dns_handler = none })
of_mode o (inr h) = (none, record o { dns_handler = some h })

abbrev of_clusters : OptionsCalls → Options → Option Text × Options
of_clusters c o =
    if not c.has_dataplane
    then (some (text "dataplane cluster is required"), o)
    else if not c.has_runtime
    then (some (text "dataplane cluster is required"), o)
    else of_mode o (c.create_mode o)

abbrev of_common :
    OptionsCalls
    → Options
    → Option (Option Text × Option Text)
    → Option Text
    → Option Text × Options
of_common c o none e = (some (text "class option not found in option definitions"), o)
of_common c o (some (class, runtime)) (some m) =
    (some m, record o { class = class; runtime = runtime })
of_common c o (some (class, runtime)) none =
    of_clusters c (record o { class = class; runtime = runtime })

-- `Validate`: the error, and the options afterwards.
unfoldable pub validate : OptionsCalls → Options → Option Text × Options
validate c o = of_common c o c.common c.clusters_error

abbrev with_runtime : Option Text → Text → Text
with_runtime none id = id
with_runtime (some r) id = if is_empty r then id else r ++ (text "-" ++ id)

abbrev with_class : Option Text → Text → Text
with_class none id = id
with_class (some c) id = if is_empty c then text "default-" ++ id else c ++ (text "-" ++ id)

-- `Configure`: the ID of the leader election.
unfoldable pub configure : Options → Text → Text
configure o id = with_class o.class (with_runtime o.runtime id)
