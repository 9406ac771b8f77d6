-- ===== src/Direct/Deployment/Modes/Describing.antt =====
-- What the values for the templates are about.
use kubedns.Prelude.{Text, ◌≡◌, refl, ◌⊎◌, inl, inr, Bool, Option, some}
use kubedns.Api.{ObjectKey}
use kubedns.Common.Calls.{value, Holds, >>=-Holds, Holds-weaken}
use kubedns.Direct.Deployment.{Clusters, State}
use kubedns.Direct.Deployment.Modes.{
  Values, Mode, ModeOptions, base_name, runtime_namespace, runtime_secret_name,
  runtime_deployment_name, access_values, values_of, values_with, values,
}
use kubedns.Direct.Deployment.Modes.Calling.{access_values-Continues}

module _ (c : Clusters) (o : ModeOptions) (m : Mode) (key : ObjectKey) where
  -- The values are those of the zone: its name and namespace, the server of its cluster, and the
  -- place and the names that the mode gives the deployment.
  pub record IsOfZone (v : Values) : Type 0 where
    pub zone : v.zone ≡ key.name
    pub namespace : v.namespace ≡ key.namespace
    pub server : c.api_server_url ≡ inr v.server
    pub deployed_in : v.runtime_namespace ≡ runtime_namespace c o m key
    pub secret_name : v.secret_name ≡ runtime_secret_name c o m key
    pub runtime_name : v.runtime_name ≡ runtime_deployment_name c o m key

  -- The same where there are values.
  abbrev pub AreOfZone : Option Values → Type 0
  AreOfZone r = (v : Values) → r ≡ some v → IsOfZone v

  values_with-AreOfZone :
      (deleting : Bool) (url : Text ⊎ Text) (s : State)
      → c.api_server_url ≡ url
      → Holds (λ r t. AreOfZone r.0) (λ p t. ⊥) (values_with c o m key deleting url s)
  unfolding values_with values_of
  values_with-AreOfZone deleting (inl e) s h = λ v same. absurd (cc same)
  values_with-AreOfZone deleting (inr url) s h =
      let access = access_values c o m key base_name deleting in
      >>=-Holds (λ a t. Unit) (λ r t. AreOfZone r.0) (λ p t. ⊥) access
        (λ a t. (value (values_of c o m key url a), t)) s
        (Holds-weaken _ (λ a t. Unit) (λ p t. ⊥) (λ p t. ⊥) (access s) (λ a t x. tt) (λ p t x. x)
          ((access_values-Continues c o m key base_name deleting).holds s))
        (λ a t u v same. record {
          zone = cc same;
          namespace = cc same;
          server = cc same;
          deployed_in = cc same;
          secret_name = cc same;
          runtime_name = cc same;
        })

  pub values-AreOfZone :
      (deleting : Bool) (s : State)
      → Holds (λ r t. AreOfZone r.0) (λ p t. ⊥) (values c o m key deleting s)
  unfolding values
  values-AreOfZone deleting s = values_with-AreOfZone deleting c.api_server_url s refl
