-- ===== src/Server/Handlers.antt =====
-- internal/controller/server/servercomp: the two handlers of comp_names.go and comp_ips.go with
-- `SendError`. The body is what is encoded as JSON; the header and a failing write are left out.
pub mod Routing
pub mod Responding
use kubedns.Prelude.{
  nat_beq, if◌then◌else◌, is_empty, Text, text, ℕ, Option, none, some, List, [], ◌∷◌, ◌++◌,
}
use kubedns.Api.{HostedZone, ObjectKey}
use kubedns.Zonemodel.Keys.{new_zone_key}
use kubedns.Zonemodel.Model.{Model, get_zone}
use kubedns.Zonemodel.Resolve.{Info, Index, resolve_fqdn, resolve_ip}
use kubedns.Zonemodel.Outcome.{Outcome, ok, err, panicked, unfinished, ◌>>=◌}
use kubedns.Server.Wire
use kubedns.Server.Wire.{Answer}
use kubedns.Server.Records.{prepare_info}
use kubedns.External.{External}

pub data Body : Type 0 where
  no_body : Body
  error_body : Text → Body
  answer_body : Answer → Body

pub record Response : Type 0 where
  pub status : ℕ
  pub body : Body

-- What the handlers work with: the options of the model and the clusters' zones.
pub record Context : Type 0 where
  pub fuel : ℕ
  pub external : External
  pub index : Index
  pub get : Text → ObjectKey → Outcome HostedZone
  pub model : Model

abbrev pub path_ips : Text
path_ips = text "/api/v1/ips/"

abbrev pub path_zones : Text
path_zones = text "/api/v1/zones/"

-- The rest of a text behind a prefix.
unfoldable pub strip_prefix : Text → Text → Option Text
strip_prefix [] s = some s
strip_prefix (c ∷ p) [] = none
strip_prefix (c ∷ p) (d ∷ s) = if nat_beq c d then strip_prefix p s else none

abbrev or_whole : Text → Option Text → Text
or_whole s none = s
or_whole s (some rest) = rest

-- strings.TrimPrefix
unfoldable pub trim_prefix : Text → Text → Text
unfolding strip_prefix
trim_prefix s p = or_whole s (strip_prefix p s)

-- strings.Split(p, "/"), with the field that is being read
unfoldable pub split_slash : Text → Text → List Text
split_slash field [] = field ∷ []
split_slash field (c ∷ s) =
    let here = field ∷ split_slash [] s in
    let later = split_slash (field ++ c ∷ []) s in if nat_beq c b'/' then here else later

-- `SendError`
unfoldable pub send_error : Text → ℕ → Response
send_error e status = record { status = status; body = error_body e }

abbrev pub only_status : ℕ → Response
only_status s = record { status = s; body = no_body }

abbrev pub answered : List Wire.Info → Response
answered infos = record { status = 200; body = answer_body (record { error = []; infos = infos }) }

-- An error becomes a response with status 500; a panic and a loop without end stay.
abbrev pub or_error : {A : Type 0} → Outcome A → (A → Outcome Response) → Outcome Response
or_error (ok a) f = f a
or_error (err e) f = ok (send_error e 500)
or_error panicked f = panicked
or_error unfinished f = unfinished

abbrev pub found_or_404 : Option ℕ → (ℕ → Outcome Response) → Outcome Response
found_or_404 none serve = ok (only_status 404)
found_or_404 (some p) serve = serve p

-- The zone that four fields name, and the rest of the handler.
abbrev pub route : Model → List Text → (ℕ → Text → Outcome Response) → Outcome Response
route m (c ∷ ns ∷ n ∷ q ∷ []) serve =
    found_or_404 (get_zone m (new_zone_key c ns n)) (λ p. serve p q)
route m [] serve = ok (only_status 400)
route m (c ∷ []) serve = ok (only_status 400)
route m (c ∷ ns ∷ []) serve = ok (only_status 400)
route m (c ∷ ns ∷ n ∷ []) serve = ok (only_status 400)
route m (c ∷ ns ∷ n ∷ q ∷ r ∷ rest) serve = ok (only_status 400)

unfoldable pub answer_name : Context → Option Info → Outcome Response
unfolding prepare_info
answer_name c none = ok (send_error (text "name not in domain") 400)
answer_name c (some i) = or_error (prepare_info c.get c.model.heap i) (λ w. ok (answered (w ∷ [])))

unfoldable pub handle_names : Context → Text → Outcome Response
unfolding trim_prefix split_slash answer_name resolve_fqdn get_zone
handle_names c path =
    route c.model (split_slash [] (trim_prefix path path_zones))
      (λ p q. or_error (resolve_fqdn c.fuel c.external c.index c.model.heap p q) (answer_name c))

-- The loop over the infos.
unfoldable pub prepare_all : Context → List Info → Outcome (List Wire.Info)
unfolding prepare_info
prepare_all c [] = ok []
prepare_all c (i ∷ is) = do
  w ← prepare_info c.get c.model.heap i
  ws ← prepare_all c is
  ok (w ∷ ws)

unfoldable pub answer_ip : Context → List Info → Outcome Response
unfolding prepare_all
answer_ip c infos =
    if is_empty infos
    then ok (send_error (text "name not in domain") 400)
    else or_error (prepare_all c infos) (λ ws. ok (answered ws))

unfoldable pub handle_ips : Context → Text → Outcome Response
unfolding trim_prefix split_slash answer_ip resolve_ip get_zone
handle_ips c path =
    route c.model (split_slash [] (trim_prefix path path_ips))
      (λ p q. or_error (resolve_ip c.fuel c.external c.index c.model.heap p q) (answer_ip c))
