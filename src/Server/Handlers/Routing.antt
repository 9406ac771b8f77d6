-- ===== src/Server/Handlers/Routing.antt =====
-- How a path is taken apart.
use kubedns.Prelude.{
  nat_beq, nat_beq_iff, Option-cases, All, Text, ℕ, ◌≡◌, refl, sym, ap, ◌∙◌, ◌⊎◌, inl, inr, false,
  none, some, [], ◌∷◌, ◌++◌, arith,
}
use kubedns.Zonemodel.Keys.{new_zone_key}
use kubedns.Zonemodel.Model.{get_zone}
use kubedns.Zonemodel.Resolve.{resolve_fqdn}
use kubedns.Zonemodel.Outcome.{ok}
use kubedns.Server.Handlers.{
  Context, only_status, path_zones, strip_prefix, trim_prefix, split_slash, or_error, answer_name,
  handle_names,
}
use mathlib.Core.List.{append_assoc, append-nil}

-- A field of a path.
abbrev pub IsField : Text → Type 0
IsField s = All (λ c. nat_beq c b'/' ≡ false) s

strip_prefix-append : (p s : Text) → strip_prefix p (p ++ s) ≡ some s
unfolding strip_prefix
strip_prefix-append [] s = refl
strip_prefix-append (c ∷ p) s = ground (arith, nat_beq_iff c c, strip_prefix-append p s)

trim_prefix-append : (p s : Text) → trim_prefix (p ++ s) p ≡ s
unfolding trim_prefix
trim_prefix-append p s = rw (strip_prefix-append p s) refl

-- A field up to the next slash, and a field up to the end.
split_slash-field :
    (acc f s : Text) → IsField f → split_slash acc (f ++ b'/' ∷ s) ≡ (acc ++ f) ∷ split_slash [] s
unfolding split_slash
split_slash-field acc [] s h = ap (λ a. a ∷ split_slash [] s) (sym (append-nil acc))
split_slash-field acc (c ∷ f) s h = rw h.0 (
    split_slash-field (acc ++ c ∷ []) f s h.1
    ∙ ap (λ a. a ∷ split_slash [] s) (append_assoc acc (c ∷ []) f))

split_slash-last : (acc f : Text) → IsField f → split_slash acc f ≡ (acc ++ f) ∷ []
unfolding split_slash
split_slash-last acc [] h = ap (λ a. a ∷ []) (sym (append-nil acc))
split_slash-last acc (c ∷ f) h =
    rw h.0 (split_slash-last (acc ++ c ∷ []) f h.1 ∙ ap (λ a. a ∷ []) (append_assoc acc (c ∷ []) f))

-- The path of a request for a name or an address in a zone.
abbrev pub path_of : Text → Text → Text → Text → Text → Text
path_of prefix c ns n q = prefix ++ (c ++ (b'/' ∷ ns ++ (b'/' ∷ n ++ (b'/' ∷ q))))

split-path :
    (prefix c ns n q : Text)
    → IsField c
    → IsField ns
    → IsField n
    → IsField q
    → split_slash [] (trim_prefix (path_of prefix c ns n q) prefix) ≡ c ∷ ns ∷ n ∷ q ∷ []
split-path prefix c ns n q hc hns hn hq =
    ap (split_slash []) (trim_prefix-append prefix (c ++ (b'/' ∷ ns ++ (b'/' ∷ n ++ (b'/' ∷ q)))))
    ∙ split_slash-field [] c _ hc
    ∙ ap (λ l. c ∷ l)
        (split_slash-field [] ns _ hns
          ∙ ap (λ l. ns ∷ l)
              (split_slash-field [] n _ hn ∙ ap (λ l. n ∷ l) (split_slash-last [] q hq)))

-- A request whose path is the prefix and four fields without slashes is answered with 404 when no
-- zone has the key of the first three, and otherwise with what `ResolveFQDN` of that zone gives for
-- the fourth.
pub handle_names-path :
    (x : Context) (c ns n q : Text)
    → IsField c
    → IsField ns
    → IsField n
    → IsField q
    → ((get_zone x.model (new_zone_key c ns n) ≡ none)
        × (handle_names x (path_of path_zones c ns n q) ≡ ok (only_status 404)))
      ⊎ ((p : ℕ) × (get_zone x.model (new_zone_key c ns n) ≡ some p)
          × (handle_names x (path_of path_zones c ns n q)
              ≡ or_error (resolve_fqdn x.fuel x.external x.index x.model.heap p q) (answer_name x)))
unfolding handle_names
handle_names-path x c ns n q hc hns hn hq =
    elim (Option-cases (get_zone x.model (new_zone_key c ns n))) [
      | inl missing ↦ inl (missing, rw (split-path path_zones c ns n q hc hns hn hq, missing) refl)
      | inr (p, there) ↦
          inr (p, there, rw (split-path path_zones c ns n q hc hns hn hq, there) refl)
    ]
