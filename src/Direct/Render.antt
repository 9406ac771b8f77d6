-- ===== src/Direct/Render.antt =====
-- pkg/render/spiff.go: the templates of a deployment are processed and split by cluster, and the
-- hashes of manifests are put in. The template engine, the two YAML packages and SHA-256 are
-- parameters; an error is its message. A Go map is the list of its entries.
pub mod Hashes
use kubedns.Prelude.{
  if◌then◌else◌, nat_eq, ◌==◌, put, Text, text, text_eq, ℕ, suc, ◌⊎◌, inl, inr, Bool, true, false,
  Option, none, some, List, [], ◌∷◌, ◌++◌,
}
use kubedns.Common.Formats.{decimal}

mutual
  -- yaml.Node by its value: a map, a list, a string, or something else.
  pub data Node : Type 0 where
    map_node : Fields → Node
    list_node : Nodes → Node
    text_node : Text → Node
    other_node : Node

  pub data Fields : Type 0 where
    no_fields : Fields
    field : Text → Node → Fields → Fields

  pub data Nodes : Type 0 where
    no_nodes : Nodes
    node : Node → Nodes → Nodes

-- spiffing.Spiff with the values bound: a template is parsed, processed and written.
pub record Engine : Type 0 where
  pub unmarshal_source : Text → Text → Text ⊎ Node
  pub cascade : Node → Text ⊎ Node
  pub marshal : Node → Text ⊎ Text

abbrev pub find_field : Text → Fields → Option Node
find_field k no_fields = none
find_field k (field j n rest) = let later = find_field k rest in if j == k then some n else later

-- The manifests by name, of the dataplane and of the runtime.
abbrev pub Rendered : Type 0
Rendered = List (Text × Text) × List (Text × Text)

-- metadata.labels.target is "runtime"; each level may be missing.
abbrev pub target_of_label : Text → Option Node → Text ⊎ Bool
target_of_label name none = inr false
target_of_label name (some (text_node s)) = inr (s == text "runtime")
target_of_label name (some (map_node f)) = inl (name ++ text ": labels \"target\" must be string")
target_of_label name (some (list_node f)) = inl (name ++ text ": labels \"target\" must be string")
target_of_label name (some other_node) = inl (name ++ text ": labels \"target\" must be string")

abbrev pub target_of_labels : Text → Option Node → Text ⊎ Bool
target_of_labels name none = inr false
target_of_labels name (some (map_node f)) = target_of_label name (find_field (text "target") f)
target_of_labels name (some (list_node f)) = inl (name ++ text ": invalid labels field")
target_of_labels name (some (text_node f)) = inl (name ++ text ": invalid labels field")
target_of_labels name (some other_node) = inl (name ++ text ": invalid labels field")

abbrev pub target_of_metadata : Text → Option Node → Text ⊎ Bool
target_of_metadata name none = inr false
target_of_metadata name (some (map_node f)) = target_of_labels name (find_field (text "labels") f)
target_of_metadata name (some (list_node f)) = inl (name ++ text ": invalid metadata field")
target_of_metadata name (some (text_node f)) = inl (name ++ text ": invalid metadata field")
target_of_metadata name (some other_node) = inl (name ++ text ": invalid metadata field")

abbrev has_kind : Fields → Bool
has_kind f = elim (find_field (text "kind") f) [ none ↦ false | some n ↦ true ]

abbrev pub add_manifest : Text → Text → Fields → Text ⊎ Bool → Rendered → Text ⊎ Rendered
add_manifest name doc f (inl m) out = inl m
add_manifest name doc f (inr true) (dataplane, runtime) = inr (dataplane, put name doc runtime)
add_manifest name doc f (inr false) (dataplane, runtime) =
    if has_kind f then inr (put name doc dataplane, runtime) else inr (dataplane, runtime)

abbrev pub of_marshalled : Text → Node → Text ⊎ Text → Rendered → Text ⊎ Rendered
of_marshalled name n (inl m) out = inl m
of_marshalled name (map_node f) (inr doc) out =
    add_manifest name doc f (target_of_metadata name (find_field (text "metadata") f)) out
of_marshalled name (list_node f) (inr doc) out = inl (name ++ text ": no map on root level")
of_marshalled name (text_node f) (inr doc) out = inl (name ++ text ": no map on root level")
of_marshalled name other_node (inr doc) out = inl (name ++ text ": no map on root level")

module _ (e : Engine) where
  -- `retrieve`
  unfoldable pub retrieve : Text → Node → Rendered → Text ⊎ Rendered
  unfolding put
  retrieve name n out = of_marshalled name n (e.marshal n) out

  -- The loop over a map of manifests, and the one over a list.
  unfoldable pub retrieve_fields : Text → Fields → Rendered → Text ⊎ Rendered
  unfolding retrieve
  retrieve_fields k no_fields out = inr out
  retrieve_fields k (field n v rest) out = elim (retrieve (k ++ (text "::" ++ n)) v out) [
    | inl m ↦ inl m
    | inr out' ↦ retrieve_fields k rest out'
  ]

  unfoldable pub retrieve_nodes : Text → ℕ → Nodes → Rendered → Text ⊎ Rendered
  unfolding retrieve
  retrieve_nodes k i no_nodes out = inr out
  retrieve_nodes k i (node v rest) out = elim (retrieve (k ++ (text "::" ++ decimal i)) v out) [
    | inl m ↦ inl m
    | inr out' ↦ retrieve_nodes k (suc i) rest out'
  ]

  unfoldable pub of_manifests : Text → Fields → Option Node → Rendered → Text ⊎ Rendered
  unfolding retrieve retrieve_fields retrieve_nodes
  of_manifests k f none out = retrieve k (map_node f) out
  of_manifests k f (some (map_node g)) out = retrieve_fields k g out
  of_manifests k f (some (list_node ns)) out = retrieve_nodes k 0 ns out
  of_manifests k f (some (text_node s)) out = inl (k ++ text ": manifests must be list or map")
  of_manifests k f (some other_node) out = inl (k ++ text ": manifests must be list or map")

  unfoldable pub of_result : Text → Node → Rendered → Text ⊎ Rendered
  unfolding of_manifests
  of_result k (map_node f) out = of_manifests k f (find_field (text "manifests") f) out
  of_result k (list_node ns) out = inl (k ++ text ": no map on root level")
  of_result k (text_node s) out = inl (k ++ text ": no map on root level")
  of_result k other_node out = inl (k ++ text ": no map on root level")

  abbrev of_cascade : Text → Text ⊎ Node → Rendered → Text ⊎ Rendered
  of_cascade k (inl m) out = inl (k ++ (text ": " ++ m))
  of_cascade k (inr n) out = of_result k n out

  abbrev of_template : Text → Text ⊎ Node → Rendered → Text ⊎ Rendered
  of_template k (inl m) out = inl (k ++ (text ": " ++ m))
  of_template k (inr t) out = of_cascade k (e.cascade t) out

  -- The loop of `Render` over the templates.
  unfoldable pub render_all : List (Text × Text) → Rendered → Text ⊎ Rendered
  unfolding of_result
  render_all [] out = inr out
  render_all ((k, v) ∷ ms) out = elim (of_template k (e.unmarshal_source k v) out) [
    | inl m ↦ inl m
    | inr out' ↦ render_all ms out'
  ]
