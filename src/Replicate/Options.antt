-- ===== src/Replicate/Options.antt =====
-- internal/controller/replicate/common/options.go and const.go: the options, and the finalizer
-- that they select.
use kubedns.Prelude.{if◌then◌else◌, is_empty, Text, text, dot, not, Option, none, some, ◌∷◌, ◌++◌}

-- REPLICATED_ANNOTATION
abbrev pub replicated_annotation : Text
replicated_annotation = text "coredns.mandelsoft.org/replication"

-- Options; the mapping is among the calls.
pub record Options : Type 0 where
  pub class : Option Text
  pub runtime : Option Text
  pub target_class : Text
  pub target_namespace : Text

-- A pointer that is not nil and not the empty string.
abbrev add_label : Text → Option Text → Text
add_label f none = f
add_label f (some l) = if not (is_empty l) then f ++ dot ∷ l else f

-- `ModifyFinalizer`
unfoldable pub modify_finalizer : Options → Text → Text
modify_finalizer o f = add_label (add_label f o.class) o.runtime
