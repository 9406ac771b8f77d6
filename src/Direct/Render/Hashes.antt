-- ===== src/Direct/Render/Hashes.antt =====
-- pkg/render/spiff.go, `apply_hashes`: an annotation `hashes.<name>` gets the hash of the manifest
-- of that name. The loop runs until nothing changes; it has fuel here, and `none` says that it was
-- used up: manifests that refer to each other, or one to itself, may change for ever.
use kubedns.Direct.Render.{Engine, Rendered, render_all}
use kubedns.Prelude.{
  nat_beq, if◌then◌else◌, nat_eq, ◌==◌, is_empty, lookup, put, remove, Text, text, text_eq, ℕ, zero,
  suc, ◌⊎◌, inl, inr, Bool, true, false, Option, none, some, List, [], ◌∷◌,
}

-- The YAML package for a type of documents, and the hash as text.
pub record Documents (D : Type 0) : Type 0 where
  pub unmarshal : Text → Text ⊎ D
  pub marshal : D → Text ⊎ Text
  -- The map metadata.annotations, which is empty when a level is missing.
  pub annotations : D → List (Text × Text)
  pub set_annotations : D → List (Text × Text) → D
  pub hash : Text → Text

-- strings.HasPrefix(s, p), with the rest of the text.
unfoldable pub strip_prefix : Text → Text → Option Text
strip_prefix [] t = some t
strip_prefix (c ∷ s) [] = none
strip_prefix (c ∷ s) (e ∷ t) = let rest = strip_prefix s t in if nat_beq c e then rest else none

abbrev or_empty : Option Text → Text
or_empty none = []
or_empty (some t) = t

module _ {D : Type 0} (y : Documents D) where
  -- Whether the annotations were changed, and what they are now.
  abbrev pub Annotations : Type 0
  Annotations = Bool × List (Text × Text)

  abbrev hash_of : Text → Text → Text → Annotations → Annotations
  hash_of k cur doc (changed, annos) =
      if is_empty doc
      then (true, remove k annos)
      else if y.hash doc == cur
      then (changed, annos)
      else (true, put k (y.hash doc) annos)

  unfoldable pub check_annotation : List (Text × Text) → Text → Text → Annotations → Annotations
  unfolding strip_prefix lookup put remove
  check_annotation ms k cur a = elim (strip_prefix (text "hashes.") k) [
    | none ↦ a
    | some name ↦ hash_of k cur (or_empty (lookup name ms)) a
  ]

  unfoldable pub check_annotations :
      List (Text × Text) → List (Text × Text) → Annotations → Annotations
  unfolding check_annotation
  check_annotations ms [] a = a
  check_annotations ms ((k, cur) ∷ rest) a = check_annotations ms rest (check_annotation ms k cur a)

  -- The error, whether a manifest was changed, and the manifests.
  abbrev pub Pass : Type 0
  Pass = Option Text × (Bool × List (Text × Text))

  abbrev of_checked : Text → D → Annotations → List (Text × Text) → Bool → Pass
  of_checked n d (false, annos) ms changed = (none, (changed, ms))
  of_checked n d (true, annos) ms changed = elim (y.marshal (y.set_annotations d annos)) [
    | inl m ↦ (some m, (true, ms))
    | inr doc ↦ (none, (true, put n doc ms))
  ]

  unfoldable pub check_manifest : Text → Text → List (Text × Text) → Bool → Pass
  unfolding check_annotations put
  check_manifest n v ms changed = elim (y.unmarshal v) [
    | inl m ↦ (some m, (changed, ms))
    | inr d ↦
        of_checked n d (check_annotations ms (y.annotations d) (false, y.annotations d)) ms changed
  ]

  -- The inner loop, over the manifests as they were before it: it writes no other key.
  unfoldable pub check_manifests : List (Text × Text) → List (Text × Text) → Bool → Pass
  unfolding check_manifest
  check_manifests [] ms changed = (none, (changed, ms))
  check_manifests ((n, v) ∷ rest) ms changed =
      let (e, (changed', ms')) = check_manifest n v ms changed in
      elim e [ some m ↦ (some m, (changed', ms')) | none ↦ check_manifests rest ms' changed' ]

  -- `apply_hashes`: the error, which its caller drops, and the manifests.
  unfoldable pub apply_hashes : ℕ → List (Text × Text) → Option (Option Text × List (Text × Text))
  unfolding check_manifests
  apply_hashes zero ms = none
  apply_hashes (suc fuel) ms =
      let (e, (changed, ms')) = check_manifests ms ms false in
      let again = apply_hashes fuel ms' in
      elim e [ some m ↦ some (some m, ms') | none ↦ if changed then again else some (none, ms') ]

-- The hashes are put into the manifests of the runtime; an error of that is dropped.
abbrev with_hashes : {D : Type 0} → Documents D → ℕ → Text ⊎ Rendered → Option (Text ⊎ Rendered)
with_hashes y fuel (inl m) = some (inl m)
with_hashes y fuel (inr (dataplane, runtime)) = elim (apply_hashes y fuel runtime) [
  | none ↦ none
  | some (e, runtime') ↦ some (inr (dataplane, runtime'))
]

abbrev of_engine :
    {D : Type 0} → Documents D → ℕ → List (Text × Text) → Text ⊎ Engine → Option (Text ⊎ Rendered)
of_engine y fuel ms (inl m) = some (inl m)
of_engine y fuel ms (inr e) = with_hashes y fuel (render_all e ms ([], []))

-- `Render`, with the function that binds the values to the template engine.
unfoldable pub render :
    {D V : Type 0}
    → Documents D
    → ℕ
    → (V → Text ⊎ Engine)
    → List (Text × Text)
    → V
    → Option (Text ⊎ Rendered)
unfolding render_all apply_hashes
render y fuel with_values ms v = of_engine y fuel ms (with_values v)
