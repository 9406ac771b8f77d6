-- ===== src/Replicate/Zones/Settling.antt =====
-- What the handler decides for a zone, that it settles, and that it is a handler as the replication
-- wants it.
use kubedns.Prelude.{
  Bool-cases, nat_eq, if-cases, is_empty, lookup, lookup-put, Text, text_eq, ◌≡◌, refl, sym, ap,
  ◌∙◌, ◌↔◌, ◌⊎◌, inl, inr, Bool, true, false, Option, none, some, List, [], ◌∷◌, ◌++◌, map, arith,
}
use kubedns.Api.{ObjectMeta, HostedZone, HostedZoneSpec, ObjectKey, Condition}
use kubedns.Common.Cluster.{contains}
use kubedns.Common.Calls.{value, Holds}
use kubedns.Common.Responsibility
use kubedns.Common.Responsibility.{
  Responsibility, RootInfo, info, config_problem, temporary_problem, get_root_info,
}
use kubedns.Replicate.Options.{replicated_annotation}
use kubedns.Replicate.Objects.{Objects, State, Event, enqueued, has_finalizer}
use kubedns.Replicate.Events.{IsSilent, IsQuiet}
use kubedns.Replicate.Zones.{
  Handler, Unresponsible, request_eq, request_beq_iff, same_pointer, is_known, handle, report,
  of_root, is_responsible, delete, set_responsibility, responsibility, trigger_dependent, trigger,
  enqueue_all, request_beq_iff,
}

-- Only some objects were enqueued.
abbrev Enqueues : List (Event HostedZone) → List (Event HostedZone) → Type 0
Enqueues old new = (ks : List ObjectKey) × (new ≡ map enqueued ks ++ old)

map-snoc :
    (ks : List ObjectKey) (k : ObjectKey) (log : List (Event HostedZone))
    → map enqueued ks ++ (enqueued k ∷ log) ≡ map enqueued (ks ++ k ∷ []) ++ log
map-snoc [] k log = refl
map-snoc (j ∷ ks) k log = ap (λ l. enqueued j ∷ l) (map-snoc ks k log)

enqueue_all-Enqueues :
    (ks : List ObjectKey) (log : List (Event HostedZone)) → Enqueues log (enqueue_all ks log)
unfolding enqueue_all
enqueue_all-Enqueues [] log = ([], refl)
enqueue_all-Enqueues (k ∷ ks) log =
    let (js, e) = enqueue_all-Enqueues ks (enqueued k ∷ log) in
    (js ++ k ∷ [], e ∙ map-snoc js k log)

trigger-Enqueues :
    (found : Text ⊎ List ObjectKey) (log : List (Event HostedZone))
    → Enqueues log (trigger found log)
unfolding trigger
trigger-Enqueues (inl m) log = ([], refl)
trigger-Enqueues (inr ks) log = enqueue_all-Enqueues ks log

append_assoc :
    (js ks : List ObjectKey) (log : List (Event HostedZone))
    → map enqueued js ++ (map enqueued ks ++ log) ≡ map enqueued (js ++ ks) ++ log
append_assoc [] ks log = refl
append_assoc (j ∷ js) ks log = ap (λ l. enqueued j ∷ l) (append_assoc js ks log)

module _ (h : Handler) where
  trigger_dependent-Enqueues :
      (log : List (Event HostedZone)) → Enqueues log (trigger_dependent h log)
  unfolding trigger_dependent
  trigger_dependent-Enqueues log =
      let key = h.request.namespaced_name in
      let (ks, e) = trigger-Enqueues (h.parent_index key) log in
      let (js, f) = trigger-Enqueues (h.entry_index key) (trigger (h.parent_index key) log) in
      (js ++ ks, f ∙ (ap (λ l. map enqueued js ++ l) e ∙ append_assoc js ks log))

  is_known_iff : (o : Option Bool) (b : Bool) → (is_known h o b ≡ true) ↔ (o ≡ some b)
  is_known_iff none b = ground arith
  is_known_iff (some true) true = ground arith
  is_known_iff (some true) false = ground arith
  is_known_iff (some false) true = ground arith
  is_known_iff (some false) false = ground arith

  lookup-handle :
      (b : Bool) (s : State HostedZone Unresponsible)
      → lookup h.request (handle h b s).handler ≡ some b
  unfolding handle
  lookup-handle b s = elim (Bool-cases (is_known h (lookup h.request s.handler) b)) [
    | inl known ↦ rw known ((is_known_iff (lookup h.request s.handler) b).0 known)
    | inr new ↦ rw new (
        grind
          (arith, lookup-put h.request h.request b s.handler, request_beq_iff h.request h.request))
  ]

  handle_known :
      (b : Bool) (s : State HostedZone Unresponsible)
      → lookup h.request s.handler ≡ some b
      → handle h b s ≡ s
  unfolding handle
  handle_known b s e = rw ((is_known_iff (lookup h.request s.handler) b).1 e) refl

  object-handle : (b : Bool) (s : State HostedZone Unresponsible) → (handle h b s).object ≡ s.object
  unfolding handle
  object-handle b s =
      if-cases _ _ (λ (t : State HostedZone Unresponsible). t.object ≡ s.object)
        (is_known h (lookup h.request s.handler) b) refl refl

  handle-Enqueues :
      (b : Bool) (s : State HostedZone Unresponsible) → Enqueues s.events (handle h b s).events
  unfolding handle
  handle-Enqueues b s =
      if-cases _ _ (λ (t : State HostedZone Unresponsible). Enqueues s.events t.events)
        (is_known h (lookup h.request s.handler) b) ([], refl) (trigger_dependent-Enqueues s.events)

  same_pointer_iff : (c d : Option Text) → (same_pointer c d ≡ true) ↔ ((c ≡ none) × (d ≡ none))
  same_pointer_iff none none = ground arith
  same_pointer_iff none (some d) = ground arith
  same_pointer_iff (some c) d = ground arith

  is_responsible-info :
      (s : State HostedZone Unresponsible) (i : Responsibility) (names : Option (List Text))
      → get_root_info h.fuel h.external h.get s.object none ≡ (info i, names)
      → is_responsible h s
        ≡ (value (same_pointer i.class h.class, none), handle h (same_pointer i.class h.class) s)
  unfolding is_responsible of_root
  is_responsible-info s i names e = rw e refl

  -- For a zone whose root is found, the handler reports no problem and is responsible exactly when
  -- neither the root nor the options have a class; the decision is remembered; and asking once
  -- more gives the same answer and enqueues nothing.
  pub is_responsible_settles :
      (s : State HostedZone Unresponsible) (i : Responsibility) (names : Option (List Text))
      → get_root_info h.fuel h.external h.get s.object none ≡ (info i, names)
      → let (answer, t) = is_responsible h s in
        let b = same_pointer i.class h.class in
        (answer ≡ value (b, none))
        × ((b ≡ true) ↔ ((i.class ≡ none) × (h.class ≡ none)))
        × (lookup h.request t.handler ≡ some b)
        × (is_responsible h t ≡ (value (b, none), t))
  is_responsible_settles s i names e =
      let b = same_pointer i.class h.class in
      let again =
        is_responsible-info (handle h b s) i names
          (ap (λ z. get_root_info h.fuel h.external h.get z none) (object-handle b s) ∙ e) in
      let settled = handle_known b (handle h b s) (lookup-handle b s) in
      rw (is_responsible-info s i names e) (
        refl,
        same_pointer_iff i.class h.class,
        lookup-handle b s,
        again ∙ ap (λ t. (value (b, none), t)) settled,
      )

  -- The object keeps its metadata where the library keeps them.
  of_root-IsSilent :
      {St : Type 0} (o : Objects HostedZone St) (f : Text)
      → ((z : HostedZone) → o.meta z ≡ z.meta)
      → ((z : HostedZone) (c : Condition) → (h.set_status_condition z c).meta ≡ z.meta)
      → (s : State HostedZone Unresponsible) (i : RootInfo)
      → Holds (λ b t. IsSilent o f s t) (λ e t. (e ≡ none) × IsSilent o f s t) (of_root h i s)
  unfolding of_root report
  of_root-IsSilent o f meta_eq kept s (temporary_problem p) = (refl, ([], refl))
  of_root-IsSilent o f meta_eq kept s (config_problem p) =
      let s' : State HostedZone Unresponsible = record s { object = report h p s.object } in
      (
        ap (λ z. has_finalizer o z f) (object-handle true s')
            ∙ ap (λ (m : ObjectMeta). contains m.finalizers f)
                (meta_eq (report h p s.object) ∙ (kept s.object _ ∙ sym (meta_eq s.object))),
        handle-Enqueues true s',
      )
  of_root-IsSilent o f meta_eq kept s (info i) =
      let b = same_pointer i.class h.class in
      (ap (λ z. has_finalizer o z f) (object-handle b s), handle-Enqueues b s)
  of_root-IsSilent o f meta_eq kept s Responsibility.panicked = (refl, (refl, ([], refl)))
  of_root-IsSilent o f meta_eq kept s Responsibility.unfinished = (refl, (refl, ([], refl)))

  -- The handler of zones is as the replication wants it.
  pub responsibility-IsQuiet :
      {St : Type 0} (o : Objects HostedZone St) (f : Text)
      → ((z : HostedZone) → o.meta z ≡ z.meta)
      → ((z : HostedZone) (c : Condition) → (h.set_status_condition z c).meta ≡ z.meta)
      → ((z : HostedZone) (sp : HostedZoneSpec)
          → o.get_annotation (record z { spec = sp }) replicated_annotation
            ≡ o.get_annotation z replicated_annotation)
      → IsQuiet HostedZone St Unresponsible o f (responsibility h)
  unfolding is_responsible delete set_responsibility
  responsibility-IsQuiet o f meta_eq kept spec_apart = record {
    is_responsible_lem = λ s.
        of_root-IsSilent o f meta_eq kept s (get_root_info h.fuel h.external h.get s.object none).0;
    delete_lem = λ s. (refl, trigger_dependent-Enqueues s.events);
    get_annotation-set_responsibility = λ z.
        if-cases _ _
          (λ w. o.get_annotation w replicated_annotation ≡ o.get_annotation z replicated_annotation)
          (is_empty z.spec.parent_ref) (spec_apart z _) refl;
  }
