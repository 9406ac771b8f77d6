-- ===== src/Replicate/Entries.antt =====
-- internal/controller/replicate/entry/def.go: which entries are replicated. This handler keeps no
-- state.
use kubedns.Prelude.{
  nat_eq, Text, text, text_eq, ℕ, ◌≡◌, refl, sym, ap, ◌∙◌, Bool, true, false, Option, none, some,
  [],
}
use kubedns.Api.{CoreDnsEntry, HostedZone, ObjectKey, Condition, status_false, ObjectMeta}
use kubedns.Api.Conditions.{validation_condition_type, reason_configuration_invalid}
use kubedns.External.{External}
use kubedns.Common.Cluster.{Fetched, Problem, failed, contains}
use kubedns.Common.Calls.{Action, value, panicked, unfinished, pure, Holds}
use kubedns.Common.Validate.{
  EntryValidation, validated, problem, search_panicked, search_unfinished, validate_entry,
}
use kubedns.Replicate.Objects.{State, ResponsibilityHandler, Objects}
use kubedns.Replicate.Events.{IsSilent, IsQuiet}
use kubedns.Replicate.Zones.{same_pointer}

-- What the handler reads; setting a condition is a method of the request.
pub record Handler : Type 0 where
  pub fuel : ℕ
  pub external : External
  pub get : ObjectKey → Fetched HostedZone
  pub set_status_condition : CoreDnsEntry → Condition → CoreDnsEntry
  pub class : Option Text

module _ (h : Handler) where
  -- The condition and the status of an entry without a root.
  unfoldable pub report : Text → CoreDnsEntry → CoreDnsEntry
  report m e =
      let e' = h.set_status_condition e (record {
        kind = validation_condition_type;
        status = status_false;
        observed_generation = 0;
        reason = reason_configuration_invalid;
        message = m;
      }) in
      record e' { status = record e'.status { message = m; state = text "Problem" } }

  unfoldable pub of_validation :
      EntryValidation → Action (State CoreDnsEntry Unit) (Bool × Option Problem)
  unfolding report
  of_validation (problem e p) s = (value (true, some p), s)
  of_validation (validated (some i) e) s = (value (same_pointer i.class h.class, none), s)
  of_validation (validated none (some m)) s =
      (value (false, some (failed m)), record s { object = report m s.object })
  of_validation (validated none none) s = (value (true, none), s)
  of_validation search_panicked s = (panicked, s)
  of_validation search_unfinished s = (unfinished, s)

  -- `IsResponsible`
  unfoldable pub is_responsible : Action (State CoreDnsEntry Unit) (Bool × Option Problem)
  unfolding of_validation validate_entry
  is_responsible s = of_validation (validate_entry h.fuel h.external h.get s.object) s

  -- `Delete` and `SetResponsibility` have no statements.
  abbrev pub responsibility : ResponsibilityHandler CoreDnsEntry Unit
  responsibility = record {
    delete = pure tt;
    is_responsible = is_responsible;
    set_responsibility = λ e. e;
  }

  of_validation-IsSilent :
      {St : Type 0} (o : Objects CoreDnsEntry St) (f : Text)
      → ((e : CoreDnsEntry) → o.meta e ≡ e.meta)
      → ((e : CoreDnsEntry) (c : Condition) → (h.set_status_condition e c).meta ≡ e.meta)
      → (s : State CoreDnsEntry Unit) (v : EntryValidation)
      → Holds (λ b t. IsSilent o f s t) (λ e t. (e ≡ none) × IsSilent o f s t) (of_validation v s)
  unfolding of_validation report
  of_validation-IsSilent o f meta_eq kept s (problem e p) = (refl, ([], refl))
  of_validation-IsSilent o f meta_eq kept s (validated (some i) e) = (refl, ([], refl))
  of_validation-IsSilent o f meta_eq kept s (validated none (some m)) = (
    ap (λ (m : ObjectMeta). contains m.finalizers f)
        (meta_eq (report m s.object) ∙ (kept s.object _ ∙ sym (meta_eq s.object))),
    ([], refl),
  )
  of_validation-IsSilent o f meta_eq kept s (validated none none) = (refl, ([], refl))
  of_validation-IsSilent o f meta_eq kept s search_panicked = (refl, (refl, ([], refl)))
  of_validation-IsSilent o f meta_eq kept s search_unfinished = (refl, (refl, ([], refl)))

  -- The handler of entries is as the replication wants it.
  responsibility-IsQuiet :
      {St : Type 0} (o : Objects CoreDnsEntry St) (f : Text)
      → ((e : CoreDnsEntry) → o.meta e ≡ e.meta)
      → ((e : CoreDnsEntry) (c : Condition) → (h.set_status_condition e c).meta ≡ e.meta)
      → IsQuiet CoreDnsEntry St Unit o f responsibility
  unfolding is_responsible
  responsibility-IsQuiet o f meta_eq kept = record {
    is_responsible_lem = λ s.
        of_validation-IsSilent o f meta_eq kept s (validate_entry h.fuel h.external h.get s.object);
    delete_lem = λ s. (refl, ([], refl));
    get_annotation-set_responsibility = λ e. refl;
  }
