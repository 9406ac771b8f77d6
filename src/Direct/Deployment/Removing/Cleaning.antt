-- ===== src/Direct/Deployment/Removing/Cleaning.antt =====
-- The deletion of everything that was deployed for a zone.
use kubedns.Prelude.{
  is_empty, All, Text, ◌≡◌, refl, sym, subst, ap, ◌⊎◌, inl, inr, Bool, true, not, Option, none,
  some, [],
}
use kubedns.Api.{HostedZone}
use kubedns.Common.Calls.{
  return_problem, ◌>>=◌, ◌>>=◌, Action, Holds, >>=-Holds, Holds-weaken, Holds-both, return,
  return_problem, return,
}
use kubedns.Common.Cluster.{failed, Problem}
use kubedns.Direct.Deployment.{State, Side, dataplane, runtime}
use kubedns.Direct.Deployment.Modes.{Values, values}
use kubedns.Direct.Deployment.Cleanup.{cleanup}
use kubedns.Direct.Deployment.Modes.Describing.{AreOfZone, values-AreOfZone}
use kubedns.Direct.Deployment.Modes.Calling.{values-Continues}
use kubedns.Direct.Deployment.Cleanup.Calling.{cleanup-Appends}
use kubedns.Direct.Deployment.Manifests.{Deployer, Manifests, dns_manifests_deleting}
use kubedns.Direct.Deployment.Removing.{
  delete_manifests, delete_if, clean_up, delete_server, delete_all, report_on, report_render_error,
  of_rendered, delete_external_resources,
}
use kubedns.Direct.Deployment.Growth.{meta_of, Extends, Extends-refl, Extends-trans}
use kubedns.Direct.Deployment.Removing.Deleting.{
  no_problem, Removed, AllRemoved, Removed-Extends, delete_manifests-DeletesAll, delete_if-Extends,
}

module _ (d : Deployer)
    (aggregate_lem : (p q : Option Problem)
      → d.aggregate p q ≡ none
      → (p ≡ none) × (q ≡ none)) where
  -- What a method has done that returns: without a problem, all is removed.
  abbrev pub Cleans : State → Option (Option Problem) → State → Type 0
  Cleans s e t = Extends s t × (e ≡ some none → AllRemoved d t.events)

  clean_up-Cleans :
      (v : Option Values) (q : Option Problem) (s : State)
      → ((w : Values) → v ≡ some w → q ≡ none → AllRemoved d s.events)
      → ((t : State) → Extends s t → AllRemoved d s.events → AllRemoved d t.events)
      → Holds (λ u t. ⊥) (Cleans s) (clean_up d v q s)
  unfolding clean_up
  clean_up-Cleans v (some p) s h later = (Extends-refl s, λ e. absurd (cc e))
  clean_up-Cleans none none s h later = (Extends-refl s, λ e. absurd (cc e))
  clean_up-Cleans (some v) none s h later =
      let c = cleanup d.clusters d.mode_options d.mode d.key v.name in
      >>=-Holds (λ u t. Extends s t) (λ u t. ⊥) (Cleans s) c (λ u. return none) s
        (Holds-weaken (λ u t. Extends s t) (λ u t. Extends s t) (λ e t. Extends s t) (Cleans s)
          (c s) (λ u t x. x) (λ e t x. (x, λ q. later t x (h v refl refl)))
          ((cleanup-Appends d.clusters d.mode_options d.mode d.key v.name).holds s))
        (λ u t x. (x, λ q. later t x (h v refl refl)))

  pub AllRemoved-Extends :
      (s t : State) → Extends s t → AllRemoved d s.events → AllRemoved d t.events
  AllRemoved-Extends s t x (v, of_zone, data_ms, run_ms, e, runs, dats) = (
    v,
    of_zone,
    data_ms,
    run_ms,
    e,
    Removed-Extends d runtime s t run_ms x runs,
    Removed-Extends d dataplane s t data_ms x dats,
  )

  -- The end of a method, seen from where it began.
  Cleans-after :
      (s t : State) (e : Option (Option Problem)) (u : State)
      → Extends s t
      → Cleans t e u
      → Cleans s e u
  Cleans-after s t e u x (y, h) = (Extends-trans s t u x y, h)

  then-Cleans :
      {A : Type 0} (Q : A → State → Type 0) (m : Action State A) (f : A → Action State Unit)
      (s : State)
      → Holds (λ a t. Extends s t × Q a t) (λ e t. ⊥) (m s)
      → ((a : A) (t : State) → Q a t → Extends s t → Holds (λ u w. ⊥) (Cleans t) (f a t))
      → Holds (λ u t. ⊥) (Cleans s) ((m >>= f) s)
  then-Cleans Q m f s h k =
      >>=-Holds (λ a t. Extends s t × Q a t) (λ u t. ⊥) (Cleans s) m f s
        (Holds-weaken (λ a t. Extends s t × Q a t) (λ a t. Extends s t × Q a t) (λ e t. ⊥)
          (Cleans s) (m s) (λ a t x. x) (λ e t x. absurd x) h)
        (λ a t x.
          Holds-weaken (λ u w. ⊥) (λ u w. ⊥) (Cleans t) (Cleans s) (f a t) (λ u w y. y)
            (λ e w y. Cleans-after s t e w x.0 y) (k a t x.1 x.0))

  delete_server-Cleans :
      (v : Option Values) (data_ms run_ms : Manifests) (s : State)
      → AreOfZone d.clusters d.mode_options d.mode d.key v
      → d.render d.manifests v ≡ inr (data_ms, run_ms)
      → Holds (λ u t. ⊥) (Cleans s) (delete_server d v (data_ms, run_ms) s)
  unfolding delete_server
  delete_server-Cleans v data_ms run_ms s z e =
      then-Cleans
        (λ (p : Option Problem) t.
          p ≡ none → (no_problem ≡ none) × All (Removed d runtime t.events) run_ms)
        (delete_manifests d runtime run_ms none)
        (λ p. delete_manifests d dataplane data_ms p >>= clean_up d v) s
        (delete_manifests-DeletesAll d aggregate_lem runtime run_ms none s)
        (λ p t h x.
          then-Cleans
            (λ (q : Option Problem) w.
              q ≡ none → (p ≡ none) × All (Removed d dataplane w.events) data_ms)
            (delete_manifests d dataplane data_ms p) (clean_up d v) t
            (delete_manifests-DeletesAll d aggregate_lem dataplane data_ms p t)
            (λ q w k y.
              clean_up-Cleans v q w
                (λ v' same g. (
                  v',
                  z v' same,
                  data_ms,
                  run_ms,
                  subst (λ u. d.render d.manifests u ≡ inr (data_ms, run_ms)) same e,
                  Removed-Extends d runtime t w run_ms y (h (k g).0).1,
                  (k g).1,
                ))
                (λ t' r. AllRemoved-Extends w t' r)))

  return_problem-Cleans :
      (q : Option Problem) (m : Action State Unit) (s : State)
      → Holds (λ u t. ⊥) (Cleans s) (m s)
      → Holds (λ u t. ⊥) (Cleans s) ((return_problem q >>= λ u. m) s)
  return_problem-Cleans none m s h = h
  return_problem-Cleans (some p) m s h = (Extends-refl s, λ e. absurd (cc e))

  abbrev Anything : Option Problem → State → Type 0
  Anything q t = Unit

  delete_if-Anything :
      (b : Bool) (side : Side) (ms : Manifests) (prob : Option Problem) (s : State)
      → Holds (λ p t. Extends s t × Anything p t) (λ e t. ⊥) (delete_if d b side ms prob s)
  delete_if-Anything b side ms prob s =
      Holds-weaken (λ p t. Extends s t) (λ p t. Extends s t × Anything p t) (λ e t. ⊥) (λ e t. ⊥)
        (delete_if d b side ms prob s) (λ p t x. (x, tt)) (λ e t x. x)
        (delete_if-Extends d aggregate_lem b side ms prob s)

  delete_all-Cleans :
      (v : Option Values) (data_ms run_ms : Manifests) (r : (Manifests × Manifests) ⊎ Problem)
      (s : State)
      → AreOfZone d.clusters d.mode_options d.mode d.key v
      → d.render d.manifests v ≡ inr (data_ms, run_ms)
      → Holds (λ u t. ⊥) (Cleans s) (delete_all d v (data_ms, run_ms) r s)
  unfolding delete_all
  delete_all-Cleans v data_ms run_ms (inr prob) s z e = (Extends-refl s, λ q. absurd (cc q))
  delete_all-Cleans v data_ms run_ms (inl (dns_data, dns_run)) s z e =
      then-Cleans Anything (delete_if d (not (is_empty dns_run)) runtime run_ms none)
        (λ p. delete_if d (not (is_empty dns_data)) dataplane data_ms p >>= λ q.
          return_problem q >>= λ u. delete_server d v (data_ms, run_ms))
        s (delete_if-Anything (not (is_empty dns_run)) runtime run_ms none s)
        (λ p t h x.
          then-Cleans Anything (delete_if d (not (is_empty dns_data)) dataplane data_ms p)
            (λ q. return_problem q >>= λ u. delete_server d v (data_ms, run_ms)) t
            (delete_if-Anything (not (is_empty dns_data)) dataplane data_ms p t)
            (λ q w k y.
              return_problem-Cleans q (delete_server d v (data_ms, run_ms)) w
                (delete_server-Cleans v data_ms run_ms w z e)))

  -- The condition changes the status only.
  report_on-Extends :
      (m : Text) (o : Option HostedZone) (s : State)
      → s.object ≡ o
      → Holds (λ u t. Extends s t) (λ e t. Extends s t × (e ≡ none)) (report_on d m o s)
  unfolding report_on
  report_on-Extends m none s e = (Extends-refl s, refl)
  report_on-Extends m (some z) s e = (sym (ap meta_of e), ([], refl))

  report_render_error-Extends :
      (m : Text) (s : State)
      → Holds (λ u t. Extends s t) (λ e t. Extends s t × (e ≡ none)) (report_render_error d m s)
  unfolding report_render_error
  report_render_error-Extends m s = report_on-Extends m s.object s refl

  of_rendered-Cleans :
      (v : Option Values) (r : Text ⊎ (Manifests × Manifests)) (s : State)
      → AreOfZone d.clusters d.mode_options d.mode d.key v
      → d.render d.manifests v ≡ r
      → Holds (λ u t. ⊥) (Cleans s) (of_rendered d v r s)
  unfolding of_rendered
  of_rendered-Cleans v (inr (data_ms, run_ms)) s z e =
      delete_all-Cleans v data_ms run_ms (dns_manifests_deleting d v) s z e
  of_rendered-Cleans v (inl m) s z e =
      >>=-Holds (λ u t. Extends s t) (λ u t. ⊥) (Cleans s) (report_render_error d m)
        (λ u. return (some (failed m))) s
        (Holds-weaken (λ u t. Extends s t) (λ u t. Extends s t) (λ e t. Extends s t × (e ≡ none))
          (Cleans s) (report_render_error d m s) (λ u t x. x)
          (λ e t x. (x.0, λ q. absurd (cc (x.1, q)))) (report_render_error-Extends m s))
        (λ u t x. (x, λ q. absurd (cc q)))

  pub delete_external_resources-Cleans :
      (s : State) → Holds (λ u t. ⊥) (Cleans s) (delete_external_resources d s)
  unfolding delete_external_resources
  delete_external_resources-Cleans s =
      let vs = values d.clusters d.mode_options d.mode d.key true in
      let of_zone = λ (r : Option Values × Option Text) (t : State).
        AreOfZone d.clusters d.mode_options d.mode d.key r.0 in
      >>=-Holds (λ r t. Extends s t × of_zone r t) (λ u t. ⊥) (Cleans s) vs
        (λ r. of_rendered d r.0 (d.render d.manifests r.0)) s
        (Holds-weaken (λ r t. Extends s t × of_zone r t) (λ r t. Extends s t × of_zone r t)
          (λ e t. ⊥ × ⊥) (Cleans s) (vs s) (λ r t x. x) (λ e t x. absurd (x.0))
          (Holds-both (λ r t. Extends s t) of_zone (λ e t. ⊥) (λ e t. ⊥) (vs s)
            ((values-Continues d.clusters d.mode_options d.mode d.key true).holds s)
            (values-AreOfZone d.clusters d.mode_options d.mode d.key true s)))
        (λ r t x.
          Holds-weaken (λ u w. ⊥) (λ u w. ⊥) (Cleans t) (Cleans s)
            (of_rendered d r.0 (d.render d.manifests r.0) t) (λ u w y. y)
            (λ e w y. Cleans-after s t e w x.0 y)
            (of_rendered-Cleans r.0 (d.render d.manifests r.0) t x.1 refl))
