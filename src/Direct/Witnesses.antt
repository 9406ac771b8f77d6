-- ===== src/Direct/Witnesses.antt =====
-- The theorems on the direct mode at the resources of the examples.
use kubedns.Prelude.{Text, text, ◌≡◌, ◌≢◌, ◌↔◌, ◌⊎◌, true, false, none, some, [], ◌∷◌}
use kubedns.External.Sample.{sample, sample_find}
use kubedns.Api.{HostedZone}
use kubedns.Api.Conditions.{
  state_ready, validation_condition_type, runtime_condition_type, nameserver_condition_type,
  server_condition_type,
}
use kubedns.Common.Witnesses.{two_zone_cluster}
use kubedns.Zonemodel.Outcome.{Outcome, ok, err, panicked, unfinished}
use kubedns.Zonemodel.Examples.{zone_a, entry_aa_demo}
use kubedns.Direct.Fields.{set_pointer_field}
use kubedns.Direct.Fields.Setting.{set_pointer_field-equal}
use kubedns.Direct.Conditions.{summarize}
use kubedns.Direct.Conditions.Summaries.{IsTrue, summarize-ready}
use kubedns.Direct.ZoneRequest.{Responsible, is_responsible}
use kubedns.Direct.EntryRequest.{reconcile}
use kubedns.Direct.EntryRequest.Searching.{reconcile_never_panics}

abbrev finalizer : Text
finalizer = text "kubedns"

abbrev taken_zone : HostedZone
taken_zone = record zone_a { meta = record zone_a.meta { finalizers = finalizer ∷ [] } }

abbrev result : Outcome Responsible
result =
    is_responsible 5 sample two_zone_cluster (λ p. false) finalizer (some (text "gold")) none
      (some taken_zone)

abbrev answer : Outcome Responsible → Responsible
answer (ok r) = r
answer (err e) = record { responsible = false; root = none; problem = none; object = none }
answer panicked = record { responsible = false; root = none; problem = none; object = none }
answer unfinished = record { responsible = false; root = none; problem = none; object = none }

reconcile_never_panics_example :
    reconcile 5 sample two_zone_cluster none none entry_aa_demo ≢ panicked
reconcile_never_panics_example =
    reconcile_never_panics 5 sample two_zone_cluster none none entry_aa_demo

summarize-ready_example : ((summarize sample []).0 ≡ state_ready) ↔ (
    IsTrue (sample_find [] validation_condition_type)
    × IsTrue (sample_find [] runtime_condition_type)
    × IsTrue (sample_find [] nameserver_condition_type)
    × IsTrue (sample_find [] server_condition_type))
summarize-ready_example = summarize-ready sample []

set_pointer_field-equal_example :
    ((set_pointer_field (λ v w. false) (some (1, text "old")) (some (2, text "new"))
        ≡ (true, some (2, text "new")))
      × (false ≡ true))
    ⊎ (set_pointer_field (λ v w. false) (some (1, text "old")) (some (2, text "new"))
        ≡ (false, some (1, text "old")))
set_pointer_field-equal_example =
    set_pointer_field-equal (λ v w. false) 1 (text "old") (some (2, text "new"))
