-- ===== src/Direct/Conditions/Summaries.antt =====
-- The state that `summary` gives a zone.
use kubedns.Prelude.{Text, ◌≡◌, ◌↔◌, true, Option, none, some, List, arith}
use kubedns.External.{External}
use kubedns.Api.{Condition}
use kubedns.Api.Conditions.{
  validation_condition_type, runtime_condition_type, nameserver_condition_type,
  server_condition_type, state_ready,
}
use kubedns.Direct.Conditions.{
  is_true, of_server, of_nameserver, of_runtime, of_validation, summarize,
}

-- The condition is there, and it is true.
abbrev pub IsTrue : Option Condition → Type 0
IsTrue none = ⊥
IsTrue (some c) = is_true c.status ≡ true

server-ready : (s : Option Condition) (msg : Text) → ((of_server s msg).0 ≡ state_ready) ↔ IsTrue s
server-ready none msg = ground arith
server-ready (some c) msg = ground arith

nameserver-ready :
    (n : Option Condition) (msg : Text) (rest : Text × Text)
    → ((of_nameserver n msg rest).0 ≡ state_ready) ↔ (IsTrue n × (rest.0 ≡ state_ready))
nameserver-ready none msg rest = ground arith
nameserver-ready (some c) msg rest = ground arith

runtime-ready :
    (r : Option Condition) (msg : Text) (rest : Text × Text)
    → ((of_runtime r msg rest).0 ≡ state_ready) ↔ (IsTrue r × (rest.0 ≡ state_ready))
runtime-ready none msg rest = ground arith
runtime-ready (some c) msg rest = ground arith

validation-ready :
    (v : Option Condition) (rest : Text × Text)
    → ((of_validation v rest).0 ≡ state_ready) ↔ (IsTrue v × (rest.0 ≡ state_ready))
validation-ready none rest = ground arith
validation-ready (some c) rest = ground arith

-- The state is Ready exactly when the conditions of the validation, the runtime, the name server and
-- the DNS server are all there and true.
pub summarize-ready :
    (x : External) (cs : List Condition)
    → ((summarize x cs).0 ≡ state_ready) ↔ (
        IsTrue (x.find_status_condition cs validation_condition_type)
        × IsTrue (x.find_status_condition cs runtime_condition_type)
        × IsTrue (x.find_status_condition cs nameserver_condition_type)
        × IsTrue (x.find_status_condition cs server_condition_type))
unfolding summarize
summarize-ready x cs =
    let v = validation-ready (x.find_status_condition cs validation_condition_type) _ in
    let r = runtime-ready (x.find_status_condition cs runtime_condition_type) _ _ in
    let n = nameserver-ready (x.find_status_condition cs nameserver_condition_type) _ _ in
    let s = server-ready (x.find_status_condition cs server_condition_type) _ in
    (
      λ h.
          let (hv, h1) = v.0 h in
          let (hr, h2) = r.0 h1 in let (hn, h3) = n.0 h2 in (hv, hr, hn, s.0 h3),
      λ (hv, hr, hn, hs). v.1 (hv, r.1 (hr, n.1 (hn, s.1 hs))),
    )
