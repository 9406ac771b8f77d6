-- ===== src/Api/Conditions.antt =====
-- The constants of api/coredns/v1alpha1: conditions.go, and the states of corednsentry_types.go.
use kubedns.Prelude.{Text, text}

abbrev pub validation_condition_type : Text
validation_condition_type = text "Validation"

abbrev pub reason_configuration_valid : Text
reason_configuration_valid = text "ConfigurationValid"

abbrev pub reason_configuration_invalid : Text
reason_configuration_invalid = text "ConfigurationInvalid"

abbrev pub reason_domain_name_missing : Text
reason_domain_name_missing = text "DomainNameMissing"

abbrev pub reason_email_missing : Text
reason_email_missing = text "EMailMissing"

abbrev pub reason_email_invalid : Text
reason_email_invalid = text "EMailInvalid"

abbrev pub reason_expire_missing : Text
reason_expire_missing = text "ExpireMissing"

abbrev pub reason_ttl_missing : Text
reason_ttl_missing = text "TTLMissing"

abbrev pub reason_invalid_parent : Text
reason_invalid_parent = text "InvalidParent"

abbrev pub reason_invalid_nesting : Text
reason_invalid_nesting = text "InvalidNesting"

abbrev pub runtime_condition_type : Text
runtime_condition_type = text "Runtime"

abbrev pub reason_runtime_deploying : Text
reason_runtime_deploying = text "RuntimeDeploying"

abbrev pub server_condition_type : Text
server_condition_type = text "DNSServer"

abbrev pub reason_server_active : Text
reason_server_active = text "HostedZoneActive"

abbrev pub reason_server_validation_failure : Text
reason_server_validation_failure = text "ValidationFailed"

abbrev pub nameserver_condition_type : Text
nameserver_condition_type = text "Nameserver"

abbrev pub state_ready : Text
state_ready = text "Ready"

abbrev pub reason_update_failed : Text
reason_update_failed = text "UpdateFailed"

abbrev pub reason_runtime_unavailable : Text
reason_runtime_unavailable = text "RuntimeUnavailable"

abbrev pub reason_runtime_internal_error : Text
reason_runtime_internal_error = text "InternalProblem"

abbrev pub reason_runtime_available : Text
reason_runtime_available = text "RuntimeAvailable"

abbrev pub reason_nameserver_available : Text
reason_nameserver_available = text "NameserverAvailable"

abbrev pub reason_nameserver_pending : Text
reason_nameserver_pending = text "NameserverPending"
