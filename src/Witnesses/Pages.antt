-- ===== src/Witnesses/Pages.antt =====
-- A page about the email worker, its webhook, and the operator that main builds over the cluster.
use reliability_lab.Common.{[], ◌∷◌, none}
use reliability_lab.Classifier.{Labels}
use reliability_lab.Server.Payload.{Alert, AlertManagerPayload}
use reliability_lab.Server.{Server}
use reliability_lab.Manager.{Flags, Given, parse_flags}
use reliability_lab.System.Dispatch.{operator}
use reliability_lab.Witnesses.Fixtures.{World, ClusterError, cluster}

abbrev pub email_labels : Labels
email_labels = ("severity", "page") ∷ ("service", "email-worker") ∷ ("slo", "email_delivery") ∷ []

abbrev pub email_page : Alert
email_page = record {
  status = "firing";
  labels = email_labels;
  annotations = [];
  starts_at = "2024-01-01T00:00:00Z";
  ends_at = "0001-01-01T00:00:00Z";
  fingerprint = "f1";
}

abbrev pub email_payload : AlertManagerPayload
email_payload = record {
  version = "4";
  group_key = "g";
  status = "firing";
  receiver = "operator";
  alerts = email_page ∷ [];
}

abbrev pub no_flags : Given
no_flags = record {
  webhook_addr = none;
  metrics_addr = none;
  probe_addr = none;
  leader_elect = none;
}

abbrev pub flags : Flags
flags = parse_flags no_flags

abbrev pub op : Server World ClusterError
op = operator cluster flags
