-- ===== src/Server/Payload.antt =====
-- operator/internal/server/payload.go: the AlertManager webhook payload. The two times of an alert
-- are never read; they are kept as the text that JSON gives.
use reliability_lab.Common.{String, List, Bool, str_eq}
use reliability_lab.Common.Dict.{Dict}
use reliability_lab.Classifier.{Labels}

pub record Alert : Type 0 where
  pub status : String
  pub labels : Labels
  pub annotations : Dict String
  pub starts_at : String
  pub ends_at : String
  pub fingerprint : String

pub record AlertManagerPayload : Type 0 where
  pub version : String
  pub group_key : String
  pub status : String
  pub receiver : String
  pub alerts : List Alert

-- Firing.
unfoldable pub is_firing : Alert → Bool
is_firing a = str_eq a.status "firing"
