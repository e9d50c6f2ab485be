-- ===== src/Classifier.antt =====
-- operator/internal/classifier/classifier.go: from an alert's labels to the remedy to take. A
-- reason keeps its format string's name and argument; the text that fmt.Sprintf makes of them is
-- only logged.
pub mod Policy
use reliability_lab.Common.{Bool, true, false, ◌&&◌, ◌||◌, not, String, str_eq, if◌then◌else◌}
use reliability_lab.Common.Dict.{Dict, index}

pub data Kind : Type 0 where
  no_remedy rollback scale_up circuit_break : Kind

-- Go's == on kinds.
abbrev pub kind_eq : Kind → Kind → Bool
kind_eq no_remedy no_remedy = true
kind_eq rollback rollback = true
kind_eq scale_up scale_up = true
kind_eq circuit_break circuit_break = true
kind_eq _ _ = false

-- Kind.String.
unfoldable pub to_string : Kind → String
to_string rollback = "rollback"
to_string scale_up = "scale-up"
to_string circuit_break = "circuit-break"
to_string no_remedy = "no-remedy"

pub data Reason : Type 0 where
  severity_not_page : String → Reason
  email_worker_burning : String → Reason
  orders_burning_fast : String → Reason
  payments_burning_fast : String → Reason
  inventory_burning_fast : String → Reason
  no_rule_matched : Reason

pub record Decision : Type 0 where
  pub kind : Kind
  pub target : String
  pub reason : Reason

abbrev pub Labels : Type 0
Labels = Dict String

-- labels[k]: the zero value of a missing label is the empty text.
unfoldable pub label : Labels → String → String
label labels k = index "" labels k

-- The switch of Classify, on the four labels that it reads.
unfoldable pub decide : String → String → String → String → Decision
decide severity service slo burn =
    if not (str_eq severity "page")
    then record { kind = no_remedy; target = ""; reason = severity_not_page severity }
    else if str_eq service "email-worker"
    then record {
      kind = circuit_break;
      target = "orders-svc-flags";
      reason = email_worker_burning slo;
    }
    else if str_eq service "orders" && (str_eq burn "fast" || str_eq slo "orders_latency")
    then record { kind = rollback; target = "orders-svc"; reason = orders_burning_fast slo }
    else if str_eq service "payments" && str_eq burn "fast"
    then record { kind = scale_up; target = "payments-svc"; reason = payments_burning_fast slo }
    else if str_eq service "inventory" && str_eq burn "fast"
    then record { kind = scale_up; target = "inventory-svc"; reason = inventory_burning_fast slo }
    else record { kind = no_remedy; target = ""; reason = no_rule_matched }

unfoldable pub classify : Labels → Decision
unfolding decide
classify labels =
    decide (label labels "severity") (label labels "service") (label labels "slo")
      (label labels "burn_speed")
