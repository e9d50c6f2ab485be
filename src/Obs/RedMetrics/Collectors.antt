-- ===== src/Obs/RedMetrics/Collectors.antt =====
-- pkg/obs/redmetrics.go: NewHTTPMetrics and the labels that Wrap gives to With; pkg/obs/obs.go:
-- Registry. client_golang is the library: MustRegister panics for a name that is taken, With for
-- labels that are not the vector's, and a full name is the namespace, "_" and the name. The names of
-- the Go and process collectors are arguments.
use reliability_lab.Common.{
  ℕ, ◌==◌, ◌≡◌, refl, inl, inr, Bool, true, false, ◌&&◌, ◌||◌, Bool-cases, String, List, [], ◌∷◌,
  ◌++◌, Option, none, some, length, if◌then◌else◌,
}
use reliability_lab.Common.Text.{codes, eq_codes, eq_codes-prefix}
use reliability_lab.Common.Dict.{Dict, lookup}
use reliability_lab.Obs.RedMetrics.{MetricLabels}

-- A name as its code points.
abbrev pub Name : Type 0
Name = List ℕ

-- prometheus.CounterOpts or HistogramOpts, with the label names of the vector.
pub record VecOpts : Type 0 where
  pub namespace : Name
  pub name : Name
  pub labels : List String

abbrev pub request_labels : List String
request_labels = "handler" ∷ "method" ∷ "code" ∷ []

unfoldable pub requests_opts : Name → VecOpts
requests_opts namespace = record {
  namespace = namespace;
  name = codes "http_requests_total";
  labels = request_labels;
}

unfoldable pub duration_opts : Name → VecOpts
duration_opts namespace = record {
  namespace = namespace;
  name = codes "http_request_duration_seconds";
  labels = request_labels;
}

abbrev pub full_name : VecOpts → Name
full_name o = o.namespace ++ (codes "_" ++ o.name)

abbrev pub is_taken : Name → List Name → Bool
is_taken n [] = false
is_taken n (r ∷ reg) = eq_codes n r || is_taken n reg

-- MustRegister of the names in turn; `none` is the panic.
unfoldable pub must_register : List Name → List Name → Option (List Name)
unfolding eq_codes
must_register [] reg = some reg
must_register (n ∷ ns) reg = if is_taken n reg then none else must_register ns (n ∷ reg)

-- NewHTTPMetrics.
unfoldable pub new_http_metrics : List Name → Name → Option (List Name)
unfolding must_register requests_opts duration_opts
new_http_metrics reg namespace =
    must_register (full_name (requests_opts namespace) ∷ full_name (duration_opts namespace) ∷ [])
      reg

-- Registry: a new registry with the two collectors.
unfoldable pub new_registry : List Name → List Name → Option (List Name)
unfolding must_register
new_registry go_names process_names = must_register (go_names ++ process_names) []

abbrev has_label : Dict String → String → Bool
has_label given l = elim (lookup l given) [ none ↦ false | some v ↦ true ]

abbrev has_labels : Dict String → List String → Bool
has_labels given [] = true
has_labels given (l ∷ ls) = has_label given l && has_labels given ls

-- Whether With of a vector accepts the labels: as many as it has, and each of its own.
unfoldable pub accepts : VecOpts → Dict String → Bool
accepts o given = (length given == length o.labels) && has_labels given o.labels

-- The prometheus.Labels of Wrap; `itoa` is strconv.Itoa.
unfoldable pub label_map : (ℕ → String) → MetricLabels → Dict String
label_map itoa l = ("handler", l.handler) ∷ ("method", l.method) ∷ ("code", itoa l.code) ∷ []

names_apart :
    (namespace : Name)
    → eq_codes (full_name (duration_opts namespace)) (full_name (requests_opts namespace)) ≡ false
unfolding eq_codes requests_opts duration_opts
names_apart namespace =
    eq_codes-prefix namespace (codes "_http_request_duration_seconds")
      (codes "_http_requests_total")

-- NewHTTPMetrics panics exactly when the registry has a metric with the full name of its counter or
-- of its histogram, which are never each other's; otherwise it registers both. Wrap's calls of With
-- do not panic: both vectors accept its labels, whatever their values.
pub new_http_metrics_lem :
    (reg : List Name) (namespace : Name) (itoa : ℕ → String) (labels : MetricLabels)
    → (new_http_metrics reg namespace ≡ (
        if is_taken (full_name (requests_opts namespace)) reg
          || is_taken (full_name (duration_opts namespace)) reg
        then none
        else some
            (full_name (duration_opts namespace) ∷ full_name (requests_opts namespace) ∷ reg)))
      × (accepts (requests_opts namespace) (label_map itoa labels) ≡ true)
      × (accepts (duration_opts namespace) (label_map itoa labels) ≡ true)
unfolding new_http_metrics must_register requests_opts duration_opts accepts label_map lookup
new_http_metrics_lem reg namespace itoa labels = (
  rw (names_apart namespace)
      (elim (Bool-cases (is_taken (full_name (requests_opts namespace)) reg)) [
        | inl e ↦ rw e refl
        | inr e ↦ rw e refl
      ]),
  refl,
  refl,
)
