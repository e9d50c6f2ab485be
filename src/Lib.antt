-- ===== src/Lib.antt =====
-- Reliability Lab: a remediation operator and the four services that it looks after.
--
-- AlertManager posts its alerts to the operator (operator/). The webhook server drops resolved
-- alerts and repeats inside a cooldown, classifies the rest by their labels, and runs one
-- remedy: abort a rollout, raise the floor of an autoscaler, or set the circuit-break flag in a
-- ConfigMap. The services (services/) are a chain: orders-svc charges an order at payments-svc,
-- which reserves at inventory-svc; orders-svc then publishes an event that email-worker
-- consumes. orders-svc watches the mounted flag and stops publishing while it is set, which
-- closes the control loop.
--
-- The files, and the code that each models:
--   Common              lists, texts, Go's maps as association lists, int32 and time.Duration as
--                       integers that wrap or saturate; Result for a value or an error
--   Http                net/http's ServeMux: the patterns that the routes of the code register
--   Json                encoding/json: a parsed value into the types that the code decodes, by
--                       their tags; Schema is the test of a value
--   Classifier          operator/internal/classifier/classifier.go: Classify; Policy states its
--                       rules
--   Dedupe              operator/internal/server/dedupe.go: Acquire and gcLocked; Clock is
--                       Time.Sub; Refines has the specification by the history of actions, Skew
--                       the calls of webhooks that are handled at once
--   Remedy              operator/internal/remedy/remedy.go; Cluster is the Kubernetes client;
--                       CircuitBreak, ScaleUp, Rollback and Registry are the files of those names;
--                       Races takes an Apply's Get and the rest of it as separate steps, with
--                       ScaleUp/Races and CircuitBreak/Races as its cases
--   Server              operator/internal/server/server.go and payload.go: New, handleAlert,
--                       dispatch; Body is handleAlert from the JSON value of its body on;
--                       Lifecycle is the routes of Start; Concurrent is handleAlert as a handler
--                       that takes one step at a time, and Concurrent/Interleaved any number of
--                       them
--   Manager             operator/cmd/manager/main.go
--   Gen                 gen/go/inventory/v1 and gen/go/payments/v1: messages, getters and stubs;
--                       Wire is the stubs and the service descriptions over encoded messages
--   Inventory           services/inventory-svc/main.go: Reserve and Release
--   Payments            services/payments-svc/main.go: Charge
--   Orders              services/orders-svc: Create is main.go's handleCreate, Create/Body the
--                       same from the JSON value of its body on, Concurrent as a handler that takes
--                       one step at a time, Create/Counted inside the RED middleware, Routes the
--                       mux of main, and Flag is cbwatch.go, with Follows for the contents that it
--                       reads and Pauses for those that pause the publisher
--   Obs                 pkg/obs: Health, Routes and Serve are obs.go, RedMetrics redmetrics.go,
--                       Trace trace.go; Serve is also server.go's Start
--   Services            Startup and Cleanup are the main functions of services/*/main.go, Process
--                       the goroutines of payments-svc and inventory-svc with their probes, Config
--                       what they read from the environment, Email the handler of services/email-worker/main.go
--   System              Dispatch: from an alert's labels to the remedy; ControlLoop: the operator
--                       and orders-svc; Calls: the handlers of the operator with each call of the
--                       Kubernetes API as a step of its own, with Brake, Floor and Growth for what
--                       becomes of the flag and of an HPA; StaysPaused: what the flag is, and
--                       the remedies that leave it alone; Braked: Calls and orders at once, with
--                       the kubelet, whose file may lag behind the ConfigMap, and the watcher;
--                       Braked/Closes: the whole loop; OrderChain: orders-svc, payments-svc and
--                       inventory-svc over their stubs, as the mains wire them; WiredChain: the
--                       same over encoded messages; Reserved: orders at once over the chain, with
--                       answers that are late or lost; Events: an order's event from its JSON value
--                       to the worker's handler; Mailing: orders, the log of JetStream and the
--                       worker's deliveries; Fulfilled: Mailing and Reserved as one system
--   Witnesses           an in-memory cluster, concrete requests, and the theorems applied to them
--
-- How the code corresponds to the model. A Go method that changes state is a function from the
-- state to the result and the new state; the state of a library's object is a type parameter,
-- and its calls are functions on it. A nil pointer is none. A mutex or an atomic makes its
-- section one step. Where goroutines matter they are a step relation whose states say where each
-- of them stands: the webhook handlers, the Applies of a remedy, Serve with its listener, the
-- processes of the gRPC services, and the handlers of orders-svc with the deliveries to the
-- worker; a run is a sequence of steps in any order. An error is a value that keeps its cause.
-- Loops are recursion on the list that the code ranges over, and the select of a watcher is
-- recursion on the list of the events that it receives: there is no fuel, but for a webhook's
-- handler that runs alone, which takes two steps for each alert and two more, or three for each
-- where the calls of a remedy are steps. A time.Time is a reading
-- of the monotonic clock in nanoseconds; Time.Sub saturates at int64. The sums of ScaleUp wrap
-- at 32 bits.
--
-- What the code takes from other repositories is a parameter: controller-runtime's client, whose
-- documented behaviour is in named records, Remedy.Cluster.Laws without another writer, the
-- MergeLaws of Remedy.ScaleUp.Races and Remedy.CircuitBreak.Races with other writers, and
-- System.Calls.ApiLaws for these together, with a write of one object beside another; grpc-go's
-- transport and protobuf's codecs, with Gen.Wire.Routes, Gen.Wire.ReadsBack and
-- System.Reserved.Carries; JetStream, whose log is in System.Mailing.LogLaws, and which may
-- store a message late; the kubelet, whose fetches and syncs of the mounted file are steps of
-- System.Braked; fsnotify; uuid; client_golang; the OpenTelemetry SDK. The floats of the
-- sampling ratio are an interface. A request path is taken as clean, so the mux does not
-- redirect.
--
-- Not modelled: logging and span attributes, which nothing reads back; the text of JSON and the
-- bytes of protobuf, which are the libraries'; timeouts and the simulated latencies; the
-- generated descriptors and reflection; the two times of an alert, which are never read;
-- writers of the cluster beside the operator while its handlers interleave; the manifests,
-- scripts, chaos experiments and load generator, which configure other systems.
pub mod Common
pub mod Classifier
pub mod Dedupe
pub mod Remedy
pub mod Server
pub mod Manager
pub mod Gen
pub mod Http
pub mod Json
pub mod Inventory
pub mod Payments
pub mod Orders
pub mod Obs
pub mod Services
pub mod System
pub mod Witnesses
