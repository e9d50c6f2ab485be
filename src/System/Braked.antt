-- ===== src/System/Braked.antt =====
-- The operator and orders-svc at once, after the brake: webhooks arrive at the operator and orders at
-- orders-svc, and the calls of their handlers interleave. The kubelet fetches the flag's ConfigMap and
-- brings the mounted file up to what it has fetched, and the watcher re-reads the file, each at any
-- time: the file may lag behind the cluster. JetStream may store a message after the publish of it
-- has returned an error.
pub mod Closes
use mathlib.Core.List.{Memᴰ}
use reliability_lab.Common.{ℕ, ◌≡◌, ap, subst, ◌⊎◌, inl, inr, true, List, Option, some, ok, update}
use reliability_lab.Remedy.Cluster.{Client, ConfigMap}
use reliability_lab.Remedy.CircuitBreak.{flag_of}
use reliability_lab.Manager.{Flags}
use reliability_lab.Dedupe.{Dedupe}
use reliability_lab.Dedupe.Clock.{Time}
use reliability_lab.Orders.Flag.{File, read}
use reliability_lab.Orders.Create.{App, Msg, OrderRequest}
use reliability_lab.Orders.Concurrent
use reliability_lab.Orders.Concurrent.{Orders, idle, entered}
use reliability_lab.System.Calls
use reliability_lab.System.Calls.{Calls, ApiLaws, started, Steps-then}
use reliability_lab.System.Calls.Brake.{calls_keep_brake}
use reliability_lab.System.ControlLoop.{projected, flag_read}
use reliability_lab.System.StaysPaused.{flags_key, IsPaused}
use reliability_lab.System.Mailing.{LogLaws, attempted_by}
use reliability_lab.System.Mailing.Logged.{Publishes}
use reliability_lab.System.Mailing.Held.{Known, arrived-Known, moved-Known}

-- The operator over the cluster `W`, and orders-svc over its collaborators `V`.
pub record Whole (W E V F : Type 0) : Type 0 where
  pub operator : Calls W E
  -- What the kubelet has fetched last of the flag's ConfigMap, and the file that it has mounted.
  pub cache : Option ConfigMap
  pub file : File
  pub orders : Orders V F
  -- The messages that orders-svc has handed to JetStream so far.
  pub attempted : List Msg

-- The kubelet has fetched a ConfigMap that says "false".
abbrev pub IsCached : Option ConfigMap → Type 0
IsCached cache = (cm : ConfigMap) × (cache ≡ some cm) × (flag_of cm ≡ "false")

-- The file that it makes of it says so too.
pub synced-read :
    {cache : Option ConfigMap} (cm : ConfigMap)
    → cache ≡ some cm
    → IsCached cache
    → read (projected cm) ≡ true
synced-read cm e (cm', e', set) =
    let same : cm' ≡ cm = cc in flag_read cm (subst (λ c. flag_of c ≡ "false") same set)

module _ {W E V F : Type 0} (client : Client W E) (flags : Flags) (a : App V F)
    (log : V → List Msg) where
  -- A step of the operator; an order's arrival or a step of its handler; a later state of the
  -- collaborators of orders-svc, where messages may expire and those handed to JetStream may be
  -- stored; the kubelet's fetch and its sync; a re-read of the file.
  pub data Step (s : Whole W E V F) : Whole W E V F → Type 0 where
    operated :
        {t : Calls W E} → Calls.Step client flags s.operator t → Step s (record s { operator = t })
    arrived :
        (i : ℕ) (req : OrderRequest)
        → s.orders.handlers i ≡ idle
        → Step s (record s {
          orders = record s.orders { handlers = update s.orders.handlers i (entered req) };
        })
    worked :
        (i : ℕ)
        → Step s (record s {
          orders = Concurrent.moved a s.orders i;
          attempted = attempted_by a (s.orders.handlers i) s.orders.world s.attempted;
        })
    landed :
        (v : V)
        → ((m : Msg) → Memᴰ m (log v) → Memᴰ m (log s.orders.world) ⊎ Memᴰ m s.attempted)
        → Step s (record s { orders = record s.orders { world = v } })
    fetched :
        (cm : ConfigMap)
        → client.get_config_map flags_key s.operator.cluster ≡ ok cm
        → Step s (record s { cache = some cm })
    synced : (cm : ConfigMap) → s.cache ≡ some cm → Step s (record s { file = projected cm })
    watched : Step s (record s { orders = record s.orders { paused = read s.file } })

  pub data Steps : Whole W E V F → Whole W E V F → Type 0 where
    done : {s : Whole W E V F} → Steps s s
    next : {s t u : Whole W E V F} → Step s t → Steps t u → Steps s u

  Steps-keep :
      (P : Whole W E V F → Type 0)
      → ((s t : Whole W E V F) → Step s t → P s → P t)
      → (s t : Whole W E V F) → Steps s t
      → P s
      → P t
  Steps-keep P keeps s t done p = p
  Steps-keep P keeps s u (next {t = t} step rest) p = Steps-keep P keeps t u rest (keeps s t step p)

  module _ (api : ApiLaws client) (clock : Time) (d : Dedupe) (w : W) where
    -- The operator has come here from its start.
    abbrev Reached : Whole W E V F → Type 0
    Reached s = Calls.Steps client flags (started clock d w) s.operator

    -- How far the flag has come: into the cluster, to the kubelet, into the file, and to orders-svc.
    abbrev pub InCluster : Whole W E V F → Type 0
    InCluster s = Reached s × IsPaused client s.operator.cluster

    abbrev pub Cached : Whole W E V F → Type 0
    Cached s = InCluster s × IsCached s.cache

    abbrev pub Mounted : Whole W E V F → Type 0
    Mounted s = Cached s × (read s.file ≡ true)

    abbrev pub Braked : Whole W E V F → Type 0
    Braked s = Mounted s × (s.orders.paused ≡ true)

    -- What the kubelet fetches while the flag is set says so.
    pub fetched-IsCached :
        {v : W} (cm : ConfigMap)
        → client.get_config_map flags_key v ≡ ok cm
        → IsPaused client v
        → IsCached (some cm)
    fetched-IsCached cm got (cm', got', set) = let same : cm ≡ cm' = cc in (cm', ap some same, set)

    Step-InCluster : {s t : Whole W E V F} → Step s t → InCluster s → InCluster t
    Step-InCluster (operated step) (r, p) = (
      Steps-then client flags r (Calls.next step Calls.done),
      calls_keep_brake client api flags r p (Calls.next step Calls.done),
    )
    Step-InCluster (arrived i req free) p = p
    Step-InCluster (worked i) p = p
    Step-InCluster (landed v known) p = p
    Step-InCluster (fetched cm got) p = p
    Step-InCluster (synced cm e) p = p
    Step-InCluster watched p = p

    pub Steps-InCluster : {s t : Whole W E V F} → Steps s t → InCluster s → InCluster t
    Steps-InCluster {s} {t} =
        Steps-keep InCluster (λ s t step. Step-InCluster {s = s} {t = t} step) s t

    Step-Cached : {s t : Whole W E V F} → Step s t → Cached s → Cached t
    Step-Cached {s} (operated step) (p, c) = (Step-InCluster {s = s} (operated step) p, c)
    Step-Cached (arrived i req free) p = p
    Step-Cached (worked i) p = p
    Step-Cached (landed v known) p = p
    Step-Cached (fetched cm got) (p, c) = (p, fetched-IsCached cm got p.1)
    Step-Cached (synced cm e) p = p
    Step-Cached watched p = p

    pub Steps-Cached : {s t : Whole W E V F} → Steps s t → Cached s → Cached t
    Steps-Cached {s} {t} = Steps-keep Cached (λ s t step. Step-Cached {s = s} {t = t} step) s t

    Step-Mounted : {s t : Whole W E V F} → Step s t → Mounted s → Mounted t
    Step-Mounted {s} (operated step) (p, q) = (Step-Cached {s = s} (operated step) p, q)
    Step-Mounted (arrived i req free) p = p
    Step-Mounted (worked i) p = p
    Step-Mounted (landed v known) p = p
    Step-Mounted {s} (fetched cm got) (p, q) = (Step-Cached {s = s} (fetched cm got) p, q)
    Step-Mounted (synced cm e) (p, q) = (p, synced-read cm e p.1)
    Step-Mounted watched p = p

    pub Steps-Mounted : {s t : Whole W E V F} → Steps s t → Mounted s → Mounted t
    Steps-Mounted {s} {t} = Steps-keep Mounted (λ s t step. Step-Mounted {s = s} {t = t} step) s t

    Step-Braked : {s t : Whole W E V F} → Step s t → Braked s → Braked t
    Step-Braked {s} (operated step) (p, q) = (Step-Mounted {s = s} (operated step) p, q)
    Step-Braked (arrived i req free) p = p
    Step-Braked (worked i) p = p
    Step-Braked (landed v known) p = p
    Step-Braked {s} (fetched cm got) (p, q) = (Step-Mounted {s = s} (fetched cm got) p, q)
    Step-Braked {s} (synced cm e) (p, q) = (Step-Mounted {s = s} (synced cm e) p, q)
    Step-Braked watched (p, q) = (p, p.1)

    Steps-Braked : {s t : Whole W E V F} → Steps s t → Braked s → Braked t
    Steps-Braked {s} {t} = Steps-keep Braked (λ s t step. Step-Braked {s = s} {t = t} step) s t

    module _ (laws : LogLaws a log) where
      Step-Known :
          {s t : Whole W E V F}
          → Step s t
          → Braked s
          → (m : Msg) → Known a log laws t.orders t.attempted m
          → Known a log laws s.orders s.attempted m
      Step-Known (operated step) b m known = known
      Step-Known {s} (arrived i req free) b m known =
          arrived-Known a log laws s.orders s.attempted i req m known
      Step-Known {s} (worked i) b m known =
          moved-Known a log laws s.orders s.attempted i m b.1 known
      Step-Known (landed v known) b m (inl stored) = elim (known m stored) [
        | inl older ↦ inl older
        | inr tried ↦ inr (inl tried)
      ]
      Step-Known (landed v known) b m (inr other) = inr other
      Step-Known (fetched cm got) b m known = known
      Step-Known (synced cm e) b m known = known
      Step-Known watched b m known = known

      Steps-Known :
          {s t : Whole W E V F}
          → Steps s t
          → Braked s
          → (m : Msg) → Known a log laws t.orders t.attempted m
          → Known a log laws s.orders s.attempted m
      Steps-Known done b m known = known
      Steps-Known {s} (next step rest) b m known =
          Step-Known step b m (Steps-Known rest (Step-Braked {s = s} step b) m known)

      -- Under the laws of creates and merge patches, where a write to one object leaves the others
      -- alone, and where JetStream stores no message but those of its publishes, at once or late: in a
      -- state that the operator reaches, the flag says "false" in the cluster and in what the kubelet
      -- has fetched, the mounted file is read as paused, and orders-svc has stored it. Then however
      -- the calls of webhooks and orders, the kubelet's fetches and syncs and the re-reads of the file
      -- interleave from there on: the flag still says "false" in the cluster, orders-svc still has it
      -- set, and a message that JetStream holds was there before, had been handed to JetStream before,
      -- or is the event of an order whose handler had loaded the flag before and was about to publish.
      pub brake_holds :
          {s t : Whole W E V F}
          → Reached s
          → IsPaused client s.operator.cluster
          → IsCached s.cache
          → read s.file ≡ true
          → s.orders.paused ≡ true
          → Steps s t
          → IsPaused client t.operator.cluster
            × (t.orders.paused ≡ true)
            × ((m : Msg)
                → Memᴰ m (log t.orders.world)
                → Memᴰ m (log s.orders.world)
                  ⊎ (Memᴰ m s.attempted ⊎ ((i : ℕ) × Publishes (s.orders.handlers i) m)))
      brake_holds {s} r p c f q steps =
          let start : Braked s = ((((r, p), c), f), q) in
          let end = Steps-Braked steps start in
          (end.0.0.0.1, end.1, (λ m stored. Steps-Known steps start m (inl stored)))
