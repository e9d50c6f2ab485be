-- ===== src/Witnesses/Braked.antt =====
-- The operator with a page of the email worker, and orders-svc with a handler on its way, while the
-- flag is set.
use mathlib.Core.List.{Memᴰ}
use mathlib.Core.List.Memᴰ
use reliability_lab.Common.{ℕ, ◌≡◌, refl, ◌⊎◌, inl, inr, update, true, ok, false}
use reliability_lab.Orders.Create.{Msg, event_msg}
use reliability_lab.Orders.Concurrent.{Orders, moved, entered}
use reliability_lab.Server.Concurrent.{reading, advance, turn}
use reliability_lab.Common.{[], ◌∷◌, some}
use reliability_lab.Common.Int.{pos}
use reliability_lab.Dedupe.{new_dedupe, acquire, inside, gc}
use reliability_lab.Dedupe.Clock.{sub_time}
use reliability_lab.Classifier.{classify, decide, label}
use reliability_lab.Server.Payload.{is_firing}
use reliability_lab.Remedy.CircuitBreak.{flag_of, after_get}
use reliability_lab.System.Calls
use reliability_lab.System.Calls.{Calls, serving, started, begin, step, finish}
use reliability_lab.System.StaysPaused.{IsPaused}
use reliability_lab.System.Mailing.Logged.{Publishes}
use reliability_lab.System.Mailing.{attempted_by}
use reliability_lab.System.ControlLoop.{projected}
use reliability_lab.Remedy.Cluster.{ConfigMap}
use reliability_lab.System.Braked.{
  Whole, Steps, done, next, operated, arrived, worked, landed, watched, brake_holds,
}
use reliability_lab.Common.Dict.{lookup, index, insert}
use reliability_lab.Orders.Flag.{read}
use reliability_lab.Witnesses.Fixtures.{
  World, ClusterError, flags_key, find_config_map, start_world,
}
use reliability_lab.System.Braked.Closes.{refetched, remounted, rewatched, loop_closes}
use reliability_lab.Witnesses.AtOnce.{
  first_holds, first_returns, both_brake, on, both_hold-Steps, later_page,
}
use reliability_lab.Witnesses.Api.{api, api-ApiLaws}
use reliability_lab.Witnesses.Pages.{email_payload, flags}
use reliability_lab.Witnesses.Shop.{Shop, ShopError, shop, open_shop, order}
use reliability_lab.Witnesses.Mailing.{ready, log, log-LogLaws, message}

abbrev paused_world : World
paused_world = record start_world {
  config_maps = record { key = flags_key; entries = some (("publish_enabled", "false") ∷ []) } ∷ [];
}

abbrev paused : Calls World ClusterError
paused = started 5 (new_dedupe (pos 60)) paused_world

abbrev with_page : Calls World ClusterError
with_page = record paused { handlers = update paused.handlers 0 (serving (reading email_payload)) }

-- The kubelet has fetched the flag, the file is mounted of it, and a publish of another order has
-- been given up.
abbrev flag_map : ConfigMap
flag_map = record { key = flags_key; entries = some (("publish_enabled", "false") ∷ []) }

abbrev given_up : Msg
given_up = event_msg shop "id-9" order open_shop

abbrev braked : Whole World ClusterError Shop ShopError
braked = record {
  operator = paused;
  cache = some flag_map;
  file = projected flag_map;
  orders = ready;
  attempted = given_up ∷ [];
}

-- A page arrives, an order arrives, the one on its way is published, the message that was given up is
-- stored late, and the flag is read again.
abbrev busy : Orders Shop ShopError
busy = moved shop (record ready { handlers = update ready.handlers 1 (entered order) }) 0

abbrev stored_late : Shop
stored_late = record busy.world { published = given_up ∷ busy.world.published }

abbrev after : Whole World ClusterError Shop ShopError
after = record braked {
  operator = Calls.moved api flags with_page 0;
  orders = record busy { paused = true; world = stored_late };
  attempted = attempted_by shop (ready.handlers 0) ready.world (given_up ∷ []);
}

lands :
    (w : Shop) (m : Msg)
    → Memᴰ m (given_up ∷ log w)
    → Memᴰ m (log w) ⊎ Memᴰ m (message ∷ given_up ∷ [])
lands w m stored = elim (Memᴰ.cases_cons stored) [
  | inl own ↦ inr (Memᴰ.tail (Memᴰ.head own))
  | inr older ↦ inl older
]

after-Steps : Steps api flags shop log braked after
unfolding read find_config_map lookup Calls.step advance
after-Steps = next (operated (Calls.arrive 0 email_payload refl)) (
    next (operated (Calls.move 0)) (
      next (arrived 1 order refl)
        (next (worked 0) (next (landed stored_late (lands busy.world)) (next watched done)))))

brake_holds_example :
    IsPaused api after.operator.cluster
    × (after.orders.paused ≡ true)
    × ((m : Msg)
        → Memᴰ m (log after.orders.world)
        → Memᴰ m (log ready.world)
          ⊎ (Memᴰ m (given_up ∷ []) ⊎ ((i : ℕ) × Publishes (ready.handlers i) m)))
unfolding find_config_map flag_of index lookup read
brake_holds_example =
    brake_holds api flags shop log api-ApiLaws 5 (new_dedupe (pos 60)) paused_world (log-LogLaws _)
      Calls.done (flag_map, refl, refl) (flag_map, refl, refl) refl refl after-Steps

-- Both circuit breakers have read; the first writes, and orders-svc has an order on its way. The
-- watcher reads the old file, the second writes from its old read, the kubelet fetches and syncs, and
-- the watcher reads. Then the order on its way is published, and another arrives.
abbrev braking_whole : Whole World ClusterError Shop ShopError
braking_whole = record {
  operator = both_brake;
  cache = some on;
  file = projected on;
  orders = record ready { paused = false };
  attempted = [];
}

abbrev wrote : Whole World ClusterError Shop ShopError
wrote = record braking_whole { operator = Calls.moved api flags both_brake 0 }

abbrev both_wrote : Whole World ClusterError Shop ShopError
both_wrote = record wrote {
  operator = Calls.moved api flags wrote.operator 1;
  orders = record wrote.orders { paused = read (projected on) };
}

abbrev flag_off : ConfigMap
flag_off = record {
  key = flags_key;
  entries = some (("publish_enabled", "false") ∷ ("owner", "orders") ∷ []);
}

abbrev seen : Whole World ClusterError Shop ShopError
seen = remounted flag_off (refetched flag_off both_wrote)

abbrev reread : Whole World ClusterError Shop ShopError
reread = rewatched seen

abbrev published : Whole World ClusterError Shop ShopError
published = record reread {
  orders =
      moved shop
        (record reread.orders { handlers = update reread.orders.handlers 1 (entered order) }) 0;
  attempted = attempted_by shop (ready.handlers 0) ready.world [];
}

published-Steps : Steps api flags shop log reread published
published-Steps = next (arrived 1 order refl) (next (worked 0) done)

both_wrote-flag : api.get_config_map flags_key both_wrote.operator.cluster ≡ ok flag_off
unfolding step advance turn acquire inside lookup is_firing new_dedupe begin classify decide label
    index find_config_map after_get flag_of gc insert sub_time finish
both_wrote-flag = refl

loop_closes_example :
    IsPaused api published.operator.cluster
    × (published.orders.paused ≡ true)
    × ((m : Msg)
        → Memᴰ m (log published.orders.world)
        → Memᴰ m (log seen.orders.world)
          ⊎ (Memᴰ m [] ⊎ ((j : ℕ) × Publishes (seen.orders.handlers j) m)))
loop_closes_example =
    loop_closes api flags shop log api-ApiLaws 5 (new_dedupe (pos 60)) start_world (log-LogLaws _)
      {s = braking_whole} 0 5 [] flags_key (ok on) flag_off flag_off
      (both_hold-Steps email_payload (later_page email_payload)) first_holds first_returns
      (next watched (next (operated (Calls.move 1)) done)) both_wrote-flag done refl done
      published-Steps
