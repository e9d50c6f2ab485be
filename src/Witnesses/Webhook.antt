-- ===== src/Witnesses/Webhook.antt =====
-- The webhook server, the dedupe and the whole control loop at concrete payloads.
use reliability_lab.Common.{
  ◌≡◌, refl, ◌+◌, ◌<◌, inl, inr, List, [], ◌∷◌, none, some, true, All, arith, ok,
}
use reliability_lab.Common.Int.{ℤ, pos, pos_part}
use reliability_lab.Common.Dict.{lookup, insert, index}
use reliability_lab.Classifier.{label, classify, decide}
use reliability_lab.Dedupe.{Dedupe, new_dedupe, inside, acquire}
use reliability_lab.Dedupe.Refines.{Call, answers, spec_answers, answers-eq-spec_answers}
use reliability_lab.Dedupe.Window.{acquire_bounded}
use reliability_lab.Remedy.CircuitBreak.{circuit_break_apply, after_get, flag_of}
use reliability_lab.Server.Payload.{is_firing}
use reliability_lab.Server.{new_server, with_defaults, handle_alert}
use reliability_lab.Server.Accepted.{
  accepted, dedupe_after_all, dispatch_all, IsReady, handle_alert_lem,
}
use reliability_lab.Server.Resend.{AllOpen, handle_alert_resend}
use reliability_lab.Manager.{manager_config}
use reliability_lab.Manager.Wiring.{new_server-IsReady}
use reliability_lab.System.Dispatch.{input_for}
use reliability_lab.System.ControlLoop.{IsEmailPage, projected, reading, control_loop}
use reliability_lab.Witnesses.Fixtures.{cluster, cluster-Laws, find_config_map, start_world}
use reliability_lab.Witnesses.Pages.{email_page, email_payload, flags, op}
use reliability_lab.Witnesses.Shop.{open_shop, shop, lose, keep, order}
use reliability_lab.Remedy.Cluster.{ConfigMap}
use reliability_lab.Remedy.{target_key}
use reliability_lab.Orders.Flag.{read}
use reliability_lab.Orders.Create.{handle_create}
use reliability_lab.Orders.Create.Outcomes.{with_publish}

abbrev minute : ℤ
minute = pos 60000000000

-- Calls for two fingerprints, at 0 s, 1 s, 30 s and 61 s.
abbrev four_calls : List Call
four_calls = ("a", 0) ∷ ("b", 1000000000) ∷ ("a", 30000000000) ∷ ("a", 61000000000) ∷ []

answers-eq-spec_answers_example :
    answers (new_dedupe minute) four_calls ≡ spec_answers minute [] four_calls
answers-eq-spec_answers_example =
    answers-eq-spec_answers minute four_calls (omega arith) (omega arith)

-- One fingerprint acted on at 0 s.
abbrev one_seen : Dedupe
one_seen = record { cooldown = minute; seen = ("a", 0) ∷ [] }

acquire_bounded_example :
    All (λ e. 90000000000 < e.1 + pos_part minute) (acquire one_seen "b" 90000000000).0.seen
    × (lookup "b" (acquire one_seen "b" 90000000000).0.seen ≡ some 90000000000)
acquire_bounded_example =
    acquire_bounded one_seen "b" 90000000000 (omega arith) (unfold lookup in (refl, tt)) refl
      (unfold acquire inside lookup in refl)

op-IsReady : IsReady op.cfg.cooldown op.dedupe
op-IsReady =
    new_server-IsReady (manager_config cluster flags) (unfold manager_config in omega arith)

handle_alert_resend_example :
    let (_, s', w') = handle_alert op (some email_payload) 5 start_world in
    handle_alert s' (some email_payload) 7 w' ≡ (record { status = 202; body = "" }, s', w')
handle_alert_resend_example =
    handle_alert_resend op email_payload 5 7 start_world op-IsReady open_alerts soon
  where
    open_alerts : AllOpen 5 email_payload.alerts op.dedupe
    open_alerts =
        unfold new_server with_defaults manager_config new_dedupe inside lookup in
        (inr (refl, inl refl), tt)

    soon : 7 < 5 + pos_part op.cfg.cooldown
    soon = unfold new_server with_defaults manager_config in omega arith

handle_alert_lem_example : handle_alert op (some email_payload) 5 start_world ≡ (
  record { status = 202; body = "" },
  record op { dedupe = dedupe_after_all 5 email_payload.alerts op.dedupe },
  dispatch_all op.cfg (accepted 5 email_payload.alerts op.dedupe) start_world,
)
handle_alert_lem_example = handle_alert_lem op email_payload 5 start_world

email_braked : (circuit_break_apply (input_for cluster flags email_page) start_world).0 ≡ none
unfolding circuit_break_apply after_get find_config_map flag_of index lookup insert classify decide
    label
email_braked = refl

control_loop_example :
    let (response, s', w') = handle_alert op (some email_payload) 5 start_world in
    (response.status ≡ 202)
    × ((cm : ConfigMap) × (cluster.get_config_map
            (target_key (input_for cluster flags email_page))
            w'
          ≡ ok cm)
        × (read (projected cm) ≡ true)
        × (handle_create
              (with_publish (reading cluster flags (projected cm) shop) open_shop keep)
              (some order)
              open_shop
            ≡ handle_create
                (with_publish (reading cluster flags (projected cm) shop) open_shop lose)
                (some order)
                open_shop))
control_loop_example =
    control_loop cluster flags cluster-Laws email_page email_payload 5 start_world shop keep lose
      order open_shop refl email_is_page email_braked
  where
    email_is_page : IsEmailPage email_page
    email_is_page = unfold is_firing label index lookup in (refl, refl, refl)
