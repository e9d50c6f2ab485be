-- ===== src/Server/Lifecycle/Answers.antt =====
-- The routes of the operator's webhook server, request by request.
use reliability_lab.Common.{◌≡◌, refl, ◌||◌, str_eq, some, texts, if◌then◌else◌}
use reliability_lab.Common.Text.{str_eq_apart}
use reliability_lab.Dedupe.Clock.{Time}
use reliability_lab.Http.{handle, has_conflict, conflicts, best, knows_path, route}
use reliability_lab.Server.{Server, Response, handle_alert}
use reliability_lab.Server.Lifecycle.{
  Request, start_mux, not_found_page, not_allowed_page, healthz_page, serve_found, serve_request,
}

-- The answer by the path and the method.
abbrev pub answer : {W E : Type 0} → Server W E → Request → Time → W → Response × Server W E × W
answer s req now w =
    if str_eq "/healthz" req.path
    then (if str_eq "GET" req.method || str_eq "HEAD" req.method
        then (healthz_page, s, w)
        else (not_allowed_page, s, w))
    else if str_eq "/alerts" req.path
    then (if str_eq "POST" req.method
        then handle_alert s req.body now w
        else (not_allowed_page, s, w))
    else (not_found_page, s, w)

-- Start registers its routes without a panic, and its server answers every request: GET and HEAD of
-- /healthz by 200 "ok", POST of /alerts by handleAlert, another method of these paths by 405 and
-- any other path by 404, the last three without a change of the server or the cluster.
pub serve_request-answer :
    {W E : Type 0} (s : Server W E) (req : Request) (now : Time) (w : W)
    → serve_request s req now w ≡ some (answer s req now w)
unfolding serve_request start_mux handle has_conflict conflicts route best knows_path serve_found
serve_request-answer s req now w = grind (texts, str_eq_apart "/healthz" "/alerts" req.path refl)
