-- ===== src/Client/Pool/Request.antt =====
-- The session pool over the requests of gst/rtsp-server/rtsp-client.c.
use gst_rtsp_server_wfd.Prelude.{
  ◌≡◌, refl, inl, inr, List, [], ◌∷◌, Option, none, some, Bool-cases, Option-cases,
}
use gst_rtsp_server_wfd.Text.{Text}
use gst_rtsp_server_wfd.SessionPool.{SessionPool, find}
use gst_rtsp_server_wfd.SessionPool.History.{find-IsSound}
use gst_rtsp_server_wfd.Session.{Session}
use gst_rtsp_server_wfd.Auth.{Method, check_url, is_allowed_verdict}
use gst_rtsp_server_wfd.Client.State.{Url, Request, World, Env, send_message, send_generic_response}
use gst_rtsp_server_wfd.Client.Handlers.{Context}
use gst_rtsp_server_wfd.Client.FindMedia.{session_id, check, handle_options_request}
use gst_rtsp_server_wfd.Client.Dispatch.{
  base_class, parse_uri, sanitized, dispatch, authorize, find_in, find_session, continue_session,
  handle_session, handle_request,
}
use gst_rtsp_server_wfd.Client.Pool.{
  IsSoundPool, IsSoundWorld, handle_teardown_request-IsSoundWorld,
  handle_pause_request-IsSoundWorld, handle_play_request-IsSoundWorld,
}
use gst_rtsp_server_wfd.Client.Pool.Media.{
  send_verdict_pool, handle_describe_request_pool, handle_param_request_pool,
}
use gst_rtsp_server_wfd.Client.Pool.Setup.{
  same-IsSoundPool, client_watch_session_pool, handle_setup_request-IsSoundWorld,
}

dispatch-IsSoundWorld :
    (env : Env) (ctx : Context) (w : World) (m : Method)
    → ctx.request.method ≡ m
    → IsSoundWorld w
    → IsSoundWorld (dispatch base_class env ctx w)
unfolding dispatch handle_options_request send_generic_response send_message
dispatch-IsSoundWorld env ctx w Method.options e h = rw (dispatch, e) h
dispatch-IsSoundWorld env ctx w Method.describe e h =
    rw (dispatch, e) (same-IsSoundPool (handle_describe_request_pool env ctx w) h)
dispatch-IsSoundWorld env ctx w Method.setup e h =
    rw (dispatch, e) (handle_setup_request-IsSoundWorld env ctx w h)
dispatch-IsSoundWorld env ctx w Method.play e h =
    rw (dispatch, e) (handle_play_request-IsSoundWorld env ctx w h)
dispatch-IsSoundWorld env ctx w Method.pause e h =
    rw (dispatch, e) (handle_pause_request-IsSoundWorld env ctx w h)
dispatch-IsSoundWorld env ctx w Method.teardown e h =
    rw (dispatch, e) (handle_teardown_request-IsSoundWorld env ctx w h)
dispatch-IsSoundWorld env ctx w Method.set_parameter e h =
    rw (dispatch, e) (same-IsSoundPool (handle_param_request_pool env ctx w) h)
dispatch-IsSoundWorld env ctx w Method.get_parameter e h =
    rw (dispatch, e) (same-IsSoundPool (handle_param_request_pool env ctx w) h)
dispatch-IsSoundWorld env ctx w Method.announce_method e h = rw (dispatch, e) h
dispatch-IsSoundWorld env ctx w Method.record_method e h = rw (dispatch, e) h
dispatch-IsSoundWorld env ctx w Method.redirect e h = rw (dispatch, e) h
dispatch-IsSoundWorld env ctx w Method.invalid e h = rw (dispatch, e) h

authorize-IsSoundWorld :
    (env : Env) (ctx : Context) (w : World)
    → IsSoundWorld w
    → IsSoundWorld (authorize base_class env ctx w)
unfolding authorize
authorize-IsSoundWorld env ctx w h =
    let verdict = check env ctx none check_url w in
    elim (Bool-cases (is_allowed_verdict verdict)) [
      | inl a ↦ rw (authorize, a) (dispatch-IsSoundWorld env ctx w ctx.request.method refl h)
      | inr a ↦
          rw (authorize, a)
            (same-IsSoundPool (send_verdict_pool (session_id ctx.session) verdict w) h)
    ]

find_in-IsSoundWorld :
    (env : Env) (id : Text) (w : World) (pool : Option SessionPool)
    → IsSoundPool pool
    → IsSoundWorld w
    → IsSoundWorld (find_in env id w pool).0
unfolding find_in
find_in-IsSoundWorld env id w none g h = h
find_in-IsSoundWorld env id w (some p) g h =
    let (p', result) = find env.clock id p in
    let w' : World = record w { pool = some p' } in
    let kept = find-IsSound env.clock id p g in
    elim (Option-cases result) [
      | inl e ↦ rw (find_in, e) kept
      | inr (s, e) ↦
          rw (find_in, e) (same-IsSoundPool (client_watch_session_pool s.sessionid w') kept)
    ]

continue_session-IsSoundWorld :
    (env : Env) (request : Request) (url : Option Url) (w : World) (found : Option Session)
    → IsSoundWorld w
    → IsSoundWorld (continue_session base_class env request url w found)
unfolding continue_session send_generic_response send_message
continue_session-IsSoundWorld env request url w none h = h
continue_session-IsSoundWorld env request url w (some s) h =
    authorize-IsSoundWorld env (record { session = some s; url = sanitized url; request = request })
      w h

handle_session-IsSoundWorld :
    (env : Env) (request : Request) (url : Option Url) (w : World)
    → IsSoundWorld w
    → IsSoundWorld (handle_session base_class env request url w)
unfolding handle_session find_session
handle_session-IsSoundWorld env request url w h = elim (Option-cases request.session) [
  | inl e ↦
      rw (handle_session, e)
        (authorize-IsSoundWorld env
          (record { session = none; url = sanitized url; request = request }) w h)
  | inr (id, e) ↦
      let (w', found) = find_session env id w in
      rw (handle_session, e)
        (continue_session-IsSoundWorld env request url w' found
          (find_in-IsSoundWorld env id w w.pool h h))
]

handle_request-IsSoundWorld :
    (env : Env) (request : Request) (w : World)
    → IsSoundWorld w
    → IsSoundWorld (handle_request base_class env request w)
unfolding handle_request send_generic_response send_message
handle_request-IsSoundWorld env request w h = elim (Bool-cases request.version_1_0) [
  | inr v ↦ rw (handle_request, v) h
  | inl v ↦ elim (Option-cases (parse_uri env w.server_ip request.uri)) [
    | inl e ↦ rw (handle_request, v, e) h
    | inr (url, e) ↦ rw (handle_request, v, e) (handle_session-IsSoundWorld env request url w h)
  ]
]

-- Requests one after the other, each with the answers that it gets from other code.
abbrev pub run : List (Env × Request) → World → World
run [] w = w
run ((env, request) ∷ rest) w = run rest (handle_request base_class env request w)

-- Over any sequence of requests to a GstRTSPClient with the handlers of its own class, well formed
-- or not, the ids of the sessions in the client's pool
-- stay unique, and there are never more than the pool's limit.
pub run-IsSoundWorld :
    (requests : List (Env × Request)) (w : World) → IsSoundWorld w → IsSoundWorld (run requests w)
run-IsSoundWorld [] w h = h
run-IsSoundWorld ((env, request) ∷ rest) w h =
    run-IsSoundWorld rest (handle_request base_class env request w)
      (handle_request-IsSoundWorld env request w h)
