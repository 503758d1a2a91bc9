-- ===== src/Client/Replies/Request.antt =====
-- The responses to the requests of gst/rtsp-server/rtsp-client.c.
use gst_rtsp_server_wfd.Prelude.{
  ◌≡◌, refl, inl, inr, false, Option, none, some, Bool-cases, Option-cases,
}
use gst_rtsp_server_wfd.Text.{Text}
use gst_rtsp_server_wfd.SessionPool.{SessionPool, find}
use gst_rtsp_server_wfd.Session.{Session}
use gst_rtsp_server_wfd.Auth.{Method, check_url, is_allowed_verdict}
use gst_rtsp_server_wfd.Client.State.{Url, Request, World, Env}
use gst_rtsp_server_wfd.Client.Handlers.{Context}
use gst_rtsp_server_wfd.Client.FindMedia.{session_id, check, handle_options_request}
use gst_rtsp_server_wfd.Client.Dispatch.{
  base_class, parse_uri, sanitized, dispatch, authorize, find_in, find_session, continue_session,
  handle_session, handle_request,
}
use gst_rtsp_server_wfd.Client.Replies.{
  Replies, send_message-Replies, send_generic_response-Replies, Replies-before,
  handle_teardown_request-Replies, handle_pause_request-Replies, handle_play_request-Replies,
}
use gst_rtsp_server_wfd.Client.Replies.Media.{
  send_verdict-Replies, check-IsAnswered, handle_describe_request-Replies,
  handle_param_request-Replies,
}
use gst_rtsp_server_wfd.Client.Replies.Setup.{
  AsksUnicast, client_watch_session_sent, handle_setup_request-Replies,
}

dispatch-Replies :
    (env : Env) (ctx : Context) (w : World) (m : Method)
    → ctx.request.method ≡ m
    → AsksUnicast env ctx.request
    → Replies w (dispatch base_class env ctx w)
unfolding dispatch handle_options_request
dispatch-Replies env ctx w Method.options e h =
    rw (dispatch, e) (send_message-Replies (session_id ctx.session) 200 false w)
dispatch-Replies env ctx w Method.describe e h =
    rw (dispatch, e) (handle_describe_request-Replies env ctx w)
dispatch-Replies env ctx w Method.setup e h =
    rw (dispatch, e) (handle_setup_request-Replies env ctx w h)
dispatch-Replies env ctx w Method.play e h =
    rw (dispatch, e) (handle_play_request-Replies env ctx w)
dispatch-Replies env ctx w Method.pause e h =
    rw (dispatch, e) (handle_pause_request-Replies env ctx w)
dispatch-Replies env ctx w Method.teardown e h =
    rw (dispatch, e) (handle_teardown_request-Replies env ctx w)
dispatch-Replies env ctx w Method.set_parameter e h =
    rw (dispatch, e) (handle_param_request-Replies env ctx w)
dispatch-Replies env ctx w Method.get_parameter e h =
    rw (dispatch, e) (handle_param_request-Replies env ctx w)
dispatch-Replies env ctx w Method.announce_method e h =
    rw (dispatch, e) (send_generic_response-Replies 501 w)
dispatch-Replies env ctx w Method.record_method e h =
    rw (dispatch, e) (send_generic_response-Replies 501 w)
dispatch-Replies env ctx w Method.redirect e h =
    rw (dispatch, e) (send_generic_response-Replies 501 w)
dispatch-Replies env ctx w Method.invalid e h =
    rw (dispatch, e) (send_generic_response-Replies 400 w)

authorize-Replies :
    (env : Env) (ctx : Context) (w : World)
    → AsksUnicast env ctx.request
    → Replies w (authorize base_class env ctx w)
unfolding authorize
authorize-Replies env ctx w h =
    let verdict = check env ctx none check_url w in
    elim (Bool-cases (is_allowed_verdict verdict)) [
      | inl a ↦ rw (authorize, a) (dispatch-Replies env ctx w ctx.request.method refl h)
      | inr a ↦
          rw (authorize, a)
            (send_verdict-Replies (session_id ctx.session) verdict w
              (check-IsAnswered env ctx none check_url w (λ e. cc)) a)
    ]

find_in_sent :
    (env : Env) (id : Text) (w : World) (pool : Option SessionPool)
    → (find_in env id w pool).0.sent ≡ w.sent
unfolding find_in
find_in_sent env id w none = refl
find_in_sent env id w (some p) =
    let (p', result) = find env.clock id p in
    elim (Option-cases result) [
      | inl e ↦ rw (find_in, e) refl
      | inr (s, e) ↦
          rw (find_in, e) (client_watch_session_sent s.sessionid (record w { pool = some p' }))
    ]

-- The session of the header was looked for.
looked_for-Replies :
    (env : Env) (request : Request) (url : Option Url) (w : World) (r : World × Option Session)
    → AsksUnicast env request
    → r.0.sent ≡ w.sent
    → Replies w (continue_session base_class env request url r.0 r.1)
unfolding continue_session
looked_for-Replies env request url w (w', none) h e =
    Replies-before e (send_generic_response-Replies 454 w')
looked_for-Replies env request url w (w', some s) h e = Replies-before e (
    authorize-Replies env (record { session = some s; url = sanitized url; request = request }) w'
      h)

handle_session-Replies :
    (env : Env) (request : Request) (url : Option Url) (w : World)
    → AsksUnicast env request
    → Replies w (handle_session base_class env request url w)
unfolding handle_session find_session
handle_session-Replies env request url w h = elim (Option-cases request.session) [
  | inl e ↦
      rw (handle_session, e)
        (authorize-Replies env (record { session = none; url = sanitized url; request = request }) w
          h)
  | inr (id, e) ↦
      rw (handle_session, e)
        (looked_for-Replies env request url w (find_session env id w) h
          (find_in_sent env id w w.pool))
]

-- Every request to a client of the class GstRTSPClient itself, with its own handlers of OPTIONS,
-- SET_PARAMETER and GET_PARAMETER, gets exactly one response, if it does not get a stream a
-- multicast transport: whether it is malformed, not authorized, has an unknown session, or is
-- handled, well or not.
pub handle_request-Replies :
    (env : Env) (request : Request) (w : World)
    → AsksUnicast env request
    → Replies w (handle_request base_class env request w)
unfolding handle_request
handle_request-Replies env request w h = elim (Bool-cases request.version_1_0) [
  | inr v ↦ rw (handle_request, v) (send_generic_response-Replies 505 w)
  | inl v ↦ elim (Option-cases (parse_uri env w.server_ip request.uri)) [
    | inl e ↦ rw (handle_request, v, e) (send_generic_response-Replies 400 w)
    | inr (url, e) ↦ rw (handle_request, v, e) (handle_session-Replies env request url w h)
  ]
]
