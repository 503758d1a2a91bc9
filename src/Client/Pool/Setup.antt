-- ===== src/Client/Pool/Setup.antt =====
-- The session pool in SETUP of gst/rtsp-server/rtsp-client.c.
use gst_rtsp_server_wfd.Prelude.{
  subst, ℕ, suc, ◌≡◌, refl, sym, inl, inr, List, Bool, true, false, ◌&&◌, Option, none, some,
  Bool-cases, Option-cases,
}
use gst_rtsp_server_wfd.Text.{Text}
use gst_rtsp_server_wfd.SessionMedia.{SessionMedia, set_transport, set_rtsp_state}
use gst_rtsp_server_wfd.Session.{Session, manage_media}
use gst_rtsp_server_wfd.SessionPool.{
  SessionPool, Created, created, no_function, no_session, collision, too_many_sessions, create,
}
use gst_rtsp_server_wfd.SessionPool.History.{IsSound, create-IsSound}
use gst_rtsp_server_wfd.Auth.{client_settings, is_allowed_verdict}
use gst_rtsp_server_wfd.Client.State.{
  Url, Requested, World, Env, send_message, send_generic_response, put_session, is_usable,
  is_watched, client_watch_session, make_path_from_uri,
}
use gst_rtsp_server_wfd.Client.Links.{is_tcp}
use gst_rtsp_server_wfd.Client.Handlers.{Context}
use gst_rtsp_server_wfd.Client.FindMedia.{session_id, check, find_media}
use gst_rtsp_server_wfd.Client.Setup.{
  parse_transport, configure_client_media, configure_client_transport, is_multicast, set_up,
  set_up_transport, configured, configure, manage, watch_created, create_session, set_up_found,
  set_up_new, set_up_known, known_media, set_up_in, set_up_pool, handle_setup_request,
}
use gst_rtsp_server_wfd.Client.Pool.{
  IsSoundPool, IsSoundWorld, put_session-IsSoundWorld, write_back-IsSoundWorld,
}
use gst_rtsp_server_wfd.Client.Pool.Media.{send_verdict_pool, find_media_pool}

pub same-IsSoundPool : {p q : Option SessionPool} → q ≡ p → IsSoundPool p → IsSoundPool q
same-IsSoundPool e h = subst IsSoundPool (sym e) h

configure_client_transport_pool :
    (env : Env) (ctx : Context) (ct : Requested) (sm : SessionMedia) (w : World)
    → (configure_client_transport env ctx ct sm w).0.pool ≡ w.pool
unfolding configure_client_transport
configure_client_transport_pool env ctx ct sm w =
    let settings = check env ctx none client_settings w in
    let sent = send_verdict_pool (session_id ctx.session) settings w in
    elim (Bool-cases (is_multicast ct.lower)) [
      | inl m ↦
          elim (Bool-cases (env.has_address (ct.destination && is_allowed_verdict settings))) [
            | inl a ↦ rw (configure_client_transport, m, a) sent
            | inr a ↦ rw (configure_client_transport, m, a) sent
          ]
      | inr m ↦ elim (Bool-cases (is_tcp ct.lower)) [
        | inl t ↦ rw (configure_client_transport, m, t) refl
        | inr t ↦ rw (configure_client_transport, m, t) refl
      ]
    ]

set_up_transport-IsSoundWorld :
    (env : Env) (ctx : Context) (entries : List (Option Requested)) (s : Session)
    (sm : SessionMedia) (stream : ℕ) (w : World)
    → IsSoundWorld w
    → IsSoundWorld (set_up_transport env ctx entries s sm stream w).0
unfolding set_up_transport send_generic_response send_message
set_up_transport-IsSoundWorld env ctx entries s sm stream w h =
    let (parsed, ct) = parse_transport (env.is_transport_supported stream) env.initial entries in
    let (w', sm', tr) = configure_client_transport env ctx ct sm w in
    let kept : IsSoundWorld w' =
      same-IsSoundPool (configure_client_transport_pool env ctx ct sm w) h in
    elim (Bool-cases parsed) [
      | inr p ↦ rw (set_up_transport, p) h
      | inl p ↦ elim (Option-cases tr) [
        | inl e ↦ rw (set_up_transport, p, e) kept
        | inr (t, e) ↦
            let sm'' = (set_transport stream t sm').0 in
            rw (set_up_transport, p, e)
              (write_back-IsSoundWorld s (set_rtsp_state (set_up sm''.state) sm'')
                (send_message (some s.sessionid) 200 false w') kept)
      ]
    ]

configure_client_media_pool :
    (ctx : Context) (w : World) → (configure_client_media ctx w).0.pool ≡ w.pool
unfolding configure_client_media send_generic_response send_message
configure_client_media_pool ctx w = elim (Option-cases ctx.request.blocksize) [
  | inl e ↦ rw (configure_client_media, e) refl
  | inr (true, e) ↦ rw (configure_client_media, e) refl
  | inr (false, e) ↦ rw (configure_client_media, e) refl
]

configured-IsSoundWorld :
    (env : Env) (ctx : Context) (entries : List (Option Requested)) (s : Session)
    (sm : SessionMedia) (stream : ℕ) (r : World × Bool)
    → IsSoundWorld r.0
    → IsSoundWorld (configured env ctx entries s sm stream r).0
unfolding configured
configured-IsSoundWorld env ctx entries s sm stream (w, true) h =
    set_up_transport-IsSoundWorld env (record ctx { session = some s }) entries s sm stream w h
configured-IsSoundWorld env ctx entries s sm stream (w, false) h = h

configure-IsSoundWorld :
    (env : Env) (ctx : Context) (entries : List (Option Requested)) (s : Session)
    (sm : SessionMedia) (stream : ℕ) (w : World)
    → IsSoundWorld w
    → IsSoundWorld (configure env ctx entries s sm stream w).0
unfolding configure
configure-IsSoundWorld env ctx entries s sm stream w h =
    let r = configure_client_media ctx w in
    configured-IsSoundWorld env ctx entries s sm stream r
      (same-IsSoundPool (configure_client_media_pool ctx w) h)

manage-IsSoundWorld :
    (env : Env) (ctx : Context) (entries : List (Option Requested)) (s : Session) (path : Text)
    (k stream : ℕ) (w : World)
    → IsSoundWorld w
    → IsSoundWorld (manage env ctx entries s path k stream w).0
unfolding manage send_generic_response send_message
manage-IsSoundWorld env ctx entries s path k stream w h =
    let (s', managed) =
      manage_media w.next_ptr path k (env.n_streams k) (is_usable (w.media k)) s in
    let next : World = record w { next_ptr = suc w.next_ptr } in
    let kept = put_session-IsSoundWorld s' next h in
    elim (Option-cases managed) [
      | inl e ↦ rw (manage, e) kept
      | inr (sm, e) ↦
          rw (manage, e)
            (configure-IsSoundWorld env ctx entries s' sm stream (put_session s' next) kept)
    ]

pub client_watch_session_pool : (id : Text) (w : World) → (client_watch_session id w).pool ≡ w.pool
unfolding client_watch_session
client_watch_session_pool id w = elim (Bool-cases (is_watched id w.sessions)) [
  | inl e ↦ rw (client_watch_session, e) refl
  | inr e ↦ rw (client_watch_session, e) refl
]

watch_created-IsSoundWorld :
    (env : Env) (ctx : Context) (entries : List (Option Requested)) (path : Text) (k stream : ℕ)
    (w : World) (r : Created)
    → IsSoundWorld w
    → IsSoundWorld (watch_created env ctx entries path k stream w r).0
unfolding watch_created send_generic_response send_message
watch_created-IsSoundWorld env ctx entries path k stream w (created s) h =
    let watched = client_watch_session s.sessionid w in
    manage-IsSoundWorld env ctx entries s path k stream watched
      (same-IsSoundPool (client_watch_session_pool s.sessionid w) h)
watch_created-IsSoundWorld env ctx entries path k stream w no_function h = h
watch_created-IsSoundWorld env ctx entries path k stream w no_session h = h
watch_created-IsSoundWorld env ctx entries path k stream w collision h = h
watch_created-IsSoundWorld env ctx entries path k stream w too_many_sessions h = h

create_session-IsSoundWorld :
    (env : Env) (ctx : Context) (entries : List (Option Requested)) (p : SessionPool) (path : Text)
    (k stream : ℕ) (w : World)
    → IsSound p
    → IsSoundWorld (create_session env ctx entries p path k stream w).0
unfolding create_session
create_session-IsSoundWorld env ctx entries p path k stream w h =
    let (p', result) = create env.clock env.ids p in
    watch_created-IsSoundWorld env ctx entries path k stream (record w { pool = some p' }) result
      (create-IsSound env.clock env.ids p h)

set_up_found-IsSoundWorld :
    (env : Env) (ctx : Context) (entries : List (Option Requested)) (p : SessionPool) (path : Text)
    (w : World) (found : Option ℕ)
    → IsSound p
    → IsSoundWorld w
    → IsSoundWorld (set_up_found env ctx entries p path w found).0
unfolding set_up_found send_generic_response send_message
set_up_found-IsSoundWorld env ctx entries p path w none g h = h
set_up_found-IsSoundWorld env ctx entries p path w (some k) g h =
    elim (Option-cases (env.find_stream k)) [
      | inl e ↦ rw (set_up_found, e) h
      | inr (stream, e) ↦ elim (Option-cases ctx.session) [
        | inl n ↦
            rw (set_up_found, e, n)
              (create_session-IsSoundWorld env ctx entries p path k stream w g)
        | inr (s, n) ↦
            rw (set_up_found, e, n) (manage-IsSoundWorld env ctx entries s path k stream w h)
      ]
    ]

set_up_known-IsSoundWorld :
    (env : Env) (ctx : Context) (entries : List (Option Requested)) (s : Session)
    (sm : SessionMedia) (w : World)
    → IsSoundWorld w
    → IsSoundWorld (set_up_known env ctx entries s sm w).0
unfolding set_up_known send_generic_response send_message
set_up_known-IsSoundWorld env ctx entries s sm w h =
    elim (Option-cases (env.find_stream sm.media)) [
      | inl e ↦ rw (set_up_known, e) h
      | inr (stream, e) ↦
          rw (set_up_known, e) (configure-IsSoundWorld env ctx entries s sm stream w h)
    ]

set_up_in-IsSoundWorld :
    (env : Env) (ctx : Context) (entries : List (Option Requested)) (p : SessionPool) (url : Url)
    (w : World)
    → IsSound p
    → IsSoundWorld w
    → IsSoundWorld (set_up_in env ctx entries p url w).0
unfolding set_up_in set_up_new
set_up_in-IsSoundWorld env ctx entries p url w g h =
    let path = make_path_from_uri url in
    let (w', found) = find_media env ctx url path true w in
    elim (Option-cases (known_media ctx.session path)) [
      | inl e ↦
          rw (set_up_in, set_up_new, e)
            (set_up_found-IsSoundWorld env ctx entries p path w' found g
              (same-IsSoundPool (find_media_pool env ctx url path true w) h))
      | inr ((s, sm), e) ↦ rw (set_up_in, e) (set_up_known-IsSoundWorld env ctx entries s sm w h)
    ]

set_up_pool-IsSoundWorld :
    (env : Env) (ctx : Context) (entries : List (Option Requested)) (url : Url) (w : World)
    (pool : Option SessionPool)
    → IsSoundPool pool
    → IsSoundWorld w
    → IsSoundWorld (set_up_pool env ctx entries url w pool).0
unfolding set_up_pool send_generic_response send_message
set_up_pool-IsSoundWorld env ctx entries url w none g h = h
set_up_pool-IsSoundWorld env ctx entries url w (some p) g h =
    set_up_in-IsSoundWorld env ctx entries p url w g h

pub handle_setup_request-IsSoundWorld :
    (env : Env) (ctx : Context) (w : World)
    → IsSoundWorld w
    → IsSoundWorld (handle_setup_request env ctx w).0
unfolding handle_setup_request send_generic_response send_message
handle_setup_request-IsSoundWorld env ctx w h = elim (Option-cases ctx.url) [
  | inl e ↦ rw (handle_setup_request, e) h
  | inr (url, e) ↦ elim (Option-cases ctx.request.transports) [
    | inl t ↦ rw (handle_setup_request, e, t) h
    | inr (entries, t) ↦
        rw (handle_setup_request, e, t) (set_up_pool-IsSoundWorld env ctx entries url w w.pool h h)
  ]
]
