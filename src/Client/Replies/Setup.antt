-- ===== src/Client/Replies/Setup.antt =====
-- The responses to SETUP in gst/rtsp-server/rtsp-client.c.
use gst_rtsp_server_wfd.Prelude.{
  ℕ, suc, ◌≡◌, refl, ap, inl, inr, List, Bool, true, false, Option, none, some, Bool-cases,
  Option-cases,
}
use gst_rtsp_server_wfd.Text.{Text}
use gst_rtsp_server_wfd.SessionMedia.{SessionMedia, set_transport, set_rtsp_state}
use gst_rtsp_server_wfd.Session.{Session, manage_media}
use gst_rtsp_server_wfd.SessionPool.{
  SessionPool, Created, created, no_function, no_session, collision, too_many_sessions, create,
}
use gst_rtsp_server_wfd.Client.State.{
  Url, Requested, Request, World, Env, send_message, put_session, is_usable, client_watch_session,
  is_watched, make_path_from_uri,
}
use gst_rtsp_server_wfd.Client.Links.{is_tcp}
use gst_rtsp_server_wfd.Client.Handlers.{Context, write_back}
use gst_rtsp_server_wfd.Client.FindMedia.{find_media}
use gst_rtsp_server_wfd.Client.Setup.{
  parse_transport, configure_client_media, configure_client_transport, is_multicast, set_up,
  set_up_transport, configured, configure, manage, watch_created, create_session, set_up_found,
  set_up_new, set_up_known, known_media, set_up_in, set_up_pool, handle_setup_request,
}
use gst_rtsp_server_wfd.Client.Replies.{
  Replies, send_message-Replies, send_generic_response-Replies, Replies-before, Replies-after,
}
use gst_rtsp_server_wfd.Client.Replies.Media.{Finds, find_media-Finds}

-- None of the streams gets a multicast transport from these entries.
abbrev pub IsUnicast : Env → List (Option Requested) → Type 0
IsUnicast env entries =
    (stream : ℕ)
    → is_multicast (parse_transport (env.is_transport_supported stream) env.initial entries).1.lower
      ≡ false

configure_client_transport_sent :
    (env : Env) (ctx : Context) (ct : Requested) (sm : SessionMedia) (w : World)
    → is_multicast ct.lower ≡ false
    → (configure_client_transport env ctx ct sm w).0 ≡ w
unfolding configure_client_transport
configure_client_transport_sent env ctx ct sm w e = elim (Bool-cases (is_tcp ct.lower)) [
  | inl t ↦ rw (configure_client_transport, e, t) refl
  | inr t ↦ rw (configure_client_transport, e, t) refl
]

write_back_sent : (s : Session) (sm : SessionMedia) (w : World) → (write_back s sm w).sent ≡ w.sent
unfolding write_back put_session
write_back_sent s sm w = refl

set_up_transport-Replies :
    (env : Env) (ctx : Context) (entries : List (Option Requested)) (s : Session)
    (sm : SessionMedia) (stream : ℕ) (w : World)
    → IsUnicast env entries
    → Replies w (set_up_transport env ctx entries s sm stream w).0
unfolding set_up_transport
set_up_transport-Replies env ctx entries s sm stream w h =
    let (parsed, ct) = parse_transport (env.is_transport_supported stream) env.initial entries in
    let (w', sm', tr) = configure_client_transport env ctx ct sm w in
    let same : w' ≡ w = configure_client_transport_sent env ctx ct sm w (h stream) in
    elim (Bool-cases parsed) [
      | inr p ↦ rw (set_up_transport, p) (send_generic_response-Replies 461 w)
      | inl p ↦ elim (Option-cases tr) [
        | inl e ↦
            rw (set_up_transport, p, e)
              (Replies-before (ap (λ v. v.sent) same) (send_generic_response-Replies 461 w'))
        | inr (t, e) ↦
            let sm'' = (set_transport stream t sm').0 in
            rw (set_up_transport, p, e)
              (Replies-before (ap (λ v. v.sent) same) (
                Replies-after
                  (write_back_sent s (set_rtsp_state (set_up sm''.state) sm'')
                    (send_message (some s.sessionid) 200 false w'))
                  (send_message-Replies (some s.sessionid) 200 false w')))
      ]
    ]

-- What configure_client_media sends: a response, if it answers false.
abbrev Configures : World → World × Bool → Type 0
Configures w (w', true) = w'.sent ≡ w.sent
Configures w (w', false) = Replies w w'

configure_client_media-Configures :
    (ctx : Context) (w : World) → Configures w (configure_client_media ctx w)
unfolding configure_client_media
configure_client_media-Configures ctx w = elim (Option-cases ctx.request.blocksize) [
  | inl e ↦ rw (configure_client_media, e) refl
  | inr (true, e) ↦ rw (configure_client_media, e) refl
  | inr (false, e) ↦ rw (configure_client_media, e) (send_generic_response-Replies 400 w)
]

configured-Replies :
    (env : Env) (ctx : Context) (entries : List (Option Requested)) (s : Session)
    (sm : SessionMedia) (stream : ℕ) (w : World) (r : World × Bool)
    → IsUnicast env entries
    → Configures w r
    → Replies w (configured env ctx entries s sm stream r).0
unfolding configured
configured-Replies env ctx entries s sm stream w (w', true) h c =
    Replies-before c
      (set_up_transport-Replies env (record ctx { session = some s }) entries s sm stream w' h)
configured-Replies env ctx entries s sm stream w (w', false) h c = c

configure-Replies :
    (env : Env) (ctx : Context) (entries : List (Option Requested)) (s : Session)
    (sm : SessionMedia) (stream : ℕ) (w : World)
    → IsUnicast env entries
    → Replies w (configure env ctx entries s sm stream w).0
unfolding configure
configure-Replies env ctx entries s sm stream w h =
    configured-Replies env ctx entries s sm stream w (configure_client_media ctx w) h
      (configure_client_media-Configures ctx w)

manage-Replies :
    (env : Env) (ctx : Context) (entries : List (Option Requested)) (s : Session) (path : Text)
    (k : ℕ) (stream : ℕ) (w : World)
    → IsUnicast env entries
    → Replies w (manage env ctx entries s path k stream w).0
unfolding manage put_session
manage-Replies env ctx entries s path k stream w h =
    let (s', managed) =
      manage_media w.next_ptr path k (env.n_streams k) (is_usable (w.media k)) s in
    let w' = put_session s' (record w { next_ptr = suc w.next_ptr }) in
    elim (Option-cases managed) [
      | inl e ↦ rw (manage, e) (Replies-before refl (send_generic_response-Replies 503 w'))
      | inr (sm, e) ↦
          rw (manage, e) (Replies-before refl (configure-Replies env ctx entries s' sm stream w' h))
    ]

pub client_watch_session_sent : (id : Text) (w : World) → (client_watch_session id w).sent ≡ w.sent
unfolding client_watch_session
client_watch_session_sent id w = elim (Bool-cases (is_watched id w.sessions)) [
  | inl e ↦ rw (client_watch_session, e) refl
  | inr e ↦ rw (client_watch_session, e) refl
]

watch_created-Replies :
    (env : Env) (ctx : Context) (entries : List (Option Requested)) (path : Text) (k stream : ℕ)
    (w : World) (r : Created)
    → IsUnicast env entries
    → Replies w (watch_created env ctx entries path k stream w r).0
unfolding watch_created
watch_created-Replies env ctx entries path k stream w (created s) h =
    Replies-before (client_watch_session_sent s.sessionid w)
      (manage-Replies env ctx entries s path k stream (client_watch_session s.sessionid w) h)
watch_created-Replies env ctx entries path k stream w no_function h =
    send_generic_response-Replies 503 w
watch_created-Replies env ctx entries path k stream w no_session h =
    send_generic_response-Replies 503 w
watch_created-Replies env ctx entries path k stream w collision h =
    send_generic_response-Replies 503 w
watch_created-Replies env ctx entries path k stream w too_many_sessions h =
    send_generic_response-Replies 503 w

create_session-Replies :
    (env : Env) (ctx : Context) (entries : List (Option Requested)) (p : SessionPool) (path : Text)
    (k stream : ℕ) (w : World)
    → IsUnicast env entries
    → Replies w (create_session env ctx entries p path k stream w).0
unfolding create_session
create_session-Replies env ctx entries p path k stream w h =
    let (p', result) = create env.clock env.ids p in
    Replies-before refl
      (watch_created-Replies env ctx entries path k stream (record w { pool = some p' }) result h)

-- The media that find_media found is set up.
found-Replies :
    (env : Env) (ctx : Context) (entries : List (Option Requested)) (p : SessionPool) (path : Text)
    (w : World) (k : ℕ)
    → IsUnicast env entries
    → Replies w (set_up_found env ctx entries p path w (some k)).0
unfolding set_up_found
found-Replies env ctx entries p path w k h = elim (Option-cases (env.find_stream k)) [
  | inl e ↦ rw (set_up_found, e) (send_generic_response-Replies 404 w)
  | inr (stream, e) ↦ elim (Option-cases ctx.session) [
    | inl n ↦ rw (set_up_found, e, n) (create_session-Replies env ctx entries p path k stream w h)
    | inr (s, n) ↦ rw (set_up_found, e, n) (manage-Replies env ctx entries s path k stream w h)
  ]
]

set_up_found-Replies :
    (env : Env) (ctx : Context) (entries : List (Option Requested)) (p : SessionPool) (path : Text)
    (w : World) (r : World × Option ℕ)
    → IsUnicast env entries
    → Finds w r
    → Replies w (set_up_found env ctx entries p path r.0 r.1).0
unfolding set_up_found
set_up_found-Replies env ctx entries p path w (w', none) h f = f
set_up_found-Replies env ctx entries p path w (w', some k) h f =
    Replies-before f (found-Replies env ctx entries p path w' k h)

set_up_known-Replies :
    (env : Env) (ctx : Context) (entries : List (Option Requested)) (s : Session)
    (sm : SessionMedia) (w : World)
    → IsUnicast env entries
    → Replies w (set_up_known env ctx entries s sm w).0
unfolding set_up_known
set_up_known-Replies env ctx entries s sm w h = elim (Option-cases (env.find_stream sm.media)) [
  | inl e ↦ rw (set_up_known, e) (send_generic_response-Replies 404 w)
  | inr (stream, e) ↦ rw (set_up_known, e) (configure-Replies env ctx entries s sm stream w h)
]

set_up_in-Replies :
    (env : Env) (ctx : Context) (entries : List (Option Requested)) (p : SessionPool) (url : Url)
    (w : World)
    → IsUnicast env entries
    → Replies w (set_up_in env ctx entries p url w).0
unfolding set_up_in set_up_new
set_up_in-Replies env ctx entries p url w h =
    let path = make_path_from_uri url in
    elim (Option-cases (known_media ctx.session path)) [
      | inl e ↦
          rw (set_up_in, set_up_new, e)
            (set_up_found-Replies env ctx entries p path w (find_media env ctx url path true w) h
              (find_media-Finds env ctx url path true w))
      | inr ((s, sm), e) ↦ rw (set_up_in, e) (set_up_known-Replies env ctx entries s sm w h)
    ]

set_up_pool-Replies :
    (env : Env) (ctx : Context) (entries : List (Option Requested)) (url : Url) (w : World)
    (pool : Option SessionPool)
    → IsUnicast env entries
    → Replies w (set_up_pool env ctx entries url w pool).0
unfolding set_up_pool
set_up_pool-Replies env ctx entries url w none h = send_generic_response-Replies 454 w
set_up_pool-Replies env ctx entries url w (some p) h = set_up_in-Replies env ctx entries p url w h

-- None of the streams gets a multicast transport from the request.
abbrev pub AsksUnicast : Env → Request → Type 0
AsksUnicast env request =
    (entries : List (Option Requested)) → request.transports ≡ some entries → IsUnicast env entries

pub handle_setup_request-Replies :
    (env : Env) (ctx : Context) (w : World)
    → AsksUnicast env ctx.request
    → Replies w (handle_setup_request env ctx w).0
unfolding handle_setup_request
handle_setup_request-Replies env ctx w h = elim (Option-cases ctx.url) [
  | inl e ↦ rw (handle_setup_request, e) (send_generic_response-Replies 400 w)
  | inr (url, e) ↦ elim (Option-cases ctx.request.transports) [
    | inl t ↦ rw (handle_setup_request, e, t) (send_generic_response-Replies 461 w)
    | inr (entries, t) ↦
        rw (handle_setup_request, e, t)
          (set_up_pool-Replies env ctx entries url w w.pool (h entries t))
  ]
]
