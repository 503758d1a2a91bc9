-- ===== src/Client/Setup.antt =====
-- SETUP in gst/rtsp-server/rtsp-client.c.
pub mod Entries
use gst_rtsp_server_wfd.Prelude.{
  ℕ, suc, List, [], ◌∷◌, Bool, true, false, not, ◌&&◌, ◌||◌, Option, none, some, length, ◌==◌,
  if◌then◌else◌,
}
use gst_rtsp_server_wfd.Text.{Text}
use gst_rtsp_server_wfd.Media.{Media}
use gst_rtsp_server_wfd.Media.SetState.{Lower, udp, udp_mcast, tcp, unknown}
use gst_rtsp_server_wfd.SessionMedia.{
  SessionMedia, RtspState, Transport, set_rtsp_state, set_transport, alloc_channels,
}
use gst_rtsp_server_wfd.Session.{Session, get_media, manage_media}
use gst_rtsp_server_wfd.SessionPool.{SessionPool, Created, created, create}
use gst_rtsp_server_wfd.Auth.{Check, Verdict, is_allowed_verdict}
use gst_rtsp_server_wfd.Client.State.{
  Url, Requested, Request, World, Env, send_message, send_generic_response, send_verdict, is_usable,
  client_watch_session, put_session, make_path_from_uri,
}
use gst_rtsp_server_wfd.Client.Links.{is_tcp}
use gst_rtsp_server_wfd.Client.Handlers.{Context, write_back}
use gst_rtsp_server_wfd.Client.FindMedia.{session_id, check, find_media}

-- The loop of parse_transport, with its `res` and the transport. An entry that does not parse
-- leaves the parser's error in `res`, which is not zero.
unfoldable pub parse_entries :
    (Requested → Bool) → Requested → Bool → List (Option Requested) → Bool × Requested
parse_entries supported initial res [] = (res, initial)
parse_entries supported initial res (none ∷ entries) = parse_entries supported initial true entries
parse_entries supported initial res (some tr ∷ entries) =
    let rest = parse_entries supported initial false entries in
    if supported tr then (true, tr) else rest

-- The answer, and the transport.
unfoldable pub parse_transport :
    (Requested → Bool) → Requested → List (Option Requested) → Bool × Requested
unfolding parse_entries
parse_transport supported initial entries = parse_entries supported initial false entries

-- default_configure_client_media; the block size itself goes to the stream.
unfoldable pub configure_client_media : Context → World → World × Bool
configure_client_media ctx w = elim ctx.request.blocksize [
  | some false ↦ (send_generic_response 400 w, false)
  | _ ↦ (w, true)
]

abbrev chosen_channels : Requested → SessionMedia → SessionMedia × Transport
chosen_channels ct sm = elim ct.channels [
  | some (a, b) ↦ (sm, record { lower = ct.lower; channel_min = a; channel_max = b })
  | none ↦
      let (sm', a, b) = alloc_channels sm in
      (sm', record { lower = ct.lower; channel_min = a; channel_max = b })
]

abbrev no_channels : Requested → Transport
no_channels ct = record { lower = ct.lower; channel_min = 0; channel_max = 0 }

abbrev pub is_multicast : Lower → Bool
is_multicast udp_mcast = true
is_multicast _ = false

-- default_configure_client_transport: false, if there is no address.
unfoldable pub configure_client_transport :
    Env → Context → Requested → SessionMedia → World → World × SessionMedia × Option Transport
configure_client_transport env ctx ct sm w =
    if is_multicast ct.lower
    then (let settings = check env ctx none Check.client_settings w in
        let w' = send_verdict (session_id ctx.session) settings w in
        if env.has_address (ct.destination && is_allowed_verdict settings)
        then (w', sm, some (no_channels ct))
        else (w', sm, none))
    else if is_tcp ct.lower
    then (let (sm', tr) = chosen_channels ct sm in (w, sm', some tr))
    else (w, sm, some (no_channels ct))

-- The switch at the end.
abbrev pub set_up : RtspState → RtspState
set_up RtspState.playing = RtspState.playing
set_up RtspState.recording = RtspState.recording
set_up _ = RtspState.ready

-- From parse_transport on, for the stream of the media.
unfoldable pub set_up_transport :
    Env → Context → List (Option Requested) → Session → SessionMedia → ℕ → World → World × Bool
unfolding parse_transport configure_client_transport
set_up_transport env ctx entries s sm stream w =
    let (parsed, ct) = parse_transport (env.is_transport_supported stream) env.initial entries in
    if not parsed
    then (send_generic_response 461 w, false)
    else (let (w', sm', tr) = configure_client_transport env ctx ct sm w in
        elim tr [
          | none ↦ (send_generic_response 461 w', false)
          | some t ↦
              let sm'' = (set_transport stream t sm').0 in
              (
                write_back s (set_rtsp_state (set_up sm''.state) sm'')
                    (send_message (some s.sessionid) 200 false w'),
                true,
              )
        ])

-- What configure_client_media answered. The session is now that of the context.
unfoldable pub configured :
    Env
    → Context
    → List (Option Requested)
    → Session
    → SessionMedia
    → ℕ
    → World × Bool
    → World × Bool
unfolding set_up_transport
configured env ctx entries s sm stream (w, true) =
    set_up_transport env (record ctx { session = some s }) entries s sm stream w
configured env ctx entries s sm stream (w, false) = (w, false)

-- From configure_client_media on.
unfoldable pub configure :
    Env → Context → List (Option Requested) → Session → SessionMedia → ℕ → World → World × Bool
unfolding configure_client_media configured
configure env ctx entries s sm stream w =
    configured env ctx entries s sm stream (configure_client_media ctx w)

-- The session has no session media yet for the path.
unfoldable pub manage :
    Env → Context → List (Option Requested) → Session → Text → ℕ → ℕ → World → World × Bool
unfolding configure
manage env ctx entries s path k stream w =
    let (s', managed) =
      manage_media w.next_ptr path k (env.n_streams k) (is_usable (w.media k)) s in
    let w' = put_session s' (record w { next_ptr = suc w.next_ptr }) in
    elim managed [
      | none ↦ (send_generic_response 503 w', false)
      | some sm ↦ configure env ctx entries s' sm stream w'
    ]

-- What gst_rtsp_session_pool_create returned: a session is watched.
unfoldable pub watch_created :
    Env → Context → List (Option Requested) → Text → ℕ → ℕ → World → Created → World × Bool
unfolding manage
watch_created env ctx entries path k stream w (created s) =
    manage env ctx entries s path k stream (client_watch_session s.sessionid w)
watch_created env ctx entries path k stream w _ = (send_generic_response 503 w, false)

-- The request has no session: one is created.
unfoldable pub create_session :
    Env → Context → List (Option Requested) → SessionPool → Text → ℕ → ℕ → World → World × Bool
unfolding watch_created
create_session env ctx entries p path k stream w =
    let (p', result) = create env.clock env.ids p in
    watch_created env ctx entries path k stream (record w { pool = some p' }) result

-- What find_media answered.
unfoldable pub set_up_found :
    Env → Context → List (Option Requested) → SessionPool → Text → World → Option ℕ → World × Bool
unfolding create_session manage
set_up_found env ctx entries p path w none = (w, false)
set_up_found env ctx entries p path w (some k) = elim (env.find_stream k) [
  | none ↦ (send_generic_response 404 w, false)
  | some stream ↦ elim ctx.session [
    | none ↦ create_session env ctx entries p path k stream w
    | some s ↦ manage env ctx entries s path k stream w
  ]
]

-- The media was not in the session, or there is none.
unfoldable pub set_up_new :
    Env → Context → List (Option Requested) → SessionPool → Url → Text → World → World × Bool
unfolding set_up_found
set_up_new env ctx entries p url path w =
    let (w', found) = find_media env ctx url path true w in
    set_up_found env ctx entries p path w' found

unfoldable pub set_up_known :
    Env → Context → List (Option Requested) → Session → SessionMedia → World → World × Bool
unfolding configure
set_up_known env ctx entries s sm w = elim (env.find_stream sm.media) [
  | none ↦ (send_generic_response 404 w, false)
  | some stream ↦ configure env ctx entries s sm stream w
]

abbrev pub known_media : Option Session → Text → Option (Session × SessionMedia)
known_media none path = none
known_media (some s) path = elim ((get_media s path 0).0) [ none ↦ none | some sm ↦ some (s, sm) ]

unfoldable pub set_up_in :
    Env → Context → List (Option Requested) → SessionPool → Url → World → World × Bool
unfolding set_up_known set_up_new
set_up_in env ctx entries p url w =
    let path = make_path_from_uri url in
    elim (known_media ctx.session path) [
      | none ↦ set_up_new env ctx entries p url path w
      | some (s, sm) ↦ set_up_known env ctx entries s sm w
    ]

-- The session pool is that of the client.
unfoldable pub set_up_pool :
    Env → Context → List (Option Requested) → Url → World → Option SessionPool → World × Bool
unfolding set_up_in
set_up_pool env ctx entries url w none = (send_generic_response 454 w, false)
set_up_pool env ctx entries url w (some p) = set_up_in env ctx entries p url w

unfoldable pub handle_setup_request : Env → Context → World → World × Bool
unfolding set_up_pool
handle_setup_request env ctx w = elim ctx.url [
  | none ↦ (send_generic_response 400 w, false)
  | some url ↦ elim ctx.request.transports [
    | none ↦ (send_generic_response 461 w, false)
    | some entries ↦ set_up_pool env ctx entries url w w.pool
  ]
]
