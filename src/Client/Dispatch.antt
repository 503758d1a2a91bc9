-- ===== src/Client/Dispatch.antt =====
-- handle_request, handle_response and handle_data in gst/rtsp-server/rtsp-client.c.
pub mod Channels
pub mod Teardown
use gst_rtsp_server_wfd.Prelude.{
  ℕ, List, [], ◌∷◌, ◌++◌, Bool, true, false, not, ◌&&◌, ◌||◌, Option, none, some, ◌==◌,
  if◌then◌else◌,
}
use gst_rtsp_server_wfd.Text.{Text, equal_texts, char_at, slash}
use gst_rtsp_server_wfd.Media.SetState.{StreamTransport}
use gst_rtsp_server_wfd.SessionMedia.{SessionMedia, get_transport}
use gst_rtsp_server_wfd.Session.{Session}
use gst_rtsp_server_wfd.SessionPool.{SessionPool, find, lookup}
use gst_rtsp_server_wfd.Auth.{Method, Check, Verdict, is_allowed_verdict}
use gst_rtsp_server_wfd.Client.{sanitize_uri}
use gst_rtsp_server_wfd.Client.State.{
  Url, Request, Link, World, Env, send_generic_response, send_verdict, client_watch_session,
}
use gst_rtsp_server_wfd.Client.Links.{is_tcp}
use gst_rtsp_server_wfd.Client.Handlers.{
  Context, handle_teardown_request, handle_pause_request, handle_play_request,
}
use gst_rtsp_server_wfd.Client.FindMedia.{
  session_id, check, handle_describe_request, handle_options_request, handle_param_request,
}
use gst_rtsp_server_wfd.Client.Setup.{handle_setup_request}

-- "*"
abbrev star : Text
star = 42 ∷ []

-- "rtsp://"
abbrev rtsp_prefix : Text
rtsp_prefix = 114 ∷ 116 ∷ 115 ∷ 112 ∷ 58 ∷ 47 ∷ 47 ∷ []

-- A path alone is put behind the server's address.
parse_path : Env → Option Text → Text → Option Url
parse_path env none uri = none
parse_path env (some ip) uri = env.parse_url (rtsp_prefix ++ ip ++ uri)

-- None, if the request is bad; else the url, if the uri is not "*".
unfoldable pub parse_uri : Env → Option Text → Text → Option (Option Url)
unfolding parse_path
parse_uri env ip uri = if equal_texts uri star then some none else elim (env.parse_url uri) [
  | some url ↦ some (some url)
  | none ↦
      if not (env.has_scheme uri) && (char_at uri 0 == slash)
      then elim (parse_path env ip uri) [ none ↦ none | some url ↦ some (some url) ]
      else none
]

abbrev pub sanitized : Option Url → Option Url
sanitized none = none
sanitized (some url) = some (record url { abspath = sanitize_uri url.abspath })

-- The handlers that the switch over the method calls through the client's class; the Wi-Fi display
-- client has its own for the three.
pub record ClientClass : Type 0 where
  pub options_request : Env → Context → World → World × Bool
  pub set_param_request : Env → Context → World → World × Bool
  pub get_param_request : Env → Context → World → World × Bool

-- GstRTSPClient itself, by gst_rtsp_client_class_init
abbrev pub base_class : ClientClass
base_class = record {
  options_request = handle_options_request;
  set_param_request = handle_param_request;
  get_param_request = handle_param_request;
}

-- The switch over the method.
unfoldable pub dispatch : ClientClass → Env → Context → World → World
dispatch klass env ctx w = elim ctx.request.method [
  | Method.options ↦ (klass.options_request env ctx w).0
  | Method.describe ↦ (handle_describe_request env ctx w).0
  | Method.setup ↦ (handle_setup_request env ctx w).0
  | Method.play ↦ (handle_play_request env ctx w).0
  | Method.pause ↦ (handle_pause_request env ctx w).0
  | Method.teardown ↦ (handle_teardown_request env ctx w).0
  | Method.set_parameter ↦ (klass.set_param_request env ctx w).0
  | Method.get_parameter ↦ (klass.get_param_request env ctx w).0
  | Method.announce_method ↦ send_generic_response 501 w
  | Method.record_method ↦ send_generic_response 501 w
  | Method.redirect ↦ send_generic_response 501 w
  | Method.invalid ↦ send_generic_response 400 w
]

-- From the check of the url on.
unfoldable pub authorize : ClientClass → Env → Context → World → World
unfolding dispatch
authorize klass env ctx w =
    let verdict = check env ctx none Check.check_url w in
    if is_allowed_verdict verdict
    then dispatch klass env ctx w
    else send_verdict (session_id ctx.session) verdict w

-- A session of the header is found, touched and watched: none, if it is not there.
unfoldable pub find_in : Env → Text → World → Option SessionPool → World × Option Session
find_in env id w none = (w, none)
find_in env id w (some p) =
    let (p', result) = find env.clock id p in
    let w' = record w { pool = some p' } in
    elim result [ none ↦ (w', none) | some s ↦ (client_watch_session s.sessionid w', some s) ]

unfoldable pub find_session : Env → Text → World → World × Option Session
unfolding find_in
find_session env id w = find_in env id w w.pool

-- The session of the header was looked for.
unfoldable pub continue_session :
    ClientClass → Env → Request → Option Url → World → Option Session → World
unfolding authorize
continue_session klass env request url w none = send_generic_response 454 w
continue_session klass env request url w (some s) =
    authorize klass env (record { session = some s; url = sanitized url; request = request }) w

unfoldable pub handle_session : ClientClass → Env → Request → Option Url → World → World
unfolding continue_session authorize find_session
handle_session klass env request url w = elim request.session [
  | none ↦ authorize klass env (record { session = none; url = sanitized url; request = request }) w
  | some id ↦
      let (w', found) = find_session env id w in continue_session klass env request url w' found
]

unfoldable pub handle_request : ClientClass → Env → Request → World → World
unfolding handle_session parse_uri
handle_request klass env request w =
    if not request.version_1_0
    then send_generic_response 505 w
    else elim (parse_uri env w.server_ip request.uri) [
      | none ↦ send_generic_response 400 w
      | some url ↦ handle_session klass env request url w
    ]

-- handle_response, for the id in the Session header: the signal is emitted if it answers true.
pub handle_response : Env → Option Text → World → World × Bool
unfolding find_session
handle_response env none w = (w, true)
handle_response env (some id) w =
    let (w', found) = find_session env id w in
    elim found [ none ↦ (w', false) | some s ↦ (w', true) ]

abbrev find_owner : ℕ → List SessionMedia → Option SessionMedia
find_owner k [] = none
find_owner k (m ∷ ms) = let rest = find_owner k ms in if m.ptr == k then some m else rest

-- The transport of a link.
pub linked_transport : World → Link → Option StreamTransport
linked_transport w l = elim w.pool [
  | none ↦ none
  | some p ↦ elim (lookup l.session p.sessions) [
    | none ↦ none
    | some s ↦ elim (find_owner l.owner s.medias) [
      | none ↦ none
      | some m ↦ get_transport l.stream m
    ]
  ]
]

-- Where handle_data puts the data of a channel: RTP or RTCP of a transport, or nowhere.
pub data Target : Type 0 where
  rtp rtcp : Link → Target
  nowhere : Target

channel_target : ℕ → Link → Option StreamTransport → Target
channel_target channel l none = nowhere
channel_target channel l (some t) =
    if is_tcp t.lower_transport
    then (if t.channel_min == channel
        then rtp l
        else if t.channel_max == channel
        then rtcp l
        else nowhere)
    else nowhere

pub handle_data : (Link → Option StreamTransport) → ℕ → List Link → Target
unfolding channel_target
handle_data transport channel [] = nowhere
handle_data transport channel (l ∷ ls) =
    let rest = handle_data transport channel ls in
    elim (channel_target channel l (transport l)) [
      | rtp k ↦ rtp k
      | rtcp k ↦ rtcp k
      | nowhere ↦ rest
    ]
