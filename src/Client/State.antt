-- ===== src/Client/State.antt =====
-- gst/rtsp-server/rtsp-client.c: what a client keeps and sees, its requests and its responses.
--
-- A session stands for its id, a media, a factory and a session media for its pointer. `Env` holds
-- what other code answers during one request: the RTSP library's parsers, the factories, the streams
-- and the media's pipelines.
use gst_rtsp_server_wfd.Prelude.{
  ℕ, List, [], ◌∷◌, ◌++◌, Bool, false, ◌||◌, Option, none, some, ◌==◌, if◌then◌else◌,
}
use gst_rtsp_server_wfd.Text.{Text, equal_texts}
use gst_rtsp_server_wfd.Media.{Media, Pipeline, Event, prepared, suspended, is_status}
use gst_rtsp_server_wfd.Media.Calls.{RtpbinMethods}
use gst_rtsp_server_wfd.Media.SetState.{Lower}
use gst_rtsp_server_wfd.SessionMedia.{SessionMedia}
use gst_rtsp_server_wfd.Session.{Session, TimeVal}
use gst_rtsp_server_wfd.SessionPool.{SessionPool, PoolMethods}
use gst_rtsp_server_wfd.MountPoints.{MountPoints, GSequence}
use gst_rtsp_server_wfd.Permissions.{Permissions}
use gst_rtsp_server_wfd.Auth.{Auth, Names, Method, Verdict}

pub record Url : Type 0 where
  pub abspath : Text
  pub query : Option Text

-- What the library's parser makes of one entry of a Transport header. `channels` are the interleaved
-- ones, if the client chose both.
pub record Requested : Type 0 where
  pub lower : Lower
  pub destination : Bool
  pub channels : Option (ℕ × ℕ)

-- `transports` are the entries of the Transport header, `none` for those that do not parse;
-- `blocksize` is the header of that name, and whether it is a number; `body` is the body's size.
pub record Request : Type 0 where
  pub version_1_0 : Bool
  pub method : Method
  pub uri : Text
  pub session : Option Text
  pub authorization : Option Text
  pub transports : Option (List (Option Requested))
  pub blocksize : Option Bool
  pub body : Option ℕ

-- The code, the id in the Session header, and whether the connection is to be closed.
pub record Response : Type 0 where
  pub code : ℕ
  pub session : Option Text
  pub close : Bool

-- A stream transport: the id of its session, the pointer of its session media, and its stream.
pub record Link : Type 0 where
  pub session : Text
  pub owner : ℕ
  pub stream : ℕ

-- The client's cached path comes with the cached media. `sent` has the newest response first.
pub record World : Type 0 where
  pub sessions : List Text
  pub transports : List Link
  pub cached : Option (Text × ℕ)
  pub auth : Option Auth
  pub server_ip : Option Text
  pub pool : Option SessionPool
  pub mounts : Option MountPoints
  pub media : ℕ → Media
  pub next_ptr : ℕ
  pub sent : List Response

pub record Env : Type 0 where
  pub names : Names
  pub clock : TimeVal
  pub ids : PoolMethods
  pub sequence : GSequence
  pub parse_url : Text → Option Url
  pub has_scheme : Text → Bool
  pub permissions : ℕ → Option Permissions
  pub construct : ℕ → Url → Option ℕ
  pub media_thread : Bool
  pub rtpbin : RtpbinMethods
  pub gst : ℕ → Pipeline
  pub events : List Event
  pub n_streams : ℕ → ℕ
  pub find_stream : ℕ → Option ℕ
  pub is_transport_supported : ℕ → Requested → Bool
  pub has_address : Bool → Bool
  pub create_sdp : ℕ → Bool
  pub initial : Requested

-- send_message, for a response.
unfoldable pub send_message : Option Text → ℕ → Bool → World → World
send_message session code close w = record w {
  sent = record { code = code; session = session; close = close } ∷ w.sent;
}

unfoldable pub send_generic_response : ℕ → World → World
unfolding send_message
send_generic_response code w = send_message none code false w

-- What a check sends where it fails; the session is that of the context.
unfoldable pub send_verdict : Option Text → Verdict → World → World
unfolding send_message
send_verdict session (Verdict.refused_with code) w = send_message session code false w
send_verdict session _ w = w

abbrev pub put_media : ℕ → Media → World → World
put_media k m w = record w { media = λ j. if j == k then m else w.media j }

-- The status that gst_rtsp_session_manage_media wants.
abbrev pub is_usable : Media → Bool
is_usable m = is_status m.status prepared || is_status m.status suspended

unfoldable pub is_watched : Text → List Text → Bool
is_watched id [] = false
is_watched id (s ∷ ss) = equal_texts s id || is_watched id ss

unfoldable pub client_watch_session : Text → World → World
unfolding is_watched
client_watch_session id w =
    if is_watched id w.sessions then w else record w { sessions = id ∷ w.sessions }

-- g_list_remove
remove_session : Text → List Text → List Text
remove_session id [] = []
remove_session id (s ∷ ss) =
    let rest = remove_session id ss in if equal_texts s id then ss else s ∷ rest

unfoldable pub client_unwatch_session : Text → World → World
unfolding remove_session
client_unwatch_session id w = record w { sessions = remove_session id w.sessions }

-- A session that was changed in place.
unfoldable pub put_in : Session → List Session → List Session
put_in s [] = []
put_in s (x ∷ xs) =
    let rest = put_in s xs in if equal_texts x.sessionid s.sessionid then s ∷ xs else x ∷ rest

abbrev pub change_pool : (SessionPool → SessionPool) → Option SessionPool → Option SessionPool
change_pool f none = none
change_pool f (some p) = some (f p)

unfoldable pub put_session : Session → World → World
unfolding put_in
put_session s w = record w {
  pool = change_pool (λ p. record p { sessions = put_in s p.sessions }) w.pool;
}

-- A session media that was changed in place.
pub put_session_media : SessionMedia → List SessionMedia → List SessionMedia
put_session_media m [] = []
put_session_media m (x ∷ xs) =
    let rest = put_session_media m xs in if x.ptr == m.ptr then m ∷ xs else x ∷ rest

-- default_make_path_from_uri; "?" is 63.
pub make_path_from_uri : Url → Text
make_path_from_uri url = elim url.query [
  | none ↦ url.abspath
  | some query ↦ url.abspath ++ 63 ∷ query
]
