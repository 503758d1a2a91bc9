-- ===== src/Client/Tests.antt =====
-- The theorems on gst/rtsp-server/rtsp-client.c at concrete requests and paths.
use mathlib.Core.Option.{some-injective}
use gst_rtsp_server_wfd.Prelude.{
  ℕ, ◌≡◌, refl, inr, List, [], ◌∷◌, true, false, Option, none, some, arith,
}
use gst_rtsp_server_wfd.Prelude.Int.{pos, add_ℕ}
use gst_rtsp_server_wfd.Text.{Text}
use gst_rtsp_server_wfd.Media.{
  Media, idle_start, bus, async_done, async, unprepared, prepared, paused, suspend_none,
}
use gst_rtsp_server_wfd.Media.SetState.{StreamTransport, udp, tcp}
use gst_rtsp_server_wfd.SessionMedia.{SessionMedia, RtspState}
use gst_rtsp_server_wfd.Session.{TimeVal, Session}
use gst_rtsp_server_wfd.SessionPool.{SessionPool}
use gst_rtsp_server_wfd.Auth.{Method, auth_check, no_auth_check}
use gst_rtsp_server_wfd.Client.FindMedia.{check}
use gst_rtsp_server_wfd.Client.{sanitize_uri}
use gst_rtsp_server_wfd.Client.Sanitize.{IsClean, segments, sanitize_uri_lem}
use gst_rtsp_server_wfd.Client.State.{
  Url, Requested, Request, Link, World, Env, Response, send_generic_response,
}
use gst_rtsp_server_wfd.Client.Links.{link_session_transports, unlink_session_transports}
use gst_rtsp_server_wfd.Client.Links.Balance.{n_tcp, link_session_transports_lem}
use gst_rtsp_server_wfd.Client.Handlers.{
  Context, teardown, handle_teardown_request, handle_pause_request,
}
use gst_rtsp_server_wfd.Client.Handlers.Outcome.{
  IsHarmless, handle_teardown_request-IsHarmless, handle_pause_request-IsHarmless,
}
use gst_rtsp_server_wfd.Client.Setup.{parse_transport, parse_entries}
use gst_rtsp_server_wfd.Client.Setup.Entries.{first_supported, parse_transport_lem}
use gst_rtsp_server_wfd.Client.Dispatch.{
  ClientClass, base_class, parse_uri, authorize, dispatch, handle_request, handle_session,
  find_session, handle_data,
}
use gst_rtsp_server_wfd.Client.Dispatch.Channels.{IsTarget, handle_data-IsTarget}
use gst_rtsp_server_wfd.Client.Dispatch.Teardown.{handle_session-teardown}
use gst_rtsp_server_wfd.Client.Replies.{Replies}
use gst_rtsp_server_wfd.Client.Replies.Setup.{AsksUnicast}
use gst_rtsp_server_wfd.Client.Replies.Request.{handle_request-Replies}
use gst_rtsp_server_wfd.Client.Pool.{IsSoundWorld}
use gst_rtsp_server_wfd.Client.Pool.Request.{run, run-IsSoundWorld}

-- //a///b//
abbrev messy : Text
messy = 47 ∷ 47 ∷ 97 ∷ 47 ∷ 47 ∷ 47 ∷ 98 ∷ 47 ∷ 47 ∷ []

sanitized : sanitize_uri messy ≡ 47 ∷ 97 ∷ 47 ∷ 98 ∷ []
unfolding sanitize_uri
sanitized = refl

sanitize_uri_lem_example :
    IsClean (sanitize_uri messy)
    × (segments (sanitize_uri messy) ≡ segments messy)
    × (sanitize_uri (sanitize_uri messy) ≡ sanitize_uri messy)
sanitize_uri_lem_example = sanitize_uri_lem messy

-- /a
abbrev path : Text
path = 47 ∷ 97 ∷ []

abbrev url : Url
url = record { abspath = path; query = none }

abbrev clock : TimeVal
clock = record { tv_sec = 1000; tv_usec = 0 }

abbrev media : Media
media = record {
  status = prepared;
  target_state = paused;
  suspend_mode = suspend_none;
  reusable = false;
  reused = false;
  eos_shutdown = false;
  is_live = false;
  seekable = false;
  buffering = false;
  blocked = false;
  adding = false;
  dynamic = false;
  fakesink = false;
  joined = true;
  rtpbin = true;
  thread = true;
  prepare_count = pos 1;
  n_active = pos 0;
  effects = [];
}

abbrev fresh : Media
fresh = record media {
  status = unprepared;
  joined = false;
  rtpbin = false;
  thread = false;
  prepare_count = pos 0;
}

abbrev over_tcp : Requested
over_tcp = record { lower = tcp; destination = false; channels = none }

abbrev over_udp : Requested
over_udp = record { lower = udp; destination = false; channels = none }

abbrev env : Env
env = record {
  names = record { role = []; access = []; construct = []; settings = [] };
  clock = clock;
  ids = record { create_session_id = some (λ n. some (49 ∷ [])); create_session = true };
  sequence = record { sort = λ items. items; lookup = λ items text. none };
  parse_url = λ text. some url;
  has_scheme = λ text. true;
  permissions = λ factory. none;
  construct = λ factory u. some 7;
  media_thread = true;
  rtpbin = record { create_rtpbin = some true; setup_rtpbin = true };
  gst = λ k effects state. async;
  events = idle_start ∷ bus async_done ∷ [];
  n_streams = λ k. 1;
  find_stream = λ k. some 0;
  is_transport_supported = λ stream requested. true;
  has_address = λ client. true;
  create_sdp = λ k. true;
  initial = over_udp;
}

abbrev request : Method → Option Text → Request
request method session = record {
  version_1_0 = true;
  method = method;
  uri = path;
  session = session;
  authorization = none;
  transports = some (some over_tcp ∷ []);
  blocksize = none;
  body = none;
}

abbrev world : World
world = record {
  sessions = [];
  transports = [];
  cached = none;
  auth = none;
  server_ip = none;
  pool = some (record { max_sessions = 2; sessions = [] });
  mounts = some (record { mounts = record { path = path; factory = 3 } ∷ []; dirty = false });
  media = λ k. fresh;
  next_ptr = 1;
  sent = [];
}

abbrev id : Text
id = 49 ∷ []

abbrev codes : List Response → List ℕ
codes [] = []
codes (r ∷ rs) = r.code ∷ codes rs

abbrev set_up : World
set_up = handle_request base_class env (request Method.setup none) world

abbrev played : World
played = handle_request base_class env (request Method.play (some id)) set_up

abbrev torn_down : World
torn_down = handle_request base_class env (request Method.teardown (some id)) played

abbrev answers : List ℕ
answers = codes torn_down.sent

asks_unicast : AsksUnicast env (request Method.setup none)
unfolding parse_transport parse_entries
asks_unicast entries e stream = rw⁻¹ (some-injective (some over_tcp ∷ []) entries e) refl

-- A class whose handler of SET_PARAMETER only returns TRUE, as that of the Wi-Fi display client.
abbrev silent : ClientClass
silent = record base_class { set_param_request = λ env ctx w. (w, true) }

unanswered : (handle_request silent env (request Method.set_parameter none) world).sent ≡ []
unfolding handle_request handle_session authorize dispatch parse_uri check auth_check no_auth_check
unanswered = refl

handle_request-Replies_example :
    Replies world (handle_request base_class env (request Method.setup none) world)
handle_request-Replies_example =
    handle_request-Replies env (request Method.setup none) world asks_unicast

run-IsSoundWorld_example :
    IsSoundWorld
      (run ((env, request Method.setup none) ∷ (env, request Method.teardown (some id)) ∷ []) world)
run-IsSoundWorld_example =
    run-IsSoundWorld
      ((env, request Method.setup none) ∷ (env, request Method.teardown (some id)) ∷ []) world
      (record { unique = tt; within = inr (omega arith) })

abbrev streaming : SessionMedia
streaming = record {
  ptr = 5;
  path = path;
  media = 7;
  state = RtspState.playing;
  transports =
      some (record { lower_transport = tcp; active = true; channel_min = 0; channel_max = 1 }) ∷ [];
  counter = 2;
}

abbrev viewer : Session
viewer = record {
  sessionid = id;
  timeout = 60;
  last_access = clock;
  expire_count = pos 1;
  medias = streaming ∷ [];
}

abbrev link : Link
link = record { session = id; owner = 5; stream = 0 }

abbrev pool : SessionPool
pool = record { max_sessions = 2; sessions = viewer ∷ [] }

abbrev watched : World
watched = record world {
  sessions = id ∷ [];
  transports = link ∷ [];
  pool = some pool;
  media = λ k. media;
}

link_session_transports_lem_example :
    ((link_session_transports streaming ([], viewer)).1.expire_count
      ≡ add_ℕ viewer.expire_count (n_tcp streaming.transports))
    × (unlink_session_transports streaming (link_session_transports streaming ([], viewer))
        ≡ ([], viewer))
link_session_transports_lem_example = link_session_transports_lem streaming ([], viewer)

handle_session-teardown_example :
    handle_session base_class env
      (request Method.play (some id))
      none
      (teardown env viewer streaming watched)
    ≡ send_generic_response 454 (find_session env id (teardown env viewer streaming watched)).0
handle_session-teardown_example =
    handle_session-teardown base_class env env viewer streaming watched pool
      (request Method.play (some id)) none refl
      (record { unique = (refl, tt); within = inr (omega arith) }) refl refl

abbrev unknown_path : Context
unknown_path = record {
  session = some viewer;
  url = some (record { abspath = 47 ∷ 98 ∷ []; query = none });
  request = request Method.pause (some id);
}

handle_teardown_request-IsHarmless_example :
    IsHarmless watched (handle_teardown_request env unknown_path watched)
handle_teardown_request-IsHarmless_example =
    handle_teardown_request-IsHarmless env unknown_path watched

handle_pause_request-IsHarmless_example :
    IsHarmless watched (handle_pause_request env unknown_path watched)
handle_pause_request-IsHarmless_example = handle_pause_request-IsHarmless env unknown_path watched

abbrev entries : List (Option Requested)
entries = some over_udp ∷ none ∷ []

parse_transport_lem_example :
    parse_transport (λ t. false) over_tcp entries ≡ elim (first_supported (λ t. false) entries) [
      | none ↦ (true, over_tcp)
      | some chosen ↦ (true, chosen)
    ]
parse_transport_lem_example = parse_transport_lem (λ t. false) over_tcp entries

abbrev transport_of : Link → Option StreamTransport
transport_of l =
    some (record { lower_transport = tcp; active = true; channel_min = 0; channel_max = 1 })

handle_data-IsTarget_example :
    IsTarget transport_of 1 (link ∷ []) (handle_data transport_of 1 (link ∷ []))
handle_data-IsTarget_example = handle_data-IsTarget transport_of 1 (link ∷ [])
