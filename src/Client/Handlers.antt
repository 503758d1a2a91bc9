-- ===== src/Client/Handlers.antt =====
-- The requests on a session media in gst/rtsp-server/rtsp-client.c: TEARDOWN, PAUSE and PLAY.
--
-- The Range header of PLAY is left out, with the seek that it asks for.
pub mod Outcome
use gst_rtsp_server_wfd.Prelude.{
  ℕ, List, [], ◌∷◌, Bool, true, false, not, ◌&&◌, ◌||◌, Option, none, some, length, ◌==◌,
  if◌then◌else◌,
}
use gst_rtsp_server_wfd.Text.{Text, char_at}
use gst_rtsp_server_wfd.Media.{Media, GstState, null, paused, playing}
use gst_rtsp_server_wfd.Media.Calls.{unsuspend}
use gst_rtsp_server_wfd.SessionMedia.{SessionMedia, RtspState, set_rtsp_state, set_media_state}
use gst_rtsp_server_wfd.Session.{Session, get_media, release_media}
use gst_rtsp_server_wfd.SessionPool.{SessionPool, remove}
use gst_rtsp_server_wfd.Auth.{Method}
use gst_rtsp_server_wfd.Client.State.{
  Url, Request, World, Env, send_message, send_generic_response, put_media, client_unwatch_session,
  put_session, put_session_media, change_pool, make_path_from_uri,
}
use gst_rtsp_server_wfd.Client.Links.{link_session_transports, unlink_session_transports}

-- The session is the one that was found for the request, by its value.
pub record Context : Type 0 where
  pub session : Option Session
  pub url : Option Url
  pub request : Request

pub data Aggregate : Type 0 where
  missing : ℕ → Aggregate
  found : Session → SessionMedia → Aggregate

-- What get_media found is taken if it is the whole path.
whole_path : Session → Text → Option SessionMedia × ℕ → Aggregate
whole_path s path (none, matched) = missing 404
whole_path s path (some sm, matched) = if char_at path matched == 0 then found s sm else missing 460

-- What the three handlers begin with: the session media, or the code of the response.
pub find_aggregate : Option Session → Option Url → Aggregate
unfolding whole_path
find_aggregate none url = missing 454
find_aggregate (some s) none = missing 400
find_aggregate (some s) (some url) =
    let path = make_path_from_uri url in whole_path s path (get_media s path 0)

-- gst_rtsp_session_media_set_state, on the session media and the media of its pointer.
unfoldable pub change_state : Env → GstState → SessionMedia → World → SessionMedia × World
change_state env s sm w =
    let (sm', m, ret) = set_media_state (env.gst sm.media) s sm (w.media sm.media) in
    (sm', put_media sm.media m w)

-- gst_rtsp_session_release_media, and the pool without a session that has no media left. Nobody
-- else holds the session media, so that it is finalized, which sets its state to NULL.
unfoldable pub release : Env → Session → SessionMedia → World → World
unfolding change_state
release env s sm w =
    let (s', more) = release_media sm s in
    let w' = (change_state env null sm w).1 in
    if more
    then put_session s' w'
    else record w' { pool = change_pool (λ p. (remove s' p).0) w'.pool }

unfoldable pub teardown : Env → Session → SessionMedia → World → World
unfolding change_state release
teardown env s sm w =
    let (links, s') = unlink_session_transports sm (w.transports, s) in
    let w1 = client_unwatch_session s.sessionid (record w { transports = links }) in
    let (sm', w2) = change_state env null sm w1 in
    send_message (some s.sessionid) 200 true (release env s' sm' w2)

unfoldable pub handle_teardown_request : Env → Context → World → World × Bool
unfolding teardown
handle_teardown_request env ctx w = elim (find_aggregate ctx.session ctx.url) [
  | missing code ↦ (send_generic_response code w, false)
  | found s sm ↦ (teardown env s sm w, true)
]

-- The session media goes back to its session, and the session to the pool.
unfoldable pub write_back : Session → SessionMedia → World → World
write_back s sm w = put_session (record s { medias = put_session_media sm s.medias }) w

abbrev pub can_pause : RtspState → Bool
can_pause RtspState.playing = true
can_pause RtspState.recording = true
can_pause _ = false

abbrev pub can_play : RtspState → Bool
can_play RtspState.playing = true
can_play RtspState.ready = true
can_play _ = false

unfoldable pub pause : Env → Session → SessionMedia → World → World
unfolding change_state write_back
pause env s sm w =
    let (links, s') = unlink_session_transports sm (w.transports, s) in
    let (sm', w') = change_state env paused sm (record w { transports = links }) in
    write_back s' (set_rtsp_state RtspState.ready sm')
      (send_message (some s.sessionid) 200 false w')

unfoldable pub handle_pause_request : Env → Context → World → World × Bool
unfolding pause
handle_pause_request env ctx w = elim (find_aggregate ctx.session ctx.url) [
  | missing code ↦ (send_generic_response code w, false)
  | found s sm ↦
      if can_pause sm.state then (pause env s sm w, true) else (send_generic_response 455 w, false)
]

-- After the media was unsuspended.
unfoldable pub play : Env → Session → SessionMedia → World → World
unfolding change_state write_back
play env s sm w =
    let (links, s') = link_session_transports sm (w.transports, s) in
    let w1 = send_message (some s.sessionid) 200 false (record w { transports = links }) in
    let (sm', w2) = change_state env playing sm w1 in
    write_back s' (set_rtsp_state RtspState.playing sm') w2

-- The answer of the unsuspend is known.
unfoldable pub resume : Env → Session → SessionMedia → World → Bool → World × Bool
unfolding play
resume env s sm w true = (play env s sm w, true)
resume env s sm w false = (send_generic_response 503 w, false)

unfoldable pub handle_play_request : Env → Context → World → World × Bool
unfolding resume
handle_play_request env ctx w = elim (find_aggregate ctx.session ctx.url) [
  | missing code ↦ (send_generic_response code w, false)
  | found s sm ↦
      if not (can_play sm.state)
      then (send_generic_response 455 w, false)
      else (let (m, ret) = unsuspend (env.gst sm.media) env.events (w.media sm.media) in
          resume env s sm (put_media sm.media m w) ret)
]
