-- ===== src/Client/Sessions.antt =====
-- Sessions that end, in gst/rtsp-server/rtsp-client.c.
use gst_rtsp_server_wfd.Prelude.{List, [], ◌∷◌, Bool, true, false, none, some}
use gst_rtsp_server_wfd.Text.{Text}
use gst_rtsp_server_wfd.Media.{null}
use gst_rtsp_server_wfd.SessionMedia.{SessionMedia}
use gst_rtsp_server_wfd.Session.{Session}
use gst_rtsp_server_wfd.SessionPool.{lookup}
use gst_rtsp_server_wfd.Client.State.{World, Env, put_session, client_unwatch_session}
use gst_rtsp_server_wfd.Client.Links.{unlink_session_transports}
use gst_rtsp_server_wfd.Client.Handlers.{change_state}

-- gst_rtsp_session_filter with filter_session, which removes every media. A removed session media
-- is finalized, which sets its state again.
unlink_medias : Env → List SessionMedia → World × Session → World × Session
unlink_medias env [] (w, s) = (w, record s { medias = [] })
unlink_medias env (m ∷ ms) (w, s) =
    let (m', w1) = change_state env null m w in
    let (links, s') = unlink_session_transports m' (w1.transports, s) in
    unlink_medias env ms ((change_state env null m' (record w1 { transports = links })).1, s')

pub client_unlink_session : Env → Session → World → World × Session
unfolding unlink_medias
client_unlink_session env s w = unlink_medias env s.medias (w, s)

abbrev is_empty : List Text → Bool
is_empty [] = true
is_empty (x ∷ xs) = false

-- client_session_finalized, for a session that is in no pool any more: whether the connection is
-- closed.
pub client_session_finalized : Env → Session → World → World × Bool
unfolding client_unlink_session
client_session_finalized env s w =
    let w' = client_unwatch_session s.sessionid (client_unlink_session env s w).0 in
    (w', is_empty w'.sessions)

cleanup_session : Env → Text → World → World
unfolding client_unlink_session
cleanup_session env id w = elim w.pool [
  | none ↦ w
  | some p ↦ elim (lookup id p.sessions) [
    | none ↦ w
    | some s ↦ let (w', s') = client_unlink_session env s w in put_session s' w'
  ]
]

cleanup_each : Env → List Text → World → World
unfolding cleanup_session
cleanup_each env [] w = w
cleanup_each env (id ∷ ids) w = cleanup_each env ids (cleanup_session env id w)

pub client_cleanup_sessions : Env → World → World
unfolding cleanup_each
client_cleanup_sessions env w = record (cleanup_each env w.sessions w) { sessions = [] }
