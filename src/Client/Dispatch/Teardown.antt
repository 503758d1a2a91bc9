-- ===== src/Client/Dispatch/Teardown.antt =====
-- TEARDOWN and the later requests of its session in gst/rtsp-server/rtsp-client.c.
use gst_rtsp_server_wfd.Prelude.{◌≡◌, refl, ◌∙◌, ap, [], ◌∷◌, true, false, Option, none, some}
use gst_rtsp_server_wfd.Text.{Text, equal_texts, equal_texts_self}
use gst_rtsp_server_wfd.Media.{null}
use gst_rtsp_server_wfd.SessionMedia.{SessionMedia}
use gst_rtsp_server_wfd.SessionMedia.Channels.{set_media_state_ptr}
use gst_rtsp_server_wfd.Session.{Session, release_media}
use gst_rtsp_server_wfd.Session.Medias.{release_media_last, release_media_id}
use gst_rtsp_server_wfd.SessionPool.{SessionPool, find, remove}
use gst_rtsp_server_wfd.SessionPool.History.{IsSound}
use gst_rtsp_server_wfd.SessionPool.Lookup.{find-remove}
use gst_rtsp_server_wfd.Client.State.{
  Url, Request, World, Env, send_message, send_generic_response, change_pool,
  client_unwatch_session,
}
use gst_rtsp_server_wfd.Client.Links.{unlink_session_transports}
use gst_rtsp_server_wfd.Client.Links.Same.{unlink_session_transports-IsSame}
use gst_rtsp_server_wfd.Client.Handlers.{change_state, release, teardown}
use gst_rtsp_server_wfd.Client.Dispatch.{
  ClientClass, find_in, find_session, continue_session, handle_session,
}

-- A session that was removed is not found.
find_in_removed :
    (env : Env) (s : Session) (id : Text) (w : World) (p : SessionPool)
    → IsSound p
    → s.sessionid ≡ id
    → (find_in env id w (some (remove s p).0)).1 ≡ none
unfolding find_in
find_in_removed env s id w p h e =
    let same : equal_texts s.sessionid id ≡ true = rw e (equal_texts_self id) in
    let gone : (find env.clock id (remove s p).0).1 ≡ none =
      find-remove env.clock s id p h ∙ rw same refl in
    rw (find_in, gone) refl

release_pool :
    (env : Env) (s : Session) (sm : SessionMedia) (w : World)
    → (release_media sm s).1 ≡ false
    → (release env s sm w).pool ≡ change_pool (λ p. (remove (release_media sm s).0 p).0) w.pool
unfolding release change_state
release_pool env s sm w e = rw (release, e) refl

change_state_ptr :
    (env : Env) (sm : SessionMedia) (w : World) → (change_state env null sm w).0.ptr ≡ sm.ptr
unfolding change_state
change_state_ptr env sm w = set_media_state_ptr (env.gst sm.media) null sm (w.media sm.media)

teardown_pool :
    (env : Env) (s : Session) (sm : SessionMedia) (w : World)
    → s.medias ≡ sm ∷ []
    → (s' : Session) × ((s'.sessionid ≡ s.sessionid)
        × ((teardown env s sm w).pool ≡ change_pool (λ p. (remove s' p).0) w.pool))
unfolding teardown send_message change_state client_unwatch_session
teardown_pool env s sm w e =
    let (links, s') = unlink_session_transports sm (w.transports, s) in
    let same = unlink_session_transports-IsSame sm (w.transports, s) in
    let w1 = client_unwatch_session s.sessionid (record w { transports = links }) in
    let (sm', w2) = change_state env null sm w1 in
    let last = release_media_last sm sm' s' (same.medias ∙ e) (change_state_ptr env sm w1) in
    ((release_media sm' s').0, (release_media_id sm' s' ∙ same.id, release_pool env s' sm' w2 last))

-- The TEARDOWN of a session's last media ends the session: in a pool with unique ids, a later
-- request of the session, whatever it asks for, gets a response with the code 454.
pub handle_session-teardown :
    (klass : ClientClass) (env env' : Env) (s : Session) (sm : SessionMedia) (w : World)
    (p : SessionPool) (request : Request) (url : Option Url)
    → w.pool ≡ some p
    → IsSound p
    → s.medias ≡ sm ∷ []
    → request.session ≡ some s.sessionid
    → handle_session klass env' request url (teardown env s sm w)
      ≡ send_generic_response 454 (find_session env' s.sessionid (teardown env s sm w)).0
unfolding handle_session find_session continue_session
handle_session-teardown klass env env' s sm w p request url e h m r =
    let w' = teardown env s sm w in
    let (s', (same, gone)) = teardown_pool env s sm w m in
    let pool : w'.pool ≡ some (remove s' p).0 = gone ∙ ap (change_pool (λ q. (remove s' q).0)) e in
    let none_found : (find_in env' s.sessionid w' w'.pool).1 ≡ none =
      ap (λ o. (find_in env' s.sessionid w' o).1) pool
      ∙ find_in_removed env' s' s.sessionid w' p h same in
    rw (handle_session, r)
      (ap (continue_session klass env' request url (find_in env' s.sessionid w' w'.pool).0)
        none_found)
