-- ===== src/Client/Pool.antt =====
-- The client's session pool in TEARDOWN, PAUSE and PLAY of gst/rtsp-server/rtsp-client.c.
pub mod Media
pub mod Setup
pub mod Request
use gst_rtsp_server_wfd.Prelude.{
  ℕ, ◌≡◌, refl, sym, ◌∙◌, ap, inl, inr, List, [], ◌∷◌, Bool, true, false, Option, none, some,
  Bool-cases,
}
use gst_rtsp_server_wfd.Text.{Text, equal_texts, equal_texts_eq}
use gst_rtsp_server_wfd.Media.{null}
use gst_rtsp_server_wfd.Media.Calls.{unsuspend}
use gst_rtsp_server_wfd.SessionMedia.{SessionMedia}
use gst_rtsp_server_wfd.Session.{Session, release_media}
use gst_rtsp_server_wfd.SessionPool.{SessionPool, remove}
use gst_rtsp_server_wfd.SessionPool.Keys.{keys}
use gst_rtsp_server_wfd.SessionPool.History.{IsSound, Kept-IsSound, same_keys-Kept, remove-IsSound}
use gst_rtsp_server_wfd.Client.State.{
  World, Env, send_message, send_generic_response, put_in, put_session, put_session_media,
  change_pool, put_media, client_unwatch_session,
}
use gst_rtsp_server_wfd.Client.Links.{unlink_session_transports}
use gst_rtsp_server_wfd.Client.Handlers.{
  Context, Aggregate, missing, found, find_aggregate, change_state, release, teardown, pause, play,
  write_back, can_pause, can_play, resume, handle_teardown_request, handle_pause_request,
  handle_play_request,
}
use gst_rtsp_server_wfd.Client.Replies.{Aggregate-cases}

-- The ids of the sessions are unique, and there are no more sessions than the pool's limit.
abbrev pub IsSoundPool : Option SessionPool → Type 0
IsSoundPool none = Unit {0}
IsSoundPool (some p) = IsSound p

abbrev pub IsSoundWorld : World → Type 0
IsSoundWorld w = IsSoundPool w.pool

keys-put_in : (s : Session) (ss : List Session) → keys (put_in s ss) ≡ keys ss
unfolding put_in
keys-put_in s [] = refl
keys-put_in s (x ∷ xs) = elim (Bool-cases (equal_texts x.sessionid s.sessionid)) [
  | inl e ↦ rw (put_in, e) (ap (λ k. k ∷ keys xs) (sym (equal_texts_eq x.sessionid s.sessionid e)))
  | inr e ↦ rw (put_in, e) (ap (λ ks. x.sessionid ∷ ks) (keys-put_in s xs))
]

put_pool-IsSoundPool :
    (s : Session) (pool : Option SessionPool)
    → IsSoundPool pool
    → IsSoundPool (change_pool (λ p. record p { sessions = put_in s p.sessions }) pool)
put_pool-IsSoundPool s none h = tt
put_pool-IsSoundPool s (some p) h =
    Kept-IsSound p (put_in s p.sessions)
      (same_keys-Kept (keys (put_in s p.sessions)) (keys p.sessions) (keys-put_in s p.sessions)) h

pub put_session-IsSoundWorld :
    (s : Session) (w : World) → IsSoundWorld w → IsSoundWorld (put_session s w)
unfolding put_session
put_session-IsSoundWorld s w h = put_pool-IsSoundPool s w.pool h

remove_pool-IsSoundPool :
    (s : Session) (pool : Option SessionPool)
    → IsSoundPool pool
    → IsSoundPool (change_pool (λ p. (remove s p).0) pool)
remove_pool-IsSoundPool s none h = tt
remove_pool-IsSoundPool s (some p) h = remove-IsSound s p h

release-IsSoundWorld :
    (env : Env) (s : Session) (sm : SessionMedia) (w : World)
    → IsSoundWorld w
    → IsSoundWorld (release env s sm w)
unfolding release change_state
release-IsSoundWorld env s sm w h =
    let s' = (release_media sm s).0 in
    elim (Bool-cases (release_media sm s).1) [
      | inl e ↦ rw (release, e) (put_session-IsSoundWorld s' (change_state env null sm w).1 h)
      | inr e ↦ rw (release, e) (remove_pool-IsSoundPool s' w.pool h)
    ]

teardown-IsSoundWorld :
    (env : Env) (s : Session) (sm : SessionMedia) (w : World)
    → IsSoundWorld w
    → IsSoundWorld (teardown env s sm w)
unfolding teardown send_message change_state client_unwatch_session
teardown-IsSoundWorld env s sm w h =
    let (links, s') = unlink_session_transports sm (w.transports, s) in
    let w1 = client_unwatch_session s.sessionid (record w { transports = links }) in
    let (sm', w2) = change_state env null sm w1 in release-IsSoundWorld env s' sm' w2 h

pub write_back-IsSoundWorld :
    (s : Session) (sm : SessionMedia) (w : World)
    → IsSoundWorld w
    → IsSoundWorld (write_back s sm w)
unfolding write_back put_session
write_back-IsSoundWorld s sm w h =
    put_pool-IsSoundPool (record s { medias = put_session_media sm s.medias }) w.pool h

pause-IsSoundWorld :
    (env : Env) (s : Session) (sm : SessionMedia) (w : World)
    → IsSoundWorld w
    → IsSoundWorld (pause env s sm w)
unfolding pause send_message change_state write_back put_session
pause-IsSoundWorld env s sm w h = put_pool-IsSoundPool _ w.pool h

play-IsSoundWorld :
    (env : Env) (s : Session) (sm : SessionMedia) (w : World)
    → IsSoundWorld w
    → IsSoundWorld (play env s sm w)
unfolding play send_message change_state write_back put_session
play-IsSoundWorld env s sm w h = put_pool-IsSoundPool _ w.pool h

pub handle_teardown_request-IsSoundWorld :
    (env : Env) (ctx : Context) (w : World)
    → IsSoundWorld w
    → IsSoundWorld (handle_teardown_request env ctx w).0
unfolding handle_teardown_request send_generic_response send_message
handle_teardown_request-IsSoundWorld env ctx w h =
    elim (Aggregate-cases (find_aggregate ctx.session ctx.url)) [
      | inl (code, e) ↦ rw (handle_teardown_request, e) h
      | inr (s, sm, e) ↦ rw (handle_teardown_request, e) (teardown-IsSoundWorld env s sm w h)
    ]

pub handle_pause_request-IsSoundWorld :
    (env : Env) (ctx : Context) (w : World)
    → IsSoundWorld w
    → IsSoundWorld (handle_pause_request env ctx w).0
unfolding handle_pause_request send_generic_response send_message
handle_pause_request-IsSoundWorld env ctx w h =
    elim (Aggregate-cases (find_aggregate ctx.session ctx.url)) [
      | inl (code, e) ↦ rw (handle_pause_request, e) h
      | inr (s, sm, e) ↦ elim (Bool-cases (can_pause sm.state)) [
        | inl p ↦ rw (handle_pause_request, e, p) (pause-IsSoundWorld env s sm w h)
        | inr p ↦ rw (handle_pause_request, e, p) h
      ]
    ]

resume-IsSoundWorld :
    (env : Env) (s : Session) (sm : SessionMedia) (w : World) (ret : Bool)
    → IsSoundWorld w
    → IsSoundWorld (resume env s sm w ret).0
unfolding resume send_generic_response send_message
resume-IsSoundWorld env s sm w true h = play-IsSoundWorld env s sm w h
resume-IsSoundWorld env s sm w false h = h

pub handle_play_request-IsSoundWorld :
    (env : Env) (ctx : Context) (w : World)
    → IsSoundWorld w
    → IsSoundWorld (handle_play_request env ctx w).0
unfolding handle_play_request send_generic_response send_message
handle_play_request-IsSoundWorld env ctx w h =
    elim (Aggregate-cases (find_aggregate ctx.session ctx.url)) [
      | inl (code, e) ↦ rw (handle_play_request, e) h
      | inr (s, sm, e) ↦ elim (Bool-cases (can_play sm.state)) [
        | inr p ↦ rw (handle_play_request, e, p) h
        | inl p ↦
            let (m, ret) = unsuspend (env.gst sm.media) env.events (w.media sm.media) in
            rw (handle_play_request, e, p)
              (resume-IsSoundWorld env s sm (put_media sm.media m w) ret h)
      ]
    ]
