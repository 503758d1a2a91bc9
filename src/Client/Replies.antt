-- ===== src/Client/Replies.antt =====
-- The responses to TEARDOWN, PAUSE and PLAY of gst/rtsp-server/rtsp-client.c.
pub mod Media
pub mod Setup
pub mod Request
use gst_rtsp_server_wfd.Prelude.{
  ℕ, ◌≡◌, refl, sym, ◌∙◌, ap, ◌⊎◌, inl, inr, List, [], ◌∷◌, Bool, true, false, not, Option, none,
  some, arith, Bool-cases,
}
use gst_rtsp_server_wfd.Text.{Text}
use gst_rtsp_server_wfd.Media.Calls.{unsuspend}
use gst_rtsp_server_wfd.SessionMedia.{SessionMedia}
use gst_rtsp_server_wfd.Session.{Session, release_media}
use gst_rtsp_server_wfd.Client.State.{
  World, Env, Response, send_message, send_generic_response, put_session, put_media,
  client_unwatch_session,
}
use gst_rtsp_server_wfd.Media.{null}
use gst_rtsp_server_wfd.Client.Links.{unlink_session_transports}
use gst_rtsp_server_wfd.Client.Handlers.{
  Context, Aggregate, missing, found, find_aggregate, change_state, release, teardown, pause, play,
  write_back, can_pause, can_play, resume, handle_teardown_request, handle_pause_request,
  handle_play_request,
}

-- Exactly one response more is sent.
pub record Replies (w w' : World) : Type 0 where
  pub response : Response
  pub one_more : w'.sent ≡ response ∷ w.sent

pub send_message-Replies :
    (s : Option Text) (code : ℕ) (close : Bool) (w : World)
    → Replies w (send_message s code close w)
unfolding send_message
send_message-Replies s code close w = record {
  response = record { code = code; session = s; close = close };
  one_more = refl;
}

pub send_generic_response-Replies :
    (code : ℕ) (w : World) → Replies w (send_generic_response code w)
unfolding send_generic_response
send_generic_response-Replies code w = send_message-Replies none code false w

-- What comes before or behind sends nothing.
pub Replies-before : {v w w' : World} → w.sent ≡ v.sent → Replies w w' → Replies v w'
Replies-before e h = record {
  response = h.response;
  one_more = h.one_more ∙ ap (λ l. h.response ∷ l) e;
}

pub Replies-after : {w w' v : World} → v.sent ≡ w'.sent → Replies w w' → Replies w v
Replies-after e h = record { response = h.response; one_more = e ∙ h.one_more }

release_sent :
    (env : Env) (s : Session) (sm : SessionMedia) (w : World) → (release env s sm w).sent ≡ w.sent
unfolding release change_state put_session
release_sent env s sm w = elim (Bool-cases (release_media sm s).1) [
  | inl e ↦ rw (release, e) refl
  | inr e ↦ rw (release, e) refl
]

teardown-Replies :
    (env : Env) (s : Session) (sm : SessionMedia) (w : World) → Replies w (teardown env s sm w)
unfolding teardown send_message change_state client_unwatch_session
teardown-Replies env s sm w = record {
  response = record { code = 200; session = some s.sessionid; close = true };
  one_more =
      let (links, s') = unlink_session_transports sm (w.transports, s) in
      let w1 = client_unwatch_session s.sessionid (record w { transports = links }) in
      let (sm', w2) = change_state env null sm w1 in
      ap (λ l. record { code = 200; session = some s.sessionid; close = true } ∷ l)
        (release_sent env s' sm' w2);
}

pause-Replies :
    (env : Env) (s : Session) (sm : SessionMedia) (w : World) → Replies w (pause env s sm w)
unfolding pause send_message change_state write_back put_session
pause-Replies env s sm w = record {
  response = record { code = 200; session = some s.sessionid; close = false };
  one_more = refl;
}

play-Replies :
    (env : Env) (s : Session) (sm : SessionMedia) (w : World) → Replies w (play env s sm w)
unfolding play send_message change_state write_back put_session
play-Replies env s sm w = record {
  response = record { code = 200; session = some s.sessionid; close = false };
  one_more = refl;
}

pub Aggregate-cases :
    (a : Aggregate)
    → ((code : ℕ) × (a ≡ missing code)) ⊎ ((s : Session) × (sm : SessionMedia) × (a ≡ found s sm))
Aggregate-cases (missing code) = inl (code, refl)
Aggregate-cases (found s sm) = inr (s, sm, refl)

pub handle_teardown_request-Replies :
    (env : Env) (ctx : Context) (w : World) → Replies w (handle_teardown_request env ctx w).0
unfolding handle_teardown_request
handle_teardown_request-Replies env ctx w =
    elim (Aggregate-cases (find_aggregate ctx.session ctx.url)) [
      | inl (code, e) ↦ rw (handle_teardown_request, e) (send_generic_response-Replies code w)
      | inr (s, sm, e) ↦ rw (handle_teardown_request, e) (teardown-Replies env s sm w)
    ]

pub handle_pause_request-Replies :
    (env : Env) (ctx : Context) (w : World) → Replies w (handle_pause_request env ctx w).0
unfolding handle_pause_request
handle_pause_request-Replies env ctx w =
    elim (Aggregate-cases (find_aggregate ctx.session ctx.url)) [
      | inl (code, e) ↦ rw (handle_pause_request, e) (send_generic_response-Replies code w)
      | inr (s, sm, e) ↦ elim (Bool-cases (can_pause sm.state)) [
        | inl p ↦ rw (handle_pause_request, e, p) (pause-Replies env s sm w)
        | inr p ↦ rw (handle_pause_request, e, p) (send_generic_response-Replies 455 w)
      ]
    ]

resume-Replies :
    (env : Env) (s : Session) (sm : SessionMedia) (w : World) (ret : Bool)
    → Replies w (resume env s sm w ret).0
unfolding resume
resume-Replies env s sm w true = play-Replies env s sm w
resume-Replies env s sm w false = send_generic_response-Replies 503 w

pub handle_play_request-Replies :
    (env : Env) (ctx : Context) (w : World) → Replies w (handle_play_request env ctx w).0
unfolding handle_play_request
handle_play_request-Replies env ctx w =
    elim (Aggregate-cases (find_aggregate ctx.session ctx.url)) [
      | inl (code, e) ↦ rw (handle_play_request, e) (send_generic_response-Replies code w)
      | inr (s, sm, e) ↦ elim (Bool-cases (can_play sm.state)) [
        | inr p ↦ rw (handle_play_request, e, p) (send_generic_response-Replies 455 w)
        | inl p ↦
            let (m, ret) = unsuspend (env.gst sm.media) env.events (w.media sm.media) in
            rw (handle_play_request, e, p)
              (Replies-before refl (resume-Replies env s sm (put_media sm.media m w) ret))
      ]
    ]
