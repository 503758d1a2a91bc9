-- ===== src/Client/Handlers/Outcome.antt =====
-- TEARDOWN and PAUSE of gst/rtsp-server/rtsp-client.c where they are refused.
use gst_rtsp_server_wfd.Prelude.{ℕ, ◌≡◌, refl, inl, inr, Bool, true, false, Bool-cases}
use gst_rtsp_server_wfd.Client.State.{World, Env, send_generic_response}
use gst_rtsp_server_wfd.Client.Handlers.{
  Context, find_aggregate, can_pause, handle_pause_request, handle_teardown_request,
}
use gst_rtsp_server_wfd.Client.Replies.{Aggregate-cases}

-- A handler that answers false has only sent a response.
abbrev pub IsHarmless : World → World × Bool → Type 0
IsHarmless w (w', true) = Unit {0}
IsHarmless w (w', false) = (code : ℕ) × (w' ≡ send_generic_response code w)

-- A TEARDOWN that is refused changes nothing but what was sent.
pub handle_teardown_request-IsHarmless :
    (env : Env) (ctx : Context) (w : World) → IsHarmless w (handle_teardown_request env ctx w)
unfolding handle_teardown_request
handle_teardown_request-IsHarmless env ctx w =
    elim (Aggregate-cases (find_aggregate ctx.session ctx.url)) [
      | inl (code, e) ↦ rw (handle_teardown_request, e) (code, refl)
      | inr (s, sm, e) ↦ rw (handle_teardown_request, e) tt
    ]

-- A PAUSE that is refused changes nothing but what was sent.
pub handle_pause_request-IsHarmless :
    (env : Env) (ctx : Context) (w : World) → IsHarmless w (handle_pause_request env ctx w)
unfolding handle_pause_request
handle_pause_request-IsHarmless env ctx w =
    elim (Aggregate-cases (find_aggregate ctx.session ctx.url)) [
      | inl (code, e) ↦ rw (handle_pause_request, e) (code, refl)
      | inr (s, sm, e) ↦ elim (Bool-cases (can_pause sm.state)) [
        | inl p ↦ rw (handle_pause_request, e, p) tt
        | inr p ↦ rw (handle_pause_request, e, p) (455, refl)
      ]
    ]
