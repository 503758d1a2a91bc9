-- ===== src/Client/Pool/Media.antt =====
-- The session pool in find_media, DESCRIBE and the parameters of gst/rtsp-server/rtsp-client.c.
use gst_rtsp_server_wfd.Prelude.{
  ℕ, ◌≡◌, refl, ◌∙◌, inl, inr, Bool, false, Option, none, some, Bool-cases, Option-cases, ◌==◌,
  length,
}
use gst_rtsp_server_wfd.Text.{Text}
use gst_rtsp_server_wfd.Media.Calls.{prepare}
use gst_rtsp_server_wfd.MountPoints.{MountPoints, match}
use gst_rtsp_server_wfd.Auth.{
  factory_access, factory_construct, Verdict, allowed, refused, refused_with, is_allowed_verdict,
}
use gst_rtsp_server_wfd.Client.State.{
  Url, World, Env, send_message, send_generic_response, send_verdict,
}
use gst_rtsp_server_wfd.Client.Handlers.{Context}
use gst_rtsp_server_wfd.Client.FindMedia.{
  session_id, check, paths_are_equal, drop_cached, construct_media, find_for_factory, match_media,
  find_media, take, described, describe_url, handle_describe_request, handle_param_request,
}

pub send_verdict_pool :
    (s : Option Text) (v : Verdict) (w : World) → (send_verdict s v w).pool ≡ w.pool
unfolding send_verdict send_message
send_verdict_pool s allowed w = refl
send_verdict_pool s refused w = refl
send_verdict_pool s (refused_with code) w = refl

drop_cached_pool : (env : Env) (w : World) → (drop_cached env w).pool ≡ w.pool
unfolding drop_cached
drop_cached_pool env w = elim (Option-cases w.cached) [
  | inl e ↦ rw (drop_cached, e) refl
  | inr (c, e) ↦ rw (drop_cached, e) refl
]

construct_media_pool :
    (env : Env) (url : Url) (factory : ℕ) (path : Text) (w : World)
    → (construct_media env url factory path w).0.pool ≡ w.pool
unfolding construct_media send_generic_response send_message
construct_media_pool env url factory path w = elim (Option-cases (env.construct factory url)) [
  | inl e ↦ rw (construct_media, e) refl
  | inr (k, e) ↦ elim (Bool-cases env.media_thread) [
    | inr t ↦ rw (construct_media, e, t) refl
    | inl t ↦ elim (Bool-cases (prepare (env.gst k) env.rtpbin env.events (w.media k)).1) [
      | inl p ↦ rw (construct_media, e, t, p) refl
      | inr p ↦ rw (construct_media, e, t, p) refl
    ]
  ]
]

find_for_factory_pool :
    (env : Env) (ctx : Context) (url : Url) (path : Text) (factory path_len : ℕ) (w : World)
    → (find_for_factory env ctx url path factory path_len w).0.pool ≡ w.pool
unfolding find_for_factory
find_for_factory_pool env ctx url path factory path_len w =
    let access = check env ctx (some factory) factory_access w in
    let construct = check env ctx (some factory) factory_construct w in
    elim (Bool-cases (is_allowed_verdict access)) [
      | inr a ↦ rw (find_for_factory, a) (send_verdict_pool (session_id ctx.session) access w)
      | inl a ↦ elim (Bool-cases (is_allowed_verdict construct)) [
        | inr c ↦
            rw (find_for_factory, a, c) (send_verdict_pool (session_id ctx.session) construct w)
        | inl c ↦ elim (Bool-cases (paths_are_equal w.cached path path_len)) [
          | inl e ↦ rw (find_for_factory, a, c, e) refl
          | inr e ↦
              rw (find_for_factory, a, c, e)
                (construct_media_pool env url factory (take path_len path) (drop_cached env w)
                  ∙ drop_cached_pool env w)
        ]
      ]
    ]

match_media_pool :
    (env : Env) (ctx : Context) (url : Url) (path : Text) (wanted : Bool) (w : World)
    (mounts : Option MountPoints)
    → (match_media env ctx url path wanted w mounts).0.pool ≡ w.pool
unfolding match_media send_generic_response send_message
match_media_pool env ctx url path wanted w none = refl
match_media_pool env ctx url path wanted w (some mounts) =
    let (mounts', factory, matched) = match env.sequence mounts path wanted in
    let path_len : ℕ = elim matched [ none ↦ length path | some n ↦ n ] in
    elim (Option-cases factory) [
      | inl e ↦ rw (match_media, e) refl
      | inr (f, e) ↦
          rw (match_media, e)
            (find_for_factory_pool env ctx url path f path_len (record w { mounts = some mounts' }))
    ]

pub find_media_pool :
    (env : Env) (ctx : Context) (url : Url) (path : Text) (wanted : Bool) (w : World)
    → (find_media env ctx url path wanted w).0.pool ≡ w.pool
unfolding find_media
find_media_pool env ctx url path wanted w = match_media_pool env ctx url path wanted w w.mounts

described_pool :
    (env : Env) (ctx : Context) (r : World × Option ℕ) → (described env ctx r).0.pool ≡ r.0.pool
unfolding described send_generic_response send_message
described_pool env ctx (w, none) = refl
described_pool env ctx (w, some k) = elim (Bool-cases (env.create_sdp k)) [
  | inl e ↦ rw (described, e) refl
  | inr e ↦ rw (described, e) refl
]

describe_url_pool :
    (env : Env) (ctx : Context) (url : Url) (w : World) (mounts : Option MountPoints)
    → (describe_url env ctx url w mounts).0.pool ≡ w.pool
unfolding describe_url send_generic_response send_message
describe_url_pool env ctx url w none = refl
describe_url_pool env ctx url w (some mounts) =
    described_pool env ctx (find_media env ctx url url.abspath false w)
    ∙ find_media_pool env ctx url url.abspath false w

pub handle_describe_request_pool :
    (env : Env) (ctx : Context) (w : World) → (handle_describe_request env ctx w).0.pool ≡ w.pool
unfolding handle_describe_request send_generic_response send_message
handle_describe_request_pool env ctx w = elim (Option-cases ctx.url) [
  | inl e ↦ rw (handle_describe_request, e) refl
  | inr (url, e) ↦ rw (handle_describe_request, e) (describe_url_pool env ctx url w w.mounts)
]

pub handle_param_request_pool :
    (env : Env) (ctx : Context) (w : World) → (handle_param_request env ctx w).0.pool ≡ w.pool
unfolding handle_param_request send_generic_response send_message
handle_param_request_pool env ctx w = elim (Option-cases ctx.request.body) [
  | inl e ↦ rw (handle_param_request, e) refl
  | inr (size, e) ↦ elim (Bool-cases (size == 0)) [
    | inl z ↦ rw (handle_param_request, e, z) refl
    | inr z ↦ rw (handle_param_request, e, z) refl
  ]
]
