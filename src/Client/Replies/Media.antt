-- ===== src/Client/Replies/Media.antt =====
-- The responses of find_media, and of the requests of gst/rtsp-server/rtsp-client.c that need no
-- session media.
use gst_rtsp_server_wfd.Prelude.{
  ℕ, ◌≡◌, ◌≢◌, refl, ◌∙◌, inl, inr, Bool, true, false, Option, none, some, Bool-cases, Option-cases,
  if◌then◌else◌, ◌==◌, length,
}
use gst_rtsp_server_wfd.Text.{Text}
use gst_rtsp_server_wfd.Media.Calls.{prepare, suspend}
use gst_rtsp_server_wfd.MountPoints.{MountPoints, match}
use gst_rtsp_server_wfd.Auth.{
  Check, Verdict, allowed, refused, refused_with, is_allowed_verdict, factory_access,
  factory_construct, client_settings,
}
use gst_rtsp_server_wfd.Auth.Checks.{IsAnswered, auth_check-IsAnswered}
use gst_rtsp_server_wfd.Client.State.{Url, World, Env, send_verdict, put_media}
use gst_rtsp_server_wfd.Client.Handlers.{Context}
use gst_rtsp_server_wfd.Client.FindMedia.{
  session_id, permissions_of, check, paths_are_equal, drop_cached, construct_media, cached_media,
  find_for_factory, match_media, find_media, take, described, describe_url, handle_describe_request,
  handle_param_request,
}
use gst_rtsp_server_wfd.Client.Replies.{
  Replies, send_message-Replies, send_generic_response-Replies, Replies-before,
}

-- What find_media sends, for what it finds.
abbrev pub Finds : World → World × Option ℕ → Type 0
Finds w (w', none) = Replies w w'
Finds w (w', some k) = w'.sent ≡ w.sent

pub Finds-before : (w v : World) (r : World × Option ℕ) → v.sent ≡ w.sent → Finds v r → Finds w r
Finds-before w v (w', none) e h = Replies-before e h
Finds-before w v (w', some k) e h = h ∙ e

pub send_verdict-Replies :
    (s : Option Text) (v : Verdict) (w : World)
    → IsAnswered v
    → is_allowed_verdict v ≡ false
    → Replies w (send_verdict s v w)
unfolding send_verdict
send_verdict-Replies s allowed w h e = absurd (cc e)
send_verdict-Replies s refused w h e = absurd h
send_verdict-Replies s (refused_with code) w h e = send_message-Replies s code false w

pub check-IsAnswered :
    (env : Env) (ctx : Context) (f : Option ℕ) (c : Check) (w : World)
    → c ≢ client_settings
    → IsAnswered (check env ctx f c w)
unfolding check
check-IsAnswered env ctx f c w h =
    auth_check-IsAnswered env.names w.auth none ctx.request.method ctx.request.authorization
      (permissions_of env f) c h

drop_cached_sent : (env : Env) (w : World) → (drop_cached env w).sent ≡ w.sent
unfolding drop_cached
drop_cached_sent env w = elim (Option-cases w.cached) [
  | inl e ↦ rw (drop_cached, e) refl
  | inr (c, e) ↦ rw (drop_cached, e) refl
]

construct_media-Finds :
    (env : Env) (url : Url) (factory : ℕ) (path : Text) (w : World)
    → Finds w (construct_media env url factory path w)
unfolding construct_media
construct_media-Finds env url factory path w = elim (Option-cases (env.construct factory url)) [
  | inl e ↦ rw (construct_media, e) (send_generic_response-Replies 400 w)
  | inr (k, e) ↦ elim (Bool-cases env.media_thread) [
    | inr t ↦ rw (construct_media, e, t) (send_generic_response-Replies 503 w)
    | inl t ↦
        let (m, ret) = prepare (env.gst k) env.rtpbin env.events (w.media k) in
        elim (Bool-cases ret) [
          | inl p ↦ rw (construct_media, e, t, p) refl
          | inr p ↦
              rw (construct_media, e, t, p)
                (Replies-before refl (send_generic_response-Replies 503 (put_media k m w)))
        ]
  ]
]

cached_hit :
    (w : World) (path : Text) (n : ℕ) (c : Option (Text × ℕ))
    → paths_are_equal c path n ≡ true
    → Finds w (w, cached_media c)
unfolding paths_are_equal
cached_hit w path n none e = absurd (cc e)
cached_hit w path n (some (p, k)) e = refl

-- The last branch of find_for_factory.
cached-Finds :
    (env : Env) (url : Url) (factory : ℕ) (path : Text) (path_len : ℕ) (w : World)
    → Finds w (
        if paths_are_equal w.cached path path_len
        then (w, cached_media w.cached)
        else construct_media env url factory (take path_len path) (drop_cached env w))
cached-Finds env url factory path path_len w =
    elim (Bool-cases (paths_are_equal w.cached path path_len)) [
      | inl e ↦ rw e (cached_hit w path path_len w.cached e)
      | inr e ↦ rw e (
          Finds-before w (drop_cached env w)
            (construct_media env url factory (take path_len path) (drop_cached env w))
            (drop_cached_sent env w)
            (construct_media-Finds env url factory (take path_len path) (drop_cached env w)))
    ]

find_for_factory-Finds :
    (env : Env) (ctx : Context) (url : Url) (path : Text) (factory path_len : ℕ) (w : World)
    → Finds w (find_for_factory env ctx url path factory path_len w)
unfolding find_for_factory
find_for_factory-Finds env ctx url path factory path_len w =
    let access = check env ctx (some factory) factory_access w in
    let construct = check env ctx (some factory) factory_construct w in
    elim (Bool-cases (is_allowed_verdict access)) [
      | inr a ↦
          rw (find_for_factory, a)
            (send_verdict-Replies (session_id ctx.session) access w
              (check-IsAnswered env ctx (some factory) factory_access w (λ e. cc)) a)
      | inl a ↦ elim (Bool-cases (is_allowed_verdict construct)) [
        | inr c ↦
            rw (find_for_factory, a, c)
              (send_verdict-Replies (session_id ctx.session) construct w
                (check-IsAnswered env ctx (some factory) factory_construct w (λ e. cc)) c)
        | inl c ↦ rw (find_for_factory, a, c) (cached-Finds env url factory path path_len w)
      ]
    ]

match_media-Finds :
    (env : Env) (ctx : Context) (url : Url) (path : Text) (wanted : Bool) (w : World)
    (mounts : Option MountPoints)
    → Finds w (match_media env ctx url path wanted w mounts)
unfolding match_media
match_media-Finds env ctx url path wanted w none = send_generic_response-Replies 404 w
match_media-Finds env ctx url path wanted w (some mounts) =
    let (mounts', factory, matched) = match env.sequence mounts path wanted in
    let w' = record w { mounts = some mounts' } in
    let path_len : ℕ = elim matched [ none ↦ length path | some n ↦ n ] in
    elim (Option-cases factory) [
      | inl e ↦ rw (match_media, e) (Replies-before refl (send_generic_response-Replies 404 w'))
      | inr (f, e) ↦
          rw (match_media, e)
            (Finds-before w w' (find_for_factory env ctx url path f path_len w') refl
              (find_for_factory-Finds env ctx url path f path_len w'))
    ]

pub find_media-Finds :
    (env : Env) (ctx : Context) (url : Url) (path : Text) (wanted : Bool) (w : World)
    → Finds w (find_media env ctx url path wanted w)
unfolding find_media
find_media-Finds env ctx url path wanted w = match_media-Finds env ctx url path wanted w w.mounts

described-Replies :
    (env : Env) (ctx : Context) (w : World) (r : World × Option ℕ)
    → Finds w r
    → Replies w (described env ctx r).0
unfolding described
described-Replies env ctx w (w', none) h = h
described-Replies env ctx w (w', some k) h = elim (Bool-cases (env.create_sdp k)) [
  | inl e ↦
      rw (described, e)
        (Replies-before h (
          send_message-Replies (session_id ctx.session) 200 false
            (put_media k ((suspend (env.gst k) (w'.media k)).0) w')))
  | inr e ↦ rw (described, e) (Replies-before h (send_generic_response-Replies 503 w'))
]

describe_url-Replies :
    (env : Env) (ctx : Context) (url : Url) (w : World) (mounts : Option MountPoints)
    → Replies w (describe_url env ctx url w mounts).0
unfolding describe_url
describe_url-Replies env ctx url w none = send_generic_response-Replies 404 w
describe_url-Replies env ctx url w (some mounts) =
    described-Replies env ctx w (find_media env ctx url url.abspath false w)
      (find_media-Finds env ctx url url.abspath false w)

pub handle_describe_request-Replies :
    (env : Env) (ctx : Context) (w : World) → Replies w (handle_describe_request env ctx w).0
unfolding handle_describe_request
handle_describe_request-Replies env ctx w = elim (Option-cases ctx.url) [
  | inl e ↦ rw (handle_describe_request, e) (send_generic_response-Replies 400 w)
  | inr (url, e) ↦ rw (handle_describe_request, e) (describe_url-Replies env ctx url w w.mounts)
]

pub handle_param_request-Replies :
    (env : Env) (ctx : Context) (w : World) → Replies w (handle_param_request env ctx w).0
unfolding handle_param_request
handle_param_request-Replies env ctx w = elim (Option-cases ctx.request.body) [
  | inl e ↦ rw (handle_param_request, e) (send_generic_response-Replies 400 w)
  | inr (size, e) ↦ elim (Bool-cases (size == 0)) [
    | inl z ↦ rw (handle_param_request, e, z) (send_generic_response-Replies 200 w)
    | inr z ↦
        rw (handle_param_request, e, z) (send_message-Replies (session_id ctx.session) 451 false w)
  ]
]
