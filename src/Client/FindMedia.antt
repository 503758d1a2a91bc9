-- ===== src/Client/FindMedia.antt =====
-- find_media, DESCRIBE, OPTIONS and the parameters in gst/rtsp-server/rtsp-client.c and
-- gst/rtsp-server/rtsp-params.c.
use gst_rtsp_server_wfd.Prelude.{
  ℕ, zero, suc, [], ◌∷◌, Bool, true, false, not, ◌&&◌, Option, none, some, length, ◌==◌,
  if◌then◌else◌,
}
use gst_rtsp_server_wfd.Text.{Text, strncmp_equal}
use gst_rtsp_server_wfd.Media.Calls.{prepare, unprepare, suspend}
use gst_rtsp_server_wfd.Session.{Session}
use gst_rtsp_server_wfd.MountPoints.{MountPoints, match}
use gst_rtsp_server_wfd.Permissions.{Permissions}
use gst_rtsp_server_wfd.Auth.{Check, Verdict, auth_check, is_allowed_verdict}
use gst_rtsp_server_wfd.Client.State.{
  Url, World, Env, send_message, send_generic_response, send_verdict, put_media,
}
use gst_rtsp_server_wfd.Client.Handlers.{Context}

abbrev pub session_id : Option Session → Option Text
session_id none = none
session_id (some s) = some s.sessionid

abbrev pub permissions_of : Env → Option ℕ → Option Permissions
permissions_of env none = none
permissions_of env (some factory) = env.permissions factory

-- gst_rtsp_auth_check, for a factory or none.
unfoldable pub check : Env → Context → Option ℕ → Check → World → Verdict
check env ctx factory c w =
    auth_check env.names w.auth none ctx.request.method ctx.request.authorization
      (permissions_of env factory) c

unfoldable pub paths_are_equal : Option (Text × ℕ) → Text → ℕ → Bool
paths_are_equal none path2 len2 = false
paths_are_equal (some (path1, media)) path2 len2 =
    (length path1 == len2) && strncmp_equal path1 path2 len2

abbrev pub take : ℕ → Text → Text
take zero s = []
take (suc n) [] = []
take (suc n) (c ∷ s) = c ∷ take n s

-- The cached media, if there is one, loses its user.
unfoldable pub drop_cached : Env → World → World
drop_cached env w = elim w.cached [
  | none ↦ w
  | some (path, k) ↦
      put_media k ((unprepare (env.gst k) (w.media k)).0) (record w { cached = none })
]

-- A new media for the factory is prepared and cached.
unfoldable pub construct_media : Env → Url → ℕ → Text → World → World × Option ℕ
construct_media env url factory path w = elim (env.construct factory url) [
  | none ↦ (send_generic_response 400 w, none)
  | some k ↦
      if not env.media_thread
      then (send_generic_response 503 w, none)
      else (let (m, ret) = prepare (env.gst k) env.rtpbin env.events (w.media k) in
          let w' = put_media k m w in
          if ret
          then (record w' { cached = some (path, k) }, some k)
          else (send_generic_response 503 w', none))
]

abbrev pub cached_media : Option (Text × ℕ) → Option ℕ
cached_media none = none
cached_media (some (path, k)) = some k

-- The factory is known, and so is the length of its part of the path.
unfoldable pub find_for_factory : Env → Context → Url → Text → ℕ → ℕ → World → World × Option ℕ
unfolding drop_cached construct_media
find_for_factory env ctx url path factory path_len w =
    let access = check env ctx (some factory) Check.factory_access w in
    let construct = check env ctx (some factory) Check.factory_construct w in
    if not (is_allowed_verdict access)
    then (send_verdict (session_id ctx.session) access w, none)
    else if not (is_allowed_verdict construct)
    then (send_verdict (session_id ctx.session) construct w, none)
    else if paths_are_equal w.cached path path_len
    then (w, cached_media w.cached)
    else construct_media env url factory (take path_len path) (drop_cached env w)

-- The factory of the path in the client's mount points.
unfoldable pub match_media :
    Env → Context → Url → Text → Bool → World → Option MountPoints → World × Option ℕ
unfolding find_for_factory
match_media env ctx url path wanted w none = (send_generic_response 404 w, none)
match_media env ctx url path wanted w (some mounts) =
    let (mounts', factory, matched) = match env.sequence mounts path wanted in
    let w' = record w { mounts = some mounts' } in
    elim factory [
      | none ↦ (send_generic_response 404 w', none)
      | some f ↦
          find_for_factory env ctx url path f (elim matched [ none ↦ length path | some n ↦ n ]) w'
    ]

-- `wanted` says that the caller wants the length of the match; else the whole path has to match.
unfoldable pub find_media : Env → Context → Url → Text → Bool → World → World × Option ℕ
unfolding match_media
find_media env ctx url path wanted w = match_media env ctx url path wanted w w.mounts

-- The end of handle_describe_request, for what find_media found.
unfoldable pub described : Env → Context → World × Option ℕ → World × Bool
described env ctx (w, none) = (w, false)
described env ctx (w, some k) =
    if not (env.create_sdp k) then (send_generic_response 503 w, false) else (
      send_message (session_id ctx.session) 200 false
          (put_media k ((suspend (env.gst k) (w.media k)).0) w),
      true,
    )

-- The path of the mount points, if there are any, is the url's.
unfoldable pub describe_url : Env → Context → Url → World → Option MountPoints → World × Bool
unfolding find_media described
describe_url env ctx url w none = (send_generic_response 404 w, false)
describe_url env ctx url w (some mounts) =
    described env ctx (find_media env ctx url url.abspath false w)

unfoldable pub handle_describe_request : Env → Context → World → World × Bool
unfolding describe_url
handle_describe_request env ctx w = elim ctx.url [
  | none ↦ (send_generic_response 400 w, false)
  | some url ↦ describe_url env ctx url w w.mounts
]

unfoldable pub handle_options_request : Env → Context → World → World × Bool
handle_options_request env ctx w = (send_message (session_id ctx.session) 200 false w, true)

-- default_handle_get_param_request and default_handle_set_param_request, with gst_rtsp_params_get
-- and gst_rtsp_params_set, which answer that no parameter is understood.
unfoldable pub handle_param_request : Env → Context → World → World × Bool
handle_param_request env ctx w = elim ctx.request.body [
  | none ↦ (send_generic_response 400 w, false)
  | some size ↦
      if size == 0
      then (send_generic_response 200 w, true)
      else (send_message (session_id ctx.session) 451 false w, true)
]
