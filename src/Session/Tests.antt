-- ===== src/Session/Tests.antt =====
-- The theorems on gst/rtsp-server/rtsp-session.c at concrete inputs, and runs of a session.
use gst_rtsp_server_wfd.Prelude.{ℕ, ◌+◌, ◌*◌, ◌<◌, ◌≡◌, ◌↔◌, refl, List, [], ◌∷◌, true, arith}
use gst_rtsp_server_wfd.Prelude.Int.{pos}
use gst_rtsp_server_wfd.SessionMedia.{SessionMedia, ready, init}
use gst_rtsp_server_wfd.Session.{
  TimeVal, Session, is_expired, next_timeout, get_media, timeval_to_time,
}
use gst_rtsp_server_wfd.Session.Expiry.{nanoseconds, is_expired_iff}
use gst_rtsp_server_wfd.Session.Medias.{Finds, get_media-Finds}

abbrev at : ℕ → TimeVal
at sec = record { tv_sec = sec; tv_usec = 0 }

abbrev short : Session
short = record {
  sessionid = 49 ∷ [];
  timeout = 60;
  last_access = at 1000;
  expire_count = pos 0;
  medias = [];
}

-- /a and /a/b
abbrev two_medias : List SessionMedia
two_medias =
    record { ptr = 1; path = 47 ∷ 97 ∷ []; media = 7; state = ready; transports = []; counter = 0 }
    ∷ record {
      ptr = 2;
      path = 47 ∷ 97 ∷ 47 ∷ 98 ∷ [];
      media = 8;
      state = init;
      transports = [];
      counter = 0;
    }
    ∷ []

left_after : (next_timeout (at 1020) short (at 1020)).1 ≡ pos 45000
unfolding next_timeout timeval_to_time
left_after = refl

-- A timeout of 0 is over after five seconds.
zero_timeout : (is_expired (at 1005) (record short { timeout = 0 }) (at 1005)).1 ≡ true
unfolding is_expired next_timeout timeval_to_time
zero_timeout = refl

is_expired_iff_example : ((is_expired (at 1065) short (at 1065)).1 ≡ true) ↔ (
    (short.expire_count ≡ pos 0)
    × (nanoseconds short.last_access + (short.timeout + 5) * 1000000000
        < nanoseconds (at 1065) + 1000000))
is_expired_iff_example =
    is_expired_iff (at 1065) short (at 1065) (omega arith, omega arith) (omega arith, omega arith)
      (omega arith, omega arith) (omega arith) (omega arith) (omega arith) (omega arith)

get_media-Finds_example :
    Finds
      (47 ∷ 97 ∷ 47 ∷ 98 ∷ 47 ∷ 99 ∷ [])
      two_medias
      (get_media (record short { medias = two_medias }) (47 ∷ 97 ∷ 47 ∷ 98 ∷ 47 ∷ 99 ∷ []) 0)
get_media-Finds_example =
    get_media-Finds (record short { medias = two_medias }) (47 ∷ 97 ∷ 47 ∷ 98 ∷ 47 ∷ 99 ∷ []) 0
