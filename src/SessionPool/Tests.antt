-- ===== src/SessionPool/Tests.antt =====
-- The theorems on gst/rtsp-server/rtsp-session-pool.c at concrete inputs, and runs of the pool.
use gst_rtsp_server_wfd.Prelude.{ℕ, ◌+◌, ◌≡◌, refl, inr, List, [], ◌∷◌, true, Option, some, arith}
use gst_rtsp_server_wfd.Prelude.Int.{pos}
use gst_rtsp_server_wfd.Text.{Text}
use gst_rtsp_server_wfd.Session.{TimeVal, Session, session_new}
use gst_rtsp_server_wfd.SessionPool.{SessionPool, PoolMethods, created, create, cleanup}
use gst_rtsp_server_wfd.SessionPool.Create.{Tries, create-Tries}
use gst_rtsp_server_wfd.SessionPool.Cleanup.{Cleaned, cleanup-Cleaned}
use gst_rtsp_server_wfd.SessionPool.History.{
  Call, creates, finds, removes, cleans, limits, AllLeaveRoom, run, IsSound, run-IsSound,
}

abbrev at : ℕ → TimeVal
at sec = record { tv_sec = sec; tv_usec = 0 }

abbrev with_id : Text → ℕ → Session
with_id id count = record {
  sessionid = id;
  timeout = 60;
  last_access = at 1000;
  expire_count = pos count;
  medias = [];
}

abbrev pool : SessionPool
pool = record { max_sessions = 3; sessions = with_id (49 ∷ []) 0 ∷ with_id (50 ∷ []) 1 ∷ [] }

-- 1, 2 and so on: the first two are taken.
abbrev counting : ℕ → Option Text
counting n = some ((49 + n) ∷ [])

abbrev methods : PoolMethods
methods = record { create_session_id = some counting; create_session = true }

third_id : (create (at 1000) methods pool).1 ≡ created (with_id (51 ∷ []) 0)
unfolding create session_new
third_id = refl

create-Tries_example : Tries (at 1000) true counting 0 100 pool (create (at 1000) methods pool)
create-Tries_example = create-Tries (at 1000) methods counting pool refl

cleanup-Cleaned_example :
    Cleaned
      (at 2000)
      (at 2000)
      pool.sessions
      (cleanup (at 2000) (at 2000) pool).0.sessions
      (cleanup (at 2000) (at 2000) pool).1
cleanup-Cleaned_example =
    cleanup-Cleaned (at 2000) (at 2000) pool
      (record {
        clock_time = (omega arith, omega arith);
        now_time = (omega arith, omega arith);
        not_before = omega arith;
        not_late = omega arith;
      })
      (
        ((omega arith, omega arith), omega arith, omega arith),
        (((omega arith, omega arith), omega arith, omega arith), tt),
      )

abbrev calls : List Call
calls =
    limits 5
    ∷ creates (at 1001) methods
    ∷ finds (at 1002) (50 ∷ [])
    ∷ creates (at 1003) methods
    ∷ cleans (at 1090) (at 1090)
    ∷ removes (with_id (50 ∷ []) 0)
    ∷ []

calls-AllLeaveRoom : AllLeaveRoom calls pool
calls-AllLeaveRoom = (inr (omega arith), (tt, (tt, (tt, (tt, (tt, tt))))))

run-IsSound_example : IsSound (run calls pool)
run-IsSound_example =
    run-IsSound calls pool calls-AllLeaveRoom
      (record { unique = (refl, (refl, tt)); within = inr (omega arith) })
