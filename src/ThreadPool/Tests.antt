-- ===== src/ThreadPool/Tests.antt =====
-- gst/rtsp-server/rtsp-thread-pool.c at concrete pools.
use gst_rtsp_server_wfd.Prelude.{◌≡◌, refl, [], ◌∷◌, true, false, arith}
use gst_rtsp_server_wfd.Prelude.Int.{pos}
use gst_rtsp_server_wfd.ThreadPool.{ThreadPool, client, get_thread, make_thread, is_none}
use gst_rtsp_server_wfd.ThreadPool.Queue.{Recycles, get_thread-Recycles}

-- Two threads of at most two; the first is stopping.
abbrev two : ThreadPool
two = record {
  max_threads = pos 2;
  threads = record { ptr = 1; reused = pos 0 } ∷ record { ptr = 2; reused = pos 3 } ∷ [];
  locked = false;
}

-- A thread that GLib does not take leaves the mutex locked.
left_locked : (get_thread client false 7 two).0.locked ≡ true
unfolding get_thread
left_locked = refl

get_thread-Recycles_example :
    Recycles 2 true
      (make_thread 7)
      two.threads
      (get_thread client true 7 two).0.threads
      (get_thread client true 7 two).1
    × ((get_thread client true 7 two).0.locked ≡ is_none (get_thread client true 7 two).1)
get_thread-Recycles_example = get_thread-Recycles true 7 1 two refl (omega arith)
