-- ===== src/ThreadPool.antt =====
-- gst/rtsp-server/rtsp-thread-pool.c: the queue of threads that clients share.
--
-- A GstRTSPThread is its pointer and its counter `reused`; a thread whose counter is not positive
-- is stopping. Whether GLib takes a new thread is an argument, and so is the new thread's pointer.
-- `locked` says that the pool's mutex is held.
pub mod Queue
mod Tests
use gst_rtsp_server_wfd.Prelude.{
  ℕ, List, [], ◌∷◌, ◌++◌, Bool, true, false, not, ◌&&◌, Option, none, some, length, leb, ◌==◌,
  if◌then◌else◌,
}
use gst_rtsp_server_wfd.Prelude.Int.{ℤ, pos, negsuc, increment, decrement, is_positive, is_zero}

pub record Thread : Type 0 where
  pub ptr : ℕ
  pub reused : ℤ

pub record ThreadPool : Type 0 where
  pub max_threads : ℤ
  pub threads : List Thread
  pub locked : Bool

pub data ThreadType : Type 0 where
  client media : ThreadType

pub make_thread : ℕ → Thread
make_thread ptr = record { ptr = ptr; reused = pos 1 }

pub reuse : Thread → Thread × Bool
reuse t = (record t { reused = increment t.reused }, is_positive t.reused)

-- The counter of a stopped thread, and whether its loop is told to quit.
pub stop : Thread → Thread × Bool
stop t = let n = decrement t.reused in (record t { reused = n }, is_zero n)

abbrev reaches : ℕ → ℤ → Bool
reaches n (pos max) = leb max n
reaches n (negsuc max) = false

abbrev pub max_reached : ℤ → List Thread → Bool
max_reached max threads = is_positive max && reaches (length threads) max

-- From the label retry on: the queue, and a thread, if there is one. An empty queue is never full.
recycle : ℤ → Bool → ℕ → List Thread → List Thread × Option Thread
unfolding make_thread reuse
recycle max pushed ptr [] =
    if pushed then (make_thread ptr ∷ [], some (make_thread ptr)) else ([], none)
recycle max pushed ptr (t ∷ ts) =
    let retry = recycle max pushed ptr ts in
    let (t', alive) = reuse t in
    let new = make_thread ptr in
    if max_reached max (t ∷ ts)
    then (if alive then (ts ++ t' ∷ [], some t') else retry)
    else (if pushed then ((t ∷ ts) ++ new ∷ [], some new) else (t ∷ ts, none))

abbrev pub is_none : Option Thread → Bool
is_none none = true
is_none (some t) = false

-- The case of a client's thread. The jump to thread_error leaves the mutex locked.
get_client_thread : Bool → ℕ → ThreadPool → ThreadPool × Option Thread
unfolding recycle
get_client_thread pushed ptr p =
    if is_zero p.max_threads
    then (p, none)
    else (let (threads, thread) = recycle p.max_threads pushed ptr p.threads in
        (record p { threads = threads; locked = is_none thread }, thread))

pub get_thread : ThreadType → Bool → ℕ → ThreadPool → ThreadPool × Option Thread
unfolding get_client_thread
get_thread client pushed ptr p = get_client_thread pushed ptr p
get_thread media pushed ptr p = (p, if pushed then some (make_thread ptr) else none)
