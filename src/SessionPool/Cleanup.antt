-- ===== src/SessionPool/Cleanup.antt =====
-- gst_rtsp_session_pool_cleanup of gst/rtsp-server/rtsp-session-pool.c: which sessions it removes.
use gst_rtsp_server_wfd.Prelude.{
  ℕ, suc, ◌+◌, ◌*◌, ◌≤◌, ◌<◌, ◌≡◌, inl, inr, List, [], ◌∷◌, All, arith, Bool-cases,
}
use gst_rtsp_server_wfd.Prelude.Int.{pos}
use gst_rtsp_server_wfd.Session.{TimeVal, Session, is_expired, touch_held}
use gst_rtsp_server_wfd.Session.Expiry.{nanoseconds, IsTime, is_expired_iff, is_expired_session}
use gst_rtsp_server_wfd.SessionPool.{SessionPool, cleanup, cleanup_all}

-- No prevent_expire is pending, and less than a millisecond is left of the timeout and five more
-- seconds.
abbrev pub IsOverdue : TimeVal → Session → Type 0
IsOverdue now s =
    (s.expire_count ≡ pos 0)
    × (nanoseconds s.last_access + (s.timeout + 5) * 1000000000 < nanoseconds now + 1000000)

-- The time of the last access is a time before the year 2242, not after `now`, and the timeout is
-- below 4200000 seconds.
abbrev pub IsTimely : TimeVal → Session → Type 0
IsTimely now s =
    IsTime s.last_access × (nanoseconds s.last_access ≤ nanoseconds now) × (s.timeout < 4200000)

-- The clock is read again not more than a second after `now`.
pub record IsNear (clock now : TimeVal) : Type 0 where
  pub clock_time : IsTime clock
  pub now_time : IsTime now
  pub not_before : nanoseconds now ≤ nanoseconds clock
  pub not_late : nanoseconds clock ≤ nanoseconds now + 1000000000

-- The second list has the sessions of the first in their order, touched where they are prevented
-- from expiring, without those that are overdue; the number counts these.
pub data Cleaned (clock now : TimeVal) : List Session → List Session → ℕ → Type 0 where
  nothing : Cleaned clock now [] [] 0
  removed :
      {s : Session} {ss rest : List Session} {n : ℕ}
      → IsOverdue now s
      → Cleaned clock now ss rest n
      → Cleaned clock now (s ∷ ss) rest (suc n)
  stays :
      {s : Session} {ss rest : List Session} {n : ℕ}
      → (IsOverdue now s → ⊥)
      → Cleaned clock now ss rest n
      → Cleaned clock now (s ∷ ss) (touch_held clock s ∷ rest) n

cleanup_all-Cleaned :
    (clock now : TimeVal) (ss : List Session)
    → IsNear clock now
    → All (IsTimely now) ss
    → Cleaned clock now ss (cleanup_all clock now ss).0 (cleanup_all clock now ss).1
unfolding cleanup_all
cleanup_all-Cleaned clock now [] near h = nothing
cleanup_all-Cleaned clock now (s ∷ ss) near h =
    let (last, order, short) = h.0 in
    let overdue =
      is_expired_iff clock s now near.clock_time last near.now_time order near.not_before
        near.not_late short in
    let rest = cleanup_all-Cleaned clock now ss near h.1 in
    elim (Bool-cases (is_expired clock s now).1) [
      | inl e ↦ rw (e, cleanup_all) (removed (overdue.0 e) rest)
      | inr e ↦
          rw (e, cleanup_all, is_expired_session clock s now)
            (stays (λ o. absurd (ground (arith, e, overdue.1 o))) rest)
    ]

-- gst_rtsp_session_pool_cleanup, with the clock read within a second after `now` and each session
-- accessed before `now` and with a timeout below 4200000 seconds: it removes, and counts, exactly
-- the sessions with no prevent_expire pending whose timeout and five more seconds are over, up to
-- a millisecond; the others stay, and those with a prevent_expire are touched.
pub cleanup-Cleaned :
    (clock now : TimeVal) (p : SessionPool)
    → IsNear clock now
    → All (IsTimely now) p.sessions
    → Cleaned clock now p.sessions (cleanup clock now p).0.sessions (cleanup clock now p).1
unfolding cleanup
cleanup-Cleaned clock now p near h = cleanup_all-Cleaned clock now p.sessions near h
