-- ===== src/Session/Expiry.antt =====
-- When a session of gst/rtsp-server/rtsp-session.c expires.
use gst_rtsp_server_wfd.Prelude.{
  ℕ, ◌+◌, ◌-◌, ◌*◌, ◌/◌, ◌≤◌, ◌<◌, ◌≡◌, ◌↔◌, refl, ◌∙◌, ap, true, false, arith, ltb, inl, inr,
  Bool-cases, if◌then◌else◌,
}
use gst_rtsp_server_wfd.Prelude.Int.{ℤ, pos, is_zero}
use gst_rtsp_server_wfd.Session.{
  TimeVal, Session, timeval_to_time, next_timeout, is_expired, touch_held, deadline, touch, gint,
}

-- Nanoseconds, without wrap-around.
abbrev pub nanoseconds : TimeVal → ℕ
nanoseconds t = t.tv_sec * 1000000000 + t.tv_usec * 1000

-- A time before the year 2242, with normal microseconds.
abbrev pub IsTime : TimeVal → Type 0
IsTime t = (t.tv_sec < 8589934592) × (t.tv_usec < 1000000)

timeval_to_time_lem : (t : TimeVal) → IsTime t → timeval_to_time t ≡ nanoseconds t
unfolding timeval_to_time
timeval_to_time_lem t h = omega (arith, h.0, h.1)

deadline_lem :
    (s : Session)
    → IsTime s.last_access
    → s.timeout < 4294967296
    → deadline s ≡ nanoseconds s.last_access + (s.timeout + 5) * 1000000000
deadline_lem s h b = rw (timeval_to_time_lem s.last_access h) (omega (arith, h.0, h.1, b))

gint_zero : (n : ℕ) → n < 4294967296 → (is_zero (gint n) ≡ true) ↔ (n ≡ 0)
gint_zero n h = ground (arith, h)

-- The end of gst_rtsp_session_next_timeout, for the deadline d.
abbrev milliseconds_left : ℕ → ℕ → ℤ
milliseconds_left d n = if ltb n d then gint ((d - n) / 1000000) else pos 0

milliseconds_left_iff :
    (d n : ℕ)
    → d < n + 4294967296000000
    → (is_zero (milliseconds_left d n) ≡ true) ↔ (d < n + 1000000)
milliseconds_left_iff d n h = ground (arith, h, gint_zero ((d - n) / 1000000) (omega (arith, h)))

is_zero_eq : (z : ℤ) → is_zero z ≡ true → z ≡ pos 0
is_zero_eq z h = ground (arith, h)

is_expired_left :
    (clock : TimeVal) (s : Session) (now : TimeVal)
    → (is_expired clock s now).1
      ≡ is_zero (milliseconds_left (deadline (touch_held clock s)) (timeval_to_time now))
unfolding is_expired next_timeout
is_expired_left clock s now =
    elim (Bool-cases (ltb (timeval_to_time now) (deadline (touch_held clock s)))) [
      | inl h ↦ rw (h, next_timeout) refl
      | inr h ↦ rw (h, next_timeout) refl
    ]

is_expired_held :
    (clock : TimeVal) (s s' : Session) (now : TimeVal)
    → touch_held clock s ≡ s'
    → IsTime s'.last_access
    → IsTime now
    → s'.timeout < 4200000
    → (is_expired clock s now).1
      ≡ is_zero (
          milliseconds_left
            (nanoseconds s'.last_access + (s'.timeout + 5) * 1000000000)
            (nanoseconds now))
is_expired_held clock s s' now e hs hn b =
    is_expired_left clock s now
    ∙ ap (λ x. is_zero (milliseconds_left (deadline x) (timeval_to_time now))) e
    ∙ ap (λ d. is_zero (milliseconds_left d (timeval_to_time now)))
        (deadline_lem s' hs (omega (arith, b)))
    ∙ ap
        (λ n.
          is_zero
            (milliseconds_left (nanoseconds s'.last_access + (s'.timeout + 5) * 1000000000) n))
        (timeval_to_time_lem now hn)

touch_held_free :
    (clock : TimeVal) (s : Session) → is_zero s.expire_count ≡ true → touch_held clock s ≡ s
touch_held_free clock s z = rw z

touch_held_busy :
    (clock : TimeVal) (s : Session)
    → is_zero s.expire_count ≡ false
    → touch_held clock s ≡ record s { last_access = clock }
touch_held_busy clock s z = rw z

-- The test of gst_rtsp_session_is_expired, for times before the year 2242, a timeout of less than
-- 4200000 seconds, a session that was not accessed after `now`, and a clock that the function
-- reads no earlier than `now` and at most a second after it: TRUE exactly if no prevent_expire is
-- pending and less than one millisecond is left of the timeout and five more seconds.
pub is_expired_iff :
    (clock : TimeVal) (s : Session) (now : TimeVal)
    → IsTime clock
    → IsTime s.last_access
    → IsTime now
    → nanoseconds s.last_access ≤ nanoseconds now
    → nanoseconds now ≤ nanoseconds clock
    → nanoseconds clock ≤ nanoseconds now + 1000000000
    → s.timeout < 4200000
    → ((is_expired clock s now).1 ≡ true) ↔ (
        (s.expire_count ≡ pos 0)
        × (nanoseconds s.last_access + (s.timeout + 5) * 1000000000 < nanoseconds now + 1000000))
is_expired_iff clock s now hc hs hn le lc cl b = elim (Bool-cases (is_zero s.expire_count)) [
  | inl z ↦
      let d = nanoseconds s.last_access + (s.timeout + 5) * 1000000000 in
      let left = milliseconds_left_iff d (nanoseconds now) (omega (arith, le, b)) in
      rw (is_expired_held clock s s now (touch_held_free clock s z) hs hn b)
        (λ h. (is_zero_eq s.expire_count z, left.0 h), λ h. left.1 h.1)
  | inr z ↦
      let d = nanoseconds clock + (s.timeout + 5) * 1000000000 in
      let left = milliseconds_left_iff d (nanoseconds now) (omega (arith, cl, b)) in
      rw
        (is_expired_held clock s (record s { last_access = clock }) now (touch_held_busy clock s z)
          hc hn b)
        (λ h. absurd (omega (arith, left.0 h, lc)), λ h. ground (arith, h.0, z))
]

pub next_timeout_id :
    (clock : TimeVal) (s : Session) (now : TimeVal)
    → (next_timeout clock s now).0.sessionid ≡ s.sessionid
unfolding next_timeout
next_timeout_id clock s now = ground arith

pub is_expired_session :
    (clock : TimeVal) (s : Session) (now : TimeVal)
    → (is_expired clock s now).0 ≡ touch_held clock s
unfolding is_expired next_timeout
is_expired_session clock s now = ground arith

pub touch_id_same : (clock : TimeVal) (s : Session) → (touch clock s).sessionid ≡ s.sessionid
unfolding touch
touch_id_same clock s = refl
