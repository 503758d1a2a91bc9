-- ===== src/Media/Calls/Unprepare.antt =====
-- The last user of a media in gst/rtsp-server/rtsp-media.c: unprepare counts down and shuts down.
use gst_rtsp_server_wfd.Prelude.{
  ℕ, zero, suc, ◌-◌, ◌≤◌, ◌<◌, ◌≡◌, refl, ◌∙◌, ap, List, true, false, arith, ◌⊎◌, inl, inr,
}
use gst_rtsp_server_wfd.Prelude.Int.{pos, decrement-increment}
use gst_rtsp_server_wfd.Media.{Media, Pipeline, Event, unprepared, is_status, finish_unprepare}
use gst_rtsp_server_wfd.Media.Calls.{
  RtpbinMethods, unprepare, shut_down, default_unprepare, prepare_new, prepare,
}

-- A media that finish_unprepare has been through.
pub record IsShutDown (m : Media) : Type 0 where
  pub is_unprepared : m.status ≡ unprepared
  pub was_used : m.reused ≡ true
  pub no_rtpbin : m.rtpbin ≡ false
  pub not_joined : m.joined ≡ false
  pub no_fakesink : m.fakesink ≡ false

finish_unprepare-IsShutDown : (gst : Pipeline) (m : Media) → IsShutDown (finish_unprepare gst m)
unfolding finish_unprepare
finish_unprepare-IsShutDown gst m = ground arith

pub shut_down-IsShutDown :
    (gst : Pipeline) (m : Media) → m.eos_shutdown ≡ false → IsShutDown (shut_down gst m)
unfolding shut_down default_unprepare finish_unprepare
shut_down-IsShutDown gst m h = ground arith

shut_down_reusable : (gst : Pipeline) (m : Media) → (shut_down gst m).reusable ≡ m.reusable
unfolding shut_down default_unprepare finish_unprepare
shut_down_reusable gst m = ground arith

abbrev pub unprepare_times : Pipeline → ℕ → Media → Media
unprepare_times gst zero m = m
unprepare_times gst (suc k) m = unprepare_times gst k (unprepare gst m).0

unprepare_unprepared :
    (gst : Pipeline) (m : Media) → m.status ≡ unprepared → unprepare gst m ≡ (m, true)
unfolding unprepare
unprepare_unprepared gst m h = rw h

unprepare_again :
    (gst : Pipeline) (k : ℕ) (m : Media) → IsShutDown m → IsShutDown (unprepare_times gst k m)
unprepare_again gst zero m h = h
unprepare_again gst (suc k) m h =
    rw (unprepare_unprepared gst m h.is_unprepared) (unprepare_again gst k m h)

unprepare_busy :
    (gst : Pipeline) (n : ℕ) (m : Media)
    → is_status m.status unprepared ≡ false
    → m.prepare_count ≡ pos (suc (suc n))
    → (unprepare gst m).0 ≡ record m { prepare_count = pos (suc n) }
unfolding unprepare
unprepare_busy gst n m u c = rw (u, c)

unprepare_last :
    (gst : Pipeline) (m : Media)
    → is_status m.status unprepared ≡ false
    → m.prepare_count ≡ pos 1
    → (unprepare gst m).0 ≡ shut_down gst (record m { prepare_count = pos 0 })
unfolding unprepare
unprepare_last gst m u c = rw (u, c)

-- A media with n users, that does not wait for EOS: fewer than n calls of unprepare only count
-- down; n calls and more leave it shut down.
pub unprepare_times_lem :
    (gst : Pipeline) (k n : ℕ) (m : Media)
    → is_status m.status unprepared ≡ false
    → m.eos_shutdown ≡ false
    → m.prepare_count ≡ pos (suc n)
    → (k ≤ n × (unprepare_times gst k m ≡ record m { prepare_count = pos (suc n - k) }))
      ⊎ (n < k × IsShutDown (unprepare_times gst k m))
unprepare_times_lem gst zero n m u e c =
    inl (omega arith, ap (λ z. record m { prepare_count = z }) (c ∙ ap pos (omega arith)))
unprepare_times_lem gst (suc k) zero m u e c =
    let down = record m { prepare_count = pos 0 } in
    inr (
      omega arith,
      rw (unprepare_last gst m u c)
          (unprepare_again gst k (shut_down gst down) (shut_down-IsShutDown gst down e)),
    )
unprepare_times_lem gst (suc k) (suc n) m u e c =
    elim (unprepare_times_lem gst k n (record m { prepare_count = pos (suc n) }) u e refl) [
      | inl (le, p) ↦ inl (
        omega (arith, le),
        ap (unprepare_times gst k) (unprepare_busy gst n m u c)
            ∙ p
            ∙ ap (λ z. record m { prepare_count = pos z }) (omega (arith, le)),
      )
      | inr (lt, p) ↦ inr (omega (arith, lt), rw (unprepare_busy gst n m u c) p)
    ]

prepare_refused :
    (gst : Pipeline) (k : RtpbinMethods) (es : List Event) (m : Media)
    → IsShutDown m
    → m.reusable ≡ false
    → prepare gst k es m ≡ (m, false)
unfolding prepare prepare_new
prepare_refused gst k es m d r =
    rw (d.is_unprepared, r, d.was_used, decrement-increment m.prepare_count)

-- A media that is not reusable, and that does not wait for EOS, refuses every call of prepare
-- after the unprepare of its last user, and stays as it is.
pub unprepare-prepare :
    (gst gst' : Pipeline) (k : RtpbinMethods) (es : List Event) (m : Media)
    → is_status m.status unprepared ≡ false
    → m.eos_shutdown ≡ false
    → m.reusable ≡ false
    → m.prepare_count ≡ pos 1
    → prepare gst' k es (unprepare gst m).0 ≡ ((unprepare gst m).0, false)
unprepare-prepare gst gst' k es m u e r c =
    let down = record m { prepare_count = pos 0 } in
    rw (unprepare_last gst m u c) (
      prepare_refused gst' k es (shut_down gst down) (shut_down-IsShutDown gst down e)
        (shut_down_reusable gst down ∙ r))
