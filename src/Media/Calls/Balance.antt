-- ===== src/Media/Calls/Balance.antt =====
-- The count of users in gst/rtsp-server/rtsp-media.c: prepare and unprepare.
use gst_rtsp_server_wfd.Prelude.{
  ◌≡◌, refl, ◌∙◌, ap, ◌⊎◌, inl, inr, List, Bool, ◌&&◌, ◌||◌, true, false, not, arith, Bool-cases,
}
use gst_rtsp_server_wfd.Prelude.Int.{increment, decrement, is_positive, decrement-increment}
use gst_rtsp_server_wfd.Media.{
  Media, Pipeline, Event, Status, unprepared, unpreparing, preparing, prepared, suspended, error,
  is_status, finish_unprepare, get_status, wait_preroll, emit,
}
use gst_rtsp_server_wfd.Media.Events.{SameUsers, get_status-SameUsers, get_status-IsDone}
use gst_rtsp_server_wfd.Media.Calls.{
  RtpbinMethods, unprepare, shut_down, finish_prepare, rtpbin_made, await_prepared, begin_prepare,
  prepare_new, prepare,
}

abbrev IsUnprepared : Status → Type 0
IsUnprepared s = s ≡ unprepared

shut_down-SameUsers : (gst : Pipeline) (m : Media) → SameUsers m (shut_down gst m)
unfolding shut_down finish_unprepare
shut_down-SameUsers gst m = ground arith

-- What unprepare does to the counts where the media is not UNPREPARED.
unprepare_count :
    (gst : Pipeline) (m : Media)
    → is_status m.status unprepared ≡ false
    → (unprepare gst m).0.prepare_count ≡ decrement m.prepare_count
unfolding unprepare
unprepare_count gst m h =
    let down = record m { prepare_count = decrement m.prepare_count } in
    elim (Bool-cases (is_positive (decrement m.prepare_count))) [
      | inl p ↦ rw (h, unprepare, p) refl
      | inr p ↦ rw (h, unprepare, p) (shut_down-SameUsers gst down).same_count
    ]

-- An answer of prepare, against the media before.
abbrev pub Balanced : Media → Media × Bool → Type 0
Balanced m (m', true) =
    (m'.prepare_count ≡ increment m.prepare_count)
    × ((m'.status ≡ prepared) ⊎ (m'.status ≡ suspended))
Balanced m (m', false) = m'.prepare_count ≡ m.prepare_count

finish_prepare-Balanced :
    (gst : Pipeline) (m w : Media) (done : Bool)
    → w.prepare_count ≡ increment m.prepare_count
    → (done ≡ true → w.status ≡ prepared)
    → (done ≡ false → is_status w.status unprepared ≡ false)
    → Balanced m (finish_prepare gst (w, done))
unfolding finish_prepare
finish_prepare-Balanced gst m w true c p u = (c, inl (p refl))
finish_prepare-Balanced gst m w false c p u =
    unprepare_count gst w (u refl) ∙ ap decrement c ∙ decrement-increment m.prepare_count

await_prepared-Balanced :
    (gst : Pipeline) (es : List Event) (m m' : Media)
    → m'.prepare_count ≡ increment m.prepare_count
    → m'.status ≡ preparing
    → Balanced m (await_prepared gst es m')
unfolding await_prepared wait_preroll
await_prepared-Balanced gst es m m' c h =
    let w = get_status gst es m' in
    let ended = get_status-IsDone gst es m' h in
    finish_prepare-Balanced gst m w (not (is_status w.status error))
      ((get_status-SameUsers gst es m').same_count ∙ c) (λ k. ground (arith, ended))
      (λ k. ground (arith, ended))

prepare_new-Balanced :
    (gst : Pipeline) (k : RtpbinMethods) (es : List Event) (m m' : Media)
    → m'.prepare_count ≡ increment m.prepare_count
    → Balanced m (prepare_new gst k es m')
unfolding prepare_new begin_prepare
prepare_new-Balanced gst k es m m' c =
    let back = ap decrement c ∙ decrement-increment m.prepare_count in
    let waits = await_prepared-Balanced gst es m (begin_prepare m') c refl in
    elim (Bool-cases (not m'.reusable && m'.reused)) [
      | inl r ↦ rw (r, prepare_new) back
      | inr r ↦ elim (Bool-cases (rtpbin_made k)) [
        | inl b ↦ rw (r, prepare_new, b) waits
        | inr b ↦ rw (r, prepare_new, b) back
      ]
    ]

pub usable_cases :
    (s : Status)
    → (is_status s prepared || is_status s suspended) ≡ true
    → (s ≡ prepared) ⊎ (s ≡ suspended)
usable_cases prepared h = inl refl
usable_cases suspended h = inr refl
usable_cases unprepared h = absurd (cc h)
usable_cases unpreparing h = absurd (cc h)
usable_cases preparing h = absurd (cc h)
usable_cases error h = absurd (cc h)

preparing_eq : (s : Status) → is_status s preparing ≡ true → s ≡ preparing
preparing_eq s h = ground arith

-- gst_rtsp_media_prepare, whatever its media's status and whatever happens during its wait: where
-- it returns TRUE it has counted one more user and the media is PREPARED or SUSPENDED; where it
-- returns FALSE it has left the count as it was.
pub prepare-Balanced :
    (gst : Pipeline) (k : RtpbinMethods) (es : List Event) (m : Media)
    → Balanced m (prepare gst k es m)
unfolding prepare emit
prepare-Balanced gst k es m =
    let m' = record m { prepare_count = increment m.prepare_count } in
    elim (Bool-cases (is_status m.status prepared || is_status m.status suspended)) [
      | inl u ↦ rw (u, prepare, emit) (refl, usable_cases m.status u)
      | inr u ↦ elim (Bool-cases (is_status m.status preparing)) [
        | inl w ↦
            rw (u, prepare, w) (await_prepared-Balanced gst es m m' refl (preparing_eq m.status w))
        | inr w ↦ elim (Bool-cases (is_status m.status unprepared)) [
          | inl n ↦ rw (u, prepare, w, n) (prepare_new-Balanced gst k es m m' refl)
          | inr n ↦ rw (u, prepare, w, n) (decrement-increment m.prepare_count)
        ]
      ]
    ]
