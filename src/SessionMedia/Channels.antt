-- ===== src/SessionMedia/Channels.antt =====
-- The interleaved channels and the array of transports of gst/rtsp-server/rtsp-session-media.c.
use gst_rtsp_server_wfd.Prelude.{
  ℕ, zero, suc, ◌+◌, ◌*◌, ◌%◌, ◌<◌, ◌≤◌, ◌≡◌, ◌≢◌, ◌↔◌, refl, ap, List, [], ◌∷◌, false, none, some,
  length, ltb, get_elem?, set, lt→ltb, arith,
}
use gst_rtsp_server_wfd.Media.{Media, Pipeline, GstState}
use gst_rtsp_server_wfd.SessionMedia.{
  SessionMedia, Transport, alloc_channels, joined, with_transport, get_transport, set_transport,
  set_media_state,
}

-- The session media after n calls, and the channels of the next.
abbrev pub allocated : ℕ → SessionMedia → SessionMedia
allocated zero m = m
allocated (suc n) m = (alloc_channels (allocated n m)).0

abbrev pub channels : ℕ → SessionMedia → ℕ × ℕ
channels n m = let (m', min, max) = alloc_channels (allocated n m) in (min, max)

allocated_counter :
    (n : ℕ) (m : SessionMedia) → m.counter ≡ 0 → (allocated n m).counter ≡ (2 * n) % 4294967296
unfolding alloc_channels
allocated_counter zero m h = omega (arith, h)
allocated_counter (suc n) m h = let e = allocated_counter n m h in omega (arith, e)

-- Two calls of alloc_channels on a session media that starts with the counter 0, both among the
-- first 2 ^ 31 calls, give four different channels, each call two that follow each other; and
-- exactly the first 128 calls give channels that fit in the byte that goes before interleaved data.
pub alloc_channels_lem :
    (m : SessionMedia) (i j : ℕ)
    → m.counter ≡ 0
    → i < j
    → j < 2147483648
    → ((channels i m).1 ≡ (channels i m).0 + 1)
      × ((channels i m).0 ≢ (channels j m).0)
      × ((channels i m).0 ≢ (channels j m).1)
      × ((channels i m).1 ≢ (channels j m).0)
      × ((channels i m).1 ≢ (channels j m).1)
      × (((channels i m).1 < 256) ↔ (i < 128))
unfolding alloc_channels
alloc_channels_lem m i j h below near =
    let a = allocated_counter i m h in
    let b = allocated_counter j m h in
    (
      omega (arith, a, below, near),
      λ e. omega (arith, a, b, e, below, near),
      λ e. omega (arith, a, b, e, below, near),
      λ e. omega (arith, a, b, e, below, near),
      λ e. omega (arith, a, b, e, below, near),
      (λ e. omega (arith, a, e, below, near), λ e. omega (arith, a, e)),
    )

get_elem?-set {ℓ} :
    {A : Type ℓ} (xs : List A) (i : ℕ) (x : A) → i < length xs → get_elem? (set xs i x) i ≡ some x
get_elem?-set [] i x h = absurd (omega (arith, h))
get_elem?-set (y ∷ ys) zero x h = refl
get_elem?-set (y ∷ ys) (suc i) x h = get_elem?-set ys i x (omega (arith, h))

get_elem?-set_other {ℓ} :
    {A : Type ℓ} (xs : List A) (i j : ℕ) (x : A) → i ≢ j → get_elem? (set xs i x) j ≡ get_elem? xs j
get_elem?-set_other [] i j x h = refl
get_elem?-set_other (y ∷ ys) zero zero x h = absurd (h refl)
get_elem?-set_other (y ∷ ys) zero (suc j) x h = refl
get_elem?-set_other (y ∷ ys) (suc i) zero x h = refl
get_elem?-set_other (y ∷ ys) (suc i) (suc j) x h =
    get_elem?-set_other ys i j x (λ e. h (ap (λ n. suc n) e))

-- A transport for a stream of the media is what get_transport gives for it then, with the lower
-- transport and the channels that were set, and as active as it was; the other streams keep theirs.
-- For any other index nothing changes.
pub set_transport_lem :
    (idx : ℕ) (chosen : Transport) (m : SessionMedia)
    → ((idx < length m.transports)
        → (get_transport idx (set_transport idx chosen m).0
            ≡ some (with_transport chosen (get_transport idx m)))
          × ((set_transport idx chosen m).1 ≡ some (with_transport chosen (get_transport idx m)))
          × ((j : ℕ)
              → idx ≢ j
              → get_transport j (set_transport idx chosen m).0 ≡ get_transport j m))
      × ((length m.transports ≤ idx) → set_transport idx chosen m ≡ (m, none))
unfolding get_transport set_transport
set_transport_lem idx chosen m = (
  λ h.
      let t = with_transport chosen (get_transport idx m) in
      let e = lt→ltb idx (length m.transports) h in
      (
        rw (set_transport, e) (ap joined (get_elem?-set m.transports idx (some t) h)),
        rw (set_transport, e) refl,
        λ j apart.
            rw (set_transport, e)
              (ap joined (get_elem?-set_other m.transports idx j (some t) apart)),
      ),
  λ h.
      let e : ltb idx (length m.transports) ≡ false = ground (arith, h) in
      rw (set_transport, e) refl,
)

pub set_media_state_ptr :
    (gst : Pipeline) (s : GstState) (sm : SessionMedia) (m : Media)
    → (set_media_state gst s sm m).0.ptr ≡ sm.ptr
unfolding set_media_state
set_media_state_ptr gst s sm m = refl
