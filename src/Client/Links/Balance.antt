-- ===== src/Client/Links/Balance.antt =====
-- link_session_transports and unlink_session_transports of gst/rtsp-server/rtsp-client.c, one after
-- the other.
use gst_rtsp_server_wfd.Prelude.{
  ℕ, zero, suc, ◌<◌, ◌≡◌, refl, ◌∙◌, ap, ◌⊎◌, inl, inr, List, [], ◌∷◌, true, false, Option, none,
  some, ◌==◌, if◌then◌else◌, arith, Bool-cases, ==_self,
}
use gst_rtsp_server_wfd.Prelude.Int.{ℤ, increment, decrement, decrement-increment, add_ℕ}
use gst_rtsp_server_wfd.Text.{equal_texts, equal_texts_self}
use gst_rtsp_server_wfd.Media.SetState.{StreamTransport}
use gst_rtsp_server_wfd.SessionMedia.{SessionMedia}
use gst_rtsp_server_wfd.Session.{prevent_expire, allow_expire}
use gst_rtsp_server_wfd.Client.State.{Link}
use gst_rtsp_server_wfd.Client.Links.{
  Linked, is_tcp, remove_link, link_transport, unlink_transport, for_each_tcp,
  link_session_transports, unlink_session_transports,
}

abbrev expire_count : Linked → ℤ
expire_count (links, s) = s.expire_count

increment-decrement : (z : ℤ) → increment (decrement z) ≡ z
increment-decrement (ℤ.pos zero) = refl
increment-decrement (ℤ.pos (suc n)) = ground arith
increment-decrement (ℤ.negsuc n) = ground arith

-- A link that was just added goes.
unlink_transport-link_transport :
    (l : Link) (state : Linked) → unlink_transport l (link_transport l state) ≡ state
unfolding unlink_transport link_transport remove_link prevent_expire allow_expire
unlink_transport-link_transport l (links, s) =
    rw
      (
        equal_texts_self l.session,
        ==_self l.owner,
        ==_self l.stream,
        decrement-increment s.expire_count,
      )
      refl

-- The links of two streams do not meet.
unlink_transport-link_transport_other :
    (l k : Link) (state : Linked)
    → l.stream < k.stream
    → unlink_transport l (link_transport k state) ≡ link_transport k (unlink_transport l state)
unfolding unlink_transport link_transport remove_link prevent_expire allow_expire
unlink_transport-link_transport_other l k (links, s) h =
    let apart : (k.stream == l.stream) ≡ false = ground (arith, h) in
    elim (Bool-cases (equal_texts k.session l.session)) [
      | inr e ↦ rw (e, decrement-increment s.expire_count, increment-decrement s.expire_count) refl
      | inl e ↦ elim (Bool-cases (k.owner == l.owner)) [
        | inr f ↦
            rw (e, f, decrement-increment s.expire_count, increment-decrement s.expire_count) refl
        | inl f ↦
            rw (e, f, apart, decrement-increment s.expire_count, increment-decrement s.expire_count)
              refl
      ]
    ]

-- What one turn of the loop does.
abbrev step : (Link → Linked → Linked) → ℕ → ℕ → StreamTransport → Linked → Linked
step change owner i t state =
    if is_tcp t.lower_transport
    then change (record { session = state.1.sessionid; owner = owner; stream = i }) state
    else state

unlink_transport-step :
    (l : Link) (owner i : ℕ) (t : StreamTransport) (state : Linked)
    → l.stream < i
    → unlink_transport l (step link_transport owner i t state)
      ≡ step link_transport owner i t (unlink_transport l state)
unfolding unlink_transport allow_expire
unlink_transport-step l owner i t (links, s) h = elim (Bool-cases (is_tcp t.lower_transport)) [
  | inl e ↦ rw e (
      unlink_transport-link_transport_other l
        (record { session = s.sessionid; owner = owner; stream = i }) (links, s) h)
  | inr e ↦ rw e refl
]

-- A link of an earlier stream can be removed before the links of the others are added.
unlink_transport-for_each_tcp :
    (l : Link) (owner i : ℕ) (ts : List (Option StreamTransport)) (state : Linked)
    → l.stream < i
    → unlink_transport l (for_each_tcp link_transport owner i ts state)
      ≡ for_each_tcp link_transport owner i ts (unlink_transport l state)
unfolding for_each_tcp
unlink_transport-for_each_tcp l owner i [] state h = refl
unlink_transport-for_each_tcp l owner i (none ∷ ts) state h =
    unlink_transport-for_each_tcp l owner (suc i) ts state (omega (arith, h))
unlink_transport-for_each_tcp l owner i (some t ∷ ts) (links, s) h =
    unlink_transport-for_each_tcp l owner (suc i) ts (step link_transport owner i t (links, s))
      (omega (arith, h))
    ∙ ap (λ x. for_each_tcp link_transport owner (suc i) ts x)
        (unlink_transport-step l owner i t (links, s) h)

step_id :
    (owner i : ℕ) (t : StreamTransport) (state : Linked)
    → (step link_transport owner i t state).1.sessionid ≡ state.1.sessionid
unfolding link_transport prevent_expire
step_id owner i t (links, s) = elim (Bool-cases (is_tcp t.lower_transport)) [
  | inl e ↦ rw e refl
  | inr e ↦ rw e refl
]

for_each_tcp_id :
    (owner i : ℕ) (ts : List (Option StreamTransport)) (state : Linked)
    → (for_each_tcp link_transport owner i ts state).1.sessionid ≡ state.1.sessionid
unfolding for_each_tcp
for_each_tcp_id owner i [] state = refl
for_each_tcp_id owner i (none ∷ ts) state = for_each_tcp_id owner (suc i) ts state
for_each_tcp_id owner i (some t ∷ ts) (links, s) =
    for_each_tcp_id owner (suc i) ts (step link_transport owner i t (links, s))
    ∙ step_id owner i t (links, s)

-- A stream's turn of the one loop can come before the later turns of the other.
step-for_each_tcp :
    (owner i : ℕ) (t : StreamTransport) (ts : List (Option StreamTransport)) (state : Linked)
    → step unlink_transport owner i t (for_each_tcp link_transport owner (suc i) ts state)
      ≡ for_each_tcp link_transport owner (suc i) ts (step unlink_transport owner i t state)
step-for_each_tcp owner i t ts state = elim (Bool-cases (is_tcp t.lower_transport)) [
  | inr e ↦ rw e refl
  | inl e ↦
      let l : Link = record { session = state.1.sessionid; owner = owner; stream = i } in
      let linked = for_each_tcp link_transport owner (suc i) ts state in
      rw e (
        ap (λ id. unlink_transport (record { session = id; owner = owner; stream = i }) linked)
          (for_each_tcp_id owner (suc i) ts state)
        ∙ unlink_transport-for_each_tcp l owner (suc i) ts state (omega arith))
]

step_undone :
    (owner i : ℕ) (t : StreamTransport) (state : Linked)
    → step unlink_transport owner i t (step link_transport owner i t state) ≡ state
unfolding link_transport prevent_expire
step_undone owner i t (links, s) = elim (Bool-cases (is_tcp t.lower_transport)) [
  | inl e ↦ rw e (
      unlink_transport-link_transport (record { session = s.sessionid; owner = owner; stream = i })
        (links, s))
  | inr e ↦ rw e refl
]

for_each_tcp_undone :
    (owner i : ℕ) (ts : List (Option StreamTransport)) (state : Linked)
    → for_each_tcp unlink_transport owner i ts (for_each_tcp link_transport owner i ts state)
      ≡ state
unfolding for_each_tcp
for_each_tcp_undone owner i [] state = refl
for_each_tcp_undone owner i (none ∷ ts) state = for_each_tcp_undone owner (suc i) ts state
for_each_tcp_undone owner i (some t ∷ ts) (links, s) =
    let linked = step link_transport owner i t (links, s) in
    ap (λ x. for_each_tcp unlink_transport owner (suc i) ts x)
      (step-for_each_tcp owner i t ts linked
        ∙ ap (λ x. for_each_tcp link_transport owner (suc i) ts x)
            (step_undone owner i t (links, s)))
    ∙ for_each_tcp_undone owner (suc i) ts (links, s)

abbrev pub n_tcp : List (Option StreamTransport) → ℕ
n_tcp [] = 0
n_tcp (none ∷ ts) = n_tcp ts
n_tcp (some t ∷ ts) = if is_tcp t.lower_transport then suc (n_tcp ts) else n_tcp ts

add_ℕ-increment : (z : ℤ) (n : ℕ) → add_ℕ (increment z) n ≡ increment (add_ℕ z n)
add_ℕ-increment z zero = refl
add_ℕ-increment z (suc n) = ap increment (add_ℕ-increment z n)

for_each_tcp_count :
    (owner i : ℕ) (ts : List (Option StreamTransport)) (state : Linked)
    → (for_each_tcp link_transport owner i ts state).1.expire_count
      ≡ add_ℕ state.1.expire_count (n_tcp ts)
unfolding for_each_tcp link_transport prevent_expire
for_each_tcp_count owner i [] state = refl
for_each_tcp_count owner i (none ∷ ts) state = for_each_tcp_count owner (suc i) ts state
for_each_tcp_count owner i (some t ∷ ts) (links, s) =
    for_each_tcp_count owner (suc i) ts (step link_transport owner i t (links, s))
    ∙ counted (Bool-cases (is_tcp t.lower_transport))
  where
    counted :
        (is_tcp t.lower_transport ≡ true) ⊎ (is_tcp t.lower_transport ≡ false)
        → add_ℕ (step link_transport owner i t (links, s)).1.expire_count (n_tcp ts)
          ≡ add_ℕ s.expire_count (n_tcp (some t ∷ ts))
    counted (inl e) = rw e (add_ℕ-increment s.expire_count (n_tcp ts))
    counted (inr e) = rw e refl

-- Linking a session's transports to a client adds one to the session's expire_count for each TCP
-- transport, and unlinking them gives back the links and the session that were there before.
pub link_session_transports_lem :
    (sm : SessionMedia) (state : Linked)
    → ((link_session_transports sm state).1.expire_count
        ≡ add_ℕ state.1.expire_count (n_tcp sm.transports))
      × (unlink_session_transports sm (link_session_transports sm state) ≡ state)
unfolding link_session_transports unlink_session_transports
link_session_transports_lem sm state = (
  for_each_tcp_count sm.ptr 0 sm.transports state,
  for_each_tcp_undone sm.ptr 0 sm.transports state,
)
