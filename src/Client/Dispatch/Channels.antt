-- ===== src/Client/Dispatch/Channels.antt =====
-- Where handle_data of gst/rtsp-server/rtsp-client.c puts the data of an interleaved channel.
use gst_rtsp_server_wfd.Prelude.{
  ℕ, ◌≡◌, refl, sym, ◌∙◌, ◌⊎◌, inl, inr, List, [], ◌∷◌, true, false, ◌==◌, Option, none, some,
  Bool-cases, ==_iff,
}
use gst_rtsp_server_wfd.Media.SetState.{StreamTransport}
use gst_rtsp_server_wfd.Client.State.{Link}
use gst_rtsp_server_wfd.Client.Links.{is_tcp}
use gst_rtsp_server_wfd.Client.Dispatch.{Target, rtp, rtcp, nowhere, channel_target, handle_data}

-- The channel is that of a TCP transport's RTP, or of its RTCP.
abbrev pub IsRtp : ℕ → Option StreamTransport → Type 0
IsRtp channel none = ⊥
IsRtp channel (some t) = (is_tcp t.lower_transport ≡ true) × (t.channel_min ≡ channel)

abbrev pub IsRtcp : ℕ → Option StreamTransport → Type 0
IsRtcp channel none = ⊥
IsRtcp channel (some t) = (is_tcp t.lower_transport ≡ true) × (t.channel_max ≡ channel)

abbrev pub IsAmong : Link → List Link → Type 0
IsAmong l [] = ⊥
IsAmong l (k ∷ ks) = (k ≡ l) ⊎ IsAmong l ks

-- The data goes to a link of the list that has the channel, or no link of the list has it.
abbrev pub IsTarget : (Link → Option StreamTransport) → ℕ → List Link → Target → Type 0
IsTarget transport channel ls (rtp l) = IsAmong l ls × IsRtp channel (transport l)
IsTarget transport channel ls (rtcp l) = IsAmong l ls × IsRtcp channel (transport l)
IsTarget transport channel ls nowhere =
    (l : Link) → IsAmong l ls → ¬ IsRtp channel (transport l) × ¬ IsRtcp channel (transport l)

-- The same for one link.
abbrev IsChosen : ℕ → Link → Option StreamTransport → Target → Type 0
IsChosen channel l o (rtp k) = (k ≡ l) × IsRtp channel o
IsChosen channel l o (rtcp k) = (k ≡ l) × IsRtcp channel o
IsChosen channel l o nowhere = ¬ IsRtp channel o × ¬ IsRtcp channel o

other_channel : (a b : ℕ) → (a == b) ≡ false → ¬ (a ≡ b)
other_channel a b h e = cc (sym ((==_iff a b).1 e) ∙ h)

channel_target-IsChosen :
    (channel : ℕ) (l : Link) (o : Option StreamTransport)
    → IsChosen channel l o (channel_target channel l o)
unfolding channel_target
channel_target-IsChosen channel l none = (λ h. h, λ h. h)
channel_target-IsChosen channel l (some t) = elim (Bool-cases (is_tcp t.lower_transport)) [
  | inr e ↦ rw (channel_target, e) (λ h. cc (h.0, e), λ h. cc (h.0, e))
  | inl e ↦ elim (Bool-cases (t.channel_min == channel)) [
    | inl f ↦ rw (channel_target, e, f) (refl, (e, (==_iff t.channel_min channel).0 f))
    | inr f ↦ elim (Bool-cases (t.channel_max == channel)) [
      | inl g ↦ rw (channel_target, e, f, g) (refl, (e, (==_iff t.channel_max channel).0 g))
      | inr g ↦
          rw (channel_target, e, f, g)
            (
              λ h. other_channel t.channel_min channel f h.1,
              λ h. other_channel t.channel_max channel g h.1,
            )
    ]
  ]
]

Target-cases :
    (r : Target) → ((l : Link) × (r ≡ rtp l)) ⊎ (((l : Link) × (r ≡ rtcp l)) ⊎ (r ≡ nowhere))
Target-cases (rtp l) = inl (l, refl)
Target-cases (rtcp l) = inr (inl (l, refl))
Target-cases nowhere = inr (inr refl)

-- The target among one link more.
more-IsTarget :
    (transport : Link → Option StreamTransport) (channel : ℕ) (l : Link) (ls : List Link)
    (r s : Target)
    → IsChosen channel l (transport l) r
    → IsTarget transport channel ls s
    → IsTarget transport channel (l ∷ ls) (elim r [ rtp k ↦ rtp k | rtcp k ↦ rtcp k | nowhere ↦ s ])
more-IsTarget transport channel l ls (rtp k) s (e, h) t = (inl (sym e), rw e h)
more-IsTarget transport channel l ls (rtcp k) s (e, h) t = (inl (sym e), rw e h)
more-IsTarget transport channel l ls nowhere (rtp k) (h, g) (a, t) = (inr a, t)
more-IsTarget transport channel l ls nowhere (rtcp k) (h, g) (a, t) = (inr a, t)
more-IsTarget transport channel l ls nowhere nowhere h t =
    λ k a. elim a [ inl e ↦ rw (sym e) h | inr b ↦ t k b ]

-- handle_data hands the data to a transport of the client that has the channel, as RTP or as RTCP,
-- and drops it only if none has it.
pub handle_data-IsTarget :
    (transport : Link → Option StreamTransport) (channel : ℕ) (ls : List Link)
    → IsTarget transport channel ls (handle_data transport channel ls)
unfolding handle_data
handle_data-IsTarget transport channel [] = λ l h. absurd h
handle_data-IsTarget transport channel (l ∷ ls) =
    more-IsTarget transport channel l ls (channel_target channel l (transport l))
      (handle_data transport channel ls) (channel_target-IsChosen channel l (transport l))
      (handle_data-IsTarget transport channel ls)
