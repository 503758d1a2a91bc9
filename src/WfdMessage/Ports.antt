-- ===== src/WfdMessage/Ports.antt =====
-- gst/rtsp-server/gstwfdmessage.c: the functions that set and get the RTP ports and the presentation
-- URLs.
use gst_rtsp_server_wfd.Prelude.{
  ℕ, ◌≡◌, refl, [], Bool, true, false, Option, none, some, ◌==◌, if◌then◌else◌, ◌⊎◌, inl, inr,
}
use gst_rtsp_server_wfd.Text.{Text}
use gst_rtsp_server_wfd.WfdMessage.{ClientRtpPorts, PresentationUrl, WfdMessage}
use gst_rtsp_server_wfd.WfdMessage.Read.{◌<>◌, codes, contains}

-- The arguments of the setter, and what the getter writes: flags of GstWFDRTSPTransMode,
-- GstWFDRTSPProfile and GstWFDRTSPLowerTrans, and two ports.
pub record RtpPorts : Type 0 where
  pub trans : ℕ
  pub profile : ℕ
  pub lowertrans : ℕ
  pub rtp_port0 : ℕ
  pub rtp_port1 : ℕ

abbrev pub trans_text : ℕ → Text
trans_text t = if t == 1 then codes "RTP" else if t == 2 then codes "RDT" else []

abbrev pub profile_text : ℕ → Text
profile_text p = if p == 1 then codes "/AVP" else if p == 2 then codes "/SAVP" else []

abbrev pub lowertrans_text : ℕ → Text
lowertrans_text l =
    if l == 1
    then codes "/UDP;unicast"
    else if l == 2
    then codes "/UDP;multicast"
    else if l == 4
    then codes "/TCP;unicast"
    else if l == 8
    then codes "/HTTP"
    else []

-- g_new0
abbrev pub ports_or_new : Option ClientRtpPorts → ClientRtpPorts
ports_or_new none = record { profile = none; rtp_port0 = 0; rtp_port1 = 0; mode = none }
ports_or_new (some c) = c

-- gst_wfd_messge_set_prefered_rtp_ports
unfoldable pub set_prefered_rtp_ports : RtpPorts → WfdMessage → WfdMessage
set_prefered_rtp_ports r msg =
    let profile = trans_text r.trans <> profile_text r.profile <> lowertrans_text r.lowertrans in
    record msg {
      client_rtp_ports = some (
          if r.trans == 0 then ports_or_new msg.client_rtp_ports else record {
            profile = some profile;
            rtp_port0 = r.rtp_port0;
            rtp_port1 = r.rtp_port1;
            mode = some (codes "mode=play");
          });
    }

-- g_strrstr, which finds nothing in a null pointer
abbrev pub has_text : Option Text → Text → Bool
has_text none t = false
has_text (some s) t = contains s t

-- if (g_strrstr (profile, t)) *out = v
abbrev pub write_if : Option Text → Text → ℕ → ℕ → ℕ
write_if s t v out = if has_text s t then v else out

abbrev pub ports_of : ClientRtpPorts → RtpPorts → RtpPorts
ports_of c out = record {
  trans = write_if c.profile (codes "RDT") 2 (write_if c.profile (codes "RTP") 1 out.trans);
  profile = write_if c.profile (codes "SAVP") 2 (write_if c.profile (codes "AVP") 1 out.profile);
  lowertrans = write_if c.profile (codes "HTTP") 8 (
      write_if c.profile (codes "TCP;unicast") 4 (
        write_if c.profile (codes "UDP;multicast") 2
          (write_if c.profile (codes "UDP;unicast") 1 out.lowertrans)));
  rtp_port0 = c.rtp_port0;
  rtp_port1 = c.rtp_port1;
}

-- gst_wfd_message_get_prefered_rtp_ports; false is GST_WFD_EINVAL
unfoldable pub get_prefered_rtp_ports : WfdMessage → RtpPorts → Bool × RtpPorts
get_prefered_rtp_ports msg out = elim msg.client_rtp_ports [
  | none ↦ (false, out)
  | some c ↦ (true, ports_of c out)
]

-- A new value, if there is one.
abbrev pub or_old : Option Text → Option Text → Option Text
or_old none old = old
or_old (some s) old = some s

abbrev pub url_or_new : Option PresentationUrl → PresentationUrl
url_or_new none = record { wfd_url0 = none; wfd_url1 = none }
url_or_new (some p) = p

-- gst_wfd_message_set_presentation_url
unfoldable pub set_presentation_url : Option Text → Option Text → WfdMessage → WfdMessage
set_presentation_url url0 url1 msg =
    let p = url_or_new msg.presentation_url in
    record msg {
      presentation_url =
          some (record { wfd_url0 = or_old url0 p.wfd_url0; wfd_url1 = or_old url1 p.wfd_url1 });
    }

-- gst_wfd_message_get_presentation_url; none leaves the results as they are.
unfoldable pub get_presentation_url : WfdMessage → Option (Option Text × Option Text)
get_presentation_url msg = elim msg.presentation_url [
  | none ↦ none
  | some p ↦ some (p.wfd_url0, p.wfd_url1)
]

-- The values that the setter knows.
abbrev pub IsKnown : RtpPorts → Type 0
IsKnown r =
    ((r.trans ≡ 1) ⊎ (r.trans ≡ 2))
    × ((r.profile ≡ 1) ⊎ (r.profile ≡ 2))
    × ((r.lowertrans ≡ 1) ⊎ (r.lowertrans ≡ 2) ⊎ (r.lowertrans ≡ 4) ⊎ (r.lowertrans ≡ 8))

one_of_two : (P : ℕ → Type 0) (n : ℕ) → P 1 → P 2 → (n ≡ 1) ⊎ (n ≡ 2) → P n
one_of_two P n one two (inl e) = rw e one
one_of_two P n one two (inr e) = rw e two

one_of_four :
    (P : ℕ → Type 0) (n : ℕ) → P 1 → P 2 → P 4 → P 8 → (n ≡ 1) ⊎ (n ≡ 2) ⊎ (n ≡ 4) ⊎ (n ≡ 8) → P n
one_of_four P n one two four eight (inl e) = rw e one
one_of_four P n one two four eight (inr (inl e)) = rw e two
one_of_four P n one two four eight (inr (inr (inl e))) = rw e four
one_of_four P n one two four eight (inr (inr (inr e))) = rw e eight

module _ (port0 port1 : ℕ) (out : RtpPorts) (msg : WfdMessage) where
  abbrev ports : ℕ → ℕ → ℕ → RtpPorts
  ports t p l = record {
    trans = t;
    profile = p;
    lowertrans = l;
    rtp_port0 = port0;
    rtp_port1 = port1;
  }

  abbrev IsGotBack : ℕ → ℕ → ℕ → Type 0
  IsGotBack t p l =
      get_prefered_rtp_ports (set_prefered_rtp_ports (ports t p l) msg) out ≡ (true, ports t p l)

  each_value : (t p l : ℕ) → IsKnown (ports t p l) → IsGotBack t p l
  unfolding get_prefered_rtp_ports set_prefered_rtp_ports
  each_value t p l (ht, hp, hl) =
      one_of_two (λ t. IsGotBack t p l) t
        (one_of_two (λ p. IsGotBack 1 p l) p
          (one_of_four (λ l. IsGotBack 1 1 l) l refl refl refl refl hl)
          (one_of_four (λ l. IsGotBack 1 2 l) l refl refl refl refl hl) hp)
        (one_of_two (λ p. IsGotBack 2 p l) p
          (one_of_four (λ l. IsGotBack 2 1 l) l refl refl refl refl hl)
          (one_of_four (λ l. IsGotBack 2 2 l) l refl refl refl refl hl) hp)
        ht

-- The ports that were set are got back, with any known transport, profile and lower transport.
pub get-set_prefered_rtp_ports :
    (r out : RtpPorts) (msg : WfdMessage)
    → IsKnown r
    → get_prefered_rtp_ports (set_prefered_rtp_ports r msg) out ≡ (true, r)
get-set_prefered_rtp_ports r out msg h =
    each_value r.rtp_port0 r.rtp_port1 out msg r.trans r.profile r.lowertrans h
