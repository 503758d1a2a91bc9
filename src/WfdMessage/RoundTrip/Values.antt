-- ===== src/WfdMessage/RoundTrip/Values.antt =====
-- gst/rtsp-server/gstwfdmessage.c: the values that gst_wfd_message_as_text prints, as runs of bytes
-- between the ends of lines.
use gst_rtsp_server_wfd.Prelude.{
  ℕ, ◌<◌, refl, List, [], ◌∷◌, Option, none, some, All, All-append, ◌==◌, Bool-cases, inl, inr,
  lt→ltb,
}
use gst_rtsp_server_wfd.Text.{Text}
use gst_rtsp_server_wfd.WfdMessage.{AudioCodec, VideoCodec}
use gst_rtsp_server_wfd.WfdMessage.Read.{◌<>◌, codes}
use gst_rtsp_server_wfd.WfdMessage.Write.{hex, decimal_int, spaced, string}
use gst_rtsp_server_wfd.WfdMessage.WriteFormats.{
  codec_text, codecs_text, resolution_text, video_codec_value,
}
use gst_rtsp_server_wfd.WfdMessage.Lines.{IsLine, IsLineByte}
use gst_rtsp_server_wfd.WfdMessage.RoundTrip.Numbers.{hex-IsPlain, decimal-IsPlain}
use gst_rtsp_server_wfd.WfdMessage.RoundTrip.Words.{IsWordByte, IsPlain-IsWordByte}
use gst_rtsp_server_wfd.WfdMessage.RoundTrip.Params.{IsSomeWord, word-IsLine}
use gst_rtsp_server_wfd.WfdMessage.RoundTrip.Formats.{IsAudioCodec}

-- A value without the end of a line in it.
pub record IsValue (s : Text) : Type 0 where
  pub bytes : IsLine s

pub join_values : (s t : Text) → IsValue s → IsValue t → IsValue (s <> t)
join_values s t h k = record { bytes = All-append IsLineByte s t h.bytes k.bytes }

infixr 40 ◌next◌
abbrev pub ◌next◌ : {s t : Text} → IsValue s → IsValue t → IsValue (s <> t)
h next k = join_values _ _ h k

pub word-IsValue : (w : Text) → All IsWordByte w → IsValue (spaced w)
word-IsValue w h = record { bytes = ((refl, refl), word-IsLine w h) }

pub hex-IsValue : (width n : ℕ) → IsValue (spaced (hex width n))
hex-IsValue width n = word-IsValue _ (IsPlain-IsWordByte _ (hex-IsPlain width n))

pub decimal_int-IsValue : (n : ℕ) → n < 2147483648 → IsValue (spaced (decimal_int n))
unfolding decimal_int
decimal_int-IsValue n h =
    word-IsValue _
      (rw (decimal_int, lt→ltb n 2147483648 h) (IsPlain-IsWordByte _ (decimal-IsPlain n)))

resolution-IsValue : (n : ℕ) → IsValue (spaced (resolution_text n n))
resolution-IsValue n = elim (Bool-cases (n == 0)) [
  | inl e ↦ rw e (
      word-IsValue (codes "none")
        ((refl, refl), ((refl, refl), ((refl, refl), ((refl, refl), tt)))))
  | inr e ↦ rw e (hex-IsValue 4 n)
]

pub video_codec-IsValue : (c : VideoCodec) → IsValue (video_codec_value c)
unfolding video_codec_value
video_codec-IsValue c =
    let k = c.h264_codec in
    let p = k.misc_params in
    hex-IsValue 2 c.native
    next hex-IsValue 2 c.preferred_display_mode_supported
    next hex-IsValue 2 k.profile
    next hex-IsValue 2 k.level
    next hex-IsValue 8 p.cea_support
    next hex-IsValue 8 p.vesa_support
    next hex-IsValue 8 p.hh_support
    next hex-IsValue 2 p.latency
    next hex-IsValue 4 p.min_slice_size
    next hex-IsValue 4 p.slice_enc_params
    next hex-IsValue 2 p.frame_rate_control_support
    next resolution-IsValue k.max_hres
    next resolution-IsValue k.max_vres

pub some_word-IsValue : (o : Option Text) → IsSomeWord o → IsValue (spaced (string o))
some_word-IsValue none h = absurd h
some_word-IsValue (some w) h = word-IsValue w h.0

codec_text-IsValue : (c : AudioCodec) → IsAudioCodec c → IsValue (codec_text c)
codec_text-IsValue c h =
    some_word-IsValue c.audio_format h.0 next hex-IsValue 8 c.modes next hex-IsValue 2 c.latency

comma-IsValue : (s : Text) → IsValue s → IsValue (b',' ∷ s)
comma-IsValue s h = record { bytes = ((refl, refl), h.bytes) }

pub codecs_text-IsValue : (cs : List AudioCodec) → All IsAudioCodec cs → IsValue (codecs_text cs)
unfolding codecs_text
codecs_text-IsValue [] h = record { bytes = tt }
codecs_text-IsValue (c ∷ []) h = codec_text-IsValue c h.0
codecs_text-IsValue (c ∷ d ∷ cs) h =
    codec_text-IsValue c h.0 next comma-IsValue _ (codecs_text-IsValue (d ∷ cs) h.1)
