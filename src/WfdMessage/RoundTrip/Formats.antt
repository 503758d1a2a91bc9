-- ===== src/WfdMessage/RoundTrip/Formats.antt =====
-- gst/rtsp-server/gstwfdmessage.c: audio and video formats and content protection, printed and parsed.
use gst_rtsp_server_wfd.Prelude.{
  ℕ, ◌/◌, ◌≤◌, ◌<◌, ◌≡◌, refl, sym, ◌∙◌, ap, List, [], ◌∷◌, false, Option, none, some, length,
  arith, All, ◌==◌, inl, inr, ◌⊎◌, Bool-cases, ==_iff,
}
use gst_rtsp_server_wfd.Text.{Text}
use gst_rtsp_server_wfd.WfdMessage.{AudioCodec, MiscParams, VideoCodec}
use gst_rtsp_server_wfd.WfdMessage.Read.{
  ◌<>◌, codes, digits, contains, read_uint32, skip_comma, is_punct,
}
use gst_rtsp_server_wfd.WfdMessage.Write.{hex, spaced}
use gst_rtsp_server_wfd.WfdMessage.WriteFormats.{
  codec_text, codecs_text, resolution_text, video_codec_value, content_protection_value,
}
use gst_rtsp_server_wfd.WfdMessage.Formats.{
  entries_or_null, read_codec, read_codecs, parse_audio_codecs, read_resolution, read_video_codec,
  parse_video_formats, parse_content_protection,
}
use gst_rtsp_server_wfd.WfdMessage.RoundTrip.Numbers.{IsPlain}
use gst_rtsp_server_wfd.WfdMessage.RoundTrip.Words.{
  append_assoc, IsWord, IsBehindWord, read_string-append, read_uint32-hex, read_uint32-hex-extra,
  read_uint32-none,
}
use gst_rtsp_server_wfd.WfdMessage.RoundTrip.Params.{IsSomeWord, append_nil, last_word}

abbrev pub IsWord32 : ℕ → Type 0
IsWord32 n = n < 4294967296

abbrev pub IsAudioCodec : AudioCodec → Type 0
IsAudioCodec c = IsSomeWord c.audio_format × IsWord32 c.modes × IsWord32 c.latency

comma-IsPlain :
    (n : ℕ) (extra : Text)
    → (extra ≡ []) ⊎ (extra ≡ b',' ∷ [])
    → All IsPlain extra × (length extra ≤ 1) × (digits 16 n extra ≡ n)
unfolding digits
comma-IsPlain n extra (inl e) = rw e (tt, omega arith, refl)
comma-IsPlain n extra (inr e) =
    rw e (((refl, refl, refl, refl, refl, refl, refl), tt), omega arith, refl)

no_comma : (tail : Text) → IsBehindWord tail → skip_comma tail ≡ tail
no_comma [] h = refl
no_comma (c ∷ tail) h = let p : is_punct c ≡ false = ground (arith, h) in rw p refl

-- A codec, with a comma behind it or not.
read_codec-text :
    (w : Text) (modes latency : ℕ) (extra tail : Text)
    → IsWord w
    → IsWord32 modes
    → IsWord32 latency
    → (extra ≡ []) ⊎ (extra ≡ b',' ∷ [])
    → IsBehindWord tail
    → read_codec (spaced w <> spaced (hex 8 modes) <> spaced (hex 2 latency) <> extra <> tail)
      ≡ (record { audio_format = some w; modes = modes; latency = latency }, tail)
unfolding read_codec
read_codec-text w modes latency extra tail h small0 small1 comma b =
    let f =
      read_string-append w (spaced (hex 8 modes) <> spaced (hex 2 latency) <> extra <> tail) h.0
        (omega (arith, h.1)) refl in
    let m =
      read_uint32-hex 8 modes (spaced (hex 2 latency) <> extra <> tail) small0 (omega arith) refl in
    let l =
      read_uint32-hex-extra 2 latency extra tail small1 (omega arith)
        (comma-IsPlain latency extra comma).0 (comma-IsPlain latency extra comma).1
        (comma-IsPlain latency extra comma).2 b in
    rw (f, m, l, no_comma tail b) refl

-- The largest resolution is read as it is printed, "none" as 0.
read_uint32-resolution :
    (n : ℕ) (tail : Text)
    → IsWord32 n
    → IsBehindWord tail
    → read_uint32 (spaced (resolution_text n n) <> tail) ≡ (n, tail)
read_uint32-resolution n tail small b = elim (Bool-cases (n == 0)) [
  | inl e ↦ rw e (read_uint32-none tail b ∙ ap (λ k. (k, tail)) (sym ((==_iff n 0).0 e)))
  | inr e ↦ rw e (read_uint32-hex 4 n tail small (omega arith) b)
]

abbrev pub IsMiscParams : MiscParams → Type 0
IsMiscParams m =
    IsWord32 m.cea_support
    × IsWord32 m.vesa_support
    × IsWord32 m.hh_support
    × IsWord32 m.latency
    × IsWord32 m.min_slice_size
    × IsWord32 m.slice_enc_params
    × IsWord32 m.frame_rate_control_support

-- All numbers have 32 bits, and there is a largest resolution only with the preferred display mode.
abbrev pub IsVideoCodec : VideoCodec → Type 0
IsVideoCodec c =
    IsWord32 c.native
    × IsWord32 c.preferred_display_mode_supported
    × IsWord32 c.h264_codec.profile
    × IsWord32 c.h264_codec.level
    × IsMiscParams c.h264_codec.misc_params
    × IsWord32 c.h264_codec.max_hres
    × IsWord32 c.h264_codec.max_vres
    × ((c.preferred_display_mode_supported ≡ 1)
        ⊎ ((c.h264_codec.max_hres ≡ 0) × (c.h264_codec.max_vres ≡ 0)))

read_resolution-one :
    (hres vres : ℕ)
    → IsWord32 hres
    → IsWord32 vres
    → (read_resolution 1
        (spaced (resolution_text hres hres) <> spaced (resolution_text vres vres))).0
      ≡ (hres, vres)
unfolding read_resolution
read_resolution-one hres vres h k =
    let e = read_uint32-resolution hres (spaced (resolution_text vres vres)) h refl in
    let f =
      ap (λ s. read_uint32 s) (sym (append_nil (spaced (resolution_text vres vres))))
      ∙ read_uint32-resolution vres [] k tt in
    ap (λ x. (x.0, (read_uint32 x.1).0)) e ∙ ap (λ x. (hres, x.0)) f

-- The resolution is read if there is a preferred display mode.
read_resolution-text :
    (supported hres vres : ℕ)
    → IsWord32 hres
    → IsWord32 vres
    → (supported ≡ 1) ⊎ ((hres ≡ 0) × (vres ≡ 0))
    → (read_resolution supported
        (spaced (resolution_text hres hres) <> spaced (resolution_text vres vres))).0
      ≡ (hres, vres)
unfolding read_resolution
read_resolution-text supported hres vres h k (inl e) = rw e (read_resolution-one hres vres h k)
read_resolution-text supported hres vres h k (inr (z, z')) = elim (Bool-cases (supported == 1)) [
  | inl e ↦ rw ((==_iff supported 1).0 e) (read_resolution-one hres vres h k)
  | inr e ↦ rw (read_resolution, e, z, z') refl
]

pub video_formats_lem :
    (c : VideoCodec)
    → IsVideoCodec c
    → parse_video_formats (video_codec_value c) ≡ record { count = 1; list = some c }
unfolding parse_video_formats read_video_codec video_codec_value
video_formats_lem c (native, supported, profile, level, misc, hres, vres, mode) =
    let k = c.h264_codec in
    let p = k.misc_params in
    let (cea, vesa, hh, latency, slice, enc, rate) = misc in
    let t12 =
      spaced (resolution_text k.max_hres k.max_hres)
      <> spaced (resolution_text k.max_vres k.max_vres) in
    let t11 = spaced (hex 2 p.frame_rate_control_support) <> t12 in
    let t10 = spaced (hex 4 p.slice_enc_params) <> t11 in
    let t9 = spaced (hex 4 p.min_slice_size) <> t10 in
    let t8 = spaced (hex 2 p.latency) <> t9 in
    let t7 = spaced (hex 8 p.hh_support) <> t8 in
    let t6 = spaced (hex 8 p.vesa_support) <> t7 in
    let t5 = spaced (hex 8 p.cea_support) <> t6 in
    let t4 = spaced (hex 2 k.level) <> t5 in
    let t3 = spaced (hex 2 k.profile) <> t4 in
    let t2 = spaced (hex 2 c.preferred_display_mode_supported) <> t3 in
    rw
      (
        read_uint32-hex 2 c.native t2 native (omega arith) refl,
        read_uint32-hex 2 c.preferred_display_mode_supported t3 supported (omega arith) refl,
        read_uint32-hex 2 k.profile t4 profile (omega arith) refl,
        read_uint32-hex 2 k.level t5 level (omega arith) refl,
        read_uint32-hex 8 p.cea_support t6 cea (omega arith) refl,
        read_uint32-hex 8 p.vesa_support t7 vesa (omega arith) refl,
        read_uint32-hex 8 p.hh_support t8 hh (omega arith) refl,
        read_uint32-hex 2 p.latency t9 latency (omega arith) refl,
        read_uint32-hex 4 p.min_slice_size t10 slice (omega arith) refl,
        read_uint32-hex 4 p.slice_enc_params t11 enc (omega arith) refl,
        read_uint32-hex 2 p.frame_rate_control_support t12 rate (omega arith) refl,
        read_resolution-text c.preferred_display_mode_supported k.max_hres k.max_vres hres vres
            mode,
      )
      refl

codec_assoc : (s t u v : Text) → (s <> t <> u) <> v ≡ s <> t <> u <> v
codec_assoc s t u v = append_assoc s (t <> u) v ∙ ap (λ w. s <> w) (append_assoc t u v)

-- A codec of the list and what follows it, a comma or the end.
read_codec-codec_text :
    (format : Option Text) (modes latency : ℕ) (extra tail : Text)
    → IsSomeWord format
    → IsWord32 modes
    → IsWord32 latency
    → (extra ≡ []) ⊎ (extra ≡ b',' ∷ [])
    → IsBehindWord tail
    → read_codec (
        codec_text (record { audio_format = format; modes = modes; latency = latency })
        <> extra
        <> tail)
      ≡ (record { audio_format = format; modes = modes; latency = latency }, tail)
read_codec-codec_text none modes latency extra tail h m l comma b = absurd h
read_codec-codec_text (some w) modes latency extra tail h m l comma b =
    ap (λ s. read_codec s)
      (codec_assoc (spaced w) (spaced (hex 8 modes)) (spaced (hex 2 latency)) (extra <> tail))
    ∙ read_codec-text w modes latency extra tail h m l comma b

starts_spaced : (c : AudioCodec) (cs : List AudioCodec) → IsBehindWord (codecs_text (c ∷ cs))
unfolding codecs_text
starts_spaced c [] = refl
starts_spaced c (d ∷ cs) = refl

read_codecs-codecs_text :
    (cs : List AudioCodec) → All IsAudioCodec cs → (read_codecs (length cs) (codecs_text cs)).0 ≡ cs
unfolding read_codecs codecs_text
read_codecs-codecs_text [] h = refl
read_codecs-codecs_text (c ∷ []) h =
    let e =
      read_codec-codec_text c.audio_format c.modes c.latency [] [] h.0.0 h.0.1 h.0.2 (inl refl)
        tt in
    ap (λ x. x.0 ∷ []) (ap (λ s. read_codec s) (sym (append_nil (codec_text c))) ∙ e)
read_codecs-codecs_text (c ∷ d ∷ cs) h =
    let e =
      read_codec-codec_text c.audio_format c.modes c.latency (b',' ∷ []) (codecs_text (d ∷ cs))
        h.0.0 h.0.1 h.0.2 (inr refl) (starts_spaced d cs) in
    ap (λ x. x.0 ∷ (read_codecs (length (d ∷ cs)) x.1).0) e
    ∙ ap (λ l. c ∷ l) (read_codecs-codecs_text (d ∷ cs) h.1)

-- The parser takes one codec for each 16 bytes of the value.
pub audio_codecs_lem :
    (c : AudioCodec) (cs : List AudioCodec)
    → All IsAudioCodec (c ∷ cs)
    → length (codecs_text (c ∷ cs)) / 16 ≡ length (c ∷ cs)
    → parse_audio_codecs (codecs_text (c ∷ cs))
      ≡ record { count = length (c ∷ cs); list = some (c ∷ cs) }
unfolding parse_audio_codecs
audio_codecs_lem c cs h counted =
    nonempty (codecs_text (c ∷ cs)) (starts_spaced c cs) (omega (arith, counted))
    ∙ rw counted (
        ap (λ l. record { count = length (c ∷ cs); list = entries_or_null l })
          (read_codecs-codecs_text (c ∷ cs) h))
  where
    nonempty :
        (s : Text)
        → IsBehindWord s
        → 0 < length s
        → parse_audio_codecs s ≡ record {
          count = length s / 16;
          list = entries_or_null (read_codecs (length s / 16) s).0;
        }
    nonempty [] b h = absurd (omega arith)
    nonempty (x ∷ s) b h = refl

pub content_protection_lem :
    (version port : Text)
    → IsWord version
    → IsWord port
    → contains (version <> spaced port) (codes "none") ≡ false
    → parse_content_protection (
        content_protection_value (record {
          hdcp2_spec = some (record { hdcpversion = some version; tcp_port = some port });
        }))
      ≡ record { hdcp2_spec = some (record { hdcpversion = some version; tcp_port = some port }) }
unfolding parse_content_protection content_protection_value
content_protection_lem version port h k known =
    let e = read_string-append version (spaced port) h.0 (omega (arith, h.1)) refl in
    rw (known, e, last_word port k) refl
