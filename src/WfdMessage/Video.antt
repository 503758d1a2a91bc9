-- ===== src/WfdMessage/Video.antt =====
-- gst/rtsp-server/gstwfdmessage.c: the functions that set and get the video formats. A result is none
-- where the code follows a null pointer, or shifts a 1 out of an int.
use gst_rtsp_server_wfd.Prelude.{
  ℕ, zero, suc, ◌+◌, ◌-◌, ◌*◌, ◌/◌, ◌%◌, ◌^◌, ◌≤◌, ◌<◌, ◌≡◌, refl, sym, ◌∙◌, ap, false, Option,
  none, some, ◌==◌, if◌then◌else◌, u32, ltb, arith, lt→ltb, not_zero,
}
use gst_rtsp_server_wfd.WfdMessage.{VideoCodec, VideoCodeclist, WfdMessage}
use gst_rtsp_server_wfd.WfdMessage.Audio.{count_bits}

-- The arguments of the setters, and what the getters write.
pub record VideoFormat : Type 0 where
  pub v_codec : ℕ
  pub v_native : ℕ
  pub v_native_resolution : ℕ
  pub v_cea_resolution : ℕ
  pub v_vesa_resolution : ℕ
  pub v_hh_resolution : ℕ
  pub v_profile : ℕ
  pub v_level : ℕ
  pub v_latency : ℕ
  pub v_max_height : ℕ
  pub v_max_width : ℕ
  pub min_slice_size : ℕ
  pub slice_enc_params : ℕ
  pub frame_rate_control : ℕ

-- The flags of GstWFDVideoNativeResolution in `native`, whose low bits are clear.
abbrev pub native_flags : ℕ → ℕ
native_flags v_native = if v_native == 1 then 1 else if v_native == 2 then 2 else 0

abbrev pub codec_with : ℕ → ℕ → VideoFormat → VideoCodec
codec_with native supported f = record {
  native = native;
  preferred_display_mode_supported = supported;
  h264_codec = record {
    profile = f.v_profile;
    level = f.v_level;
    max_hres = f.v_max_height;
    max_vres = f.v_max_width;
    misc_params = record {
      cea_support = u32 f.v_cea_resolution;
      vesa_support = u32 f.v_vesa_resolution;
      hh_support = u32 f.v_hh_resolution;
      latency = f.v_latency;
      min_slice_size = f.min_slice_size;
      slice_enc_params = f.slice_enc_params;
      frame_rate_control_support = f.frame_rate_control;
    };
  };
}

abbrev pub formats_or_new : Option VideoCodeclist → VideoCodeclist
formats_or_new none = record { count = 0; list = none }
formats_or_new (some l) = l

-- gst_wfd_message_set_supported_video_format; the index wraps around if there is no resolution.
unfoldable pub set_supported_video_format : VideoFormat → WfdMessage → WfdMessage
set_supported_video_format f msg =
    let l = formats_or_new msg.video_formats in
    let index = u32 (count_bits 64 f.v_native_resolution + 4294967295) in
    let codec = codec_with (u32 (index * 8) + native_flags f.v_native) 1 f in
    record msg {
      video_formats = some (if f.v_codec == 0 then l else record l { list = some codec });
    }

-- gst_wfd_message_set_prefered_video_format
unfoldable pub set_prefered_video_format : VideoFormat → WfdMessage → WfdMessage
set_prefered_video_format f msg =
    let l = formats_or_new msg.video_formats in
    let index = count_bits 64 f.v_native_resolution - 1 in
    let codec = codec_with (u32 (index * 8) + native_flags f.v_native) 0 f in
    record msg { video_formats = some (record l { list = some codec }) }

-- 1 << nativeindex
abbrev pub shifted_one : ℕ → Option ℕ
shifted_one n = if ltb n 31 then some (2 ^ n) else none

abbrev pub format_of : VideoCodec → ℕ → VideoFormat
format_of c resolution = record {
  v_codec = 1;
  v_native = c.native % 8;
  v_native_resolution = resolution;
  v_cea_resolution = c.h264_codec.misc_params.cea_support;
  v_vesa_resolution = c.h264_codec.misc_params.vesa_support;
  v_hh_resolution = c.h264_codec.misc_params.hh_support;
  v_profile = c.h264_codec.profile;
  v_level = c.h264_codec.level;
  v_latency = c.h264_codec.misc_params.latency;
  v_max_height = c.h264_codec.max_hres;
  v_max_width = c.h264_codec.max_vres;
  min_slice_size = c.h264_codec.misc_params.min_slice_size;
  slice_enc_params = c.h264_codec.misc_params.slice_enc_params;
  frame_rate_control = c.h264_codec.misc_params.frame_rate_control_support;
}

abbrev pub with_resolution : VideoCodec → Option ℕ → Option VideoFormat
with_resolution c none = none
with_resolution c (some n) = some (format_of c n)

abbrev format_of_list : Option VideoCodec → Option VideoFormat
format_of_list none = none
format_of_list (some c) = with_resolution c (shifted_one (c.native / 8))

abbrev format_of_formats : Option VideoCodeclist → Option VideoFormat
format_of_formats none = none
format_of_formats (some l) = format_of_list l.list

-- gst_wfd_message_get_supported_video_format
unfoldable pub get_supported_video_format : WfdMessage → Option VideoFormat
get_supported_video_format msg = format_of_formats msg.video_formats

-- gst_wfd_message_get_prefered_video_format, which has the same body
unfoldable pub get_prefered_video_format : WfdMessage → Option VideoFormat
get_prefered_video_format msg = format_of_formats msg.video_formats

count_bits_zero : (fuel : ℕ) → count_bits fuel 0 ≡ 0
unfolding count_bits
count_bits_zero zero = refl
count_bits_zero (suc fuel) = refl

count_bits_power : (fuel k : ℕ) → k < fuel → count_bits fuel (2 ^ k) ≡ k + 1
unfolding count_bits
count_bits_power zero k h = absurd (omega arith)
count_bits_power (suc fuel) zero h = ap (λ n. 1 + n) (count_bits_zero fuel)
count_bits_power (suc fuel) (suc k) h =
    let half : 2 ^ suc k / 2 ≡ 2 ^ k = omega arith in
    let some_bit : (2 ^ suc k == 0) ≡ false = not_zero _ (omega (arith, pos k)) in
    rw (count_bits, some_bit, half) (omega (arith, count_bits_power fuel k (omega (arith, h))))
  where
    pos : (k : ℕ) → 0 < 2 ^ k
    pos zero = omega arith
    pos (suc k) = omega (arith, pos k)

-- The values of the arguments: a codec, one native resolution that an int can show, a kind of
-- resolution of the enumeration, and words of 32 bits.
pub record IsVideoFormat (f : VideoFormat) (k : ℕ) : Type 0 where
  pub v_codec : 0 < f.v_codec
  pub v_native : f.v_native ≤ 2
  pub v_native_resolution : f.v_native_resolution ≡ 2 ^ k
  pub below : k < 31
  pub v_cea_resolution : f.v_cea_resolution < 4294967296
  pub v_vesa_resolution : f.v_vesa_resolution < 4294967296
  pub v_hh_resolution : f.v_hh_resolution < 4294967296

word : (n : ℕ) → n < 4294967296 → u32 n ≡ n
word n small = omega (arith, small)

native_lem :
    (v k : ℕ)
    → v ≤ 2
    → k < 31
    → (native_flags v ≡ v) × (u32 (u32 (k + 1 + 4294967295) * 8) + v ≡ k * 8 + v)
native_lem v k h below = (ground arith, omega (arith, below))

-- The format that was set as supported, with one native resolution and words of 32 bits, is got back,
-- as H.264.
pub get-set_supported_video_format :
    (f : VideoFormat) (k : ℕ) (msg : WfdMessage)
    → IsVideoFormat f k
    → get_supported_video_format (set_supported_video_format f msg)
      ≡ some (record f { v_codec = 1 })
unfolding get_supported_video_format set_supported_video_format
get-set_supported_video_format f k msg h =
    let bits : count_bits 64 f.v_native_resolution ≡ k + 1 =
      ap (λ n. count_bits 64 n) h.v_native_resolution
      ∙ count_bits_power 64 k (omega (arith, h.below)) in
    let (flags, native) = native_lem f.v_native k h.v_native h.below in
    let low : (k * 8 + f.v_native) % 8 ≡ f.v_native = omega (arith, h.v_native) in
    let high : (k * 8 + f.v_native) / 8 ≡ k = omega (arith, h.v_native) in
    rw
      (
        not_zero f.v_codec h.v_codec,
        bits,
        flags,
        native,
        high,
        lt→ltb k 31 h.below,
        low,
        word f.v_cea_resolution h.v_cea_resolution,
        word f.v_vesa_resolution h.v_vesa_resolution,
        word f.v_hh_resolution h.v_hh_resolution,
        sym h.v_native_resolution,
      )
      refl
