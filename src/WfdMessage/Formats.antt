-- ===== src/WfdMessage/Formats.antt =====
-- gst/rtsp-server/gstwfdmessage.c, gst_wfd_parse_attribute: the parameters of audio and video formats,
-- content protection and the EDID.
use mathlib.Core.Option.{map}
use gst_rtsp_server_wfd.Prelude.{
  ℕ, zero, suc, ◌+◌, ◌-◌, ◌*◌, ◌/◌, ◌%◌, List, [], ◌∷◌, ◌++◌, ◌&&◌, Option, none, some, length, ltb,
  leb, ◌==◌, if◌then◌else◌, u32,
}
use gst_rtsp_server_wfd.Text.{Text}
use gst_rtsp_server_wfd.WfdMessage.{
  AudioCodec, AudioCodeclist, VideoCodec, VideoCodeclist, CapList3d, Formats3d, ContentProtection,
  DisplayEdid,
}
use gst_rtsp_server_wfd.WfdMessage.Read.{
  Reader, ◌>>=◌, finish, read_string, read_uint32, pass_comma, skip_space, contains, codes,
  buffer_size,
}

unfoldable pub read_codec : Reader AudioCodec
read_codec = do
  audio_format ← read_string
  modes ← read_uint32
  latency ← read_uint32
  c ← pass_comma
  finish (record { audio_format = audio_format; modes = modes; latency = latency })

unfoldable pub read_codecs : ℕ → Reader (List AudioCodec)
read_codecs zero = finish []
read_codecs (suc n) = do codec ← read_codec; codecs ← read_codecs n; finish (codec ∷ codecs)

-- g_new0 of no entries is a null pointer.
abbrev pub entries_or_null : List AudioCodec → Option (List AudioCodec)
entries_or_null [] = none
entries_or_null (c ∷ cs) = some (c ∷ cs)

unfoldable pub parse_audio_codecs : Text → AudioCodeclist
parse_audio_codecs [] = record { count = 0; list = none }
parse_audio_codecs (c ∷ v) =
    let count = length (c ∷ v) / 16 in
    record { count = count; list = entries_or_null (read_codecs count (c ∷ v)).0 }

-- The largest resolution is read if the display mode is supported.
unfoldable pub read_resolution : ℕ → Reader (ℕ × ℕ)
read_resolution supported =
    if supported == 1
    then (do hres ← read_uint32; vres ← read_uint32; finish (hres, vres))
    else finish (0, 0)

unfoldable pub read_video_codec : Reader VideoCodec
read_video_codec = do
  native ← read_uint32
  supported ← read_uint32
  profile ← read_uint32
  level ← read_uint32
  cea ← read_uint32
  vesa ← read_uint32
  hh ← read_uint32
  latency ← read_uint32
  slice ← read_uint32
  enc ← read_uint32
  rate ← read_uint32
  res ← read_resolution supported
  finish (record {
    native = native;
    preferred_display_mode_supported = supported;
    h264_codec = record {
      profile = profile;
      level = level;
      max_hres = res.0;
      max_vres = res.1;
      misc_params = record {
        cea_support = cea;
        vesa_support = vesa;
        hh_support = hh;
        latency = latency;
        min_slice_size = slice;
        slice_enc_params = enc;
        frame_rate_control_support = rate;
      };
    };
  })

unfoldable pub parse_video_formats : Text → VideoCodeclist
parse_video_formats [] = record { count = 0; list = none }
parse_video_formats (c ∷ v) = record { count = 1; list = some (read_video_codec (c ∷ v)).0 }

unfoldable pub read_cap_list : Reader CapList3d
read_cap_list = do
  native ← read_uint32
  supported ← read_uint32
  profile ← read_uint32
  level ← read_uint32
  capability ← read_uint32
  latency ← read_uint32
  slice ← read_uint32
  enc ← read_uint32
  rate ← read_uint32
  finish (record {
    native = native;
    preferred_display_mode_supported = supported;
    profile = profile;
    level = level;
    misc_params = record {
      video_3d_capability = capability;
      latency = latency;
      min_slice_size = slice;
      slice_enc_params = enc;
      frame_rate_control_support = rate;
    };
    max_hres = 0;
    max_vres = 0;
  })

-- The end of the branch reads the resolution of msg->video_formats, not that of the 3D formats;
-- none where the code follows a null pointer.
unfoldable pub update_resolution : Text → VideoCodec → VideoCodec
update_resolution v codec =
    if codec.preferred_display_mode_supported == 1
    then (let res = (read_resolution 1 v).0 in
        record codec {
          h264_codec = record codec.h264_codec { max_hres = res.0; max_vres = res.1 };
        })
    else codec

unfoldable pub update_formats : Text → Option VideoCodeclist → Option VideoCodeclist
update_formats v none = none
update_formats v (some l) =
    map (λ codec. record l { list = some (update_resolution v codec) }) l.list

-- The 3D formats, and the video formats after them.
unfoldable pub parse_3d_formats :
    Text → Option VideoCodeclist → Option (Formats3d × Option VideoCodeclist)
parse_3d_formats [] formats = some (record { count = 0; list = none }, formats)
parse_3d_formats (c ∷ v) formats =
    let (caps, rest) = read_cap_list (c ∷ v) in
    map (λ l. (record { count = 1; list = some caps }, some l)) (update_formats rest formats)

unfoldable pub parse_content_protection : Text → ContentProtection
parse_content_protection [] = record { hdcp2_spec = none }
parse_content_protection (c ∷ v) =
    let (version, rest) = read_string (c ∷ v) in
    if contains (skip_space (c ∷ v)) (codes "none")
    then record {
      hdcp2_spec = some (record { hdcpversion = some (codes "none"); tcp_port = none });
    }
    else record {
      hdcp2_spec = some (record { hdcpversion = version; tcp_port = (read_string rest).0 });
    }

-- A hexadecimal digit of the EDID; 0x2a to 0x2f and 0x3a to 0x3f count as digits too.
abbrev pub edid_digit : ℕ → ℕ
edid_digit c =
    if ltb 41 c && ltb c 64
    then u32 (c + 4294967248)
    else if ltb 96 c && ltb c 103
    then c - 87
    else if ltb 64 c && ltb c 71
    then c - 55
    else 0

-- The byte (k << 4) | kk, where a negative kk has the upper bits set.
abbrev pub edid_byte : ℕ → ℕ → ℕ
edid_byte k kk = if ltb kk 16 then k % 16 * 16 + kk else 240 + kk % 16

unfoldable pub edid_bytes : ℕ → List ℕ → List ℕ
edid_bytes zero s = []
edid_bytes (suc n) [] = []
edid_bytes (suc n) (c ∷ []) = []
edid_bytes (suc n) (c ∷ d ∷ s) = edid_byte (edid_digit c) (edid_digit d) ∷ edid_bytes n s

abbrev pub zeros : ℕ → List ℕ
zeros zero = []
zeros (suc n) = 0 ∷ zeros n

-- The loop reads 256 digits of each block from the cursor `v` on, in the buffer `value` that has
-- zeros behind its text; none where it reads outside of the buffer. `size` is the length of the text.
unfoldable pub edid_payload_of : ℕ → ℕ → Text → Option (List ℕ)
edid_payload_of size count v =
    let wanted = u32 (128 * count * 2) in
    if leb wanted (buffer_size - (size - length v))
    then some (edid_bytes (wanted / 2) (v ++ zeros wanted))
    else none

unfoldable pub parse_display_edid : Text → Option DisplayEdid
parse_display_edid [] =
    some (record { edid_supported = 0; edid_block_count = 0; edid_payload = none })
parse_display_edid (c ∷ v) =
    let (count, rest) = read_uint32 (c ∷ v) in
    let payload = edid_payload_of (length (c ∷ v)) count (skip_space rest) in
    if contains (skip_space (c ∷ v)) (codes "none")
    then some (record { edid_supported = 0; edid_block_count = 0; edid_payload = none })
    else if count == 0
    then some (record { edid_supported = 1; edid_block_count = 0; edid_payload = none })
    else map (λ p. record { edid_supported = 1; edid_block_count = count; edid_payload = some p })
        payload
