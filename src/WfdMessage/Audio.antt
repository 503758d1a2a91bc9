-- ===== src/WfdMessage/Audio.antt =====
-- gst/rtsp-server/gstwfdmessage.c: the functions that set and get the audio formats. A result is none
-- where the code follows a null pointer.
use Prim.Native.Nat.{bit_or}
use gst_rtsp_server_wfd.Prelude.{
  ℕ, zero, suc, ◌+◌, ◌/◌, ◌%◌, List, [], ◌∷◌, Bool, true, false, not, Option, none, some, ◌==◌,
  if◌then◌else◌,
}
use gst_rtsp_server_wfd.Text.{Text, equal_texts}
use gst_rtsp_server_wfd.WfdMessage.{AudioCodec, AudioCodeclist, WfdMessage}
use gst_rtsp_server_wfd.WfdMessage.Read.{codes}

-- The arguments of the setters, and what the getters write.
pub record AudioFormat : Type 0 where
  pub a_codec : ℕ
  pub a_freq : ℕ
  pub a_channels : ℕ
  pub a_bitwidth : ℕ
  pub a_latency : ℕ

-- while (temp) { count++; temp >>= 1; }, for a number of `fuel` bits at most
unfoldable pub count_bits : ℕ → ℕ → ℕ
count_bits zero temp = 0
count_bits (suc fuel) temp = elim (temp == 0) [ true ↦ 0 | false ↦ 1 + count_bits fuel (temp / 2) ]

abbrev pub has_flag : ℕ → ℕ → Bool
has_flag flags bit = not (flags / bit % 2 == 0)

-- g_new0
abbrev pub no_codec : AudioCodec
no_codec = record { audio_format = none; modes = 0; latency = 0 }

abbrev pub codec_named : Text → ℕ → ℕ → AudioCodec
codec_named name modes latency = record {
  audio_format = some name;
  modes = modes;
  latency = latency;
}

-- The loop over the entries; `pcm`, `aac` and `ac3` tell what is asked for and not entered yet.
unfoldable pub fill_codecs : ℕ → AudioFormat → Bool → Bool → Bool → List AudioCodec
fill_codecs zero f pcm aac ac3 = []
fill_codecs (suc n) f true aac ac3 =
    codec_named (codes "LPCM") f.a_freq f.a_latency ∷ fill_codecs n f false aac ac3
fill_codecs (suc n) f false true ac3 =
    codec_named (codes "AAC") f.a_channels f.a_latency ∷ fill_codecs n f false false ac3
fill_codecs (suc n) f false false true =
    codec_named (codes "AC3") f.a_channels f.a_latency ∷ fill_codecs n f false false false
fill_codecs (suc n) f false false false = no_codec ∷ fill_codecs n f false false false

abbrev pub codecs_or_new : Option AudioCodeclist → AudioCodeclist
codecs_or_new none = record { count = 0; list = none }
codecs_or_new (some a) = a

-- gst_wfd_message_set_supported_audio_format; the count is added to that of a list that was there.
unfoldable pub set_supported_audio_format : AudioFormat → WfdMessage → WfdMessage
set_supported_audio_format f msg =
    let a = codecs_or_new msg.audio_codecs in
    let count = a.count + count_bits 32 f.a_codec in
    let list =
      fill_codecs count f (has_flag f.a_codec 1) (has_flag f.a_codec 2) (has_flag f.a_codec 4) in
    record msg {
      audio_codecs =
          some (if f.a_codec == 0 then a else record { count = count; list = some list });
    }

abbrev pub prefered_codec : AudioFormat → AudioCodec
prefered_codec f =
    if f.a_codec == 1
    then codec_named (codes "LPCM") f.a_freq f.a_latency
    else if f.a_codec == 2
    then codec_named (codes "AAC") f.a_channels f.a_latency
    else if f.a_codec == 4
    then codec_named (codes "AC3") f.a_channels f.a_latency
    else no_codec

-- gst_wfd_message_set_prefered_audio_format
unfoldable pub set_prefered_audio_format : AudioFormat → WfdMessage → WfdMessage
set_prefered_audio_format f msg = record msg {
  audio_codecs = some (record { count = 1; list = some (prefered_codec f ∷ []) });
}

-- g_strcmp0 with a string that may be null
abbrev pub is_text : Option Text → Text → Bool
is_text none t = false
is_text (some s) t = equal_texts s t

-- One turn of the loop of gst_wfd_message_get_supported_audio_format.
abbrev pub add_codec : AudioCodec → AudioFormat → AudioFormat
add_codec c out =
    if is_text c.audio_format (codes "LPCM")
    then record {
      a_codec = bit_or out.a_codec 1;
      a_freq = bit_or out.a_freq c.modes;
      a_channels = bit_or out.a_channels 1;
      a_bitwidth = 16;
      a_latency = c.latency;
    }
    else if is_text c.audio_format (codes "AAC")
    then record {
      a_codec = bit_or out.a_codec 2;
      a_freq = bit_or out.a_freq 2;
      a_channels = bit_or out.a_channels c.modes;
      a_bitwidth = 16;
      a_latency = c.latency;
    }
    else if is_text c.audio_format (codes "AC3")
    then record {
      a_codec = bit_or out.a_codec 4;
      a_freq = bit_or out.a_freq 2;
      a_channels = bit_or out.a_channels c.modes;
      a_bitwidth = 16;
      a_latency = c.latency;
    }
    else out

unfoldable pub add_codecs : List AudioCodec → AudioFormat → AudioFormat
add_codecs [] out = out
add_codecs (c ∷ cs) out = add_codecs cs (add_codec c out)

-- `list` has `count` entries; it is null if there are none.
abbrev pub codecs_of : AudioCodeclist → List AudioCodec
codecs_of a = elim a.list [ none ↦ [] | some cs ↦ cs ]

-- gst_wfd_message_get_supported_audio_format; false is GST_WFD_EINVAL
unfoldable pub get_supported_audio_format : WfdMessage → AudioFormat → Bool × AudioFormat
get_supported_audio_format msg out = elim msg.audio_codecs [
  | none ↦ (false, out)
  | some a ↦ (true, add_codecs (codecs_of a) out)
]

-- What is written for the first codec.
abbrev pub read_prefered : AudioCodec → AudioFormat → AudioFormat
read_prefered c out =
    if is_text c.audio_format (codes "LPCM")
    then record {
      a_codec = 1;
      a_freq = c.modes;
      a_channels = 1;
      a_bitwidth = 16;
      a_latency = c.latency;
    }
    else if is_text c.audio_format (codes "AAC")
    then record {
      a_codec = 2;
      a_freq = 2;
      a_channels = c.modes;
      a_bitwidth = 16;
      a_latency = c.latency;
    }
    else if is_text c.audio_format (codes "AC3")
    then record {
      a_codec = 4;
      a_freq = 2;
      a_channels = c.modes;
      a_bitwidth = 16;
      a_latency = c.latency;
    }
    else out

abbrev first_codec : List AudioCodec → AudioFormat → Option AudioFormat
first_codec [] out = none
first_codec (c ∷ cs) out = some (read_prefered c out)

-- gst_wfd_message_get_prefered_audio_format
unfoldable pub get_prefered_audio_format : WfdMessage → AudioFormat → Option AudioFormat
get_prefered_audio_format msg out = elim msg.audio_codecs [
  | none ↦ none
  | some a ↦ first_codec (codecs_of a) out
]
