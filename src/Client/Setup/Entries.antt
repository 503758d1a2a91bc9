-- ===== src/Client/Setup/Entries.antt =====
-- What parse_transport of gst/rtsp-server/rtsp-client.c takes from a Transport header.
use gst_rtsp_server_wfd.Prelude.{
  ◌≡◌, refl, inl, inr, List, [], ◌∷◌, Bool, true, false, Option, none, some, if◌then◌else◌,
  Bool-cases,
}
use gst_rtsp_server_wfd.Client.State.{Requested}
use gst_rtsp_server_wfd.Client.Setup.{parse_entries, parse_transport}

-- The first transport of the list that the stream supports.
abbrev pub first_supported : (Requested → Bool) → List (Option Requested) → Option Requested
first_supported supported [] = none
first_supported supported (none ∷ entries) = first_supported supported entries
first_supported supported (some chosen ∷ entries) =
    if supported chosen then some chosen else first_supported supported entries

-- Whether the last entry is one that does not parse; `before` is the answer for an empty list.
abbrev ends_badly : Bool → List (Option Requested) → Bool
ends_badly before [] = before
ends_badly before (none ∷ entries) = ends_badly true entries
ends_badly before (some chosen ∷ entries) = ends_badly false entries

parse_entries_lem :
    (supported : Requested → Bool) (initial : Requested) (res : Bool)
    (entries : List (Option Requested))
    → parse_entries supported initial res entries ≡ elim (first_supported supported entries) [
      | none ↦ (ends_badly res entries, initial)
      | some chosen ↦ (true, chosen)
    ]
unfolding parse_entries
parse_entries_lem supported initial res [] = refl
parse_entries_lem supported initial res (none ∷ entries) =
    parse_entries_lem supported initial true entries
parse_entries_lem supported initial res (some chosen ∷ entries) =
    elim (Bool-cases (supported chosen)) [
      | inl e ↦ rw e refl
      | inr e ↦ rw e (parse_entries_lem supported initial false entries)
    ]

-- parse_transport answers true with the first transport of the header that the stream supports. If
-- there is none, the transport is the initial one, and the answer is true exactly if the last entry
-- does not parse.
pub parse_transport_lem :
    (supported : Requested → Bool) (initial : Requested) (entries : List (Option Requested))
    → parse_transport supported initial entries ≡ elim (first_supported supported entries) [
      | none ↦ (ends_badly false entries, initial)
      | some chosen ↦ (true, chosen)
    ]
unfolding parse_transport
parse_transport_lem supported initial entries = parse_entries_lem supported initial false entries
