-- ===== src/WfdMessage/RoundTrip/Attribute.antt =====
-- gst/rtsp-server/gstwfdmessage.c: how gst_wfd_parse_attribute splits the line of a parameter that
-- stands in the buffer.
use mathlib.Core.Option.{map}
use gst_rtsp_server_wfd.Prelude.{
  ℕ, ◌+◌, ◌≤◌, ◌<◌, ◌≡◌, refl, sym, subst, ◌∙◌, ap, List, [], ◌∷◌, false, some, length, arith, All,
  ◌==◌, lt→ltb, length-append, Bool-cases, inl, inr,
}
use gst_rtsp_server_wfd.Text.{Text}
use gst_rtsp_server_wfd.WfdMessage.{WfdMessage}
use gst_rtsp_server_wfd.WfdMessage.Read.{◌<>◌, read_until, buffer_size}
use gst_rtsp_server_wfd.WfdMessage.Parse.{
  parse_attribute, parse_value, read_string_attr_and_value, split_at, text_at, stored, and_then,
}
use gst_rtsp_server_wfd.WfdMessage.RoundTrip.Words.{append_assoc}
use gst_rtsp_server_wfd.WfdMessage.Lines.{IsLine, written, length-written}

-- The last byte of the buffer is a terminator.
abbrev pub IsTerminated : List ℕ → Type 0
IsTerminated [] = ⊥
IsTerminated (x ∷ []) = x ≡ 0
IsTerminated (x ∷ y ∷ b) = IsTerminated (y ∷ b)

pub written-IsTerminated :
    (b : List ℕ) (line : Text) → IsTerminated b → IsTerminated (written b line)
written-IsTerminated [] line h = h
written-IsTerminated (x ∷ []) line h = refl
written-IsTerminated (x ∷ y ∷ b) [] h = h
written-IsTerminated (x ∷ y ∷ []) (c ∷ line) h = refl
written-IsTerminated (x ∷ y ∷ z ∷ b) (c ∷ []) h = h
written-IsTerminated (x ∷ y ∷ z ∷ b) (c ∷ d ∷ line) h =
    written-IsTerminated (y ∷ z ∷ b) (d ∷ line) h

text_at_terminated : (b : List ℕ) → IsTerminated b → (s : Text) × (text_at b ≡ some s)
unfolding text_at
text_at_terminated [] h = absurd h
text_at_terminated (x ∷ []) h = ([], rw (text_at, h) refl)
text_at_terminated (x ∷ y ∷ b) h =
    let (s, e) = text_at_terminated (y ∷ b) h in
    elim (Bool-cases (x == 0)) [
      | inl z ↦ ([], rw (text_at, z) refl)
      | inr z ↦ (x ∷ s, rw z (ap (λ o. map (λ t. x ∷ t) o) e))
    ]

-- A line that fits stands whole in the buffer, with a terminator behind it.
written_whole :
    (b : List ℕ) (line : Text)
    → length line < length b
    → (rest : List ℕ) × (written b line ≡ line <> 0 ∷ rest)
written_whole [] line h = absurd (omega arith)
written_whole (x ∷ []) [] h = ([], refl)
written_whole (x ∷ []) (c ∷ line) h = absurd (omega (arith, h))
written_whole (x ∷ y ∷ b) [] h = (y ∷ b, refl)
written_whole (x ∷ y ∷ b) (c ∷ line) h =
    let (rest, e) = written_whole (y ∷ b) line (omega (arith, h)) in (rest, ap (λ s. c ∷ s) e)

-- A byte of the name of a parameter.
abbrev pub IsNameByte : ℕ → Type 0
IsNameByte c = ((c == b':') ≡ false) × ((c == 0) ≡ false)

split_at-append :
    (name : Text) (rest : List ℕ)
    → All IsNameByte name
    → split_at b':' (name <> b':' ∷ rest) ≡ some (name, rest)
unfolding split_at
split_at-append [] rest h = refl
split_at-append (c ∷ name) rest h = rw (split_at, h.0.0, h.0.1, split_at-append name rest h.1) refl

text_at-append :
    (value : Text) (rest : List ℕ) → IsLine value → text_at (value <> 0 ∷ rest) ≡ some value
unfolding text_at
text_at-append [] rest h = refl
text_at-append (c ∷ value) rest h = rw (text_at, h.0.1, text_at-append value rest h.1) refl

stored_whole :
    (s : Text) (idx : ℕ) → idx + length s ≤ 8191 → read_until (λ c. false) buffer_size idx s ≡ s
unfolding read_until
stored_whole [] idx h = refl
stored_whole (c ∷ s) idx h =
    rw (read_until, lt→ltb idx 8191 (omega (arith, h)))
      (ap (λ t. c ∷ t) (stored_whole s (idx + 1) (omega (arith, h))))

split_at_nameless :
    (name : Text) (rest : List ℕ)
    → All IsNameByte name
    → split_at b':' (name <> 0 ∷ rest) ≡ some (name, rest)
unfolding split_at
split_at_nameless [] rest h = refl
split_at_nameless (c ∷ name) rest h =
    rw (split_at, h.0.0, h.0.1, split_at_nameless name rest h.1) refl

behind_name :
    (name rest : List ℕ) → 0 < length rest → IsTerminated (name <> 0 ∷ rest) → IsTerminated rest
behind_name [] [] some_left h = absurd (omega arith)
behind_name [] (x ∷ rest) some_left h = h
behind_name (c ∷ []) rest some_left h = behind_name [] rest some_left h
behind_name (c ∷ d ∷ name) rest some_left h = behind_name (d ∷ name) rest some_left h

read-line :
    (name value rest : List ℕ)
    → All IsNameByte name
    → IsLine value
    → length name + 1 + length value ≤ 254
    → read_string_attr_and_value buffer_size buffer_size b':' (name <> b':' ∷ value <> 0 ∷ rest)
      ≡ some (name, value)
unfolding read_string_attr_and_value
read-line name value rest hn hv small =
    rw
      (
        read_string_attr_and_value,
        split_at-append name (value <> 0 ∷ rest) hn,
        text_at-append value rest hv,
        stored_whole name 0 (omega (arith, small)),
        stored_whole value 0 (omega (arith, small)),
      )
      refl

-- The line of a parameter with a value.
pub parse_attribute-line :
    (b : List ℕ) (name value : Text) (msg : WfdMessage)
    → All IsNameByte name
    → IsLine value
    → length b ≡ 255
    → length name + 1 + length value ≤ 254
    → parse_attribute (written b (name <> b':' ∷ value)) msg ≡ parse_value name value msg
unfolding parse_attribute
parse_attribute-line b name value msg hn hv size small =
    let l = length-append name (b':' ∷ value) in
    let (rest, e) = written_whole b (name <> b':' ∷ value) (omega (arith, l, size, small)) in
    ap (λ o. and_then o (λ x. parse_value x.0 x.1 msg))
      (ap (λ m. read_string_attr_and_value buffer_size buffer_size b':' m)
          (e ∙ append_assoc name (b':' ∷ value) (0 ∷ rest))
        ∙ read-line name value rest hn hv small)

read-name :
    (name rest : List ℕ) (s : Text)
    → All IsNameByte name
    → text_at rest ≡ some s
    → length name ≤ 250
    → read_string_attr_and_value buffer_size buffer_size b':' (name <> 0 ∷ rest)
      ≡ some (name, stored buffer_size s)
unfolding read_string_attr_and_value
read-name name rest s hn at small =
    rw
      (
        read_string_attr_and_value,
        split_at_nameless name rest hn,
        at,
        stored_whole name 0 (omega (arith, small)),
      )
      refl

-- The line of a parameter without a value; what the buffer has behind its name is the value.
pub parse_attribute-name :
    (b : List ℕ) (name : Text) (msg : WfdMessage)
    → All IsNameByte name
    → IsTerminated b
    → length b ≡ 255
    → length name ≤ 250
    → (value : Text) × (parse_attribute (written b name) msg ≡ parse_value name value msg)
unfolding parse_attribute read_string_attr_and_value
parse_attribute-name b name msg hn term size small =
    let (rest, e) = written_whole b name (omega (arith, size, small)) in
    let long = sym (ap length e) ∙ length-written b name in
    let ends : IsTerminated (name <> 0 ∷ rest) =
      subst IsTerminated e (written-IsTerminated b name term) in
    let (s, at) = text_at_terminated rest (
      behind_name name rest (omega (arith, long, size, small, length-append name (0 ∷ rest)))
        ends) in
    (
      stored buffer_size s,
      ap (λ o. and_then o (λ x. parse_value x.0 x.1 msg))
          (ap (λ m. read_string_attr_and_value buffer_size buffer_size b':' m) e
            ∙ read-name name rest s hn at small),
    )
