-- ===== src/WfdMessage/RoundTrip/Steps.antt =====
-- gst/rtsp-server/gstwfdmessage.c: what gst_wfd_message_parse_buffer does with the line of one
-- parameter, and with lines one after the other.
use gst_rtsp_server_wfd.Prelude.{
  ℕ, ◌+◌, ◌≤◌, ◌≡◌, refl, subst, ◌∙◌, ap, List, [], ◌∷◌, Bool, true, false, not, ◌&&◌, Option, none,
  some, length, All, All-append, ◌==◌, if◌then◌else◌,
}
use gst_rtsp_server_wfd.Text.{Text}
use gst_rtsp_server_wfd.WfdMessage.{WfdMessage}
use gst_rtsp_server_wfd.WfdMessage.Read.{◌<>◌}
use gst_rtsp_server_wfd.WfdMessage.Write.{crlf, line_of}
use gst_rtsp_server_wfd.WfdMessage.Print.{line_if}
use gst_rtsp_server_wfd.WfdMessage.Parse.{is_line_end, top, run, parse_attribute, parse_value}
use gst_rtsp_server_wfd.WfdMessage.RoundTrip.Words.{append_assoc}
use gst_rtsp_server_wfd.WfdMessage.Lines.{
  IsLine, IsLineByte, written, behind, top_lem, length-written,
}
use gst_rtsp_server_wfd.WfdMessage.RoundTrip.Attribute.{
  IsTerminated, IsNameByte, written-IsTerminated, parse_attribute-line, parse_attribute-name,
}

-- `text` takes the parser from the message `m` to `m'`, at the start of a line.
pub record Takes (text : Text) (m m' : WfdMessage) : Type 0 where
  pub on :
      (b : List ℕ) (i : ℕ) (rest : Text)
      → length b ≡ 255
      → IsTerminated b
      → (b' : List ℕ) × (i' : ℕ) × (length b' ≡ 255)
        × IsTerminated b'
        × (run top (record { buffer = b; idx = i; msg = m }) (text <> rest)
            ≡ run top (record { buffer = b'; idx = i'; msg = m' }) rest)

pub nothing_taken : (m : WfdMessage) → Takes [] m m
nothing_taken m = record { on = λ b i rest size term. (b, i, size, term, refl) }

pub then_takes : (t u : Text) (k l m : WfdMessage) → Takes t k l → Takes u l m → Takes (t <> u) k m
then_takes t u k l m f g = record {
  on = λ b i rest size term.
      let (b', i', size', term', e) = f.on b i (u <> rest) size term in
      let (b'', i'', size'', term'', e') = g.on b' i' rest size' term' in
      (
        b'',
        i'',
        size'',
        term'',
        ap (λ s. run top (record { buffer = b; idx = i; msg = k }) s) (append_assoc t u rest)
            ∙ e
            ∙ e',
      );
}

infixr 30 ◌then◌
abbrev pub ◌then◌ :
    {t u : Text} {k l m : WfdMessage} → Takes t k l → Takes u l m → Takes (t <> u) k m
f then g = then_takes _ _ _ _ _ f g

-- A line whose parameter can be read.
line-Takes :
    (line : Text) (m m' : WfdMessage)
    → IsLine line
    → ((b : List ℕ)
        → length b ≡ 255
        → IsTerminated b
        → parse_attribute (written b line) m ≡ some m')
    → Takes (line <> crlf) m m'
line-Takes line m m' h reads = record {
  on = λ b i rest size term.
      let (idx, e) = top_lem line b i m rest h size in
      (
        written b line,
        idx,
        length-written b line ∙ size,
        written-IsTerminated b line term,
        ap (λ s. run top (record { buffer = b; idx = i; msg = m }) s) (append_assoc line crlf rest)
            ∙ e
            ∙ ap (λ o. behind (written b line) idx rest o) (reads b size term),
      );
}

abbrev pub OnSome {ℓ} : {A : Type 0} → (A → Type ℓ) → Option A → Type ℓ
OnSome P none = Unit
OnSome P (some a) = P a

-- The bytes of a name, as a test.
abbrev pub is_name : Text → Bool
is_name [] = true
is_name (c ∷ s) = not (c == b':') && not (c == 0) && not (is_line_end c) && is_name s

name_tests :
    (a b c d : Bool)
    → (not a && not b && not c && d) ≡ true
    → (a ≡ false) × (b ≡ false) × (c ≡ false) × (d ≡ true)
name_tests true b c d h = absurd (cc h)
name_tests false true c d h = absurd (cc h)
name_tests false false true d h = absurd (cc h)
name_tests false false false d h = (refl, refl, refl, h)

is_name-IsNameByte : (s : Text) → is_name s ≡ true → All IsNameByte s
is_name-IsNameByte [] h = tt
is_name-IsNameByte (c ∷ s) h =
    let (colon, nul, end, rest) = name_tests (c == b':') (c == 0) (is_line_end c) (is_name s) h in
    ((colon, nul), is_name-IsNameByte s rest)

pub is_name-IsLine : (s : Text) → is_name s ≡ true → IsLine s
is_name-IsLine [] h = tt
is_name-IsLine (c ∷ s) h =
    let (colon, nul, end, rest) = name_tests (c == b':') (c == 0) (is_line_end c) (is_name s) h in
    ((end, nul), is_name-IsLine s rest)

-- name ":" value, for a value that `parse_value` takes.
pub valued :
    (name value : Text) {m m' : WfdMessage}
    → is_name name ≡ true
    → IsLine value
    → length name + 1 + length value ≤ 254
    → parse_value name value m ≡ some m'
    → Takes (line_of name value) m m'
valued name value {m} {m'} hn hv small e =
    subst (λ t. Takes t m m') (append_assoc name (b':' ∷ value) crlf)
      (line-Takes (name <> b':' ∷ value) m m'
        (All-append IsLineByte name (b':' ∷ value) (is_name-IsLine name hn) ((refl, refl), hv))
        (λ b size term.
          parse_attribute-line b name value m (is_name-IsNameByte name hn) hv size small ∙ e))

-- A line of a name only, for a parameter that does not use its value.
pub nameless :
    (name : Text) {m m' : WfdMessage}
    → is_name name ≡ true
    → length name ≤ 250
    → ((value : Text) → parse_value name value m ≡ some m')
    → Takes (name <> crlf) m m'
nameless name {m} {m'} hn small e = line-Takes name m m' (is_name-IsLine name hn) (λ b size term.
    let (value, p) = parse_attribute-name b name m (is_name-IsNameByte name hn) term size small in
    p ∙ e value)

-- The line of an optional parameter; `put` sets its field.
pub optional {ℓ} :
    {A : Type 0} (P : A → Type ℓ) (text : A → Text) (put : Option A → WfdMessage) (o : Option A)
    → OnSome P o
    → ((a : A) → P a → Takes (text a) (put none) (put (some a)))
    → Takes (line_if text o) (put none) (put o)
optional P text put none h f = nothing_taken (put none)
optional P text put (some a) h f = f a h
