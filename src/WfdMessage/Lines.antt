-- ===== src/WfdMessage/Lines.antt =====
-- gst/rtsp-server/gstwfdmessage.c, gst_wfd_message_parse_buffer: what the loop over the bytes makes of
-- a text of lines that end in "\r\n".
use gst_rtsp_server_wfd.Prelude.{
  ℕ, suc, ◌+◌, ◌<◌, ◌≡◌, refl, ◌∙◌, ap, List, [], ◌∷◌, ◌++◌, true, false, Option, none, some,
  length, set, arith, All, ltb, ◌==◌, length-append, inl, inr, Option-cases, not_zero,
}
use gst_rtsp_server_wfd.Text.{Text}
use gst_rtsp_server_wfd.WfdMessage.{WfdMessage}
use gst_rtsp_server_wfd.WfdMessage.Parse.{
  top, scanning, is_line_end, store, end_line, scan_byte, step, run, parse_attribute, parse_buffer,
  clear_buffer, and_then,
}

-- No byte that ends a line or the text.
abbrev pub IsLineByte : ℕ → Type 0
IsLineByte c = (is_line_end c ≡ false) × ((c == 0) ≡ false)

abbrev pub IsLine : Text → Type 0
IsLine = All IsLineByte

-- A line over the bytes of the buffer, cut so that the last byte is left for the terminator.
abbrev pub written : List ℕ → Text → List ℕ
written [] line = []
written (x ∷ []) line = 0 ∷ []
written (x ∷ y ∷ buffer) [] = 0 ∷ y ∷ buffer
written (x ∷ y ∷ buffer) (c ∷ line) = c ∷ written (y ∷ buffer) line

-- The parameters of the lines, one after the other, with the buffer that they share.
abbrev pub parse_lines : List ℕ → WfdMessage → List Text → Option WfdMessage
parse_lines buffer msg [] = some msg
parse_lines buffer msg (line ∷ lines) =
    and_then (parse_attribute (written buffer line) msg)
      (λ msg'. parse_lines (written buffer line) msg' lines)

abbrev pub text_of_lines : List Text → Text
text_of_lines [] = 0 ∷ []
text_of_lines (line ∷ lines) = line ++ b'\r' ∷ b'\n' ∷ text_of_lines lines

pub length-written : (buffer : List ℕ) (line : Text) → length (written buffer line) ≡ length buffer
length-written [] line = refl
length-written (x ∷ []) line = refl
length-written (x ∷ y ∷ buffer) [] = refl
length-written (x ∷ y ∷ buffer) (c ∷ line) = ap suc (length-written (y ∷ buffer) line)

set-append :
    (pre : List ℕ) (x c : ℕ) (post : List ℕ)
    → set (pre ++ x ∷ post) (length pre) c ≡ pre ++ c ∷ post
set-append [] x c post = refl
set-append (y ∷ pre) x c post = ap (λ b. y ∷ b) (set-append pre x c post)

append_one : (pre : List ℕ) (c : ℕ) (post : List ℕ) → (pre ++ c ∷ []) ++ post ≡ pre ++ c ∷ post
append_one [] c post = refl
append_one (y ∷ pre) c post = ap (λ b. y ∷ b) (append_one pre c post)

-- The parser behind a line whose parameter has been read, if it could be.
abbrev pub behind : List ℕ → ℕ → Text → Option WfdMessage → Option WfdMessage
behind buffer idx rest o =
    and_then o (λ msg. run top (record { buffer = buffer; idx = idx; msg = msg }) rest)

end_lem :
    (buffer : List ℕ) (idx : ℕ) (msg : WfdMessage) (rest : Text) (buffer' : List ℕ)
    → set buffer idx 0 ≡ buffer'
    → run scanning (record { buffer = buffer; idx = idx; msg = msg }) (b'\r' ∷ b'\n' ∷ rest)
      ≡ behind buffer' idx rest (parse_attribute buffer' msg)
unfolding run end_line scan_byte step
end_lem buffer idx msg rest buffer' e = elim (Option-cases (parse_attribute buffer' msg)) [
  | inl x ↦ rw (run, step, scan_byte, end_line, e, x) refl
  | inr x ↦ rw (run, step, scan_byte, end_line, e, x.1, e) refl
]

-- The inner loop, with the bytes `pre` of the line stored.
scanning_lem :
    (line pre post : List ℕ) (msg : WfdMessage) (rest : Text)
    → IsLine line
    → 0 < length post
    → length pre + length post ≡ 255
    → (idx : ℕ) × (run scanning
          (record { buffer = pre ++ post; idx = length pre; msg = msg })
          (line ++ b'\r' ∷ b'\n' ∷ rest)
        ≡ behind
            (pre ++ written post line)
            idx
            rest
            (parse_attribute (pre ++ written post line) msg))
unfolding run scan_byte step
scanning_lem [] pre [] msg rest h some_left size = absurd (omega arith)
scanning_lem [] pre (x ∷ []) msg rest h some_left size =
    (length pre, end_lem _ _ _ _ _ (set-append pre x 0 []))
scanning_lem [] pre (x ∷ y ∷ post) msg rest h some_left size =
    (length pre, end_lem _ _ _ _ _ (set-append pre x 0 (y ∷ post)))
scanning_lem (c ∷ line) pre [] msg rest h some_left size = absurd (omega arith)
scanning_lem (c ∷ line) pre (x ∷ []) msg rest h some_left size =
    let full : ltb (length pre) 254 ≡ false = ground arith in
    let (idx, e) = scanning_lem line pre (x ∷ []) msg rest h.1 some_left size in
    (idx, rw (run, step, scan_byte, h.0.1, h.0.0, full) e)
scanning_lem (c ∷ line) pre (x ∷ y ∷ post) msg rest h some_left size =
    let room : ltb (length pre) 254 ≡ true = ground arith in
    let (idx, e) =
      scanning_lem line (pre ++ c ∷ []) (y ∷ post) msg rest h.1 (omega arith)
        (omega (arith, size, length-append pre (c ∷ []))) in
    let grown : length (pre ++ c ∷ []) ≡ length pre + 1 = length-append pre (c ∷ []) in
    let e' =
      rw (append_one pre c (y ∷ post), append_one pre c (written (y ∷ post) line), grown) at e in
    (idx, rw (run, step, scan_byte, h.0.1, h.0.0, store, room, set-append pre x c (y ∷ post)) e')

pub top_lem :
    (line buffer : List ℕ) (i : ℕ) (msg : WfdMessage) (rest : Text)
    → IsLine line
    → length buffer ≡ 255
    → (idx : ℕ) × (run top
          (record { buffer = buffer; idx = i; msg = msg })
          (line ++ b'\r' ∷ b'\n' ∷ rest)
        ≡ behind (written buffer line) idx rest (parse_attribute (written buffer line) msg))
unfolding run step
top_lem [] buffer i msg rest h size =
    scanning_lem [] [] buffer msg rest h (omega (arith, size)) (omega (arith, size))
top_lem (c ∷ line) buffer i msg rest h size =
    let (idx, e) =
      scanning_lem (c ∷ line) [] buffer msg rest h (omega (arith, size)) (omega (arith, size)) in
    (idx, rw (run, step, h.0.1) e)

each_message :
    {f g : WfdMessage → Option WfdMessage} (o : Option WfdMessage)
    → ((msg : WfdMessage) → f msg ≡ g msg)
    → and_then o f ≡ and_then o g
each_message none h = refl
each_message (some msg) h = h msg

run-parse_lines :
    (lines : List Text) (buffer : List ℕ) (i : ℕ) (msg : WfdMessage)
    → All IsLine lines
    → length buffer ≡ 255
    → run top (record { buffer = buffer; idx = i; msg = msg }) (text_of_lines lines)
      ≡ parse_lines buffer msg lines
unfolding run step
run-parse_lines [] buffer i msg h size = refl
run-parse_lines (line ∷ lines) buffer i msg h size =
    let (idx, e) = top_lem line buffer i msg (text_of_lines lines) h.0 size in
    e
    ∙ each_message (parse_attribute (written buffer line) msg) (λ msg'.
      run-parse_lines lines (written buffer line) idx msg' h.1 (length-written buffer line ∙ size))

-- A text of lines that end in CR and LF, none of them with a byte of these two or a zero in it, is
-- parsed one line after the other, whatever positive size is given: each line is written over what
-- is left in the buffer of 255 bytes, which cuts it to 254, and the parameter is read from there.
-- The first line that fails makes the whole fail.
pub parse_buffer-parse_lines :
    (lines : List Text) (size : ℕ) (msg : WfdMessage)
    → All IsLine lines
    → 0 < size
    → parse_buffer (text_of_lines lines) size msg ≡ parse_lines clear_buffer msg lines
unfolding parse_buffer
parse_buffer-parse_lines lines size msg h some_size =
    rw (not_zero size some_size) (run-parse_lines lines clear_buffer 0 msg h refl)
