-- ===== src/Client/Sanitize.antt =====
-- The result of sanitize_uri in gst/rtsp-server/rtsp-client.c.
use gst_rtsp_server_wfd.Prelude.{
  ℕ, ◌≡◌, refl, sym, ◌∙◌, ap, inl, inr, List, [], ◌∷◌, Bool, true, false, ◌&&◌, length, ltb, ◌==◌,
  if◌then◌else◌, arith, Bool-cases,
}
use gst_rtsp_server_wfd.Text.{Text, slash}
use gst_rtsp_server_wfd.Client.{copy_path, ends_in_slash, drop_last, sanitize_uri}

-- No two slashes are side by side.
abbrev pub HasNoDouble : Bool → Text → Type 0
HasNoDouble prev_slash [] = Unit
HasNoDouble prev_slash (c ∷ s) = ((prev_slash && (c == slash)) ≡ false) × HasNoDouble (c == slash) s

-- A clean path has no double slash, and no slash at its end unless it is "/".
pub record IsClean (s : Text) : Type 0 where
  pub no_double : HasNoDouble false s
  pub no_last : (ltb 1 (length s) && ends_in_slash s) ≡ false

copy_path-HasNoDouble : (b : Bool) (s : Text) → HasNoDouble b (copy_path b s)
unfolding copy_path
copy_path-HasNoDouble b [] = tt
copy_path-HasNoDouble true (c ∷ s) = elim (Bool-cases (c == slash)) [
  | inl e ↦ rw (e, copy_path) (copy_path-HasNoDouble true s)
  | inr e ↦ rw (e, copy_path) (e, rw e (copy_path-HasNoDouble false s))
]
copy_path-HasNoDouble false (c ∷ s) = elim (Bool-cases (c == slash)) [
  | inl e ↦ rw (e, copy_path) (refl, rw e (copy_path-HasNoDouble true s))
  | inr e ↦ rw (e, copy_path) (refl, rw e (copy_path-HasNoDouble false s))
]

-- What the loop does to a text without double slashes is nothing.
copy_path_same : (b : Bool) (s : Text) → HasNoDouble b s → copy_path b s ≡ s
unfolding copy_path
copy_path_same b [] h = refl
copy_path_same b (c ∷ s) h = ground (arith, h.0, copy_path_same (c == slash) s h.1)

drop_last-HasNoDouble : (b : Bool) (s : Text) → HasNoDouble b s → HasNoDouble b (drop_last s)
drop_last-HasNoDouble b [] h = tt
drop_last-HasNoDouble b (c ∷ []) h = tt
drop_last-HasNoDouble b (c ∷ d ∷ s) h = (h.0, drop_last-HasNoDouble (c == slash) (d ∷ s) h.1)

-- Before a slash at the end of a text without double slashes is none.
drop_last_ends :
    (b : Bool) (s : Text)
    → HasNoDouble b s
    → ends_in_slash s ≡ true
    → ends_in_slash (drop_last s) ≡ false
drop_last_ends b [] h e = refl
drop_last_ends b (c ∷ []) h e = refl
drop_last_ends b (c ∷ d ∷ []) h e = ground (arith, h.1.0, e)
drop_last_ends b (c ∷ d ∷ x ∷ s) h e = drop_last_ends (c == slash) (d ∷ x ∷ s) h.1 e

sanitize_uri-IsClean : (abspath : Text) → IsClean (sanitize_uri abspath)
unfolding sanitize_uri
sanitize_uri-IsClean abspath =
    let s = copy_path false abspath in
    let single = copy_path-HasNoDouble false abspath in
    elim (Bool-cases (ltb 1 (length s) && ends_in_slash s)) [
      | inl e ↦
          rw (e, sanitize_uri)
            (record {
              no_double = drop_last-HasNoDouble false s single;
              no_last = ground (arith, drop_last_ends false s single, e);
            })
      | inr e ↦ rw (e, sanitize_uri) (record { no_double = single; no_last = e })
    ]

sanitize_uri_same : (s : Text) → IsClean s → sanitize_uri s ≡ s
unfolding sanitize_uri
sanitize_uri_same s h = rw (sanitize_uri, copy_path_same false s h.no_double, h.no_last) refl

-- The segments of a path are the texts between its slashes that are not empty.
abbrev add_segment : Text → List Text → List Text
add_segment [] ws = ws
add_segment (c ∷ w) ws = (c ∷ w) ∷ ws

-- The text up to the first slash, and the segments behind it.
abbrev cut : Text → Text × List Text
cut [] = ([], [])
cut (c ∷ s) = let (w, ws) = cut s in if c == slash then ([], add_segment w ws) else (c ∷ w, ws)

abbrev pub segments : Text → List Text
segments s = add_segment (cut s).0 (cut s).1

-- After a slash, the first text does not matter, but its segments do.
record IsFaithful (s : Text) : Type 0 where
  same_cut : cut (copy_path false s) ≡ cut s
  same_segments : segments (copy_path true s) ≡ segments s

cut-slash : (c : ℕ) (s : Text) → (c == slash) ≡ true → cut (c ∷ s) ≡ ([], segments s)
cut-slash c s e = rw e

cut_other : (c : ℕ) (s : Text) → (c == slash) ≡ false → cut (c ∷ s) ≡ (c ∷ (cut s).0, (cut s).1)
cut_other c s e = rw e

copy_path_first :
    (c : ℕ) (s : Text) → (c == slash) ≡ true → copy_path false (c ∷ s) ≡ c ∷ copy_path true s
unfolding copy_path
copy_path_first c s e = rw e

copy_path_again :
    (c : ℕ) (s : Text) → (c == slash) ≡ true → copy_path true (c ∷ s) ≡ copy_path true s
unfolding copy_path
copy_path_again c s e = rw e

copy_path_other :
    (b : Bool) (c : ℕ) (s : Text)
    → (c == slash) ≡ false
    → copy_path b (c ∷ s) ≡ c ∷ copy_path false s
unfolding copy_path
copy_path_other b c s e = rw e

cut-copy_path_other :
    (b : Bool) (c : ℕ) (s : Text)
    → (c == slash) ≡ false
    → cut (copy_path false s) ≡ cut s
    → cut (copy_path b (c ∷ s)) ≡ cut (c ∷ s)
cut-copy_path_other b c s e h =
    ap cut (copy_path_other b c s e)
    ∙ cut_other c (copy_path false s) e
    ∙ ap (λ p. (c ∷ p.0, p.1)) h
    ∙ sym (cut_other c s e)

copy_path-IsFaithful : (s : Text) → IsFaithful s
unfolding copy_path
copy_path-IsFaithful [] = record { same_cut = refl; same_segments = refl }
copy_path-IsFaithful (c ∷ s) =
    let rest = copy_path-IsFaithful s in
    elim (Bool-cases (c == slash)) [
      | inl e ↦ record {
        same_cut =
            ap cut (copy_path_first c s e)
            ∙ cut-slash c (copy_path true s) e
            ∙ ap (λ ws. ([], ws)) rest.same_segments
            ∙ sym (cut-slash c s e);
        same_segments =
            ap segments (copy_path_again c s e)
            ∙ rest.same_segments
            ∙ sym (ap (λ p. add_segment p.0 p.1) (cut-slash c s e));
      }
      | inr e ↦ record {
        same_cut = cut-copy_path_other false c s e rest.same_cut;
        same_segments =
            ap (λ p. add_segment p.0 p.1) (cut-copy_path_other true c s e rest.same_cut);
      }
    ]

cut-drop_last : (s : Text) → ends_in_slash s ≡ true → cut (drop_last s) ≡ cut s
cut-drop_last [] e = refl
cut-drop_last (c ∷ []) e = ground (arith, e)
cut-drop_last (c ∷ d ∷ s) e = ground (arith, cut-drop_last (d ∷ s) e)

segments-sanitize_uri : (abspath : Text) → segments (sanitize_uri abspath) ≡ segments abspath
unfolding sanitize_uri
segments-sanitize_uri abspath =
    let s = copy_path false abspath in
    let copied = (copy_path-IsFaithful abspath).same_cut in
    elim (Bool-cases (ltb 1 (length s) && ends_in_slash s)) [
      | inl e ↦ rw (e, sanitize_uri, cut-drop_last s (ground (arith, e)), copied) refl
      | inr e ↦ rw (e, sanitize_uri, copied) refl
    ]

-- sanitize_uri, for any path: the result has the segments of the path, has no two slashes side by
-- side and none at its end unless it is "/", and stays the same if it is sanitized again.
pub sanitize_uri_lem :
    (abspath : Text)
    → IsClean (sanitize_uri abspath)
      × (segments (sanitize_uri abspath) ≡ segments abspath)
      × (sanitize_uri (sanitize_uri abspath) ≡ sanitize_uri abspath)
sanitize_uri_lem abspath = (
  sanitize_uri-IsClean abspath,
  segments-sanitize_uri abspath,
  sanitize_uri_same (sanitize_uri abspath) (sanitize_uri-IsClean abspath),
)
