-- ===== src/Text.antt =====
-- C strings as the lists of their bytes, without the terminator, and the test of a path prefix that
-- gst_rtsp_session_media_matches and has_prefix (rtsp-mount-points.c) share.
use gst_rtsp_server_wfd.Prelude.{
  ℕ, zero, suc, ◌≡◌, refl, ◌∙◌, ap, List, [], ◌∷◌, Bool, true, false, not, ◌&&◌, length, ltb, ◌==◌,
  if◌then◌else◌, arith, inl, inr, Bool-cases, ==_iff,
}

abbrev pub Text : Type 0
Text = List ℕ

abbrev pub slash : ℕ
slash = 47

-- s[i], for i up to strlen (s)
abbrev pub char_at : Text → ℕ → ℕ
char_at [] i = 0
char_at (c ∷ s) zero = c
char_at (c ∷ s) (suc i) = char_at s i

-- strncmp (s, t, n) == 0
abbrev pub strncmp_equal : Text → Text → ℕ → Bool
strncmp_equal s t zero = true
strncmp_equal [] [] (suc n) = true
strncmp_equal [] (d ∷ t) (suc n) = false
strncmp_equal (c ∷ s) [] (suc n) = false
strncmp_equal (c ∷ s) (d ∷ t) (suc n) = (c == d) && strncmp_equal s t n

-- strcmp (s, t) == 0
abbrev pub equal_texts : Text → Text → Bool
equal_texts [] [] = true
equal_texts [] (d ∷ t) = false
equal_texts (c ∷ s) [] = false
equal_texts (c ∷ s) (d ∷ t) = (c == d) && equal_texts s t

unfoldable pub has_prefix : Text → Text → Bool
has_prefix str prefix =
    if ltb (length str) (length prefix)
    then false
    else if ltb (length prefix) (length str) && not (char_at str (length prefix) == slash)
    then false
    else strncmp_equal str prefix (length prefix)

-- A path is under a prefix if it is the prefix, or the prefix with "/" and more behind it.
abbrev pub is_under : Text → Text → Bool
is_under [] [] = true
is_under [] (c ∷ s) = c == slash
is_under (d ∷ p) [] = false
is_under (d ∷ p) (c ∷ s) = (c == d) && is_under p s

has_prefix_step : (c d : ℕ) (s p : Text) → has_prefix (c ∷ s) (d ∷ p) ≡ ((c == d) && has_prefix s p)
unfolding has_prefix
has_prefix_step c d s p = ground arith

pub has_prefix-is_under : (s p : Text) → has_prefix s p ≡ is_under p s
unfolding has_prefix
has_prefix-is_under [] [] = refl
has_prefix-is_under (c ∷ s) [] = ground arith
has_prefix-is_under [] (d ∷ p) = ground arith
has_prefix-is_under (c ∷ s) (d ∷ p) =
    has_prefix_step c d s p ∙ ap (λ b. (c == d) && b) (has_prefix-is_under s p)

pub equal_texts_eq : (s t : Text) → equal_texts s t ≡ true → s ≡ t
equal_texts_eq [] [] h = refl
equal_texts_eq [] (d ∷ t) h = absurd (cc h)
equal_texts_eq (c ∷ s) [] h = absurd (cc h)
equal_texts_eq (c ∷ s) (d ∷ t) h = elim (Bool-cases (c == d)) [
  | inl e ↦ ground (arith, (==_iff c d).0 e, equal_texts_eq s t (ground (arith, e, h)))
  | inr e ↦ ground (arith, e, h)
]

pub equal_texts_self : (s : Text) → equal_texts s s ≡ true
equal_texts_self [] = refl
equal_texts_self (c ∷ s) = ground (arith, equal_texts_self s)

pub equal_texts_comm : (s t : Text) → equal_texts s t ≡ false → equal_texts t s ≡ false
equal_texts_comm s t h = elim (Bool-cases (equal_texts t s)) [
  | inl e ↦
      let back : equal_texts s t ≡ true =
        ap (λ u. equal_texts s u) (equal_texts_eq t s e) ∙ equal_texts_self s in
      absurd (cc (h, back))
  | inr e ↦ e
]
