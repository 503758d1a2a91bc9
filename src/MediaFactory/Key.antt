-- ===== src/MediaFactory/Key.antt =====
-- The keys of default_gen_key in gst/rtsp-server/rtsp-media-factory.c.
use gst_rtsp_server_wfd.Prelude.{
  ℕ, ◌≡◌, ◌≢◌, refl, sym, ◌∙◌, ap, [], ◌∷◌, ◌++◌, Option, none, some, All,
}
use gst_rtsp_server_wfd.Text.{Text, slash}
use gst_rtsp_server_wfd.MediaFactory.{Url, query_text, default_gen_key}

-- The text does not have the byte.
abbrev pub IsWithout : ℕ → Text → Type 0
IsWithout c s = All (λ d. d ≢ c) s

-- The text is empty, or it begins with the byte.
abbrev pub BeginsWith : ℕ → Text → Type 0
BeginsWith c [] = Unit {0}
BeginsWith c (d ∷ s) = d ≡ c

tail_of : Text → Text
tail_of [] = []
tail_of (c ∷ s) = s

head_of : Text → ℕ
head_of [] = 0
head_of (c ∷ s) = c

-- Two texts that are cut before the first of the bytes are cut at the same place.
cut_lem :
    (c : ℕ) (s t u v : Text)
    → IsWithout c s
    → IsWithout c t
    → BeginsWith c u
    → BeginsWith c v
    → s ++ u ≡ t ++ v
    → (s ≡ t) × (u ≡ v)
unfolding tail_of head_of
cut_lem c [] [] u v hs ht hu hv e = (refl, e)
cut_lem c [] (d ∷ t) [] v hs ht hu hv e = absurd (cc e)
cut_lem c [] (d ∷ t) (x ∷ u) v hs ht hu hv e = absurd (ht.0 (sym (ap head_of e) ∙ hu))
cut_lem c (d ∷ s) [] u [] hs ht hu hv e = absurd (cc e)
cut_lem c (d ∷ s) [] u (x ∷ v) hs ht hu hv e = absurd (hs.0 (ap head_of e ∙ hv))
cut_lem c (d ∷ s) (x ∷ t) u v hs ht hu hv e =
    let (same, rest) = cut_lem c s t u v hs.1 ht.1 hu hv (ap tail_of e) in
    (ap (λ y. y ∷ s) (ap head_of e) ∙ ap (λ r. x ∷ r) same, rest)

query_text_lem : (p q : Option Text) → query_text p ≡ query_text q → p ≡ q
unfolding tail_of
query_text_lem none none e = refl
query_text_lem none (some q) e = absurd (cc e)
query_text_lem (some p) none e = absurd (cc e)
query_text_lem (some p) (some q) e = ap (λ r. some (tail_of r)) e

query_text-BeginsWith : (p : Option Text) → BeginsWith 63 (query_text p)
query_text-BeginsWith none = tt
query_text-BeginsWith (some p) = refl

-- A path that begins with a slash, as the key needs it.
path-BeginsWith :
    (path : Text) (query : Option Text)
    → BeginsWith slash path
    → path ≢ []
    → BeginsWith slash (path ++ query_text query)
path-BeginsWith [] query h n = absurd (n refl)
path-BeginsWith (c ∷ path) query h n = h

-- The path begins with a slash and has no "?".
abbrev pub IsPath : Text → Type 0
IsPath path = BeginsWith slash path × ((path ≢ []) × IsWithout 63 path)

-- If %u prints different numbers differently and without a slash, the urls whose paths begin with a
-- slash and have no "?" have the same key only if they have the same port, path and query.
pub default_gen_key_lem :
    (print : ℕ → Text) (a b : Url)
    → ((m n : ℕ) → print m ≡ print n → m ≡ n)
    → ((n : ℕ) → IsWithout slash (print n))
    → IsPath a.abspath
    → IsPath b.abspath
    → default_gen_key print a ≡ default_gen_key print b
    → (a.port ≡ b.port) × ((a.abspath ≡ b.abspath) × (a.query ≡ b.query))
unfolding default_gen_key
default_gen_key_lem print a b one clean (sa, (na, qa)) (sb, (nb, qb)) e =
    let (ports, rest) =
      cut_lem slash (print a.port) (print b.port) (a.abspath ++ query_text a.query)
        (b.abspath ++ query_text b.query) (clean a.port) (clean b.port)
        (path-BeginsWith a.abspath a.query sa na) (path-BeginsWith b.abspath b.query sb nb) e in
    let (paths, queries) =
      cut_lem 63 a.abspath b.abspath (query_text a.query) (query_text b.query) qa qb
        (query_text-BeginsWith a.query) (query_text-BeginsWith b.query) rest in
    (one a.port b.port ports, (paths, query_text_lem a.query b.query queries))
