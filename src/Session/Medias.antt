-- ===== src/Session/Medias.antt =====
-- The media of a session in gst/rtsp-server/rtsp-session.c: the longest match.
use gst_rtsp_server_wfd.Prelude.{
  ℕ, ◌≤◌, ◌<◌, ◌≡◌, refl, ◌⊎◌, inl, inr, List, [], ◌∷◌, true, false, Option, none, some, length,
  ltb, ltb→lt, arith, All, Member, Bool-cases, ==_self,
}
use gst_rtsp_server_wfd.Text.{Text, has_prefix, has_prefix-is_under, is_under}
use gst_rtsp_server_wfd.SessionMedia.{SessionMedia}
use gst_rtsp_server_wfd.Session.{Session, matches, find_media, get_media, release_media, delete_ptr}

matches-has_prefix :
    (m : SessionMedia) (path : Text) (k : ℕ) → (matches m path k).0 ≡ is_under m.path path
unfolding matches has_prefix
matches-has_prefix m path k = ground (arith, has_prefix-is_under path m.path)

matches-length :
    (m : SessionMedia) (path : Text) (k : ℕ)
    → is_under m.path path ≡ true
    → (matches m path k).1 ≡ length m.path
unfolding matches has_prefix
matches-length m path k h = ground (arith, h, has_prefix-is_under path m.path)

-- A media that the path is not under, or that is no longer than n.
abbrev pub IsNoBetter : Text → ℕ → SessionMedia → Type 0
IsNoBetter path n m = (is_under m.path path ≡ false) ⊎ (length m.path ≤ n)

-- What the loop makes of its result and its best length.
record Found (path : Text) (ms : List SessionMedia) (result : Option SessionMedia) (best : ℕ)
    (answer : Option SessionMedia × ℕ) : Type 0 where
  not_less : best ≤ answer.1
  none_better : All (IsNoBetter path answer.1) ms
  origin :
      ((answer.0 ≡ result) × (answer.1 ≡ best))
      ⊎ ((m : SessionMedia) × (answer.0 ≡ some m)
          × Member m ms
          × (is_under m.path path ≡ true)
          × (answer.1 ≡ length m.path)
          × (best < answer.1))

Found-later :
    (path : Text) (x : SessionMedia) (ms : List SessionMedia) (result : Option SessionMedia)
    (best : ℕ) (answer : Option SessionMedia × ℕ)
    → IsNoBetter path best x
    → Found path ms result best answer
    → Found path (x ∷ ms) result best answer
Found-later path x ms result best answer h f = record {
  not_less = f.not_less;
  none_better = (ground (arith, h, f.not_less), f.none_better);
  origin = elim f.origin [ inl p ↦ inl p | inr (m, e, i, u, l, b) ↦ inr (m, e, inr i, u, l, b) ];
}

Found-now :
    (path : Text) (x : SessionMedia) (ms : List SessionMedia) (result : Option SessionMedia)
    (best : ℕ) (answer : Option SessionMedia × ℕ)
    → is_under x.path path ≡ true
    → best < length x.path
    → Found path ms (some x) (length x.path) answer
    → Found path (x ∷ ms) result best answer
Found-now path x ms result best answer u l f = record {
  not_less = omega (arith, l, f.not_less);
  none_better = (inr f.not_less, f.none_better);
  origin = elim f.origin [
    | inl p ↦ inr (x, p.0, inl refl, u, p.1, omega (arith, l, p.1))
    | inr (m, e, i, w, k, b) ↦ inr (m, e, inr i, w, k, omega (arith, l, b))
  ];
}

find_media-Found :
    (path : Text) (ms : List SessionMedia) (result : Option SessionMedia) (best matched : ℕ)
    → Found path ms result best (find_media path ms result best matched)
unfolding find_media
find_media-Found path [] result best matched = record {
  not_less = omega arith;
  none_better = tt;
  origin = inl (refl, refl);
}
find_media-Found path (m ∷ ms) result best matched =
    let matched' = (matches m path matched).1 in
    elim (Bool-cases (is_under m.path path)) [
      | inl u ↦ elim (Bool-cases (ltb best (length m.path))) [
        | inl l ↦
            rw (matches-has_prefix m path matched, matches-length m path matched u, u, l)
              (Found-now path m ms result best
                (find_media path ms (some m) (length m.path) (length m.path)) u
                (ltb→lt best (length m.path) l)
                (find_media-Found path ms (some m) (length m.path) (length m.path)))
        | inr l ↦
            rw (matches-has_prefix m path matched, matches-length m path matched u, u, l)
              (Found-later path m ms result best (find_media path ms result best (length m.path))
                (inr (ground (arith, l))) (find_media-Found path ms result best (length m.path)))
      ]
      | inr u ↦
          rw (matches-has_prefix m path matched, u)
            (Found-later path m ms result best (find_media path ms result best matched') (inl u)
              (find_media-Found path ms result best matched'))
    ]

-- The answer of gst_rtsp_session_get_media with no media, or with one, and its *matched.
abbrev pub Finds : Text → List SessionMedia → Option SessionMedia × ℕ → Type 0
Finds path ms (none, n) = (n ≡ 0) × All (IsNoBetter path 0) ms
Finds path ms (some m, n) =
    Member m ms × (is_under m.path path ≡ true) × (n ≡ length m.path) × All (IsNoBetter path n) ms

same_found :
    (path : Text) (ms : List SessionMedia) (m m' : SessionMedia) (n : ℕ)
    → m' ≡ m
    → Member m ms
    → is_under m.path path ≡ true
    → n ≡ length m.path
    → Member m' ms × (is_under m'.path path ≡ true) × (n ≡ length m'.path)
same_found path ms m m' n e i u l = rw e (i, u, l)

none_at_zero :
    (path : Text) (ms : List SessionMedia) (n : ℕ)
    → n ≡ 0
    → All (IsNoBetter path n) ms
    → All (IsNoBetter path 0) ms
none_at_zero path ms n e h = rw e at h

Found-Finds :
    (path : Text) (ms : List SessionMedia) (answer : Option SessionMedia × ℕ)
    → Found path ms none 0 answer
    → Finds path ms answer
Found-Finds path ms (none, n) f = elim f.origin [
  | inl p ↦ (p.1, none_at_zero path ms n p.1 f.none_better)
  | inr (m, e, i, u, l, b) ↦ absurd (cc e)
]
Found-Finds path ms (some m', n) f = elim f.origin [
  | inl p ↦ absurd (cc (p.0))
  | inr (m, e, i, u, l, b) ↦
      let (i', u', l') = same_found path ms m m' n (cc e) i u l in (i', u', l', f.none_better)
]

-- gst_rtsp_session_get_media finds a media of the session whose path is the asked one or an
-- ancestor of it, such that no other media with such a path has a longer one, and its *matched is
-- the length of that path; it finds none, with 0, only if no media but one with the empty path
-- has such a path.
pub get_media-Finds :
    (s : Session) (path : Text) (matched : ℕ) → Finds path s.medias (get_media s path matched)
unfolding get_media
get_media-Finds s path matched =
    Found-Finds path s.medias (find_media path s.medias none 0 matched)
      (find_media-Found path s.medias none 0 matched)

-- The session's one media is released, and no more are left.
pub release_media_last :
    (sm sm' : SessionMedia) (s : Session)
    → s.medias ≡ sm ∷ []
    → sm'.ptr ≡ sm.ptr
    → (release_media sm' s).1 ≡ false
unfolding release_media delete_ptr
release_media_last sm sm' s e p = rw (e, p, ==_self sm.ptr) refl

pub release_media_id :
    (sm : SessionMedia) (s : Session) → (release_media sm s).0.sessionid ≡ s.sessionid
unfolding release_media
release_media_id sm s = refl
