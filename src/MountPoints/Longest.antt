-- ===== src/MountPoints/Longest.antt =====
-- gst_rtsp_mount_points_match of gst/rtsp-server/rtsp-mount-points.c: when it is the longest match.
use gst_rtsp_server_wfd.Prelude.{
  ℕ, ◌≤◌, ◌≡◌, ap, ◌⊎◌, inl, inr, List, [], ◌∷◌, true, Option, none, some, length, arith, All,
  ==_iff,
}
use gst_rtsp_server_wfd.Text.{Text, is_under}
use gst_rtsp_server_wfd.MountPoints.Match.{
  Under, Apart, StopsAt, Scans, current, Answers, match-Scans,
}
use gst_rtsp_server_wfd.MountPoints.{DataItem, MountPoints, GSequence, is_at_most, match}

-- Sorted by data_item_compare.
abbrev pub IsSorted : List DataItem → Type 0
IsSorted [] = Unit
IsSorted (item ∷ items) =
    All (λ other. is_at_most item.path other.path ≡ true) items × IsSorted items

-- All items with the path below them stand in a row: `IsRow` from the start, `IsEnding` after the
-- first of them.
abbrev pub IsEnding : Text → List DataItem → Type 0
IsEnding path [] = Unit
IsEnding path (item ∷ items) =
    (Under path item × IsEnding path items) ⊎ (Apart path item × All (Apart path) items)

abbrev pub IsRow : Text → List DataItem → Type 0
IsRow path [] = Unit
IsRow path (item ∷ items) =
    (Apart path item × IsRow path items) ⊎ (Under path item × IsEnding path items)

-- Of two paths above the same one, the smaller one is not longer.
at_most_length :
    (p q path : Text)
    → is_under p path ≡ true
    → is_under q path ≡ true
    → is_at_most p q ≡ true
    → length p ≤ length q
at_most_length [] q path hp hq h = omega arith
at_most_length (c ∷ p) [] path hp hq h = absurd (cc h)
at_most_length (c ∷ p) (d ∷ q) [] hp hq h = absurd (cc hp)
at_most_length (c ∷ p) (d ∷ q) (x ∷ path) hp hq h =
    let at_most : is_at_most p q ≡ true = ground (arith, h, hp, hq, ==_iff x c, ==_iff x d) in
    omega (arith, at_most_length p q path (ground (arith, hp)) (ground (arith, hq)) at_most)

abbrev pub IsNoLonger : Text → ℕ → DataItem → Type 0
IsNoLonger path n item = (Apart path item) ⊎ (length item.path ≤ n)

IsNoLonger-more :
    (path : Text) (n k : ℕ) (items : List DataItem)
    → n ≤ k
    → All (IsNoLonger path n) items
    → All (IsNoLonger path k) items
IsNoLonger-more path n k [] le h = tt
IsNoLonger-more path n k (item ∷ items) le h = (
  elim (h.0) [ inl a ↦ inl a | inr l ↦ inr (omega (arith, l, le)) ],
  IsNoLonger-more path n k items le h.1,
)

All-Apart :
    (path : Text) (n : ℕ) (items : List DataItem)
    → All (Apart path) items
    → All (IsNoLonger path n) items
All-Apart path n [] h = tt
All-Apart path n (item ∷ items) h = (inl h.0, All-Apart path n items h.1)

StopsAt-longest :
    (path : Text) (best : DataItem) (items : List DataItem) (end : DataItem)
    → Under path best
    → All (λ other. is_at_most best.path other.path ≡ true) items
    → IsSorted items
    → IsEnding path items
    → StopsAt path best items end
    → Under path end
      × (length best.path ≤ length end.path)
      × All (IsNoLonger path (length end.path)) items
StopsAt-longest path best [] end u b s r h = rw h (u, omega arith, tt)
StopsAt-longest path best (item ∷ items) end u b s (inl r) (inl h) =
    absurd (ground (arith, h.0, r.0))
StopsAt-longest path best (item ∷ items) end u b s (inr r) (inl h) =
    let same = ap (λ d. length d.path) h.1 in
    (rw h.1 u, omega (arith, same), (inl r.0, All-Apart path (length end.path) items r.1))
StopsAt-longest path best (item ∷ items) end u b s (inr r) (inr h) =
    absurd (ground (arith, h.0, r.0))
StopsAt-longest path best (item ∷ items) end u b s (inl r) (inr h) =
    let (up, le, all) = StopsAt-longest path item items end h.0 s.0 s.1 r.1 h.1 in
    (up, omega (arith, le, at_most_length best.path item.path path u h.0 b.0), (inr le, all))

Scans-longest :
    (path : Text) (items : List DataItem) (end : DataItem)
    → IsSorted items
    → IsRow path items
    → Scans path items (some end)
    → Under path end × All (IsNoLonger path (length end.path)) items
Scans-longest path [] end s r h = absurd (cc h)
Scans-longest path (item ∷ items) end s (inl r) (inl h) =
    let (up, all) = Scans-longest path items end s.1 r.1 h.1 in (up, (inl h.0, all))
Scans-longest path (item ∷ items) end s (inr r) (inl h) = absurd (ground (arith, h.0, r.0))
Scans-longest path (item ∷ items) end s (inl r) (inr h) = absurd (ground (arith, h.0, r.0))
Scans-longest path (item ∷ items) end s (inr r) (inr h) =
    let (up, le, all) = StopsAt-longest path item items end h.0 s.0 s.1 r.1 h.1 in
    (up, (inr le, all))

Scans-none : (path : Text) (items : List DataItem) → Scans path items none → All (Apart path) items
Scans-none path [] h = tt
Scans-none path (item ∷ items) h = (h.0, Scans-none path items h.1)

-- The longest match, or none.
abbrev pub Longest : Text → List DataItem → Option ℕ → Option ℕ → Type 0
Longest path items none none = All (Apart path) items
Longest path items (some factory) (some matched) =
    (end : DataItem) × (end.factory ≡ factory)
    × (length end.path ≡ matched)
    × Under path end
    × All (IsNoLonger path matched) items
Longest path items _ _ = ⊥

Answers-Longest :
    (path : Text) (items : List DataItem) (end : Option DataItem) (factory matched : Option ℕ)
    → IsSorted items
    → IsRow path items
    → Scans path items end
    → Answers path true end factory matched
    → Longest path items factory matched
Answers-Longest path items none none none s r h a = Scans-none path items h
Answers-Longest path items none (some f) matched s r h a = absurd (cc (a.0))
Answers-Longest path items none none (some n) s r h a = absurd (cc (a.1))
Answers-Longest path items (some end) none matched s r h a = absurd (cc (a.0))
Answers-Longest path items (some end) (some f) none s r h a = absurd (cc (a.1))
Answers-Longest path items (some end) (some f) (some n) s r h a =
    let (up, all) = Scans-longest path items end s r h in
    let same : length end.path ≡ n = cc (a.1) in
    (
      end,
      cc (a.0),
      same,
      up,
      IsNoLonger-more path (length end.path) n items (omega (arith, same)) all,
    )

-- With `matched`, over mount points that are sorted, by the sort or already, and of which those
-- that are the path or above it stand in a row, gst_rtsp_mount_points_match gives the factory and
-- the length of a longest mount point that is the path or above it, or none if there is none.
pub match-Longest :
    (seq : GSequence) (p : MountPoints) (path : Text)
    → IsSorted (current seq p)
    → IsRow path (current seq p)
    → Longest path (current seq p) (match seq p path true).1 (match seq p path true).2
match-Longest seq p path s r =
    let (end, h, a) = match-Scans seq p path true in
    Answers-Longest path (current seq p) end (match seq p path true).1 (match seq p path true).2 s r
      h a
