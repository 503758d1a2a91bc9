-- ===== src/MountPoints/Match.antt =====
-- gst_rtsp_mount_points_match of gst/rtsp-server/rtsp-mount-points.c: which mount point it takes.
use gst_rtsp_server_wfd.Prelude.{
  ℕ, ◌≡◌, ◌≢◌, refl, ap, ◌⊎◌, inl, inr, List, [], ◌∷◌, Bool, true, false, Option, none, some,
  length, ◌==◌, if◌then◌else◌, arith, Bool-cases, ==_iff,
}
use gst_rtsp_server_wfd.Text.{Text, has_prefix-is_under, is_under}
use gst_rtsp_server_wfd.MountPoints.{DataItem, MountPoints, GSequence, scan, sort_if_dirty, match}

-- The path is the item's, or below it.
abbrev pub Under : Text → DataItem → Type 0
Under path item = is_under item.path path ≡ true

abbrev pub Apart : Text → DataItem → Type 0
Apart path item = is_under item.path path ≡ false

-- What the loop makes of the items after a first mount point with the path below it: it stops at
-- the first item apart, whatever comes after it.
abbrev pub StopsAt : Text → DataItem → List DataItem → DataItem → Type 0
StopsAt path best [] end = end ≡ best
StopsAt path best (item ∷ items) end =
    (Apart path item × (end ≡ best)) ⊎ (Under path item × StopsAt path item items end)

abbrev pub Scans : Text → List DataItem → Option DataItem → Type 0
Scans path [] end = end ≡ none
Scans path (item ∷ items) none = Apart path item × Scans path items none
Scans path (item ∷ items) (some end) =
    (Apart path item × Scans path items (some end))
    ⊎ (Under path item × StopsAt path item items end)

scan-StopsAt :
    (path : Text) (best : DataItem) (items : List DataItem)
    → (end : DataItem) × (scan path items (some best) ≡ some end) × StopsAt path best items end
unfolding scan
scan-StopsAt path best [] = (best, refl, refl)
scan-StopsAt path best (item ∷ items) = elim (Bool-cases (is_under item.path path)) [
  | inl u ↦
      let (end, e, s) = scan-StopsAt path item items in
      (end, rw (scan, has_prefix-is_under path item.path, u) e, inr (u, s))
  | inr u ↦ (best, rw (scan, has_prefix-is_under path item.path, u) refl, inl (u, refl))
]

Scans-Apart :
    (path : Text) (item : DataItem) (items : List DataItem) (end : Option DataItem)
    → Apart path item
    → Scans path items end
    → Scans path (item ∷ items) end
Scans-Apart path item items none u h = (u, h)
Scans-Apart path item items (some end) u h = inl (u, h)

scan-Scans : (path : Text) (items : List DataItem) → Scans path items (scan path items none)
unfolding scan
scan-Scans path [] = refl
scan-Scans path (item ∷ items) = elim (Bool-cases (is_under item.path path)) [
  | inl u ↦
      let (end, e, s) = scan-StopsAt path item items in
      rw (scan, has_prefix-is_under path item.path, u, e) (inr (u, s))
  | inr u ↦
      rw (scan, has_prefix-is_under path item.path, u)
        (Scans-Apart path item items (scan path items none) u (scan-Scans path items))
]

-- The mount points as the search sees them.
abbrev pub current : GSequence → MountPoints → List DataItem
current seq p = if p.dirty then seq.sort p.mounts else p.mounts

-- The answer of match in terms of the mount point where the search ends.
abbrev pub Answers : Text → Bool → Option DataItem → Option ℕ → Option ℕ → Type 0
Answers path wanted none factory matched = (factory ≡ none) × (matched ≡ none)
Answers path true (some end) factory matched =
    (factory ≡ some end.factory) × (matched ≡ some (length end.path))
Answers path false (some end) factory matched =
    (matched ≡ none)
    × (((length end.path ≡ length path) × (factory ≡ some end.factory))
        ⊎ ((length end.path ≢ length path) × (factory ≡ none)))

sort_if_dirty_mounts :
    (seq : GSequence) (p : MountPoints) → (sort_if_dirty seq p).mounts ≡ current seq p
unfolding sort_if_dirty
sort_if_dirty_mounts seq p = ground arith

-- The rest of match, for the mount point where the search ends.
match_found :
    (seq : GSequence) (p : MountPoints) (path : Text) (wanted : Bool) (end : Option DataItem)
    → scan path (sort_if_dirty seq p).mounts none ≡ end
    → Answers path wanted end (match seq p path wanted).1 (match seq p path wanted).2
unfolding match
match_found seq p path true none e = rw (match, e) (refl, refl)
match_found seq p path false none e = rw (match, e) (refl, refl)
match_found seq p path true (some end) e = rw (match, e) (refl, refl)
match_found seq p path false (some end) e = elim (Bool-cases (length end.path == length path)) [
  | inl l ↦ rw (match, e, l) (refl, inl ((==_iff (length end.path) (length path)).0 l, refl))
  | inr l ↦
      rw (match, e, l)
        (
          refl,
          inr (λ k. absurd (ground (arith, l, (==_iff (length end.path) (length path)).1 k)), refl),
        )
]

match-Answers :
    (seq : GSequence) (p : MountPoints) (path : Text) (wanted : Bool)
    → Answers path wanted
        (scan path (current seq p) none)
        (match seq p path wanted).1
        (match seq p path wanted).2
match-Answers seq p path wanted =
    match_found seq p path wanted (scan path (current seq p) none)
      (ap (λ items. scan path items none) (sort_if_dirty_mounts seq p))

-- gst_rtsp_mount_points_match goes through the mount points in their order, sorted if they were
-- changed: it ends at the last of the first mount points in a row that are the path or above it,
-- even if more of them come after others, and gives its factory and its length; without `matched`
-- it gives the factory only if the mount point is as long as the path; it gives none if no mount
-- point is the path or above it.
pub match-Scans :
    (seq : GSequence) (p : MountPoints) (path : Text) (wanted : Bool)
    → (end : Option DataItem) × Scans path (current seq p) end
      × Answers path wanted end (match seq p path wanted).1 (match seq p path wanted).2
match-Scans seq p path wanted = (
  scan path (current seq p) none,
  scan-Scans path (current seq p),
  match-Answers seq p path wanted,
)
