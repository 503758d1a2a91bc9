-- ===== src/MountPoints/Tests.antt =====
-- The theorems on gst/rtsp-server/rtsp-mount-points.c at concrete inputs, and searches.
use gst_rtsp_server_wfd.Prelude.{
  ◌≡◌, refl, inl, inr, List, [], ◌∷◌, true, false, Option, none, some,
}
use gst_rtsp_server_wfd.Text.{Text, has_prefix}
use gst_rtsp_server_wfd.MountPoints.{DataItem, MountPoints, GSequence, is_at_most, match, scan}
use gst_rtsp_server_wfd.MountPoints.Match.{Scans, Answers, current, match-Scans}
use gst_rtsp_server_wfd.MountPoints.Longest.{Longest, match-Longest}

abbrev insert : DataItem → List DataItem → List DataItem
insert item [] = item ∷ []
insert item (x ∷ xs) = elim (is_at_most item.path x.path) [
  | true ↦ item ∷ x ∷ xs
  | false ↦ x ∷ insert item xs
]

-- Sorts as g_sequence_sort does, and finds nothing.
abbrev insertion : GSequence
insertion = record {
  sort = λ items. elim items [ [] ↦ [] | x ∷ (xs → sorted) ↦ insert x sorted ];
  lookup = λ items path. none;
}

-- /a, /a/a and /a/b
abbrev path_a : Text
path_a = 47 ∷ 97 ∷ []

abbrev path_a_a : Text
path_a_a = 47 ∷ 97 ∷ 47 ∷ 97 ∷ []

abbrev path_a_b : Text
path_a_b = 47 ∷ 97 ∷ 47 ∷ 98 ∷ []

abbrev item_a : DataItem
item_a = record { path = path_a; factory = 1 }

abbrev item_a_a : DataItem
item_a_a = record { path = path_a_a; factory = 2 }

abbrev item_a_b : DataItem
item_a_b = record { path = path_a_b; factory = 3 }

abbrev three : MountPoints
three = record { mounts = item_a_b ∷ item_a ∷ item_a_a ∷ []; dirty = true }

abbrev two : MountPoints
two = record { mounts = item_a_b ∷ item_a ∷ []; dirty = true }

-- The factory of /a/b is not found, where /a/a stands between it and /a.
match_misses : (match insertion three path_a_b true).1 ≡ some 1
unfolding match scan has_prefix
match_misses = refl

-- Nor is any, where an exact match is asked for.
match_misses_exact : (match insertion three path_a_b false).1 ≡ none
unfolding match scan has_prefix
match_misses_exact = refl

-- Without /a/a it is found.
match_finds : (match insertion two path_a_b false).1 ≡ some 3
unfolding match scan has_prefix
match_finds = refl

match-Scans_example :
    (end : Option DataItem) × Scans path_a_b (current insertion three) end
    × Answers path_a_b true end
        (match insertion three path_a_b true).1
        (match insertion three path_a_b true).2
match-Scans_example = match-Scans insertion three path_a_b true

match-Longest_example :
    Longest path_a_b
      (current insertion two)
      (match insertion two path_a_b true).1
      (match insertion two path_a_b true).2
match-Longest_example =
    match-Longest insertion two path_a_b ((refl, tt), (tt, tt)) (inr (refl, inl (refl, tt)))
