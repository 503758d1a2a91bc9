-- ===== src/MountPoints.antt =====
-- gst/rtsp-server/rtsp-mount-points.c: the media factories of a server by their mount points.
--
-- A GSequence is the list of its items. GLib's g_sequence_sort and g_sequence_lookup, which looks
-- for a path in a sorted sequence, are a parameter. A factory stands for its pointer, and the
-- field len of a DataItem is the length of its path.
pub mod Match
pub mod Longest
mod Tests
use gst_rtsp_server_wfd.Prelude.{
  ℕ, zero, suc, List, [], ◌∷◌, ◌++◌, Bool, true, false, not, ◌&&◌, ◌||◌, Option, none, some, length,
  ltb, ◌==◌, if◌then◌else◌,
}
use gst_rtsp_server_wfd.Text.{Text, has_prefix}

pub record DataItem : Type 0 where
  pub path : Text
  pub factory : ℕ

pub record MountPoints : Type 0 where
  pub mounts : List DataItem
  pub dirty : Bool

-- `lookup` gives the index of an item with the path.
pub record GSequence : Type 0 where
  pub sort : List DataItem → List DataItem
  pub lookup : List DataItem → Text → Option ℕ

pub new : MountPoints
new = record { mounts = []; dirty = false }

-- data_item_compare (a, b) <= 0
abbrev pub is_at_most : Text → Text → Bool
is_at_most [] t = true
is_at_most (c ∷ s) [] = false
is_at_most (c ∷ s) (d ∷ t) = ltb c d || (c == d) && is_at_most s t

-- The loop of gst_rtsp_mount_points_match, with its variable `best`.
pub scan : Text → List DataItem → Option DataItem → Option DataItem
scan path [] best = best
scan path (item ∷ items) none =
    scan path items (if has_prefix path item.path then some item else none)
scan path (item ∷ items) (some best) =
    let next = scan path items (some item) in
    if not (has_prefix path item.path) then some best else next

sort_if_dirty : GSequence → MountPoints → MountPoints
sort_if_dirty seq p = if p.dirty then record { mounts = seq.sort p.mounts; dirty = false } else p

-- `wanted` says that `matched` is not NULL; the last answer is what is written there.
pub match : GSequence → MountPoints → Text → Bool → MountPoints × Option ℕ × Option ℕ
unfolding scan sort_if_dirty
match seq p path wanted =
    let p' = sort_if_dirty seq p in
    elim (scan path p'.mounts none) [
      | none ↦ (p', none, none)
      | some best ↦
          if wanted || (length best.path == length path)
          then (p', some best.factory, if wanted then some (length best.path) else none)
          else (p', none, none)
    ]

pub add_factory : Text → ℕ → MountPoints → MountPoints
add_factory path factory p = record {
  mounts = p.mounts ++ record { path = path; factory = factory } ∷ [];
  dirty = true;
}

-- g_sequence_remove
remove_at : ℕ → List DataItem → List DataItem
remove_at i [] = []
remove_at zero (item ∷ items) = items
remove_at (suc i) (item ∷ items) = item ∷ remove_at i items

pub remove_factory : GSequence → Text → MountPoints → MountPoints
unfolding sort_if_dirty remove_at
remove_factory seq path p =
    let p' = sort_if_dirty seq p in
    elim (seq.lookup p'.mounts path) [
      | none ↦ p'
      | some i ↦ record { mounts = remove_at i p'.mounts; dirty = true }
    ]
