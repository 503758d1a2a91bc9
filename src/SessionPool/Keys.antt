-- ===== src/SessionPool/Keys.antt =====
-- The ids of the sessions of gst/rtsp-server/rtsp-session-pool.c, which no call but create adds to.
use gst_rtsp_server_wfd.Prelude.{
  ◌≤◌, ◌≡◌, refl, ap, ◌⊎◌, inl, inr, List, [], ◌∷◌, Bool, false, ◌||◌, none, arith, length, map,
  if◌then◌else◌, Bool-cases,
}
use gst_rtsp_server_wfd.Prelude.Int.{ℤ}
use gst_rtsp_server_wfd.Text.{Text, equal_texts}
use gst_rtsp_server_wfd.Session.{
  TimeVal, Session, next_timeout, is_expired, FilterResult, filter_remove, filter_keep, filter_ref,
}
use gst_rtsp_server_wfd.Session.Expiry.{next_timeout_id, is_expired_session, touch_id_same}
use gst_rtsp_server_wfd.SessionPool.{
  lookup, touch_id, remove_id, cleanup_all, filter_all, collect_timeouts, is_minus_one, below,
}

abbrev pub key : Session → Text
key s = s.sessionid

abbrev pub keys : List Session → List Text
keys ss = map key ss

abbrev pub has_key : Text → List Text → Bool
has_key id [] = false
has_key id (k ∷ ks) = equal_texts k id || has_key id ks

abbrev pub IsUnique : List Text → Type 0
IsUnique [] = Unit
IsUnique (k ∷ ks) = (has_key k ks ≡ false) × IsUnique ks

-- The first list is the second without some of its elements.
pub data Kept : List Text → List Text → Type 0 where
  nothing : Kept [] []
  dropped : {k : Text} {ks ls : List Text} → Kept ks ls → Kept ks (k ∷ ls)
  kept : {k : Text} {ks ls : List Text} → Kept ks ls → Kept (k ∷ ks) (k ∷ ls)

pub Kept-all : (ks : List Text) → Kept ks ks
Kept-all [] = nothing
Kept-all (k ∷ ks) = kept (Kept-all ks)

Kept-has_key :
    {ks ls : List Text} (id : Text) → Kept ks ls → has_key id ls ≡ false → has_key id ks ≡ false
Kept-has_key id nothing h = h
Kept-has_key id (dropped k) h = Kept-has_key id k (ground (arith, h))
Kept-has_key {ks = k ∷ _} {ls = _ ∷ ls} id (kept r) h = elim (Bool-cases (equal_texts k id)) [
  | inl e ↦ absurd (ground (arith, e, h))
  | inr e ↦ rw e (Kept-has_key id r (ground (arith, e, h)))
]

pub Kept-IsUnique : {ks ls : List Text} → Kept ks ls → IsUnique ls → IsUnique ks
Kept-IsUnique nothing u = u
Kept-IsUnique (dropped r) u = Kept-IsUnique r u.1
Kept-IsUnique (kept r) u = (Kept-has_key _ r u.0, Kept-IsUnique r u.1)

pub Kept-length : {ks ls : List Text} → Kept ks ls → length ks ≤ length ls
Kept-length nothing = omega arith
Kept-length (dropped r) = omega (arith, Kept-length r)
Kept-length (kept r) = omega (arith, Kept-length r)

pub length-keys : (ss : List Session) → length (keys ss) ≡ length ss
length-keys [] = refl
length-keys (s ∷ ss) = omega (arith, length-keys ss)

pub lookup-has_key :
    (id : Text) (ss : List Session) → lookup id ss ≡ none → has_key id (keys ss) ≡ false
unfolding lookup
lookup-has_key id [] h = refl
lookup-has_key id (s ∷ ss) h = elim (Bool-cases (equal_texts s.sessionid id)) [
  | inl e ↦ absurd (ground (arith, e, h))
  | inr e ↦ rw e (lookup-has_key id ss (ground (arith, e, h)))
]

pub keys-touch_id :
    (clock : TimeVal) (id : Text) (ss : List Session) → keys (touch_id clock id ss) ≡ keys ss
unfolding touch_id
keys-touch_id clock id [] = refl
keys-touch_id clock id (s ∷ ss) = elim (Bool-cases (equal_texts s.sessionid id)) [
  | inl e ↦ rw (e, touch_id) (ap (λ k. k ∷ keys ss) (touch_id_same clock s))
  | inr e ↦ rw (e, touch_id) (ap (λ ks. s.sessionid ∷ ks) (keys-touch_id clock id ss))
]

pub remove_id-Kept : (id : Text) (ss : List Session) → Kept (keys (remove_id id ss).0) (keys ss)
unfolding remove_id
remove_id-Kept id [] = nothing
remove_id-Kept id (s ∷ ss) = elim (Bool-cases (equal_texts s.sessionid id)) [
  | inl e ↦ rw (e, remove_id) (dropped (Kept-all (keys ss)))
  | inr e ↦ rw (e, remove_id) (kept (remove_id-Kept id ss))
]

is_expired_id :
    (clock : TimeVal) (s : Session) (now : TimeVal)
    → (is_expired clock s now).0.sessionid ≡ s.sessionid
is_expired_id clock s now = ground (arith, is_expired_session clock s now)

pub cleanup_all-Kept :
    (clock now : TimeVal) (ss : List Session) → Kept (keys (cleanup_all clock now ss).0) (keys ss)
unfolding cleanup_all
cleanup_all-Kept clock now [] = nothing
cleanup_all-Kept clock now (s ∷ ss) = elim (Bool-cases (is_expired clock s now).1) [
  | inl e ↦ rw (e, cleanup_all) (dropped (cleanup_all-Kept clock now ss))
  | inr e ↦ rw (e, cleanup_all, is_expired_id clock s now) (kept (cleanup_all-Kept clock now ss))
]

FilterResult-cases : (r : FilterResult) → (r ≡ filter_remove) ⊎ (r ≡ filter_keep) ⊎ (r ≡ filter_ref)
FilterResult-cases filter_remove = inl refl
FilterResult-cases filter_keep = inr (inl refl)
FilterResult-cases filter_ref = inr (inr refl)

pub filter_all-Kept :
    (func : Session → FilterResult) (ss list : List Session)
    → Kept (keys (filter_all func ss list).0) (keys ss)
unfolding filter_all
filter_all-Kept func [] list = nothing
filter_all-Kept func (s ∷ ss) list = elim (FilterResult-cases (func s)) [
  | inl e ↦ rw (e, filter_all) (dropped (filter_all-Kept func ss list))
  | inr (inl e) ↦ rw (e, filter_all) (kept (filter_all-Kept func ss list))
  | inr (inr e) ↦ rw (e, filter_all) (kept (filter_all-Kept func ss (s ∷ list)))
]

pub keys-collect_timeouts :
    (clock : TimeVal) (least : ℤ) (ss : List Session)
    → keys (collect_timeouts clock least ss).0 ≡ keys ss
unfolding collect_timeouts
keys-collect_timeouts clock least [] = refl
keys-collect_timeouts clock least (s ∷ ss) =
    let timeout = (next_timeout clock s clock).1 in
    let least' = if is_minus_one least || below timeout least then timeout else least in
    rw (next_timeout_id clock s clock)
      (ap (λ ks. s.sessionid ∷ ks) (keys-collect_timeouts clock least' ss))
