-- ===== src/Media/SetState/Activity.antt =====
-- The counter n_active of gst/rtsp-server/rtsp-media.c against the transports that are active.
use gst_rtsp_server_wfd.Prelude.{
  ℕ, zero, suc, ◌≡◌, refl, ◌∙◌, ap, List, [], ◌∷◌, Bool, true, false, Option, none, some, arith,
  if◌then◌else◌,
}
use gst_rtsp_server_wfd.Prelude.Int.{ℤ, pos, negsuc, increment, decrement, add_ℕ}
use gst_rtsp_server_wfd.Media.{Media, Pipeline, error, GstState, is_status}
use gst_rtsp_server_wfd.Media.Calls.Active.{set_pipeline_state_active}
use gst_rtsp_server_wfd.Media.SetState.{
  StreamTransport, set_active, activate_all, deactivate_all, change_transports, set_usable_state,
  set_state, same_as_null,
}

abbrev counted : Bool → ℕ → ℕ
counted true n = suc n
counted false n = n

abbrev pub active_count : List (Option StreamTransport) → ℕ
active_count [] = 0
active_count (none ∷ ts) = active_count ts
active_count (some t ∷ ts) = counted t.active (active_count ts)

add_ℕ-increment : (z : ℤ) (k : ℕ) → add_ℕ (increment z) k ≡ increment (add_ℕ z k)
add_ℕ-increment z zero = refl
add_ℕ-increment z (suc k) = ap increment (add_ℕ-increment z k)

increment-decrement : (z : ℤ) → increment (decrement z) ≡ z
increment-decrement (pos zero) = refl
increment-decrement (pos (suc n)) = ground arith
increment-decrement (negsuc n) = ground arith

activate_counted :
    (joined : Bool) (n : ℤ) (t : StreamTransport) (k : ℕ)
    → add_ℕ (if (set_active joined t true).1 then increment n else n) (counted t.active k)
      ≡ add_ℕ n (counted (set_active joined t true).0.active k)
unfolding set_active
activate_counted joined n t k = ground (arith, add_ℕ-increment n k)

deactivate_counted :
    (joined : Bool) (n : ℤ) (t : StreamTransport) (k : ℕ)
    → add_ℕ (if (set_active joined t false).1 then decrement n else n) (counted t.active k)
      ≡ add_ℕ n (counted (set_active joined t false).0.active k)
unfolding set_active
deactivate_counted joined n t k =
    ground (arith, add_ℕ-increment (decrement n) k, increment-decrement n)

counted_swap :
    (n n' : ℤ) (b : Bool) (k k' : ℕ)
    → add_ℕ n k ≡ add_ℕ n' k'
    → add_ℕ n (counted b k) ≡ add_ℕ n' (counted b k')
counted_swap n n' true k k' h = ap increment h
counted_swap n n' false k k' h = h

activate_all_count :
    (joined : Bool) (n : ℤ) (ts : List (Option StreamTransport))
    → add_ℕ (activate_all joined n ts).0 (active_count ts)
      ≡ add_ℕ n (active_count (activate_all joined n ts).1)
unfolding activate_all
activate_all_count joined n [] = refl
activate_all_count joined n (none ∷ ts) = activate_all_count joined n ts
activate_all_count joined n (some t ∷ ts) =
    let n' = if (set_active joined t true).1 then increment n else n in
    let rest = activate_all joined n' ts in
    counted_swap rest.0 n' t.active (active_count ts) (active_count rest.1)
      (activate_all_count joined n' ts)
    ∙ activate_counted joined n t (active_count rest.1)

deactivate_all_count :
    (joined : Bool) (n : ℤ) (ts : List (Option StreamTransport))
    → add_ℕ (deactivate_all joined n ts).0 (active_count ts)
      ≡ add_ℕ n (active_count (deactivate_all joined n ts).1)
unfolding deactivate_all
deactivate_all_count joined n [] = refl
deactivate_all_count joined n (none ∷ ts) = deactivate_all_count joined n ts
deactivate_all_count joined n (some t ∷ ts) =
    let n' = if (set_active joined t false).1 then decrement n else n in
    let rest = deactivate_all joined n' ts in
    counted_swap rest.0 n' t.active (active_count ts) (active_count rest.1)
      (deactivate_all_count joined n' ts)
    ∙ deactivate_counted joined n t (active_count rest.1)

change_transports_count :
    (s : GstState) (m : Media) (ts : List (Option StreamTransport))
    → add_ℕ (change_transports s m ts).0 (active_count ts)
      ≡ add_ℕ m.n_active (active_count (change_transports s m ts).1)
unfolding change_transports
change_transports_count s m ts =
    ground (
      arith,
      activate_all_count m.joined m.n_active ts,
      deactivate_all_count m.joined m.n_active ts,
    )

set_usable_state_count :
    (gst : Pipeline) (s : GstState) (ts : List (Option StreamTransport)) (m : Media)
    → let (m', ts', done) = set_usable_state gst s ts m in
      add_ℕ m'.n_active (active_count ts) ≡ add_ℕ m.n_active (active_count ts')
unfolding set_usable_state
set_usable_state_count gst s ts m =
    let (n, ts') = change_transports s m ts in
    ground (
      arith,
      change_transports_count s m ts,
      set_pipeline_state_active gst s (record m { n_active = n }),
    )

-- Outside of the status ERROR, gst_rtsp_media_set_state changes n_active by as much as the number
-- of active transports in its array, whatever the state asked for, and also if it fails.
pub set_state_count :
    (gst : Pipeline) (s : GstState) (ts : List (Option StreamTransport)) (m : Media)
    → is_status m.status error ≡ false
    → add_ℕ (set_state gst s ts m).0.n_active (active_count ts)
      ≡ add_ℕ m.n_active (active_count (set_state gst s ts m).1)
unfolding set_state
set_state_count gst s ts m h = ground (arith, h, set_usable_state_count gst (same_as_null s) ts m)
