-- ===== src/SessionPool/Create.antt =====
-- gst_rtsp_session_pool_create of gst/rtsp-server/rtsp-session-pool.c: its outcomes.
use gst_rtsp_server_wfd.Prelude.{
  ℕ, zero, suc, ◌≡◌, refl, ◌⊎◌, inl, inr, ◌∷◌, Bool, true, false, Option, none, some, Bool-cases,
  Option-cases,
}
use gst_rtsp_server_wfd.Text.{Text}
use gst_rtsp_server_wfd.Session.{TimeVal, Session, session_new}
use gst_rtsp_server_wfd.SessionPool.{
  SessionPool, Created, created, no_function, no_session, collision, too_many_sessions, PoolMethods,
  lookup, is_full, insert_new, try_id, create_loop, create,
}

-- The answer of create_session_id is the id of a session of the pool.
abbrev pub IsTaken : SessionPool → Option Text → Type 0
IsTaken p none = ⊥
IsTaken p (some id) = (s : Session) × (lookup id p.sessions ≡ some s)

-- id is the first of the ids i, ..., i + left that is not taken, and there is an id at each try
-- up to it.
abbrev pub IsFirstFree : SessionPool → (ℕ → Option Text) → ℕ → ℕ → Text → Type 0
IsFirstFree p ids i zero id = (ids i ≡ some id) × (lookup id p.sessions ≡ none)
IsFirstFree p ids i (suc left) id =
    ((ids i ≡ some id) × (lookup id p.sessions ≡ none))
    ⊎ (IsTaken p (ids i) × IsFirstFree p ids (suc i) left id)

abbrev pub AllTaken : SessionPool → (ℕ → Option Text) → ℕ → ℕ → Type 0
AllTaken p ids i zero = IsTaken p (ids i)
AllTaken p ids i (suc left) = IsTaken p (ids i) × AllTaken p ids (suc i) left

abbrev pub RunsOut : SessionPool → (ℕ → Option Text) → ℕ → ℕ → Type 0
RunsOut p ids i zero = ids i ≡ none
RunsOut p ids i (suc left) = (ids i ≡ none) ⊎ (IsTaken p (ids i) × RunsOut p ids (suc i) left)

-- What the tries i, ..., i + left make of the pool.
abbrev pub Tries :
    TimeVal → Bool → (ℕ → Option Text) → ℕ → ℕ → SessionPool → SessionPool × Created → Type 0
Tries clock has_function ids i left p (p', created s) =
    (p' ≡ record p { sessions = s ∷ p.sessions })
    × (s ≡ session_new clock s.sessionid)
    × (is_full p ≡ false)
    × IsFirstFree p ids i left s.sessionid
Tries clock has_function ids i left p (p', no_function) = ⊥
Tries clock has_function ids i left p (p', no_session) = (p' ≡ p) × RunsOut p ids i left
Tries clock has_function ids i left p (p', collision) = (p' ≡ p) × AllTaken p ids i left
Tries clock has_function ids i left p (p', too_many_sessions) =
    (p' ≡ p) × ((is_full p ≡ true) ⊎ (has_function ≡ false))

Tries-next :
    (clock : TimeVal) (h : Bool) (ids : ℕ → Option Text) (i left : ℕ) (p : SessionPool)
    (answer : SessionPool × Created)
    → IsTaken p (ids i)
    → Tries clock h ids (suc i) left p answer
    → Tries clock h ids i (suc left) p answer
Tries-next clock h ids i left p (p', created s) t (e, n, f, r) = (e, n, f, inr (t, r))
Tries-next clock h ids i left p (p', no_function) t r = r
Tries-next clock h ids i left p (p', no_session) t (e, r) = (e, inr (t, r))
Tries-next clock h ids i left p (p', collision) t (e, r) = (e, (t, r))
Tries-next clock h ids i left p (p', too_many_sessions) t r = r

-- The outcomes of one try.
try_cases :
    (clock : TimeVal) (h : Bool) (p : SessionPool) (again : SessionPool × Created) (o : Option Text)
    → ((o ≡ none) × (try_id clock h p again o ≡ (p, no_session)))
      ⊎ (((is_full p ≡ true) ⊎ (h ≡ false)) × (try_id clock h p again o ≡ (p, too_many_sessions)))
      ⊎ ((id : Text) × (o ≡ some id)
          × (is_full p ≡ false)
          × (lookup id p.sessions ≡ none)
          × (try_id clock h p again o ≡ (
            record p { sessions = session_new clock id ∷ p.sessions },
            created (session_new clock id),
          )))
      ⊎ (IsTaken p o × (try_id clock h p again o ≡ again))
unfolding try_id insert_new
try_cases clock h p again none = inl (refl, refl)
try_cases clock h p again (some id) = elim (Bool-cases (is_full p)) [
  | inl f ↦ inr (inl (inl f, rw (try_id, f) refl))
  | inr f ↦ elim (Option-cases (lookup id p.sessions)) [
    | inl l ↦ elim (Bool-cases h) [
      | inl k ↦ inr (inr (inl (id, refl, f, l, rw (try_id, f, l, insert_new, k) refl)))
      | inr k ↦ inr (inl (inr k, rw (try_id, f, l, insert_new, k) refl))
    ]
    | inr (s, l) ↦ inr (inr (inr ((s, l), rw (try_id, f, l) refl)))
  ]
]

session_new_id : (clock : TimeVal) (id : Text) → (session_new clock id).sessionid ≡ id
unfolding session_new
session_new_id clock id = refl

create_loop-Tries :
    (clock : TimeVal) (h : Bool) (ids : ℕ → Option Text) (i left : ℕ) (p : SessionPool)
    → Tries clock h ids i left p (create_loop clock h ids i left p)
unfolding create_loop session_new
create_loop-Tries clock h ids i zero p = elim (try_cases clock h p (p, collision) (ids i)) [
  | inl (n, e) ↦ rw e (refl, n)
  | inr (inl (f, e)) ↦ rw e (refl, f)
  | inr (inr (inl (id, o, f, l, e))) ↦ rw (e, session_new_id clock id) (refl, refl, f, (o, l))
  | inr (inr (inr (t, e))) ↦ rw e (refl, t)
]
create_loop-Tries clock h ids i (suc left) p =
    let again = create_loop clock h ids (suc i) left p in
    elim (try_cases clock h p again (ids i)) [
      | inl (n, e) ↦ rw e (refl, inl n)
      | inr (inl (f, e)) ↦ rw e (refl, f)
      | inr (inr (inl (id, o, f, l, e))) ↦
          rw (e, session_new_id clock id) (refl, refl, f, inl (o, l))
      | inr (inr (inr (t, e))) ↦
          rw e
            (Tries-next clock h ids i left p again t (create_loop-Tries clock h ids (suc i) left p))
    ]

-- The outcomes of gst_rtsp_session_pool_create, where the class has a create_session_id.
--
-- It returns a session only if the pool is not full and the session's id is the first of at most
-- 101 answers that is not taken; the pool then has that new session more. Else it leaves the pool
-- as it was: it is full or there is no create_session, or an answer is NULL after taken ones, or
-- 101 answers are taken.
pub create-Tries :
    (clock : TimeVal) (k : PoolMethods) (ids : ℕ → Option Text) (p : SessionPool)
    → k.create_session_id ≡ some ids
    → Tries clock k.create_session ids 0 100 p (create clock k p)
unfolding create
create-Tries clock k ids p h = rw h (create_loop-Tries clock k.create_session ids 0 100 p)
