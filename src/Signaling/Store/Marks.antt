-- ===== src/Signaling/Store/Marks.antt =====
-- The marks `user:active_call:<id>` against the sessions they stand for: no operation of
-- internal/signaling/session.go, whatever fails in it, lets a user into two live calls.
use lalo_lao_alo.Base.{
  ℕ, true, false, Option, none, some, ◌≡◌, ◌≢◌, ◌⊎◌, inl, inr, refl, sym, subst, suc, update, arith,
}
use lalo_lao_alo.Common.{UserId, CallId, Time, EndReason, Error, Result, ok, err}
use lalo_lao_alo.CallState.{CallState, unset, moved, ringing, ended, is, transition}
use lalo_lao_alo.CallState.Diagram.{
  is_live, transition_cases, transition-unset, live-back, live-iff-can_end,
}
use lalo_lao_alo.Redis.{CallSession, Stored, call, room, as_call, Redis}
use lalo_lao_alo.Session.{Session}
use lalo_lao_alo.Signaling.Store.{
  create, get, get_user_active_call, find_glare_call, check_rate_limit, check_msg_dedup,
  transition_state, end, unmark, ended_with,
}

-- A live call is stored under its own identifier, and both its users are marked with it.
abbrev pub Marked : Redis → Type 0
Marked r =
    (c : CallId) (s : CallSession)
    → r.sessions c ≡ some (call s)
    → is_live s.state ≡ true
    → (s.call_id ≡ c) × (r.call_of s.caller_id ≡ some c) × (r.call_of s.callee_id ≡ some c)

-- A change of a session's other fields.
abbrev pub KeepsParties : (CallSession → CallSession) → Type 0
KeepsParties f =
    (s : CallSession)
    → ((f s).call_id ≡ s.call_id)
      × ((f s).caller_id ≡ s.caller_id)
      × ((f s).callee_id ≡ s.callee_id)
      × ((f s).state ≡ s.state)

pub create-Marked : (s : CallSession) (r : Redis) → Marked r → Marked (create s r).0
unfolding create
create-Marked s r m c s' e l = ground (arith, m c s')

pub get-Marked : (c : CallId) (r : Redis) → Marked r → Marked (get c r).0
unfolding get
get-Marked c r m c' s e l = ground (arith, m c' s)

pub get_user_active_call-Marked :
    (u : UserId) (r : Redis) → Marked r → Marked (get_user_active_call u r).0
unfolding get_user_active_call
get_user_active_call-Marked u r m c' s e l = ground (arith, m c' s)

pub find_glare_call-Marked :
    (u v : UserId) (r : Redis) → Marked r → Marked (find_glare_call u v r).0
unfolding find_glare_call
find_glare_call-Marked u v r m c' s e l = ground (arith, m c' s)

pub check_rate_limit-Marked :
    (key max : ℕ) (r : Redis) → Marked r → Marked (check_rate_limit key max r).0
unfolding check_rate_limit
check_rate_limit-Marked key max r m c' s e l = ground (arith, m c' s)

pub check_msg_dedup-Marked : (id : ℕ) (r : Redis) → Marked r → Marked (check_msg_dedup id r).0
unfolding check_msg_dedup
check_msg_dedup-Marked id r m c' s e l = ground (arith, m c' s)

pub transition_state_refused :
    (c : CallId) (to : CallState) (f : CallSession → CallSession) (r : Redis) (e : Error)
    → (transition_state c to f r).1 ≡ err e
    → ((transition_state c to f r).0.sessions ≡ r.sessions)
      × ((transition_state c to f r).0.call_of ≡ r.call_of)
unfolding transition_state
transition_state_refused c to f r e h = ground arith

pub transition_state_done :
    (c : CallId) (to : CallState) (f : CallSession → CallSession) (r : Redis) (s : Stored)
    → r.sessions c ≡ some s
    → (transition_state c to f r).1 ≡ ok tt
    → (transition (as_call s).state to ≡ moved to)
      × ((transition_state c to f r).0.sessions
          ≡ update r.sessions c (some (call (f (record (as_call s) { state = to })))))
      × ((transition_state c to f r).0.call_of ≡ r.call_of)
unfolding transition_state
transition_state_done c to f r s h k = ground (arith, transition_cases (as_call s).state to)

pub transition_state_missing :
    (c : CallId) (to : CallState) (f : CallSession → CallSession) (r : Redis)
    → r.sessions c ≡ none
    → (transition_state c to f r).1 ≢ ok tt
unfolding transition_state
transition_state_missing c to f r h k = ground arith

Result-cases : (x : Result (Unit {0})) → (x ≡ ok tt) ⊎ ((e : Error) × (x ≡ err e))
Result-cases (ok tt) = inl refl
Result-cases (err e) = inr (e, refl)

pub transition_state-Marked :
    (c : CallId) (to : CallState) (f : CallSession → CallSession) (r : Redis)
    → is to ringing ≡ false
    → KeepsParties f
    → Marked r
    → Marked (transition_state c to f r).0
unfolding as_call
transition_state-Marked c to f r n k m c' s e l =
    elim (Result-cases (transition_state c to f r).1) [
      | inr (x, h) ↦ ground (arith, transition_state_refused c to f r x h, m c' s)
      | inl h ↦ go (r.sessions c) refl h
    ]
  where
    done :
        {v : Session}
        → r.sessions c ≡ some (room v)
        → (transition_state c to f r).1 ≡ ok tt
        → transition unset to ≡ moved to
    done {v} h q = (transition_state_done c to f r (room v) h q).0

    go :
        (o : Option Stored)
        → r.sessions c ≡ o
        → (transition_state c to f r).1 ≡ ok tt
        → (s.call_id ≡ c')
          × ((transition_state c to f r).0.call_of s.caller_id ≡ some c')
          × ((transition_state c to f r).0.call_of s.callee_id ≡ some c')
    go none h q = absurd (transition_state_missing c to f r h q)
    go (some (room v)) h q = absurd (transition-unset to (done h q))
    go (some (call v)) h q = ground (
      arith,
      transition_state_done c to f r (call v) h q,
      live-back v.state to,
      k (record v { state = to }),
      m c v,
      m c' s,
    )

abbrev pub ticked : Redis → Redis
ticked r = record r { commands = suc r.commands }

unmark-Marked :
    (c : CallId) (v : CallSession) (r t : Redis)
    → Marked r
    → r.sessions c ≡ some (call v)
    → is_live v.state ≡ true
    → t.call_of ≡ r.call_of
    → Marked t
    → ((s : CallSession) → t.sessions c ≡ some (call s) → is_live s.state ≡ false)
    → Marked (unmark v t)
unmark-Marked c v r t m h l e m' over c' s h' l' = ground (arith, m c v, m' c' s, over s)

-- The transaction inside `end`.
abbrev pub ending : Time → CallId → EndReason → Redis → Redis × Result (Unit {0})
ending now c why r = transition_state c ended (ended_with why now) (ticked r)

-- Where `end` leaves Redis.
pub end_cases :
    (now : Time) (c : CallId) (why : EndReason) (r : Redis) (o : Stored)
    → r.sessions c ≡ some o
    → let t = ending now c why r in
      ((end now c why r).0 ≡ ticked r)
      ⊎ ((end now c why r).0 ≡ t.0)
      ⊎ ((t.1 ≡ ok tt) × ((end now c why r).0 ≡ ticked t.0))
      ⊎ ((t.1 ≡ ok tt) × ((end now c why r).0 ≡ unmark (as_call o) (ticked t.0)))
unfolding end
end_cases now c why r o h = ground arith

end_missing :
    (now : Time) (c : CallId) (why : EndReason) (r : Redis)
    → r.sessions c ≡ none
    → (end now c why r).0 ≡ ticked r
unfolding end
end_missing now c why r h = ground arith

ending-Marked :
    (now : Time) (c : CallId) (why : EndReason) (r : Redis)
    → Marked r
    → Marked (ending now c why r).0
ending-Marked now c why r m =
    transition_state-Marked c ended (ended_with why now) (ticked r) refl
      (λ s. (refl, refl, refl, refl)) m

unmarked-Marked :
    (now : Time) (c : CallId) (why : EndReason) (r : Redis) (o : Stored)
    → r.sessions c ≡ some o
    → (ending now c why r).1 ≡ ok tt
    → Marked r
    → Marked (unmark (as_call o) (ticked (ending now c why r).0))
unfolding as_call
unmarked-Marked now c why r (room v) h q m = absurd (
    transition-unset ended
      (transition_state_done c ended (ended_with why now) (ticked r) (room v) h q).0)
unmarked-Marked now c why r (call v) h q m =
    let done = transition_state_done c ended (ended_with why now) (ticked r) (call v) h q in
    unmark-Marked c v r (ticked (ending now c why r).0) m h ((live-iff-can_end v.state).1 done.0)
      done.2 (ending-Marked now c why r m) (λ s e. ground (arith, done.1))

pub end-Marked :
    (now : Time) (c : CallId) (why : EndReason) (r : Redis) → Marked r → Marked (end now c why r).0
end-Marked now c why r m = go (r.sessions c) refl
  where
    go : (o : Option Stored) → r.sessions c ≡ o → Marked (end now c why r).0
    go none h = subst Marked (sym (end_missing now c why r h)) m
    go (some o) h = elim (end_cases now c why r o h) [
      | inl e ↦ subst Marked (sym e) m
      | inr (inl e) ↦ subst Marked (sym e) (ending-Marked now c why r m)
      | inr (inr (inl (_, e))) ↦ subst Marked (sym e) (ending-Marked now c why r m)
      | inr (inr (inr (q, e))) ↦ subst Marked (sym e) (unmarked-Marked now c why r o h q m)
    ]

-- No user is in two live calls.
pub live_calls_disjoint :
    (r : Redis) (c d : CallId) (s t : CallSession) (u : UserId)
    → Marked r
    → r.sessions c ≡ some (call s)
    → r.sessions d ≡ some (call t)
    → is_live s.state ≡ true
    → is_live t.state ≡ true
    → (u ≡ s.caller_id) ⊎ (u ≡ s.callee_id)
    → (u ≡ t.caller_id) ⊎ (u ≡ t.callee_id)
    → c ≡ d
live_calls_disjoint r c d s t u m hc hd ls lt us ut = ground (arith, m c s, m d t)
