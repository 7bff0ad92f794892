-- ===== src/Signaling/Store/Laws.antt =====
-- What the operations of internal/signaling/session.go promise on each branch.
use lalo_lao_alo.Base.{true, Option, none, some, ◌≡◌, ◌≢◌, ◌⊎◌, refl, update, arith}
use lalo_lao_alo.Common.{CallId, Time, EndReason, Error, Result, ok, err}
use lalo_lao_alo.CallState.{ended}
use lalo_lao_alo.CallState.Diagram.{is_live, live-iff-can_end, transition-unset}
use lalo_lao_alo.Redis.{CallSession, Stored, call, room, as_call, Redis}
use lalo_lao_alo.Signaling.Store.{create, end, unmark, ended_with}
use lalo_lao_alo.Signaling.Store.Marks.{ticked, ending, transition_state_done}

-- `create` succeeds only if both users are free.
pub create_needs_free :
    (s : CallSession) (r : Redis)
    → (create s r).1 ≡ ok tt
    → (r.call_of s.caller_id ≡ none) × (r.call_of s.callee_id ≡ none)
unfolding create
create_needs_free s r h = ground arith

pub create_stores :
    (s : CallSession) (r : Redis)
    → (create s r).1 ≡ ok tt
    → ((create s r).0.sessions ≡ update r.sessions s.call_id (some (call s)))
      × ((create s r).0.call_of s.caller_id ≡ some s.call_id)
      × ((create s r).0.call_of s.callee_id ≡ some s.call_id)
unfolding create
create_stores s r h = (ground arith, ground arith, ground arith)

pub create_fails :
    (s : CallSession) (r : Redis) (e : Error)
    → (create s r).1 ≡ err e
    → ((create s r).0.sessions ≡ r.sessions) × ((create s r).0.call_of ≡ r.call_of)
unfolding create
create_fails s r e h = ground arith

abbrev pub CreateOutcome : CallSession → Redis → Redis → Result (Unit {0}) → Type 0
CreateOutcome s r q (ok a) =
    (r.call_of s.caller_id ≡ none)
    × (r.call_of s.callee_id ≡ none)
    × (q.sessions ≡ update r.sessions s.call_id (some (call s)))
    × (q.call_of s.caller_id ≡ some s.call_id)
    × (q.call_of s.callee_id ≡ some s.call_id)
CreateOutcome s r q (err e) = (q.sessions ≡ r.sessions) × (q.call_of ≡ r.call_of)

-- `Create` is all or nothing, whatever fails in it: where it succeeds both users were free, the
-- session is stored under its identifier with the others as they were, and both users are marked
-- with it; where it fails no session and no mark has changed.
create_all_or_nothing :
    (s : CallSession) (r : Redis) → CreateOutcome s r (create s r).0 (create s r).1
create_all_or_nothing s r = go (create s r).1 refl
  where
    go : (x : Result (Unit {0})) → (create s r).1 ≡ x → CreateOutcome s r (create s r).0 x
    go (ok tt) h =
        let free = create_needs_free s r h in
        let done = create_stores s r h in (free.0, free.1, done.0, done.1, done.2)
    go (err e) h = create_fails s r e h

-- A user who is marked makes `create` refuse, unless Redis fails first.
pub create_busy :
    (s : CallSession) (r : Redis) (c : CallId)
    → (r.call_of s.caller_id ≡ some c) ⊎ (r.call_of s.callee_id ≡ some c)
    → (create s r).1 ≢ ok tt
unfolding create
create_busy s r c h k = ground arith

end_found :
    (now : Time) (c : CallId) (why : EndReason) (r : Redis) (o : Stored)
    → r.sessions c ≡ some o
    → (end now c why r).1 ≡ ok tt
    → ((ending now c why r).1 ≡ ok tt)
      × ((end now c why r).0 ≡ unmark (as_call o) (ticked (ending now c why r).0))
unfolding end
end_found now c why r o h k = ground arith

end_missing_fails :
    (now : Time) (c : CallId) (why : EndReason) (r : Redis)
    → r.sessions c ≡ none
    → (end now c why r).1 ≢ ok tt
unfolding end
end_missing_fails now c why r h k = ground arith

-- A call that has been ended: it was live, it is ENDED with the reason and the time, its users are
-- free, and no other session is touched.
pub record Ended (now : Time) (c : CallId) (why : EndReason) (s : CallSession) (r q : Redis)
    : Type 0 where
  pub was_live : is_live s.state ≡ true
  pub stored :
      q.sessions
      ≡ update r.sessions c
          (some (call (record s { state = ended; ended_at = now; end_reason = why })))
  pub caller_free : q.call_of s.caller_id ≡ none
  pub callee_free : q.call_of s.callee_id ≡ none

-- Where `End` returns no error, the call was stored and live, it is now ENDED with the given reason
-- and time, no other session has changed, and neither of its users is marked any more.
pub end_ends :
    (now : Time) (c : CallId) (why : EndReason) (r : Redis)
    → (end now c why r).1 ≡ ok tt
    → (s : CallSession) × (r.sessions c ≡ some (call s)) × Ended now c why s r (end now c why r).0
unfolding as_call
end_ends now c why r k = go (r.sessions c) refl
  where
    go :
        (o : Option Stored)
        → r.sessions c ≡ o
        → (s : CallSession) × (r.sessions c ≡ some (call s))
          × Ended now c why s r (end now c why r).0
    go none h = absurd (end_missing_fails now c why r h k)
    go (some (room v)) h =
        let found = end_found now c why r (room v) h k in
        absurd (
          transition-unset ended
            (transition_state_done c ended (ended_with why now) (ticked r) (room v) h found.0).0)
    go (some (call s)) h =
        let found = end_found now c why r (call s) h k in
        let done =
          transition_state_done c ended (ended_with why now) (ticked r) (call s) h found.0 in
        (
          s,
          h,
          record {
            was_live = (live-iff-can_end s.state).1 done.0;
            stored = rw found.1 done.1;
            caller_free = rw found.1 (ground arith);
            callee_free = rw found.1 (ground arith);
          },
        )
