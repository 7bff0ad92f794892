-- ===== src/Signaling/Store/Prompt.antt =====
-- Where Redis answers, the operations of internal/signaling/session.go succeed.
use lalo_lao_alo.Base.{ℕ, suc, true, false, none, some, ◌≡◌, arith}
use lalo_lao_alo.Common.{CallId, Time, EndReason, ok}
use lalo_lao_alo.CallState.{CallState, moved, ended, transition}
use lalo_lao_alo.CallState.Diagram.{is_live, live-iff-can_end}
use lalo_lao_alo.Redis.{CallSession, call, Redis}
use lalo_lao_alo.Signaling.Store.{create, transition_state, end, ended_with}
use lalo_lao_alo.Signaling.Store.Marks.{ticked, ending}

-- Redis answers every command, and no transaction loses its race.
pub record Healthy (r : Redis) : Type 0 where
  pub answers : (n : ℕ) → r.fails n ≡ false
  pub wins : (n : ℕ) → r.conflicts n ≡ false

pub ticked-Healthy : {r : Redis} → Healthy r → Healthy (ticked r)
ticked-Healthy v = record { answers = v.answers; wins = v.wins }

-- Of the next few commands.
pub prompt :
    {r : Redis}
    → Healthy r
    → let n = r.commands in
      (r.fails n ≡ false)
      × (r.fails (suc n) ≡ false)
      × (r.fails (suc (suc n)) ≡ false)
      × (r.fails (suc (suc (suc n))) ≡ false)
      × (r.conflicts (suc n) ≡ false)
      × (r.conflicts (suc (suc n)) ≡ false)
      × (r.conflicts (suc (suc (suc n))) ≡ false)
prompt v = (v.answers _, v.answers _, v.answers _, v.answers _, v.wins _, v.wins _, v.wins _)

pub create_succeeds :
    (s : CallSession) (r : Redis)
    → Healthy r
    → r.call_of s.caller_id ≡ none
    → r.call_of s.callee_id ≡ none
    → (create s r).1 ≡ ok tt
unfolding create
create_succeeds s r v a b = ground (arith, prompt v)

pub transition_state_succeeds :
    (c : CallId) (to : CallState) (f : CallSession → CallSession) (r : Redis) (s : CallSession)
    → Healthy r
    → r.sessions c ≡ some (call s)
    → transition s.state to ≡ moved to
    → (transition_state c to f r).1 ≡ ok tt
unfolding transition_state
transition_state_succeeds c to f r s v a b = ground (arith, prompt v)

pub transition_state-faults :
    (c : CallId) (to : CallState) (f : CallSession → CallSession) (r : Redis)
    → ((transition_state c to f r).0.fails ≡ r.fails)
      × ((transition_state c to f r).0.conflicts ≡ r.conflicts)
unfolding transition_state
transition_state-faults c to f r = (ground arith, ground arith)

pub transition_state-Healthy :
    (c : CallId) (to : CallState) (f : CallSession → CallSession) (r : Redis)
    → Healthy r
    → Healthy (transition_state c to f r).0
transition_state-Healthy c to f r v =
    let same = transition_state-faults c to f r in
    record { answers = λ n. rw same.0 (v.answers n); wins = λ n. rw same.1 (v.wins n) }

end-result :
    (now : Time) (c : CallId) (why : EndReason) (r : Redis) (s : CallSession)
    → r.sessions c ≡ some (call s)
    → r.fails r.commands ≡ false
    → (ending now c why r).1 ≡ ok tt
    → (ending now c why r).0.fails (ending now c why r).0.commands ≡ false
    → (end now c why r).1 ≡ ok tt
unfolding end
end-result now c why r s h f g k = ground arith

end-faults :
    (now : Time) (c : CallId) (why : EndReason) (r : Redis)
    → ((end now c why r).0.fails ≡ r.fails) × ((end now c why r).0.conflicts ≡ r.conflicts)
unfolding end
end-faults now c why r =
    let same = transition_state-faults c ended (ended_with why now) (ticked r) in
    (ground arith, ground arith)

pub end-Healthy :
    (now : Time) (c : CallId) (why : EndReason) (r : Redis)
    → Healthy r
    → Healthy (end now c why r).0
end-Healthy now c why r v =
    let same = end-faults now c why r in
    record { answers = λ n. rw same.0 (v.answers n); wins = λ n. rw same.1 (v.wins n) }

-- A live call can be ended.
pub end_succeeds :
    (now : Time) (c : CallId) (why : EndReason) (r : Redis) (s : CallSession)
    → Healthy r
    → r.sessions c ≡ some (call s)
    → is_live s.state ≡ true
    → (end now c why r).1 ≡ ok tt
end_succeeds now c why r s v h l =
    let done =
      transition_state_succeeds c ended (ended_with why now) (ticked r) s (ticked-Healthy v) h
        ((live-iff-can_end s.state).0 l) in
    let well =
      transition_state-Healthy c ended (ended_with why now) (ticked r) (ticked-Healthy v) in
    end-result now c why r s h (v.answers r.commands) done (well.answers _)
