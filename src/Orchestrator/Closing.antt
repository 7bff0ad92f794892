-- ===== src/Orchestrator/Closing.antt =====
-- How calls and rooms end: `EndSession` and `CloseRoom` of internal/session.
use lalo_lao_alo.Base.{List, [], ◌∷◌, ◌++◌, Option, none, some, ◌≡◌, ◌≢◌, update, arith}
use lalo_lao_alo.Common.{UserId, CallId, Time, EndReason, ok}
use lalo_lao_alo.Redis.{Redis, Stored, as_room}
use lalo_lao_alo.Session.{Session, Participant, active_participants, find_participant, leave_all}
use lalo_lao_alo.Session.Active.{active-leave_all}
use lalo_lao_alo.Session.Cdr.{generate_cdr}
use lalo_lao_alo.Events.{call_ended, room_closed}
use lalo_lao_alo.Orchestrator.Store
use lalo_lao_alo.Orchestrator.Store.{unmark_all, ended_session}
use lalo_lao_alo.Orchestrator.Services.{Services, publish, write_full}
use lalo_lao_alo.Orchestrator.Calls.{end_session}
use lalo_lao_alo.Orchestrator.Rooms.{close_room}

pub unmark_all-none :
    (ps : List Participant) (marks : UserId → Option CallId) (u : UserId)
    → marks u ≡ none
    → unmark_all ps marks u ≡ none
unmark_all-none [] marks u h = h
unmark_all-none (p ∷ ps) marks u h =
    unmark_all-none ps (update marks p.user_id none) u (ground arith)

-- The mark of everybody who is in the list is taken away.
pub unmark_all-found :
    (now : Time) (ps : List Participant) (marks : UserId → Option CallId) (u : UserId)
    (p : Participant)
    → find_participant ps u ≡ some p
    → unmark_all (leave_all now ps) marks u ≡ none
unfolding find_participant leave_all
unmark_all-found now [] marks u p h = cc
unmark_all-found now (q ∷ ps) marks u p h = ground (
  arith,
  unmark_all-none (leave_all now ps) (update marks q.user_id none) u,
  unmark_all-found now ps (update marks q.user_id none) u p,
)

-- The session `s'` that `s` is after its end: no active participants, ended now; and nobody whom `s`
-- lists is marked with a call any more.
pub record Cleared (now : Time) (s s' : Session) (r : Redis) : Type 0 where
  pub nobody : active_participants s'.participants ≡ []
  pub at : s'.ended_at ≡ now
  pub unmarked :
      (u : UserId) (p : Participant)
      → find_participant s.participants u ≡ some p
      → r.active_call u ≡ none

pub end_session_result :
    (now : Time) (c : CallId) (why : EndReason) (r : Redis) (o : Stored) (s' : Session)
    → r.sessions c ≡ some o
    → (Store.end_session now c why r).1 ≡ ok s'
    → (s' ≡ ended_session now why (as_room o))
      × ((Store.end_session now c why r).0.active_call ≡ unmark_all s'.participants r.active_call)
unfolding Store.end_session
end_session_result now c why r o s' h e = (ground arith, ground arith)

-- Where `EndSession` of the store returns a session, at a time that is not Go's zero time and for a
-- stored record, the returned session has no active participants and ended now, and nobody who was
-- listed in the record is marked with an active call any more.
pub end_session-Cleared :
    (now : Time) (c : CallId) (why : EndReason) (r : Redis) (o : Stored) (s' : Session)
    → now ≢ 0
    → r.sessions c ≡ some o
    → (Store.end_session now c why r).1 ≡ ok s'
    → Cleared now (as_room o) s' (Store.end_session now c why r).0
end_session-Cleared now c why r o s' z h e =
    let done = end_session_result now c why r o s' h e in
    record {
      nobody = rw done.0 (active-leave_all now (as_room o).participants z);
      at = rw done.0;
      unmarked = λ u p found.
          rw (done.1, done.0)
            (unmark_all-found now (as_room o).participants r.active_call u p found);
    }

module _ (now : Time) (c : CallId) (why : EndReason) (w : Services) (s : Session)
    (stored : (Store.end_session now c why w.rdb).1 ≡ ok s) where
  -- Where the store ends a session, the orchestrator's `EndSession` publishes `call.ended` twice: from
  -- `WriteFull` with the identifier and reason of the session, and by itself with those that it was
  -- called with, with one duration.
  end_session_announces :
      (end_session now c why w).0.published
      ≡ (w.published ++ call_ended s.call_id s.end_reason (generate_cdr s).duration_seconds ∷ [])
        ++ call_ended c why (generate_cdr s).duration_seconds ∷ []
  unfolding end_session publish write_full
  end_session_announces = ground arith

  pub close_room_announces :
      (close_room now c why w).0.published
      ≡ ((w.published ++ call_ended s.call_id s.end_reason (generate_cdr s).duration_seconds ∷ [])
          ++ room_closed c why (generate_cdr s).duration_seconds ∷ [])
        ++ call_ended c why (generate_cdr s).duration_seconds ∷ []
  unfolding close_room publish write_full
  close_room_announces = ground arith
