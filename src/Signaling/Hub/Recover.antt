-- ===== src/Signaling/Hub/Recover.antt =====
-- Recovery after a restart: `RecoverSessions` of internal/signaling/hub.go, and what it deletes.
use lalo_lao_alo.Base.{
  ℕ, suc, Bool, false, not, ◌&&◌, List, [], ◌∷◌, Option, none, some, if◌then◌else◌, is_empty, ◌≡◌,
  arith,
}
use lalo_lao_alo.Common.{CallId, Time, orphan_cleanup, is_zero}
use lalo_lao_alo.Redis.{Redis, CallSession}
use lalo_lao_alo.Session.{Session, Participant, active_participants}
use lalo_lao_alo.Orchestrator.Store as Sessions
use lalo_lao_alo.Orchestrator.Rooms as Groups
use lalo_lao_alo.Signaling.Store
use lalo_lao_alo.Signaling.Hub.{
  Hub, Action, skip, ◌⨾◌, with_rdb, asking, requesting, is_user_online,
}
use lalo_lao_alo.Signaling.Hub.Membership.{add_to_room, set_room_host}

-- Neither party has a connection.
abbrev pub is_orphan : Hub → CallSession → Bool
is_orphan h s = not (is_user_online s.caller_id h) && not (is_user_online s.callee_id h)

unfoldable pub clean_call : CallSession → Action
clean_call s h =
    (if is_orphan h s then asking (Store.delete s.call_id) (λ e. skip) (λ _. skip) else skip) h

unfoldable pub clean_calls : List CallSession → Action
clean_calls [] = skip
clean_calls (s ∷ ss) = clean_call s ⨾ clean_calls ss

-- The part on 1:1 calls, over the keys that SCAN returns.
unfoldable pub recover_calls : List CallId → Action
unfolding clean_calls
recover_calls keys h =
    let (r, found) = Store.scan_active_sessions keys h.rdb in clean_calls found (with_rdb r h)

unfoldable pub rejoin_online : CallId → List Participant → Action
rejoin_online c [] = skip
rejoin_online c (p ∷ ps) =
    (λ h. (if is_user_online p.user_id h then add_to_room c p.user_id else skip) h)
    ⨾ rejoin_online c ps

unfoldable pub recover_room : Time → Session → Action
unfolding rejoin_online
recover_room now s =
    let here = active_participants s.participants in
    if is_empty here
    then requesting (Groups.close_room now s.call_id orphan_cleanup) (λ e. skip) (λ _. skip)
    else rejoin_online s.call_id here
      ⨾ (if is_zero s.initiator_id then skip else set_room_host s.call_id s.initiator_id)

unfoldable pub recover_each : Time → List Session → Action
unfolding recover_room
recover_each now [] = skip
recover_each now (s ∷ ss) = recover_room now s ⨾ recover_each now ss

-- The part on rooms. `none` is a SCAN that fails.
unfoldable pub recover_rooms : Time → Option (List CallId) → Action
recover_rooms now none h = h
recover_rooms now (some keys) h =
    let (r, found) = Sessions.scan_group_sessions keys h.rdb in
    recover_each now found (with_rdb r h)

-- `RecoverSessions`: SCAN runs once for the calls and, where an orchestrator is configured, again
-- for the rooms.
unfoldable pub recover_sessions : Time → Option (List CallId) → Option (List CallId) → Action
unfolding recover_calls recover_rooms
recover_sessions now none group_keys h = h
recover_sessions now (some keys) group_keys h =
    let h' = recover_calls keys h in if h'.group_calls then recover_rooms now group_keys h' else h'

pub delete-none :
    (c d : CallId) (r : Redis) → r.sessions c ≡ none → (Store.delete d r).0.sessions c ≡ none
unfolding Store.delete
delete-none c d r h = ground arith

-- No Redis command fails.
abbrev pub Answering : Redis → Type 0
Answering r = (n : ℕ) → r.fails n ≡ false

pub delete-gone : (c : CallId) (r : Redis) → Answering r → (Store.delete c r).0.sessions c ≡ none
unfolding Store.delete
delete-gone c r well = ground (arith, well r.commands, well (suc r.commands))
