-- ===== src/Examples/Calls.antt =====
-- The theorems on 1:1 calls at concrete inputs.
use lalo_lao_alo.Base.{true, List, [], ◌∷◌, ◌++◌, none, some, ◌≡◌, refl, inr, arith, update}
use lalo_lao_alo.Common.{ok, audio, normal, declined}
use lalo_lao_alo.CallState.{ringing, connecting, active, reconnecting}
use lalo_lao_alo.Redis.{CallSession, call}
use lalo_lao_alo.Events.{Event}
use lalo_lao_alo.Session.{unset_path}
use lalo_lao_alo.Signaling.Store
use lalo_lao_alo.Signaling.Store.Laws as Laws
use lalo_lao_alo.Signaling.Store.Prompt as Prompt
use lalo_lao_alo.Signaling.Store.Laws.{Ended, CreateOutcome}
use lalo_lao_alo.Signaling.Store.Prompt.{Healthy}
use lalo_lao_alo.Signaling.Store.Marks.{Marked}
use lalo_lao_alo.Signaling.Message.{
  CallInitiate, CallAccept, CallReject, IceCandidate, is_valid_sdp, session_resumed,
  peer_reconnected,
}
use lalo_lao_alo.Signaling.Hub.{Hub, asking, publish, send_to_user}
use lalo_lao_alo.Signaling.Hub.Calls.{
  handle_call_initiate, handle_call_accept, handle_call_reject, handle_call_end, handle_call_cancel,
  resolve_glare,
}
use lalo_lao_alo.Signaling.Hub.Ice.{buffered, candidate_to}
use lalo_lao_alo.Signaling.Hub.Reconnect.{handle_reconnect, register, unregister}
use lalo_lao_alo.Signaling.Hub.Connections as Connections
use lalo_lao_alo.Signaling.Hub.Run.{Input, says, run, call_initiate, step, handle_message, dispatch}
use lalo_lao_alo.Signaling.Hub.Answer as Answer
use lalo_lao_alo.Signaling.Hub.Authority.{Untouched}
use lalo_lao_alo.Signaling.Hub.Glare as Glare
use lalo_lao_alo.Signaling.Hub.Glare.{Rings}
use lalo_lao_alo.Signaling.Hub.Ice as Ice
use lalo_lao_alo.Signaling.Hub.Reachable as Reachable
use lalo_lao_alo.Signaling.Hub.Resume as Resume
use lalo_lao_alo.Signaling.Hub.Spared.{OwnKeys}
use lalo_lao_alo.Redis.{as_call}
use lalo_lao_alo.Base.{last_of}
use lalo_lao_alo.Examples.{
  empty_redis, phone, hub_on, offer, call_in, redis_with, hub_with, redis_with-Healthy,
}

-- User 1 calls user 2.
abbrev dialling : List Input
dialling =
    says (record { now = 10; fresh = 7; resolve = λ u. ok u; rate_key = 0 }) (phone 1)
      (some (record {
        msg_id = 5;
        request =
            call_initiate (some (record { callee_id = 2; sdp_offer = offer; call_type = audio }));
      }))
    ∷ []

dialled : (run dialling (hub_on empty_redis)).rdb.sessions 7 ≡ some (call (call_in ringing))
unfolding run step handle_message dispatch asking handle_call_initiate publish send_to_user
    Store.check_msg_dedup Store.create is_valid_sdp
dialled = refl

run_calls_disjoint_example : (call_in ringing).call_id ≡ 7
run_calls_disjoint_example =
    Reachable.run_calls_disjoint dialling (hub_on empty_redis) 7 7 (call_in ringing)
      (call_in ringing) 2 (λ c. refl) dialled dialled refl refl (inr refl) (inr refl)

ended_ok : (Store.end 20 7 normal (redis_with active)).1 ≡ ok tt
ended_ok =
    Prompt.end_succeeds 20 7 normal (redis_with active) (call_in active) (redis_with-Healthy active)
      refl refl

end_ends_example :
    (s : CallSession) × ((redis_with active).sessions 7 ≡ some (call s))
    × Ended 20 7 normal s (redis_with active) (Store.end 20 7 normal (redis_with active)).0
end_ends_example = Laws.end_ends 20 7 normal (redis_with active) ended_ok

one_call-Marked : Marked (redis_with ringing)
one_call-Marked c s e l = ground arith

abbrev back_call : CallInitiate
back_call = record { callee_id = 1; sdp_offer = offer; call_type = audio }

lower_id_wins_example :
    Rings 1 2 (resolve_glare 20 8 (phone 2) (call_in ringing) back_call (hub_with ringing)).rdb
lower_id_wins_example =
    Glare.lower_id_wins 20 8 (phone 2) (call_in ringing) back_call (hub_with ringing)
      (redis_with-Healthy ringing) refl refl refl refl (omega arith) one_call-Marked

abbrev answer : CallAccept
answer = record { call_id = 7; sdp_answer = offer }

abbrev no_answer : CallReject
no_answer = record { call_id = 7; reason = declined }

offer_valid : is_valid_sdp offer ≡ true
unfolding is_valid_sdp
offer_valid = refl

accept_connects_example :
    let h' = handle_call_accept 20 (phone 2) (some answer) (hub_with ringing) in
    (h'.rdb.sessions
      ≡ update (redis_with ringing).sessions 7 (
          some (
            call (record (call_in ringing) {
              state = connecting;
              sdp_answer = offer;
              answered_at = 20;
            }))))
    × (h'.rdb.call_of ≡ (redis_with ringing).call_of)
    × (h'.published ≡ [] ++ Event.call_accepted 7 2 unset_path ∷ [])
accept_connects_example =
    Answer.accept_connects 20 (hub_with ringing) (phone 2) answer (call_in ringing)
      (redis_with-Healthy ringing) refl refl refl offer_valid

outsider_changes_nothing_example :
    Untouched (hub_with ringing) (handle_call_accept 20 (phone 3) (some answer) (hub_with ringing))
    × Untouched
        (hub_with ringing)
        (handle_call_reject 20 (phone 3) (some no_answer) (hub_with ringing))
    × Untouched (hub_with ringing) (handle_call_end 20 (phone 3) (some 7) (hub_with ringing))
    × Untouched (hub_with ringing) (handle_call_cancel 20 (phone 3) (some 7) (hub_with ringing))
    × Untouched (hub_with ringing) (handle_reconnect (phone 3) (some 7) (hub_with ringing))
outsider_changes_nothing_example =
    Answer.outsider_changes_nothing 20 (hub_with ringing) (phone 3) (call_in ringing) answer
      no_answer 7 refl refl refl (omega arith) (omega arith)

-- User 1 has lost the connection, and two candidates have arrived for user 1 since.
abbrev early : IceCandidate
early = record { call_id = 7; candidate = 1 }

abbrev late_one : IceCandidate
late_one = record { call_id = 7; candidate = 2 }

abbrev waiting : Hub
waiting = record (hub_with reconnecting) {
  grace = λ u. some 4;
  timers = λ n. some (record { user_id = 1; call_id = 7; peer_id = 2 });
  ice_buf = λ c. early ∷ late_one ∷ [];
}

reconnect_resumes_example :
    let h' = handle_reconnect (phone 1) (some 7) waiting in
    (h'.rdb.sessions
      ≡ update
          (redis_with reconnecting).sessions
          7
          (some (call (record (call_in reconnecting) { state = active }))))
    × (h'.timers 4 ≡ none)
    × (h'.ice_buf 7 ≡ [])
    × (h'.outbox
        ≡ record { to = phone 1; seq = 0; message = session_resumed 7 active 2 }
          ∷ record { to = phone 2; seq = 1; message = peer_reconnected 7 1 }
          ∷ candidate_to (phone 1) early
          ∷ candidate_to (phone 1) late_one
          ∷ [])
reconnect_resumes_example =
    Resume.reconnect_resumes (phone 1) 7 (call_in reconnecting) waiting 4
      (redis_with-Healthy reconnecting) refl (omega arith) refl refl refl

buffered-last_example : buffered [] (early ∷ late_one ∷ []) ≡ last_of 50 (early ∷ late_one ∷ [])
buffered-last_example = Ice.buffered-last (early ∷ late_one ∷ [])

own_key : OwnKeys (redis_with active)
unfolding as_call
own_key c v e = ground arith

late_departure_harmless_example :
    unregister 30 (phone 1) (register (record (phone 1) { conn = 9 }) (hub_with ringing))
    ≡ register (record (phone 1) { conn = 9 }) (hub_with ringing)
late_departure_harmless_example =
    Connections.late_departure_harmless 30 1 (record (phone 1) { conn = 9 }) (hub_with ringing)
      (omega arith)
