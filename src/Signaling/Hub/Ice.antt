-- ===== src/Signaling/Hub/Ice.antt =====
-- ICE candidates: `handleICECandidate` and the buffer of internal/signaling/hub.go.
use lalo_lao_alo.Base.{
  ◌-◌, ◌≤◌, List, [], ◌∷◌, ◌++◌, map, Option, none, some, ltb, if◌then◌else◌, length, length-drop,
  drop, update, ◌≡◌, sym, inl, inr, Bool-cases, last_of, last_of-short, last_of-append, arith,
}
use mathlib.Core.List.{append-nil, append_assoc}
use lalo_lao_alo.Common.{UserId, CallId}
use lalo_lao_alo.CallState.{reconnecting, is}
use lalo_lao_alo.Signaling.Store
use lalo_lao_alo.Signaling.Message.{IceCandidate, Code, ice_candidate}
use lalo_lao_alo.Signaling.Hub.{Client, Sent, Action, skip, asking, send, send_error}
use lalo_lao_alo.Signaling.Hub.Calls.{peer_of}

-- The buffer after one more candidate: the source appends, then keeps the last 50.
unfoldable pub appended : List IceCandidate → IceCandidate → List IceCandidate
appended buf c =
    let all = buf ++ c ∷ [] in if ltb 50 (length all) then drop (length all - 50) all else all

unfoldable pub buffer_ice_candidate : CallId → IceCandidate → Action
unfolding appended
buffer_ice_candidate id c h = record h { ice_buf = update h.ice_buf id (appended (h.ice_buf id) c) }

unfoldable pub clear_ice_buffer : CallId → Action
clear_ice_buffer id h = record h { ice_buf = update h.ice_buf id [] }

abbrev pub candidate_to : Client → IceCandidate → Sent
candidate_to client c = record { to = client; seq = 0; message = ice_candidate c }

unfoldable pub flush_ice_buffer : CallId → Client → Action
flush_ice_buffer id client h = record h {
  ice_buf = update h.ice_buf id [];
  outbox = h.outbox ++ map (candidate_to client) (h.ice_buf id);
}

-- `getClient` and the send to whom it finds: the first device that the map's iteration meets.
abbrev pub send_first : List Client → IceCandidate → Action
send_first [] c = skip
send_first (peer ∷ others) c = send peer (ice_candidate c)

unfoldable pub forward_candidate : UserId → IceCandidate → Action
forward_candidate peer_id c h = send_first (h.clients peer_id) c h

unfoldable pub handle_ice_candidate : Client → Option IceCandidate → Action
handle_ice_candidate client none = send_error client Code.invalid_message 0
handle_ice_candidate client (some msg) =
    asking (Store.get msg.call_id) (λ e. send_error client Code.not_found msg.call_id)
      (λ s.
        if is s.state reconnecting
        then buffer_ice_candidate msg.call_id msg
        else forward_candidate (peer_of client.user_id s) msg)

-- The buffer that a sequence of candidates leaves.
abbrev pub buffered : List IceCandidate → List IceCandidate → List IceCandidate
buffered buf [] = buf
buffered buf (c ∷ cs) = buffered (appended buf c) cs

appended_lem :
    (buf : List IceCandidate) (c : IceCandidate) → appended buf c ≡ last_of 50 (buf ++ c ∷ [])
unfolding appended
appended_lem buf c = elim (Bool-cases (ltb 50 (length (buf ++ c ∷ [])))) [
  | inl long ↦ rw long
  | inr short ↦ rw short (sym (last_of-short 50 (buf ++ c ∷ []) (ground arith)))
]

buffered_lem : (all cs : List IceCandidate) → buffered (last_of 50 all) cs ≡ last_of 50 (all ++ cs)
buffered_lem all [] = rw append-nil
buffered_lem all (c ∷ cs) =
    rw (appended_lem (last_of 50 all) c, last_of-append 50 all (c ∷ []))
      (rw (buffered_lem (all ++ c ∷ []) cs, append_assoc))

-- However many candidates arrive at an empty buffer, it then holds the last 50 of them, in order.
pub buffered-last : (cs : List IceCandidate) → buffered [] cs ≡ last_of 50 cs
buffered-last cs = buffered_lem [] cs

pub buffered_bounded : (cs : List IceCandidate) → length (buffered [] cs) ≤ 50
buffered_bounded cs = rw (buffered-last cs) (omega (arith, length-drop (length cs - 50) cs))
