-- ===== src/Signaling/Hub/Invariant.antt =====
-- Every handler of a 1:1 call in internal/signaling/hub.go keeps the marks, whatever Redis does.
use lalo_lao_alo.Base.{Option, none, some, refl}
use lalo_lao_alo.Common.{CallId, Time, Error, user_busy}
use lalo_lao_alo.CallState.{connecting, active, reconnecting}
use lalo_lao_alo.Redis.{Sdp, CallSession}
use lalo_lao_alo.Signaling.Store
use lalo_lao_alo.Signaling.Message.{CallInitiate, CallAccept, CallReject}
use lalo_lao_alo.Signaling.Hub.{Client}
use lalo_lao_alo.Signaling.Hub.Keeps.{Keeps, KeepsStore, KeepsStore-transition_state, keeping}
use lalo_lao_alo.Signaling.Hub.Calls.{
  answered_with, replace_call, resolve_glare, glare_or_busy, initiate_failed, handle_call_initiate,
  handle_call_accept, handle_call_reject, handle_call_end, handle_call_cancel, ring_expired,
  ice_expired, promote_to_active,
}

pub KeepsStore-answer :
    (c : CallId) (sdp : Sdp) (now : Time)
    → KeepsStore (Store.transition_state c connecting (answered_with sdp now))
KeepsStore-answer c sdp now =
    KeepsStore-transition_state c connecting _ refl (λ s. (refl, refl, refl, refl))

pub KeepsStore-activate : (c : CallId) → KeepsStore (Store.transition_state c active (λ s. s))
KeepsStore-activate c =
    KeepsStore-transition_state c active (λ s. s) refl (λ s. (refl, refl, refl, refl))

pub KeepsStore-suspend : (c : CallId) → KeepsStore (Store.transition_state c reconnecting (λ s. s))
KeepsStore-suspend c =
    KeepsStore-transition_state c reconnecting (λ s. s) refl (λ s. (refl, refl, refl, refl))

Keeps-replace_call :
    (now : Time) (fresh : CallId) (caller : Client) (s : CallSession) (msg : CallInitiate)
    → Keeps (replace_call now fresh caller s msg)
unfolding replace_call
Keeps-replace_call now fresh caller s msg = search keeping depth 12

Keeps-resolve_glare :
    (now : Time) (fresh : CallId) (caller : Client) (s : CallSession) (msg : CallInitiate)
    → Keeps (resolve_glare now fresh caller s msg)
unfolding resolve_glare
Keeps-resolve_glare now fresh caller s msg = search (keeping, Keeps-replace_call) depth 12

Keeps-glare_or_busy :
    (now : Time) (fresh : CallId) (caller : Client) (msg : CallInitiate) (o : Option CallSession)
    → Keeps (glare_or_busy now fresh caller msg o)
Keeps-glare_or_busy now fresh caller msg none = search keeping
Keeps-glare_or_busy now fresh caller msg (some s) = Keeps-resolve_glare now fresh caller s msg

Keeps-initiate_failed :
    (now : Time) (fresh : CallId) (caller : Client) (msg : CallInitiate) (e : Error)
    → Keeps (initiate_failed now fresh caller msg e)
Keeps-initiate_failed now fresh caller msg user_busy =
    search (keeping, Keeps-glare_or_busy) depth 12
Keeps-initiate_failed now fresh caller msg _ = search keeping

pub Keeps-handle_call_initiate :
    (now : Time) (fresh : CallId) (caller : Client) (m : Option CallInitiate)
    → Keeps (handle_call_initiate now fresh caller m)
unfolding handle_call_initiate
Keeps-handle_call_initiate now fresh caller none = search keeping
Keeps-handle_call_initiate now fresh caller (some msg) =
    search (keeping, Keeps-initiate_failed) depth 16

pub Keeps-handle_call_accept :
    (now : Time) (callee : Client) (m : Option CallAccept) → Keeps (handle_call_accept now callee m)
unfolding handle_call_accept
Keeps-handle_call_accept now callee none = search keeping
Keeps-handle_call_accept now callee (some msg) = search (keeping, KeepsStore-answer) depth 20

pub Keeps-handle_call_reject :
    (now : Time) (callee : Client) (m : Option CallReject) → Keeps (handle_call_reject now callee m)
unfolding handle_call_reject
Keeps-handle_call_reject now callee none = search keeping
Keeps-handle_call_reject now callee (some msg) = search keeping depth 12

pub Keeps-handle_call_end :
    (now : Time) (client : Client) (m : Option CallId) → Keeps (handle_call_end now client m)
unfolding handle_call_end
Keeps-handle_call_end now client none = search keeping
Keeps-handle_call_end now client (some c) = search keeping depth 12

pub Keeps-handle_call_cancel :
    (now : Time) (caller : Client) (m : Option CallId) → Keeps (handle_call_cancel now caller m)
unfolding handle_call_cancel
Keeps-handle_call_cancel now caller none = search keeping
Keeps-handle_call_cancel now caller (some c) = search keeping depth 12

pub Keeps-ring_expired : (now : Time) (c : CallId) → Keeps (ring_expired now c)
unfolding ring_expired
Keeps-ring_expired now c = search keeping depth 12

pub Keeps-ice_expired : (now : Time) (c : CallId) → Keeps (ice_expired now c)
unfolding ice_expired
Keeps-ice_expired now c = search keeping depth 12

pub Keeps-promote_to_active : (c : CallId) → Keeps (promote_to_active c)
unfolding promote_to_active
Keeps-promote_to_active c = search (keeping, KeepsStore-activate) depth 12
