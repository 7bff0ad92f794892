-- ===== src/Signaling/Hub/KeepsOrchestrator.antt =====
-- The operations of the orchestrator keep the hub's marks.
use lalo_lao_alo.Base.{ℕ, Bool, true, false, List, Option, none, some, if◌then◌else◌}
use lalo_lao_alo.Common.{UserId, CallId, Time, EndReason, Error, Result, ok, err}
use lalo_lao_alo.Redis.{M}
use lalo_lao_alo.Session.{Session, Participant, Role, MediaState}
use lalo_lao_alo.Events.{Event}
use lalo_lao_alo.Signaling.Store.Marks.{Marked}
use lalo_lao_alo.Signaling.Hub.Keeps.{KeepsStore, keeps_store}
use lalo_lao_alo.Orchestrator.Store
use lalo_lao_alo.Orchestrator.Marks
use lalo_lao_alo.Orchestrator.Services
use lalo_lao_alo.Orchestrator.Services.{Services, O}
use lalo_lao_alo.Orchestrator.Calls
use lalo_lao_alo.Orchestrator.Calls.{Resolver}
use lalo_lao_alo.Orchestrator.Rooms as Groups

pub data KeepsO {A : Type 0} (m : O A) : Type 0 where
  keeps_o : ((w : Services) → Marked w.rdb → Marked (m w).0.rdb) → KeepsO m

KeepsO-bind :
    {A B : Type 0} {m : O A} {f : A → O B}
    → KeepsO m
    → ((a : A) → KeepsO (f a))
    → KeepsO (Services.◌>>=◌ m f)
KeepsO-bind {A} {B} {m} {f} (keeps_o k) l = keeps_o (λ w i. go (m w) (k w i))
  where
    after : (a : A) → (w : Services) → Marked w.rdb → Marked (f a w).0.rdb
    after a w i = elim (l a) [ keeps_o k' ↦ k' w i ]

    go : (x : Services × Result A) → Marked x.0.rdb → Marked (Services.and_then x f).0.rdb
    go (w, ok a) i = after a w i
    go (w, err e) i = i

KeepsO-store : {A : Type 0} {m : M A} → KeepsStore m → KeepsO (Services.store m)
KeepsO-store {A} {m} (keeps_store k) = keeps_o (λ w i. k w.rdb i)

KeepsO-wrapping : {A : Type 0} {m : O A} → KeepsO m → KeepsO (Services.wrapping m)
KeepsO-wrapping {A} {m} (keeps_o k) = keeps_o (λ w i. go (m w) (k w i))
  where
    go : (x : Services × Result A) → Marked x.0.rdb → Marked (Services.rewrapped x).0.rdb
    go (w, ok a) i = i
    go (w, err e) i = i

KeepsO-logged : {A : Type 0} {m : O A} → KeepsO m → KeepsO (Services.logged m)
KeepsO-logged (keeps_o k) = keeps_o k

KeepsO-limited : {A : Type 0} {f : ℕ → O A} → ((n : ℕ) → KeepsO (f n)) → KeepsO (Calls.limited f)
KeepsO-limited {A} {f} k = keeps_o (λ w i. go (Services.room_limit w) w i)
  where
    go : (n : ℕ) (w : Services) → Marked w.rdb → Marked (f n w).0.rdb
    go n w i = elim (k n) [ keeps_o k' ↦ k' w i ]

KeepsO-guard : (b : Bool) (e : Error) → KeepsO (Services.guard b e)
KeepsO-guard true e = keeps_o (λ w i. i)
KeepsO-guard false e = keeps_o (λ w i. i)

KeepsO-pure : {A : Type 0} (a : A) → KeepsO (Services.pure a)
KeepsO-pure a = keeps_o (λ w i. i)

KeepsO-publish : (e : Event) → KeepsO (Services.publish e)
unfolding Services.publish
KeepsO-publish e = keeps_o (λ w i. i)

KeepsO-write_full : (s : Session) → KeepsO (Services.write_full s)
unfolding Services.write_full
KeepsO-write_full s = keeps_o (λ w i. i)

KeepsO-resolved : (resolve : Resolver) (us : List UserId) → KeepsO (Groups.all_resolved resolve us)
KeepsO-resolved resolve us = keeps_o (λ w i. i)

KeepsO-if : {A : Type 0} (b : Bool) {m n : O A} → KeepsO m → KeepsO n → KeepsO (if b then m else n)
KeepsO-if true k l = k
KeepsO-if false k l = l

KeepsStore-create : (s : Session) → KeepsStore (Store.create s)
KeepsStore-create s = keeps_store (Marks.create-Marked s)

KeepsStore-get : (c : CallId) → KeepsStore (Store.get c)
KeepsStore-get c = keeps_store (Marks.get-Marked c)

KeepsStore-update_session : (s : Session) → KeepsStore (Store.update_session s)
KeepsStore-update_session s = keeps_store (Marks.update_session-Marked s)

KeepsStore-add_participant :
    (c : CallId) (p : Participant) (max : ℕ) → KeepsStore (Store.add_participant c p max)
KeepsStore-add_participant c p max = keeps_store (Marks.add_participant-Marked c p max)

KeepsStore-remove_participant :
    (now : Time) (c : CallId) (u : UserId) → KeepsStore (Store.remove_participant now c u)
KeepsStore-remove_participant now c u = keeps_store (Marks.remove_participant-Marked now c u)

KeepsStore-end_session :
    (now : Time) (c : CallId) (why : EndReason) → KeepsStore (Store.end_session now c why)
KeepsStore-end_session now c why = keeps_store (Marks.end_session-Marked now c why)

KeepsStore-update_role :
    (c : CallId) (u : UserId) (new_role : Role)
    → KeepsStore (Store.update_participant_role c u new_role)
unfolding Store.update_participant_role
KeepsStore-update_role c u new_role = keeps_store (Marks.retry-Marked 3 c _)

KeepsStore-update_initiator : (c : CallId) (u : UserId) → KeepsStore (Store.update_initiator c u)
unfolding Store.update_initiator
KeepsStore-update_initiator c u = keeps_store (Marks.retry-Marked 3 c _)

ruleset keeping_o = (
  KeepsO-bind, KeepsO-store, KeepsO-wrapping, KeepsO-logged, KeepsO-limited, KeepsO-guard,
  KeepsO-pure, KeepsO-publish, KeepsO-write_full, KeepsO-resolved, KeepsO-if, KeepsStore-create,
  KeepsStore-get, KeepsStore-update_session, KeepsStore-add_participant,
  KeepsStore-remove_participant, KeepsStore-end_session, KeepsStore-update_role,
  KeepsStore-update_initiator,
)

pub KeepsO-create_group_session :
    (resolve : Resolver) (now : Time) (fresh : CallId) (req : Groups.CreateGroupRequest)
    → KeepsO (Groups.create_group_session resolve now fresh req)
unfolding Groups.create_group_session
KeepsO-create_group_session resolve now fresh req = search keeping_o depth 20

pub KeepsO-join_group_session :
    (now : Time) (c : CallId) (u : UserId) → KeepsO (Groups.join_group_session now c u)
unfolding Groups.join_group_session
KeepsO-join_group_session now c u = search keeping_o depth 20

pub KeepsO-close_room :
    (now : Time) (c : CallId) (why : EndReason) → KeepsO (Groups.close_room now c why)
unfolding Groups.close_room
KeepsO-close_room now c why = search keeping_o depth 20

pub KeepsO-leave_group_session :
    (now : Time) (c : CallId) (u : UserId) → KeepsO (Groups.leave_group_session now c u)
unfolding Groups.leave_group_session
KeepsO-leave_group_session now c u = search (keeping_o, KeepsO-close_room) depth 20

pub KeepsO-invite_to_room :
    (resolve : Resolver) (c : CallId) (u : UserId) (us : List UserId)
    → KeepsO (Groups.invite_to_room resolve c u us)
unfolding Groups.invite_to_room
KeepsO-invite_to_room resolve c u us = search keeping_o depth 20

pub KeepsO-transfer_host : (c : CallId) (u : UserId) → KeepsO (Groups.transfer_host c u)
unfolding Groups.transfer_host
KeepsO-transfer_host c u = search keeping_o depth 20

KeepsO-media_of :
    (u : UserId) (m : MediaState) (s : Session) (o : Option Participant)
    → KeepsO (Calls.media_of u m s o)
KeepsO-media_of u m s none = keeps_o (λ w i. i)
KeepsO-media_of u m s (some p) = search keeping_o

pub KeepsO-update_media_state :
    (c : CallId) (u : UserId) (m : MediaState) → KeepsO (Calls.update_media_state c u m)
unfolding Calls.update_media_state
KeepsO-update_media_state c u m = search (keeping_o, KeepsO-media_of) depth 12
