-- ===== src/Orchestrator/Plain.antt =====
-- Which operations of internal/session return one of the errors that mean a conflict, unwrapped.
use lalo_lao_alo.Base.{ℕ, Bool, true, false, ◌≡◌, refl, arith}
use lalo_lao_alo.Common.{
  UserId, CallId, Time, Error, user_busy, already_in_call, max_participants, Result, ok, err,
}
use lalo_lao_alo.Events.{Event}
use lalo_lao_alo.Session.{Session, Role, sfu}
use lalo_lao_alo.Session.Permissions.{check_permission, accept_call}
use lalo_lao_alo.Orchestrator.Store
use lalo_lao_alo.Orchestrator.Services
use lalo_lao_alo.Orchestrator.Services.{Services, O}
use lalo_lao_alo.Orchestrator.Calls
use lalo_lao_alo.Orchestrator.Calls.{Resolver}
use lalo_lao_alo.Orchestrator.Rooms

abbrev pub is_plain : Error → Bool
is_plain user_busy = false
is_plain already_in_call = false
is_plain max_participants = false
is_plain _ = true

-- Every error that the computation returns is another one.
pub data Plain {A : Type 0} (m : O A) : Type 0 where
  plain : ((w : Services) (e : Error) → (m w).1 ≡ err e → is_plain e ≡ true) → Plain m

pub Plain-error :
    {A : Type 0} {m : O A}
    → Plain m
    → (w : Services) (e : Error) → (m w).1 ≡ err e
    → is_plain e ≡ true
Plain-error (plain k) = k

Plain-bind :
    {A B : Type 0} {m : O A} {f : A → O B}
    → Plain m
    → ((a : A) → Plain (f a))
    → Plain (Services.◌>>=◌ m f)
Plain-bind {A} {B} {m} {f} k l = plain (λ w. go w (m w) refl)
  where
    go :
        (w : Services) (x : Services × Result A)
        → m w ≡ x
        → (e : Error) → (Services.and_then x f).1 ≡ err e
        → is_plain e ≡ true
    go w (w', ok a) h e q = Plain-error (l a) w' e q
    go w (w', err e') h e q = Plain-error k w e (ground (arith, h, q))

Plain-wrapping : {A : Type 0} (m : O A) → Plain (Services.wrapping m)
Plain-wrapping {A} m = plain (λ w. go (m w))
  where
    go :
        (x : Services × Result A) (e : Error) → (Services.rewrapped x).1 ≡ err e → is_plain e ≡ true
    go (w, ok a) e h = cc
    go (w, err e') e h = ground arith

Plain-pure : {A : Type 0} (a : A) → Plain (Services.pure a)
Plain-pure a = plain (λ w e h. cc)

Plain-publish : (ev : Event) → Plain (Services.publish ev)
unfolding Services.publish
Plain-publish ev = plain (λ w e h. cc)

Plain-guard : (b : Bool) (e : Error) → is_plain e ≡ true → Plain (Services.guard b e)
Plain-guard true e p = plain (λ w e' h. cc)
Plain-guard false e p = plain (λ w e' h. ground (arith, p))

Plain-limited : {A : Type 0} {f : ℕ → O A} → ((n : ℕ) → Plain (f n)) → Plain (Calls.limited f)
Plain-limited k = plain (λ w. Plain-error (k (Services.room_limit w)) w)

Plain-store-get : (c : CallId) → Plain (Services.store (Store.get c))
unfolding Store.get
Plain-store-get c = plain (λ w e h. ground arith)

Plain-checked : (role : Role) → Plain (Calls.checked (check_permission role accept_call))
unfolding check_permission
Plain-checked role = plain (λ w e h. ground arith)

Plain-escalate : (s : Session) (b : Bool) → Plain (Calls.escalate s b)
unfolding Calls.escalate
Plain-escalate s true =
    Plain-bind {A = Unit {0}}
      (Plain-wrapping (Services.store (Store.update_session (record s { topology = sfu }))))
      (λ a. Plain-pure sfu)
Plain-escalate s false = Plain-pure s.topology

ruleset plainly = (
  Plain-bind, Plain-wrapping, Plain-pure, Plain-publish, Plain-guard, Plain-limited,
  Plain-store-get, Plain-checked, Plain-escalate, refl,
)

pub Plain-create_session :
    (resolve : Resolver) (now : Time) (fresh : CallId) (req : Calls.CreateSessionRequest)
    → Plain (Calls.create_session resolve now fresh req)
unfolding Calls.create_session
Plain-create_session resolve now fresh req = search plainly depth 20

pub Plain-join_session :
    (now : Time) (req : Calls.JoinSessionRequest) → Plain (Calls.join_session now req)
unfolding Calls.join_session
Plain-join_session now req = search plainly depth 20

pub Plain-create_group_session :
    (resolve : Resolver) (now : Time) (fresh : CallId) (req : Rooms.CreateGroupRequest)
    → Plain (Rooms.create_group_session resolve now fresh req)
unfolding Rooms.create_group_session
Plain-create_group_session resolve now fresh req = search plainly depth 20

pub Plain-join_group_session :
    (now : Time) (c : CallId) (u : UserId) → Plain (Rooms.join_group_session now c u)
unfolding Rooms.join_group_session
Plain-join_group_session now c u = search plainly depth 20
