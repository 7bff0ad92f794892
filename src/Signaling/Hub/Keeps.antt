-- ===== src/Signaling/Hub/Keeps.antt =====
-- Rules by which an action of the hub keeps the invariant of the marks: one for each combinator of
-- internal/signaling/hub.go's model and each operation of the session store.
use lalo_lao_alo.Base.{ℕ, Bool, true, false, if◌then◌else◌, ◌≡◌}
use lalo_lao_alo.Common.{UserId, CallId, DeviceId, Time, EndReason, Error, Result, ok, err}
use lalo_lao_alo.CallState.{CallState, ringing, is}
use lalo_lao_alo.Redis.{Redis, M, CallSession}
use lalo_lao_alo.Signaling.Store
use lalo_lao_alo.Signaling.Store.Marks.{
  Marked, KeepsParties, create-Marked, get-Marked, get_user_active_call-Marked,
  find_glare_call-Marked, check_rate_limit-Marked, check_msg_dedup-Marked, transition_state-Marked,
  end-Marked,
}
use lalo_lao_alo.Signaling.Message.{Message, Code}
use lalo_lao_alo.Events.{Event}
use lalo_lao_alo.Signaling.Hub.{
  Hub, Client, Action, skip, ◌⨾◌, with_rdb, answered, asking, send, send_error, send_to_user,
  send_to_user_except, publish,
}

-- A wrapper, so that `search` sees the action.
pub data Keeps (f : Action) : Type 0 where
  keeps : ((h : Hub) → Marked h.rdb → Marked (f h).rdb) → Keeps f

pub kept : {f : Action} → Keeps f → (h : Hub) → Marked h.rdb → Marked (f h).rdb
kept (keeps k) = k

pub data KeepsStore {A : Type 0} (m : M A) : Type 0 where
  keeps_store : ((r : Redis) → Marked r → Marked (m r).0) → KeepsStore m

pub Keeps-skip : Keeps skip
Keeps-skip = keeps (λ h m. m)

pub Keeps-⨾ : {f g : Action} → Keeps f → Keeps g → Keeps (f ⨾ g)
Keeps-⨾ {f} (keeps k) (keeps l) = keeps (λ h m. l (f h) (k h m))

pub Keeps-if : (b : Bool) {f g : Action} → Keeps f → Keeps g → Keeps (if b then f else g)
Keeps-if true k l = k
Keeps-if false k l = l

pub Keeps-asking :
    {A : Type 0} {m : M A} {bad : Error → Action} {good : A → Action}
    → KeepsStore m
    → ((e : Error) → Keeps (bad e))
    → ((a : A) → Keeps (good a))
    → Keeps (asking m bad good)
unfolding asking
Keeps-asking {A} {m} {bad} {good} (keeps_store k) kb kg = keeps (λ h i. go h (m h.rdb) (k h.rdb i))
  where
    go : (h : Hub) (x : Redis × Result A) → Marked x.0 → Marked (answered h x bad good).rdb
    go h (r, ok a) i = kept (kg a) (with_rdb r h) i
    go h (r, err e) i = kept (kb e) (with_rdb r h) i

pub Keeps-send_error : (c : Client) (code : Code) (id : CallId) → Keeps (send_error c code id)
unfolding send_error
Keeps-send_error c code id = keeps (λ h m. m)

pub Keeps-send : (c : Client) (msg : Message) → Keeps (send c msg)
unfolding send
Keeps-send c msg = keeps (λ h m. m)

pub Keeps-send_to_user : (u : UserId) (msg : Message) → Keeps (send_to_user u msg)
unfolding send_to_user
Keeps-send_to_user u msg = keeps (λ h m. m)

pub Keeps-send_to_user_except :
    (u : UserId) (d : DeviceId) (msg : Message) → Keeps (send_to_user_except u d msg)
unfolding send_to_user_except
Keeps-send_to_user_except u d msg = keeps (λ h m. m)

pub Keeps-publish : (e : Event) → Keeps (publish e)
unfolding publish
Keeps-publish e = keeps (λ h m. m)

pub KeepsStore-create : (s : CallSession) → KeepsStore (Store.create s)
KeepsStore-create s = keeps_store (create-Marked s)

pub KeepsStore-get : (c : CallId) → KeepsStore (Store.get c)
KeepsStore-get c = keeps_store (get-Marked c)

pub KeepsStore-find_glare_call : (u v : UserId) → KeepsStore (Store.find_glare_call u v)
KeepsStore-find_glare_call u v = keeps_store (find_glare_call-Marked u v)

pub KeepsStore-get_user_active_call : (u : UserId) → KeepsStore (Store.get_user_active_call u)
KeepsStore-get_user_active_call u = keeps_store (get_user_active_call-Marked u)

pub KeepsStore-check_rate_limit : (key max : ℕ) → KeepsStore (Store.check_rate_limit key max)
KeepsStore-check_rate_limit key max = keeps_store (check_rate_limit-Marked key max)

pub KeepsStore-check_msg_dedup : (id : ℕ) → KeepsStore (Store.check_msg_dedup id)
KeepsStore-check_msg_dedup id = keeps_store (check_msg_dedup-Marked id)

pub KeepsStore-end : (now : Time) (c : CallId) (why : EndReason) → KeepsStore (Store.end now c why)
KeepsStore-end now c why = keeps_store (end-Marked now c why)

pub KeepsStore-transition_state :
    (c : CallId) (to : CallState) (f : CallSession → CallSession)
    → is to ringing ≡ false
    → KeepsParties f
    → KeepsStore (Store.transition_state c to f)
KeepsStore-transition_state c to f n k = keeps_store (λ r. transition_state-Marked c to f r n k)

pub ruleset keeping = (
  Keeps-skip, Keeps-⨾, Keeps-if, Keeps-asking, Keeps-send_error, Keeps-send, Keeps-send_to_user,
  Keeps-send_to_user_except, Keeps-publish, KeepsStore-create, KeepsStore-get,
  KeepsStore-find_glare_call, KeepsStore-get_user_active_call, KeepsStore-end,
  KeepsStore-transition_state,
)
