-- ===== src/Signaling/Store.antt =====
-- The hub's session store: internal/signaling/session.go. A method is a computation over Redis.
-- The texts that `fmt.Errorf` puts around Redis's own errors are left out: no caller reads them.
pub mod Marks
pub mod Laws
pub mod Prompt
pub mod RateLimit
use lalo_lao_alo.Base.{
  ℕ, suc, ◌<◌, Bool, true, false, not, ◌&&◌, ◌||◌, List, [], ◌∷◌, Option, none, some, ltb, ◌==◌,
  if◌then◌else◌, update,
}
use lalo_lao_alo.Common.{
  UserId, CallId, Time, EndReason, Error, session_not_found, concurrent_write, user_busy,
  bad_transition, Result, ok, err, is_zero,
}
use lalo_lao_alo.CallState.{
  CallState, ringing, ended, cleanup, is, Outcome, moved, refused, transition,
}
use lalo_lao_alo.Redis.{
  CallSession, Stored, call, as_call, Redis, M, pure, fail, and_then, ◌>>=◌, ◌>>◌, guard, require,
  exec, query, exec_watched,
}

abbrev pub is_some : {A : Type 0} → Option A → Bool
is_some none = false
is_some (some a) = true

-- One round of the loop over both users in `Create`.
check_free : UserId → M (Unit {0})
unfolding query
check_free u = do marked ← query (λ r. is_some (r.call_of u)); guard (not marked) user_busy

abbrev pub put_call : CallSession → Redis → Redis
put_call s r = record r {
  sessions = update r.sessions s.call_id (some (call s));
  call_of = update (update r.call_of s.caller_id (some s.call_id)) s.callee_id (some s.call_id);
}

unfoldable pub create : CallSession → M (Unit {0})
unfolding check_free exec
create s = do check_free s.caller_id; check_free s.callee_id; exec (put_call s)

abbrev pub decoded : Option Stored → Option CallSession
decoded none = none
decoded (some v) = some (as_call v)

unfoldable pub get : CallId → M CallSession
unfolding query as_call
get c = do found ← query (λ r. decoded (r.sessions c)); require found session_not_found

abbrev pub check_moved : Outcome → M (Unit {0})
check_moved (moved s) = pure tt
check_moved (refused e) = fail bad_transition

-- `mutate` runs after the new state is set, as in the source.
unfoldable pub transition_state : CallId → CallState → (CallSession → CallSession) → M (Unit {0})
unfolding get exec_watched
transition_state c to mutate = do
  s ← get c
  check_moved (transition s.state to)
  let s' = mutate (record s { state = to })
  exec_watched concurrent_write (λ r. record r { sessions = update r.sessions c (some (call s')) })

abbrev pub unmark : CallSession → Redis → Redis
unmark s r = record r { call_of = update (update r.call_of s.caller_id none) s.callee_id none }

abbrev pub ended_with : EndReason → Time → CallSession → CallSession
ended_with reason now s = record s { ended_at = now; end_reason = reason }

-- `End`, at the time `now`.
unfoldable pub end : Time → CallId → EndReason → M (Unit {0})
unfolding get exec
end now c reason = do s ← get c; transition_state c ended (ended_with reason now); exec (unmark s)

unfoldable pub get_user_active_call : UserId → M (Option CallId)
unfolding query
get_user_active_call u = query (λ r. r.call_of u)

abbrev pub is_glare : UserId → UserId → CallSession → Bool
is_glare caller_id callee_id s =
    s.caller_id == callee_id && s.callee_id == caller_id && is s.state ringing

glare_of : UserId → UserId → Option CallId → M (Option CallSession)
unfolding get
glare_of caller_id callee_id none = pure none
glare_of caller_id callee_id (some c) = do
  s ← get c
  pure (if is_glare caller_id callee_id s then some s else none)

unfoldable pub find_glare_call : UserId → UserId → M (Option CallSession)
unfolding get_user_active_call glare_of
find_glare_call caller_id callee_id = do
  marked ← get_user_active_call callee_id
  glare_of caller_id callee_id marked

-- The loop of `ScanActiveSessions` over the keys that SCAN returns, each the key of a call. A key
-- whose value cannot be read is skipped.
abbrev pub keep_active : Result (Option CallSession) → List CallSession → List CallSession
keep_active (ok (some s)) rest =
    if not (is s.state ended) && not (is s.state cleanup) then s ∷ rest else rest
keep_active (ok none) rest = rest
keep_active (err e) rest = rest

unfoldable pub scan_active_sessions : List CallId → Redis → Redis × List CallSession
unfolding query as_call
scan_active_sessions [] r = (r, [])
scan_active_sessions (c ∷ keys) r =
    let (r', found) = query (λ db. decoded (db.sessions c)) r in
    let (r'', rest) = scan_active_sessions keys r' in (r'', keep_active found rest)

-- SETNX: true if the message was seen before.
mark_seen : ℕ → M Bool
mark_seen id r =
    let (r', done) = exec (λ db. record db { seen = update db.seen id true }) r in
    and_then (r', done) (λ _. pure (r.seen id))

unfoldable pub check_msg_dedup : ℕ → M Bool
unfolding mark_seen exec
check_msg_dedup id = if is_zero id then pure false else mark_seen id

abbrev pub drop_call : CallId → CallSession → Redis → Redis
drop_call c s r = unmark s (record r { sessions = update r.sessions c none })

abbrev delete_found : CallId → Redis × Result CallSession → Redis × Result (Unit {0})
delete_found c (r, ok s) = exec (drop_call c s) r
delete_found c (r, err session_not_found) = (r, ok tt)
delete_found c (r, err e) = (r, err e)

unfoldable pub delete : CallId → M (Unit {0})
unfolding get exec
delete c r = delete_found c (get c r)

-- INCR and, on the first, EXPIRE (whose error the source ignores).
unfoldable pub check_rate_limit : ℕ → ℕ → M Bool
unfolding exec
check_rate_limit key max_count r =
    let count = suc (r.counters key) in
    and_then (exec (λ db. record db { counters = update db.counters key count }) r) (λ _ db.
      let db' = record db { commands = if count == 1 then suc db.commands else db.commands } in
      (db', ok (ltb max_count count)))
