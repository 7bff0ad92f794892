-- ===== src/Signaling/Hub/Glare.antt =====
-- Two users who call each other at once: `resolveGlare` of internal/signaling/hub.go.
use lalo_lao_alo.Base.{
  true, none, some, ◌≡◌, ◌≢◌, refl, inl, inr, Bool-cases, ltb, if◌then◌else◌, arith,
}
use lalo_lao_alo.Common.{UserId, CallId, Time, glare_lost, ok}
use lalo_lao_alo.CallState.{ringing, ended}
use lalo_lao_alo.CallState.Diagram.{is_live}
use lalo_lao_alo.Redis.{CallSession, call, Redis}
use lalo_lao_alo.Signaling.Store
use lalo_lao_alo.Signaling.Store.Laws.{Ended, end_ends, create_stores}
use lalo_lao_alo.Signaling.Store.Prompt.{Healthy, end_succeeds, end-Healthy, create_succeeds}
use lalo_lao_alo.Signaling.Store.Marks.{Marked}
use lalo_lao_alo.Signaling.Message.{CallInitiate, call_glare}
use lalo_lao_alo.Signaling.Hub.{Hub, Client, asking, send_error, send_to_user}
use lalo_lao_alo.Signaling.Hub.Calls.{ringing_session, replace_call, resolve_glare}

-- A call of `lo` to `hi` rings, and both are marked with it.
pub record Rings (lo hi : UserId) (r : Redis) : Type 0 where
  pub id : CallId
  pub session : CallSession
  pub stored : r.sessions id ≡ some (call session)
  pub rings : session.state ≡ ringing
  pub from : session.caller_id ≡ lo
  pub to : session.callee_id ≡ hi
  pub lo_marked : r.call_of lo ≡ some id
  pub hi_marked : r.call_of hi ≡ some id

abbrev pub lower : UserId → UserId → UserId
lower u v = if ltb v u then v else u

abbrev pub higher : UserId → UserId → UserId
higher u v = if ltb v u then u else v

module _ (now : Time) (fresh : CallId) (c : Client) (s : CallSession) (msg : CallInitiate) (h : Hub)
    (well : Healthy h.rdb) (stored : h.rdb.sessions s.call_id ≡ some (call s))
    (rings : s.state ≡ ringing) (from : s.caller_id ≡ msg.callee_id)
    (to : s.callee_id ≡ c.user_id) where
  after_end : Redis
  after_end = (Store.end now s.call_id glare_lost h.rdb).0

  live : is_live s.state ≡ true
  live = rw rings refl

  ended_ok : (Store.end now s.call_id glare_lost h.rdb).1 ≡ ok tt
  ended_ok = end_succeeds now s.call_id glare_lost h.rdb s well stored live

  old :
      (t : CallSession) × (h.rdb.sessions s.call_id ≡ some (call t))
      × Ended now s.call_id glare_lost t h.rdb after_end
  unfolding after_end
  old = end_ends now s.call_id glare_lost h.rdb ended_ok

  replace_rdb :
      (replace_call now fresh c s msg h).rdb
      ≡ (Store.create (ringing_session fresh c.user_id msg now) after_end).0
  unfolding replace_call asking send_error send_to_user after_end
  replace_rdb = ground arith

  -- The session that `end` found is `s`.
  same : old.0 ≡ s
  same = ground (arith, old.1)

  freed : (after_end.call_of c.user_id ≡ none) × (after_end.call_of msg.callee_id ≡ none)
  freed = ground (arith, old.2.callee_free, old.2.caller_free, same)

  created : (Store.create (ringing_session fresh c.user_id msg now) after_end).1 ≡ ok tt
  unfolding after_end
  created =
      create_succeeds (ringing_session fresh c.user_id msg now) after_end
        (end-Healthy now s.call_id glare_lost h.rdb well) freed.0 freed.1

  -- The new call rings in the place of the old one, which has ended.
  replaced :
      fresh ≢ s.call_id
      → let r = (replace_call now fresh c s msg h).rdb in
        (r.sessions s.call_id
          ≡ some (call (record s { state = ended; ended_at = now; end_reason = glare_lost })))
        × (r.sessions fresh ≡ some (call (ringing_session fresh c.user_id msg now)))
        × (r.call_of c.user_id ≡ some fresh)
        × (r.call_of msg.callee_id ≡ some fresh)
  replaced n =
      let made = create_stores (ringing_session fresh c.user_id msg now) after_end created in
      rw replace_rdb (ground (arith, made, old.2.stored, same))

  new-Rings :
      fresh ≢ s.call_id → Rings c.user_id msg.callee_id (replace_call now fresh c s msg h).rdb
  new-Rings n =
      let done = replaced n in
      record {
        id = fresh;
        session = ringing_session fresh c.user_id msg now;
        stored = done.1;
        rings = refl;
        from = refl;
        to = refl;
        lo_marked = done.2;
        hi_marked = done.3;
      }

  old-Rings :
      Marked h.rdb
      → Rings msg.callee_id c.user_id
          (send_to_user c.user_id (call_glare 0 s.call_id msg.callee_id) h).rdb
  unfolding send_to_user
  old-Rings m =
      let marks = m s.call_id s stored live in
      record {
        id = s.call_id;
        session = s;
        stored = stored;
        rings = rings;
        from = from;
        to = to;
        lo_marked = rw (← from) marks.1;
        hi_marked = rw (← to) marks.2;
      }

  -- A client calls a user whose own call `s` to that client is stored and RINGING. Where Redis
  -- answers every command and no transaction loses its race, the identifier for the new call is not
  -- that of `s`, and every live call is stored under its own identifier with both its users marked
  -- with it, there is after `resolveGlare` a RINGING call from the lower of the two user identifiers to the higher, and both
  -- users are marked with it.
  pub lower_id_wins :
      fresh ≢ s.call_id
      → Marked h.rdb
      → Rings
          (lower c.user_id msg.callee_id)
          (higher c.user_id msg.callee_id)
          (resolve_glare now fresh c s msg h).rdb
  unfolding resolve_glare
  lower_id_wins n m = elim (Bool-cases (ltb msg.callee_id c.user_id)) [
    | inl e ↦ rw e (old-Rings m)
    | inr e ↦ rw e (new-Rings n)
  ]
