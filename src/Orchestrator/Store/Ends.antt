-- ===== src/Orchestrator/Store/Ends.antt =====
-- Whom the ends of a session touch: `EndSession` and `Delete` of internal/session/store.go.
use lalo_lao_alo.Base.{
  ℕ, ap, sym, ◌∙◌, ◌==◌, if◌then◌else◌, List, [], ◌∷◌, Option, none, some, false, ◌≡◌, ◌≢◌, refl,
  update, arith,
}
use lalo_lao_alo.Common.{UserId, CallId, Time, EndReason, user_busy, Result, ok, err}
use lalo_lao_alo.Redis.{Redis, Stored, room, as_room}
use lalo_lao_alo.Session.{Session, Participant, find_participant, leave_at}
use lalo_lao_alo.Session.Active.{find-modify_self, find-append}
use lalo_lao_alo.Orchestrator.Store.{
  create, delete, end_session, unmark_all, remove_participant, add_participant, left_session,
  with_participant,
}
use lalo_lao_alo.Orchestrator.Closing.{end_session_result, unmark_all-found, unmark_all-none}

-- Nobody but those whom the list names loses a mark.
unmark_all-other :
    (ps : List Participant) (marks : UserId → Option CallId) (u : UserId)
    → find_participant ps u ≡ none
    → unmark_all ps marks u ≡ marks u
unfolding find_participant
unmark_all-other [] marks u h = refl
unmark_all-other (p ∷ ps) marks u h =
    ground (arith, h, unmark_all-other ps (update marks p.user_id none) u)

unmark_all-listed :
    (ps : List Participant) (marks : UserId → Option CallId) (u : UserId) (p : Participant)
    → find_participant ps u ≡ some p
    → unmark_all ps marks u ≡ none
unfolding find_participant
unmark_all-listed [] marks u p h = cc
unmark_all-listed (q ∷ ps) marks u p h = ground (
  arith,
  unmark_all-none ps (update marks q.user_id none) u,
  unmark_all-listed ps (update marks q.user_id none) u p,
)

-- What is left of a session after `Delete`: no record, no members, and no marks on those whom the
-- record listed; all other records and marks are as they were.
pub record Deleted (c : CallId) (s : Session) (r r' : Redis) : Type 0 where
  pub gone : r'.sessions c ≡ none
  pub no_members : (u : UserId) → r'.participants c u ≡ false
  pub others : (d : CallId) → d ≢ c → r'.sessions d ≡ r.sessions d
  pub unmarked :
      (u : UserId) (p : Participant)
      → find_participant s.participants u ≡ some p
      → r'.active_call u ≡ none
  pub kept :
      (u : UserId) → find_participant s.participants u ≡ none → r'.active_call u ≡ r.active_call u

-- Where `Delete` returns no error for a stored record, the record, its set of members and the marks
-- of its participants are gone, and nothing else is.
delete-Deleted :
    (c : CallId) (r : Redis) (o : Stored)
    → r.sessions c ≡ some o
    → (delete c r).1 ≡ ok tt
    → Deleted c (as_room o) r (delete c r).0
unfolding delete
delete-Deleted c r o h e = record {
  gone = ground (arith, h, e);
  no_members = λ u. ground (arith, h, e);
  others = λ d n. ground (arith, h, e, n);
  unmarked =
      λ u p f. ground (arith, h, e, unmark_all-listed (as_room o).participants r.active_call u p f);
  kept = λ u f. ground (arith, h, e, unmark_all-other (as_room o).participants r.active_call u f);
}

create-not_busy :
    (s : Session) (r : Redis) → r.active_call s.initiator_id ≡ none → (create s r).1 ≢ err user_busy
unfolding create
create-not_busy s r h e = ground (arith, h, e)

-- A user who leaves a session stays listed in its record.
left_listed :
    (now : Time) (c d : CallId) (u : UserId) (r r' : Redis) (o : Stored) (s : Session)
    (q : Participant)
    → d ≢ c
    → r.sessions c ≡ some o
    → find_participant (as_room o).participants u ≡ some q
    → remove_participant now c u r ≡ (r', ok s)
    → (r'.sessions c ≡ some (room (left_session now u (as_room o))))
      × (r'.sessions d ≡ r.sessions d)
unfolding remove_participant
left_listed now c d u r r' o s q n h f e = (ground (arith, h, f, e, n), ground (arith, h, f, e, n))

joined_marked :
    (c d : CallId) (p : Participant) (max : ℕ) (r r' : Redis) (o : Stored)
    → d ≢ c
    → r.sessions d ≡ some o
    → add_participant d p max r ≡ (r', ok tt)
    → (find_participant (as_room o).participants p.user_id ≡ none)
      × (r'.sessions d ≡ some (room (with_participant p (as_room o))))
      × (r'.sessions c ≡ r.sessions c)
      × (r'.active_call p.user_id ≡ some d)
unfolding add_participant
joined_marked c d p max r r' o n h e = (
  ground (arith, h, e, n),
  ground (arith, h, e, n),
  ground (arith, h, e, n),
  ground (arith, h, e, n),
)

ended_marks :
    (now : Time) (c d : CallId) (why : EndReason) (u : UserId) (r r' : Redis) (o : Stored)
    (s : Session) (q : Participant)
    → d ≢ c
    → r.sessions c ≡ some o
    → find_participant (as_room o).participants u ≡ some q
    → end_session now c why r ≡ (r', ok s)
    → (r'.active_call u ≡ none) × (r'.sessions d ≡ r.sessions d)
unfolding end_session
ended_marks now c d why u r r' o s q n h f e =
    let done = end_session_result now c why r o s h (ap (λ x. x.1) e) in
    (
      ap (λ (x : Redis × Result Session). x.0.active_call u) (sym e)
          ∙ rw (done.1, done.0) (unmark_all-found now (as_room o).participants r.active_call u q f),
      ground (arith, h, e, n),
    )

-- A user whom the stored session `c` lists leaves it and joins another stored session `d`, and then
-- the store ends `c`, each without an error: before the end the user is marked with `d`, and after it
-- with no call, although the record of `d` still lists the user as they joined, and a new call that
-- the user initiates is not refused because the user is busy.
pub leaver_loses_mark :
    (t1 t2 : Time) (c d : CallId) (why : EndReason) (p q : Participant) (max : ℕ)
    (r r1 r2 r3 : Redis) (o o' : Stored) (s1 s2 s' : Session)
    → d ≢ c
    → r.sessions c ≡ some o
    → find_participant (as_room o).participants p.user_id ≡ some q
    → r.sessions d ≡ some o'
    → remove_participant t1 c p.user_id r ≡ (r1, ok s1)
    → add_participant d p max r1 ≡ (r2, ok tt)
    → end_session t2 c why r2 ≡ (r3, ok s2)
    → s'.initiator_id ≡ p.user_id
    → (r2.active_call p.user_id ≡ some d)
      × (r3.active_call p.user_id ≡ none)
      × ((t : Session) × (r3.sessions d ≡ some (room t))
          × (find_participant t.participants p.user_id ≡ some p))
      × ((create s' r3).1 ≢ err user_busy)
unfolding as_room
leaver_loses_mark t1 t2 c d why p q max r r1 r2 r3 o o' s1 s2 s' n h f h' e1 e2 e3 i =
    let out = left_listed t1 c d p.user_id r r1 o s1 q n h f e1 in
    let into = joined_marked c d p max r1 r2 o' n (out.1 ∙ h') e2 in
    let stored : r2.sessions c ≡ some (room (left_session t1 p.user_id (as_room o))) =
      into.2 ∙ out.0 in
    let listed = find-modify_self (leave_at t1) (as_room o).participants p.user_id q refl f in
    let over =
      ended_marks t2 c d why p.user_id r2 r3 (room (left_session t1 p.user_id (as_room o))) s2
        (leave_at t1 q) n stored listed e3 in
    (
      into.3,
      over.0,
      (
        with_participant p (as_room o'),
        over.1 ∙ into.1,
        find-append (as_room o').participants p p.user_id into.0 ∙ found_self p,
      ),
      create-not_busy s' r3 (rw i over.0),
    )
  where
    found_self :
        (p : Participant)
        → (if p.user_id == p.user_id
            then some p
            else find_participant (as_room o').participants p.user_id)
          ≡ some p
    found_self p = ground arith
