-- ===== src/Session/History/Rows.antt =====
-- What the tables of internal/session/cdr.go say after a call has ended.
use lalo_lao_alo.Base.{
  ℕ, zero, suc, ◌≡◌, refl, ap, sym, ◌∙◌, Bool, true, false, ◌&&◌, List, [], ◌∷◌, Option, none, some,
  ◌==◌, if◌then◌else◌, Bool-cases, inl, inr, ==_iff, arith,
}
use lalo_lao_alo.Common.{UserId, CallId, Time, CallType, pos, is_zero}
use lalo_lao_alo.Session.{Session, Participant, Topology}
use lalo_lao_alo.Session.Cdr.{Cdr, generate_cdr}
use lalo_lao_alo.Session.History.{
  HistoryRow, ParticipantRow, CallTables, history_row, closed_row, put_history, left_time,
  is_row_of, put_participant, write_call_participants, write_tables,
}

-- The first row of a call.
abbrev pub history_of : CallId → List HistoryRow → Option HistoryRow
history_of id [] = none
history_of id (r ∷ rows) = if r.call_id == id then some r else history_of id rows

-- When a user left a call, as the first row of both says it.
abbrev pub left_of : CallId → UserId → List ParticipantRow → Option (Option Time)
left_of id u [] = none
left_of id u (r ∷ rows) = if is_row_of id u r then some r.left_at else left_of id u rows

abbrev pub or_else {ℓ} : {A : Type ℓ} → Option A → Option A → Option A
or_else none o = o
or_else (some a) o = some a

-- Go's zero time is no time.
abbrev pub departure : Time → Option Time
departure zero = none
departure (suc t) = some (suc t)

-- When a user left, as the last entry of the session's list says it.
abbrev pub last_left : UserId → List Participant → Option (Option Time)
last_left u [] = none
last_left u (p ∷ ps) =
    or_else (last_left u ps) (if p.user_id == u then some (departure p.left_at) else none)

abbrev closed : Cdr → Option HistoryRow → HistoryRow
closed c none = history_row c
closed c (some r) = closed_row c r

history_of-put :
    (c : Cdr) (id : CallId) (rows : List HistoryRow)
    → history_of id (put_history c rows)
      ≡ (if c.call_id == id then some (closed c (history_of id rows)) else history_of id rows)
unfolding put_history
history_of-put c id [] = refl
history_of-put c id (r ∷ rows) = elim (Bool-cases (r.call_id == c.call_id)) [
  | inl e ↦ let same = (==_iff r.call_id c.call_id).0 e in rw e (ground (arith, same))
  | inr e ↦ rw e (ground (arith, e, history_of-put c id rows))
]

left_of-put :
    (id id' : CallId) (u : UserId) (p : Participant) (rows : List ParticipantRow)
    → left_of id' u (put_participant id p rows)
      ≡ (if id == id' && p.user_id == u then some (left_time p) else left_of id' u rows)
unfolding put_participant
left_of-put id id' u p [] = ground arith
left_of-put id id' u p (r ∷ rows) = elim (Bool-cases (is_row_of id p.user_id r)) [
  | inl e ↦ rw e (ground (arith, e))
  | inr e ↦ rw e (ground (arith, e, left_of-put id id' u p rows))
]

departs : (p : Participant) → left_time p ≡ departure p.left_at
departs p = by_time p.left_at
  where
    by_time : (t : Time) → (if is_zero t then none else some t) ≡ departure t
    by_time zero = refl
    by_time (suc t) = ground arith

or_else-if :
    {A : Type 0} (o : Option A) (a : A) (b d : Bool) (x : Option A)
    → or_else (if d then o else none) (if d && b then some a else x)
      ≡ or_else (if d then or_else o (if b then some a else none) else none) x
or_else-if none a true true x = refl
or_else-if none a false true x = refl
or_else-if (some c) a b true x = refl
or_else-if o a b false x = refl

left_of-write :
    (n : ℕ) (id id' : CallId) (u : UserId) (ps : List Participant) (rows : List ParticipantRow)
    → left_of id' u (write_call_participants (λ i. false) n id ps rows).0
      ≡ or_else (if id == id' then last_left u ps else none) (left_of id' u rows)
unfolding write_call_participants
left_of-write n id id' u [] rows = ground arith
left_of-write n id id' u (p ∷ ps) rows =
    left_of-write (suc n) id id' u ps (put_participant id p rows)
    ∙ ap (or_else (if id == id' then last_left u ps else none)) (left_of-put id id' u p rows)
    ∙ rw (departs p) (
        or_else-if (last_left u ps) (departure p.left_at) (p.user_id == u) (id == id')
          (left_of id' u rows))

-- What a row says of a call from its beginning on.
abbrev pub Begun : Type 0
Begun = CallType × UserId × Topology × ℕ × Time

abbrev pub begun : HistoryRow → Begun
begun r = (r.call_type, r.initiator_id, r.topology, r.region, r.started_at)

-- The same of a session whose call has the given row, or none.
abbrev pub begun_before : Session → Option HistoryRow → Begun
begun_before s none = (s.call_type, s.initiator_id, s.topology, s.region, s.created_at)
begun_before s (some r) = begun r

-- The row of the call of `s`, which took `d` seconds, where `before` is the row it had.
pub record Recorded (s : Session) (d : ℕ) (before : Option HistoryRow) (row : HistoryRow)
    : Type 0 where
  pub of_call : row.call_id ≡ s.call_id
  pub beginning : begun row ≡ begun_before s before
  pub end : row.ended_at ≡ s.ended_at
  pub duration : row.duration_seconds ≡ pos d
  pub reason : row.end_reason ≡ s.end_reason

or_else_twice : {A : Type 0} (o x : Option A) → or_else o (or_else o x) ≡ or_else o x
or_else_twice none x = refl
or_else_twice (some a) x = refl

closed_twice : (c : Cdr) (o : Option HistoryRow) → closed c (some (closed c o)) ≡ closed c o
closed_twice c none = refl
closed_twice c (some r) = refl

-- A session that is written twice leaves the rows that it left when it was written once.
written_twice :
    (s : Session) (t : CallTables) (id : CallId) (u : UserId)
    → let once = write_tables false (λ i. false) s t in
      let twice = write_tables false (λ i. false) s once in
      (history_of id twice.call_history ≡ history_of id once.call_history)
      × (left_of id u twice.call_participants ≡ left_of id u once.call_participants)
unfolding write_tables generate_cdr
written_twice s t id u =
    let first = history_of-put (generate_cdr s) id t.call_history in
    let second = history_of-put (generate_cdr s) id (put_history (generate_cdr s) t.call_history) in
    let once = left_of-write 0 s.call_id id u s.participants t.call_participants in
    let twice =
      left_of-write 0 s.call_id id u s.participants
        (write_call_participants (λ i. false) 0 s.call_id s.participants t.call_participants).0 in
    (
      ground (arith, first, second, closed_twice (generate_cdr s) (history_of id t.call_history)),
      twice
          ∙ ap (or_else (if s.call_id == id then last_left u s.participants else none)) once
          ∙ or_else_twice (if s.call_id == id then last_left u s.participants else none)
              (left_of id u t.call_participants)
          ∙ sym once,
    )
