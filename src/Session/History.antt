-- ===== src/Session/History.antt =====
-- The call history in Postgres: the statements of internal/session/cdr.go on the tables
-- `call_history` and `call_participants`, whose keys are those of the `ON CONFLICT` clauses. A table is
-- the list of its rows.
pub mod Rows
use lalo_lao_alo.Base.{
  ℕ, suc, ◌≡◌, refl, Bool, true, false, not, ◌&&◌, List, [], ◌∷◌, ◌++◌, Option, none, some, ◌==◌,
  if◌then◌else◌, Bool-cases, inl, inr, ==_iff, arith,
}
use lalo_lao_alo.Common.{UserId, CallId, Time, CallType, EndReason, ℤ, is_zero}
use lalo_lao_alo.Session.{Session, Topology, Role, Participant}
use lalo_lao_alo.Session.Cdr.{Cdr, generate_cdr}

pub record HistoryRow : Type 0 where
  pub call_id : CallId
  pub call_type : CallType
  pub initiator_id : UserId
  pub topology : Topology
  pub region : ℕ
  pub started_at : Time
  pub ended_at : Time
  pub duration_seconds : ℤ
  pub end_reason : EndReason

-- No time of leaving is NULL.
pub record ParticipantRow : Type 0 where
  pub call_id : CallId
  pub user_id : UserId
  pub role : Role
  pub joined_at : Time
  pub left_at : Option Time

abbrev pub history_row : Cdr → HistoryRow
history_row c = record {
  call_id = c.call_id;
  call_type = c.call_type;
  initiator_id = c.initiator_id;
  topology = c.topology;
  region = c.region;
  started_at = c.started_at;
  ended_at = c.ended_at;
  duration_seconds = c.duration_seconds;
  end_reason = c.end_reason;
}

-- `DO UPDATE` sets what is known at the end of the call only.
abbrev pub closed_row : Cdr → HistoryRow → HistoryRow
closed_row c r = record r {
  ended_at = c.ended_at;
  duration_seconds = c.duration_seconds;
  end_reason = c.end_reason;
}

unfoldable pub put_history : Cdr → List HistoryRow → List HistoryRow
put_history c [] = history_row c ∷ []
put_history c (r ∷ rows) =
    let rest = put_history c rows in
    if r.call_id == c.call_id then closed_row c r ∷ rows else r ∷ rest

-- `WriteCallHistory`: `fails` is whether the database refuses the statement, and the Boolean of the
-- result whether there is an error.
unfoldable pub write_call_history : Bool → Cdr → List HistoryRow → List HistoryRow × Bool
write_call_history fails c rows = if fails then (rows, true) else (put_history c rows, false)

abbrev pub left_time : Participant → Option Time
left_time p = if is_zero p.left_at then none else some p.left_at

abbrev pub participant_row : CallId → Participant → ParticipantRow
participant_row id p = record {
  call_id = id;
  user_id = p.user_id;
  role = p.role;
  joined_at = p.joined_at;
  left_at = left_time p;
}

abbrev pub is_row_of : CallId → UserId → ParticipantRow → Bool
is_row_of id u r = r.call_id == id && r.user_id == u

unfoldable pub put_participant : CallId → Participant → List ParticipantRow → List ParticipantRow
put_participant id p [] = participant_row id p ∷ []
put_participant id p (r ∷ rows) =
    let rest = put_participant id p rows in
    if is_row_of id p.user_id r then record r { left_at = left_time p } ∷ rows else r ∷ rest

-- `WriteCallParticipants` from the `n`-th statement on: the first that the database refuses ends it.
unfoldable pub write_call_participants :
    (ℕ → Bool) → ℕ → CallId → List Participant → List ParticipantRow → List ParticipantRow × Bool
write_call_participants fails n id [] rows = (rows, false)
write_call_participants fails n id (p ∷ ps) rows =
    let rest = write_call_participants fails (suc n) id ps (put_participant id p rows) in
    if fails n then (rows, true) else rest

pub record CallTables : Type 0 where
  pub call_history : List HistoryRow
  pub call_participants : List ParticipantRow

-- The writes of `WriteFull`; the second is made also where the first fails.
unfoldable pub write_tables : Bool → (ℕ → Bool) → Session → CallTables → CallTables
unfolding write_call_history write_call_participants
write_tables history_fails fails s t = record {
  call_history = (write_call_history history_fails (generate_cdr s) t.call_history).0;
  call_participants =
      (write_call_participants fails 0 s.call_id s.participants t.call_participants).0;
}
