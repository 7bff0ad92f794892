-- ===== src/Orchestrator/Rooms/Hosts.antt =====
-- Who hosts a room after `TransferHost` of internal/session/group.go.
use lalo_lao_alo.Base.{ℕ, ◌+◌, true, false, Option, none, some, ◌≡◌, ◌≢◌, refl, sym, ◌∙◌, arith}
use lalo_lao_alo.Common.{UserId, CallId, group, ok}
use lalo_lao_alo.Redis.{room}
use lalo_lao_alo.Session.{
  Session, Participant, caller, find_participant, modify_participant, with_role,
}
use lalo_lao_alo.Session.Active.{find-modify_self, find-modify_ne}
use lalo_lao_alo.Orchestrator.Store
use lalo_lao_alo.Orchestrator.Services.{Services}
use lalo_lao_alo.Orchestrator.Rooms.{is_present, is_host, transfer_host}
use lalo_lao_alo.Orchestrator.Rooms.Laws.{Answers}

abbrev pub handed_over : UserId → Session → Session
handed_over v s = record s {
  participants = modify_participant (with_role caller) s.participants v;
  initiator_id = v;
}

module _ (c : CallId) (v : UserId) (w : Services) (s : Session) (well : Answers w.rdb)
    (wins : (n : ℕ) → w.rdb.conflicts n ≡ false) (stored : w.rdb.sessions c ≡ some (room s))
    (kind : s.call_type ≡ group)
    (here : is_present (find_participant s.participants v) ≡ true) where
  transfer_host_result : (transfer_host c v w).1 ≡ ok tt
  unfolding transfer_host Store.get Store.update_participant_role Store.update_initiator Store.retry
  transfer_host_result = ground (
    arith,
    well w.rdb.commands,
    well (1 + w.rdb.commands),
    well (2 + w.rdb.commands),
    well (3 + w.rdb.commands),
    well (4 + w.rdb.commands),
    wins (2 + w.rdb.commands),
    wins (4 + w.rdb.commands),
  )

  transfer_host_stored : (transfer_host c v w).0.rdb.sessions c ≡ some (room (handed_over v s))
  unfolding transfer_host Store.get Store.update_participant_role Store.update_initiator Store.retry
  transfer_host_stored = ground (
    arith,
    well w.rdb.commands,
    well (1 + w.rdb.commands),
    well (2 + w.rdb.commands),
    well (3 + w.rdb.commands),
    well (4 + w.rdb.commands),
    wins (2 + w.rdb.commands),
    wins (4 + w.rdb.commands),
  )

  new_host : is_host (find_participant (handed_over v s).participants v) ≡ true
  new_host = go (find_participant s.participants v) refl here
    where
      go :
          (o : Option Participant)
          → find_participant s.participants v ≡ o
          → is_present o ≡ true
          → is_host (find_participant (handed_over v s).participants v) ≡ true
      go none e k = cc
      go (some q) e k = rw (find-modify_self (with_role caller) s.participants v q refl e) refl

  -- In a stored group call, where Redis answers every command and no transaction is lost, the hand
  -- over to an active participant succeeds: the stored session names that participant as its
  -- initiator and has it in the role of the host. Every other participant is as before: who hosted
  -- the room has the role of the host still.
  transfer_host_lem :
      (u : UserId) (p : Participant)
      → u ≢ v
      → find_participant s.participants u ≡ some p
      → ((transfer_host c v w).1 ≡ ok tt)
        × ((transfer_host c v w).0.rdb.sessions c ≡ some (room (handed_over v s)))
        × ((handed_over v s).initiator_id ≡ v)
        × (is_host (find_participant (handed_over v s).participants v) ≡ true)
        × (find_participant (handed_over v s).participants u ≡ some p)
  transfer_host_lem u p n found = (
    transfer_host_result,
    transfer_host_stored,
    refl,
    new_host,
    find-modify_ne (with_role caller) s.participants v u (λ q. refl) (λ e. n (sym e)) ∙ found,
  )
