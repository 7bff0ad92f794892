-- ===== src/Session/Active.antt =====
-- Who is in a call, after the list of participants is read and changed.
use lalo_lao_alo.Base.{
  ◌+◌, ◌≤◌, true, List, [], ◌∷◌, ◌++◌, none, some, ◌==◌, if◌then◌else◌, length, ◌≡◌, ◌≢◌, refl,
  arith,
}
use lalo_lao_alo.Common.{UserId, Time}
use lalo_lao_alo.Session.{
  Participant, is_active, active_participants, find_participant, modify_participant, leave_at,
  leave_all, Role, with_role,
}

pub active-append :
    (ps : List Participant) (p : Participant)
    → is_active p ≡ true
    → length (active_participants (ps ++ p ∷ [])) ≡ length (active_participants ps) + 1
unfolding active_participants
active-append [] p h = ground arith
active-append (q ∷ ps) p h = ground (arith, active-append ps p)

pub active-leave_all :
    (now : Time) (ps : List Participant) → now ≢ 0 → active_participants (leave_all now ps) ≡ []
unfolding active_participants leave_all
active-leave_all now [] h = refl
active-leave_all now (p ∷ ps) h = ground (arith, active-leave_all now ps)

-- Leaving never adds to those present, and a present participant who leaves is one fewer.
pub active-leave :
    (now : Time) (ps : List Participant) (u : UserId)
    → now ≢ 0
    → length (active_participants (modify_participant (leave_at now) ps u))
      ≤ length (active_participants ps)
unfolding active_participants modify_participant
active-leave now [] u h = omega arith
active-leave now (p ∷ ps) u h = ground (arith, active-leave now ps u)

pub find-modify_self :
    (f : Participant → Participant) (ps : List Participant) (u : UserId) (p : Participant)
    → (f p).user_id ≡ p.user_id
    → find_participant ps u ≡ some p
    → find_participant (modify_participant f ps u) u ≡ some (f p)
unfolding find_participant modify_participant
find-modify_self f [] u p h e = cc
find-modify_self f (q ∷ ps) u p h e = ground (arith, find-modify_self f ps u p)

-- The others are as they were.
pub find-modify_ne :
    (f : Participant → Participant) (ps : List Participant) (u v : UserId)
    → ((p : Participant) → (f p).user_id ≡ p.user_id)
    → u ≢ v
    → find_participant (modify_participant f ps u) v ≡ find_participant ps v
unfolding find_participant modify_participant
find-modify_ne f [] u v h n = refl
find-modify_ne f (q ∷ ps) u v h n = ground (arith, find-modify_ne f ps u v h, h q)

pub find-append :
    (ps : List Participant) (p : Participant) (v : UserId)
    → find_participant ps p.user_id ≡ none
    → find_participant (ps ++ p ∷ []) v ≡ (if p.user_id == v then some p else find_participant ps v)
unfolding find_participant
find-append [] p v h = refl
find-append (q ∷ ps) p v h = ground (arith, find-append ps p v)

-- A new role takes nobody away.
pub active-role :
    (r : Role) (ps : List Participant) (u : UserId)
    → length (active_participants (modify_participant (with_role r) ps u))
      ≡ length (active_participants ps)
unfolding active_participants modify_participant
active-role r [] u = refl
active-role r (p ∷ ps) u = ground (arith, active-role r ps u)
