-- ===== src/Session/Permissions.antt =====
-- The permission matrix: internal/session/permissions.go, with the constants of types.go.
use lalo_lao_alo.Base.{Bool, true, false, ◌||◌, ◌≡◌, arith}
use lalo_lao_alo.Common.{Result, ok, err, permission_denied}
use lalo_lao_alo.Session.{Role, caller, callee, participant, other_role}

pub data Permission : Type 0 where
  initiate_call accept_call reject_call end_call mute_self unmute_self : Permission
  toggle_video share_screen invite remove_other mute_other : Permission

-- `rolePermissions` for the role `caller`.
caller_permissions : Permission → Bool
caller_permissions accept_call = false
caller_permissions reject_call = false
caller_permissions _ = true

-- `rolePermissions` for the roles `callee` and `participant`, whose rows are the same.
other_permissions : Permission → Bool
other_permissions initiate_call = false
other_permissions invite = false
other_permissions remove_other = false
other_permissions mute_other = false
other_permissions _ = true

unfoldable pub has_permission : Role → Permission → Bool
unfolding caller_permissions other_permissions
has_permission caller perm = caller_permissions perm
has_permission callee perm = other_permissions perm
has_permission participant perm = other_permissions perm
has_permission other_role perm = false

unfoldable pub check_permission : Role → Permission → Result (Unit {0})
unfolding has_permission
check_permission role perm = elim (has_permission role perm) [
  | true ↦ ok tt
  | false ↦ err permission_denied
]

unfoldable pub group_permissions : Role → Permission → Bool
unfolding has_permission
group_permissions role invite = true
group_permissions role perm = has_permission role perm

abbrev pub is_invite : Permission → Bool
is_invite invite = true
is_invite _ = false

-- In a group call every role has what it has elsewhere and `invite`, and nothing else.
group_permissions_lem :
    (role : Role) (perm : Permission)
    → group_permissions role perm ≡ (is_invite perm || has_permission role perm)
unfolding group_permissions
group_permissions_lem role perm = ground arith
