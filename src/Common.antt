-- ===== src/Common.antt =====
-- Values that both services exchange: identifiers, call types, end reasons, errors.
-- An identifier (of a user, call, device, message, room) is a text that the code only compares; it
-- is modelled by its number in the order of texts, and 0 is the empty text. A time is a number, and
-- 0 is Go's zero time.
use lalo_lao_alo.Base.{ℕ, ◌-◌, Bool, true, false, ◌==◌, leb, if◌then◌else◌}

abbrev pub UserId : Type 0
UserId = ℕ

abbrev pub CallId : Type 0
CallId = ℕ

abbrev pub DeviceId : Type 0
DeviceId = ℕ

abbrev pub Time : Type 0
Time = ℕ

-- `id == ""` and `t.IsZero()`.
abbrev pub is_zero : ℕ → Bool
is_zero n = n == 0

-- The texts of the field `CallType`.
pub data CallType : Type 0 where
  no_type audio video one_to_one group : CallType
  other_type : ℕ → CallType

abbrev pub is_media_type : CallType → Bool
is_media_type audio = true
is_media_type video = true
is_media_type _ = false

abbrev pub is_no_type : CallType → Bool
is_no_type no_type = true
is_no_type _ = false

abbrev pub is_group : CallType → Bool
is_group group = true
is_group _ = false

abbrev pub is_one_to_one : CallType → Bool
is_one_to_one one_to_one = true
is_one_to_one _ = false

abbrev pub is_video : CallType → Bool
is_video video = true
is_video _ = false

-- The texts of the field `EndReason`; `custom` is one that a client chose.
pub data EndReason : Type 0 where
  blank normal cancelled declined ring_timeout ice_timeout reconnect_timeout : EndReason
  timeout glare_lost all_left host_ended orphan_cleanup user_ended : EndReason
  custom : ℕ → EndReason

-- Errors. `wrapped` is `fmt.Errorf("...: %w", err)`, which `==` tells from `err` and `errors.Is`
-- does not.
pub data Error : Type 0 where
  redis_failure tx_failed session_not_found concurrent_write : Error
  user_busy already_in_call max_participants permission_denied : Error
  bad_transition not_participant lock_exhausted : Error
  not_group already_in_room no_invitees not_active not_host cannot_fall_back unresolved : Error
  too_many : ℕ → ℕ → Error
  wrapped : Error → Error

pub data Result {ℓ} (A : Type ℓ) : Type ℓ where
  ok : A → Result A
  err : Error → Result A

-- An error seen by the caller through `fmt.Errorf`.
abbrev pub wrap {ℓ} : {A : Type ℓ} → Result A → Result A
wrap (ok a) = ok a
wrap (err e) = err (wrapped e)

-- A 64-bit `int` of Go; `negsuc n` is `-(n + 1)`.
pub data ℤ : Type 0 where
  pos negsuc : ℕ → ℤ

-- The seconds from the first time to the second, fewer than 0 if the second is earlier.
abbrev pub seconds_between : Time → Time → ℤ
seconds_between s e = if leb s e then pos (e - s) else negsuc (s - e - 1)
