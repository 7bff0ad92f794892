-- ===== src/Push/Rows.antt =====
-- What the statements of internal/push/store.go keep: one row for each user and device.
use lalo_lao_alo.Base.{
  ℕ, ◌≡◌, ◌≢◌, refl, ◌∙◌, Bool, true, false, not, ◌&&◌, List, [], ◌∷◌, ◌==◌, if◌then◌else◌, Option,
  none, some, arith,
}
use lalo_lao_alo.Common.{UserId, DeviceId, Time}
use lalo_lao_alo.Push.{PushToken, RegisterRequest}
use lalo_lao_alo.Push.Store.{
  Table, of_device, registered, register, deactivate, unregister, invalidate_token, is_stale,
  has_token, cleanup_stale_tokens,
}

-- The row of a user and a device.
unfoldable pub row_of : UserId → DeviceId → Table → Option PushToken
row_of u d [] = none
row_of u d (t ∷ ts) = let rest = row_of u d ts in if of_device u d t then some t else rest

abbrev pub no_row : UserId → DeviceId → Table → Bool
no_row u d [] = true
no_row u d (t ∷ ts) = not (of_device u d t) && no_row u d ts

-- No two rows have the same user and device.
abbrev pub one_each : Table → Bool
one_each [] = true
one_each (t ∷ ts) = no_row t.user_id t.device_id ts && one_each ts

no_row-register :
    (u : UserId) (d : DeviceId) (now : Time) (v : UserId) (req : RegisterRequest) (ts : Table)
    → (v == u && req.device_id == d) ≡ false
    → no_row u d ts ≡ true
    → no_row u d (register now v req ts) ≡ true
unfolding register
no_row-register u d now v req [] a h = ground arith
no_row-register u d now v req (t ∷ ts) a h = ground (arith, no_row-register u d now v req ts a)

register-one_each :
    (now : Time) (u : UserId) (req : RegisterRequest) (ts : Table)
    → one_each ts ≡ true
    → one_each (register now u req ts) ≡ true
unfolding register
register-one_each now u req [] h = refl
register-one_each now u req (t ∷ ts) h =
    ground
      (arith, register-one_each now u req ts, no_row-register t.user_id t.device_id now u req ts)

pub row_of-register :
    (now : Time) (u v : UserId) (d : DeviceId) (req : RegisterRequest) (ts : Table)
    → row_of v d (register now u req ts)
      ≡ (if u == v && req.device_id == d then some (registered u req now) else row_of v d ts)
unfolding register row_of
row_of-register now u v d req [] = refl
row_of-register now u v d req (t ∷ ts) = ground (arith, row_of-register now u v d req ts)

no_row-deactivate :
    (u : UserId) (d : DeviceId) (now : Time) (p : PushToken → Bool) (ts : Table)
    → no_row u d (deactivate now p ts) ≡ no_row u d ts
unfolding deactivate
no_row-deactivate u d now p [] = refl
no_row-deactivate u d now p (t ∷ ts) = ground (arith, no_row-deactivate u d now p ts)

deactivate-one_each :
    (now : Time) (p : PushToken → Bool) (ts : Table) → one_each (deactivate now p ts) ≡ one_each ts
unfolding deactivate
deactivate-one_each now p [] = refl
deactivate-one_each now p (t ∷ ts) =
    ground (arith, deactivate-one_each now p ts, no_row-deactivate t.user_id t.device_id now p ts)

pub data Statement : Type 0 where
  register_it : Time → UserId → RegisterRequest → Statement
  unregister_it : Time → UserId → DeviceId → Statement
  invalidate_it : Time → ℕ → Statement
  clean_up : Time → ℕ → Statement

unfoldable pub execute : Statement → Table → Table
execute (register_it now u req) ts = register now u req ts
execute (unregister_it now u d) ts = (unregister now u d ts).0
execute (invalidate_it now k) ts = invalidate_token now k ts
execute (clean_up now stale) ts = (cleanup_stale_tokens now stale ts).0

unfoldable pub execute_all : List Statement → Table → Table
execute_all [] ts = ts
execute_all (s ∷ ss) ts = execute_all ss (execute s ts)

execute-one_each :
    (s : Statement) (ts : Table) → one_each ts ≡ true → one_each (execute s ts) ≡ true
unfolding execute unregister invalidate_token cleanup_stale_tokens
execute-one_each (register_it now u req) ts h = register-one_each now u req ts h
execute-one_each (unregister_it now u d) ts h = deactivate-one_each now (of_device u d) ts ∙ h
execute-one_each (invalidate_it now k) ts h = deactivate-one_each now (has_token k) ts ∙ h
execute-one_each (clean_up now stale) ts h = deactivate-one_each now (is_stale now stale) ts ∙ h

kept_by_all :
    (ss : List Statement) (ts : Table) → one_each ts ≡ true → one_each (execute_all ss ts) ≡ true
unfolding execute_all
kept_by_all [] ts h = h
kept_by_all (s ∷ ss) ts h = kept_by_all ss (execute s ts) (execute-one_each s ts h)

-- Whatever statements are executed, from an empty table on, no two rows have the same user and
-- device.
one_row_each : (ss : List Statement) → one_each (execute_all ss []) ≡ true
one_row_each ss = kept_by_all ss [] refl

-- Registering a device for a user makes the row of that user and device the registered one, active,
-- and leaves the row of each other pair as it was: also that of another user for the same device.
row_after_register :
    (now : Time) (u v : UserId) (d : DeviceId) (req : RegisterRequest) (ts : Table)
    → (u ≡ v → req.device_id ≡ d → row_of v d (register now u req ts) ≡ some (registered u req now))
      × ((u ≡ v → req.device_id ≢ d) → row_of v d (register now u req ts) ≡ row_of v d ts)
row_after_register now u v d req ts = (
  λ a b. ground (arith, row_of-register now u v d req ts, a, b),
  λ n. ground (arith, row_of-register now u v d req ts, n),
)
