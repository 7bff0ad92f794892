-- ===== src/Push/Store.antt =====
-- The statements on the table `push_tokens`: internal/push/store.go. A statement that the database
-- refuses leaves the table as it was.
use lalo_lao_alo.Base.{
  ℕ, ◌+◌, Bool, true, false, not, ◌&&◌, ◌||◌, List, [], ◌∷◌, ltb, ◌==◌, if◌then◌else◌, filter,
  length,
}
use lalo_lao_alo.Common.{UserId, DeviceId, Time, is_zero}
use lalo_lao_alo.Push.{PushToken, RegisterRequest}

abbrev pub Table : Type 0
Table = List PushToken

abbrev pub of_device : UserId → DeviceId → PushToken → Bool
of_device u d t = t.user_id == u && t.device_id == d

abbrev pub registered : UserId → RegisterRequest → Time → PushToken
registered u req now = record {
  user_id = u;
  device_id = req.device_id;
  platform = req.platform;
  push_token = req.push_token;
  voip_token = req.voip_token;
  app_version = req.app_version;
  bundle_id = req.bundle_id;
  is_active = true;
  updated_at = now;
}

-- The upsert, with the pair of the user and the device as the key.
unfoldable pub register : Time → UserId → RegisterRequest → Table → Table
register now u req [] = registered u req now ∷ []
register now u req (t ∷ ts) =
    let rest = register now u req ts in
    if of_device u req.device_id t then registered u req now ∷ ts else t ∷ rest

abbrev pub deactivated : Time → PushToken → PushToken
deactivated now t = record t { is_active = false; updated_at = now }

-- `UPDATE ... SET is_active = false, updated_at = now() WHERE ...`.
unfoldable pub deactivate : Time → (PushToken → Bool) → Table → Table
deactivate now p [] = []
deactivate now p (t ∷ ts) = (if p t then deactivated now t else t) ∷ deactivate now p ts

-- The table and the number of rows that the statement has hit.
unfoldable pub unregister : Time → UserId → DeviceId → Table → Table × ℕ
unregister now u d ts = (deactivate now (of_device u d) ts, length (filter (of_device u d) ts))

abbrev pub has_token : ℕ → PushToken → Bool
has_token k t = t.push_token == k || not (is_zero t.voip_token) && t.voip_token == k

unfoldable pub invalidate_token : Time → ℕ → Table → Table
invalidate_token now k ts = deactivate now (has_token k) ts

abbrev pub is_stale : Time → ℕ → PushToken → Bool
is_stale now stale t = t.is_active && ltb (t.updated_at + stale) now

unfoldable pub cleanup_stale_tokens : Time → ℕ → Table → Table × ℕ
cleanup_stale_tokens now stale ts =
    (deactivate now (is_stale now stale) ts, length (filter (is_stale now stale) ts))

-- `ORDER BY updated_at DESC`.
unfoldable pub by_recency : PushToken → Table → Table
by_recency t [] = t ∷ []
by_recency t (u ∷ us) =
    let rest = by_recency t us in if ltb t.updated_at u.updated_at then u ∷ rest else t ∷ u ∷ us

unfoldable pub most_recent_first : Table → Table
most_recent_first [] = []
most_recent_first (t ∷ ts) = by_recency t (most_recent_first ts)

unfoldable pub get_active_tokens : UserId → Table → Table
get_active_tokens u ts = most_recent_first (filter (λ t. t.user_id == u && t.is_active) ts)
