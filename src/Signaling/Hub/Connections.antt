-- ===== src/Signaling/Hub/Connections.antt =====
-- Connections that replace one another: the `register` and `unregister` cases of `Run` in
-- internal/signaling/hub.go.
use lalo_lao_alo.Base.{
  if◌then◌else◌, ℕ, ◌≡◌, ◌≢◌, refl, ap, fun_ext, ◌∙◌, Option, none, some, true, false, not, ◌&&◌,
  List, [], ◌∷◌, ◌++◌, filter, ◌==◌, update, is_empty, arith,
}
use lalo_lao_alo.Common.{UserId, DeviceId, CallId, Time, Error, Result, ok, err}
use lalo_lao_alo.Redis.{Redis, M}
use lalo_lao_alo.Signaling.Hub.{
  Hub, Client, Action, asking, answered, with_rdb, send, is_user_online,
}
use lalo_lao_alo.Signaling.Hub.Reconnect.{
  is_client, not_device, attach, detach, cancel_room_grace_period, sync_of, send_state_sync,
  register, if_offline, unregister,
}

not_there :
    (k : ℕ) (c : Client) (cs : List Client)
    → c.conn ≢ k
    → filter (λ d. not (is_client (record c { conn = k }) d)) (filter (not_device c) cs ++ c ∷ [])
      ≡ filter (not_device c) cs ++ c ∷ []
not_there k c [] n = ground arith
not_there k c (x ∷ xs) n = ground (arith, not_there k c xs n)

asking-clients :
    {A : Type 0} (m : M A) (bad : Error → Action) (good : A → Action) (h : Hub)
    → ((e : Error) (h' : Hub) → (bad e h').clients ≡ h'.clients)
    → ((a : A) (h' : Hub) → (good a h').clients ≡ h'.clients)
    → (asking m bad good h).clients ≡ h.clients
unfolding asking
asking-clients m bad good h p q = by_result (m h.rdb)
  where
    by_result : (x : Redis × Result _) → (answered h x bad good).clients ≡ h.clients
    by_result (r, ok a) = q a (with_rdb r h)
    by_result (r, err e) = p e (with_rdb r h)

state_sync-clients : (c : Client) (h : Hub) → (send_state_sync c h).clients ≡ h.clients
unfolding send_state_sync send
state_sync-clients c h = asking-clients _ _ _ h (λ e h'. refl) of_call
  where
    of_call : (o : Option CallId) (h' : Hub) → (sync_of c o h').clients ≡ h'.clients
    of_call none h' = refl
    of_call (some d) h' = asking-clients _ _ _ h' (λ e x. refl) (λ s x. refl)

register-clients :
    (c : Client) (h : Hub)
    → (register c h).clients
      ≡ update h.clients c.user_id (filter (not_device c) (h.clients c.user_id) ++ c ∷ [])
unfolding register attach cancel_room_grace_period
register-clients c h = state_sync-clients c (cancel_room_grace_period c.user_id (attach c h))

detach-absent :
    (c : Client) (h : Hub)
    → filter (λ d. not (is_client c d)) (h.clients c.user_id) ≡ h.clients c.user_id
    → detach c h ≡ h
unfolding detach
detach-absent c h e =
    ap {A = UserId → List Client} (λ f. record h { clients = f })
      (fun_ext {A = UserId} λ v. ground (arith, e))

if_offline-online :
    (now : Time) (u : UserId) (h : Hub) → is_user_online u h ≡ true → if_offline now u h ≡ h
unfolding if_offline
if_offline-online now u h e = rw e refl

last_there : (cs : List Client) (c : Client) → not (is_empty (cs ++ c ∷ [])) ≡ true
last_there [] c = refl
last_there (x ∷ xs) c = refl

registered :
    (c : Client) (h : Hub)
    → (register c h).clients c.user_id ≡ filter (not_device c) (h.clients c.user_id) ++ c ∷ []
registered c h = rw (register-clients c h) (ground arith)

-- `getClientDevice`.
unfoldable pub find_device : DeviceId → List Client → Option Client
find_device d [] = none
find_device d (x ∷ xs) = let rest = find_device d xs in if x.device_id == d then some x else rest

unfoldable pub get_client_device : UserId → DeviceId → Hub → Option Client
get_client_device u d h = find_device d (h.clients u)

found_last :
    (c : Client) (cs : List Client)
    → find_device c.device_id (filter (not_device c) cs ++ c ∷ []) ≡ some c
unfolding find_device
found_last c [] = ground arith
found_last c (x ∷ xs) = ground (arith, found_last c xs)

found_other :
    (c : Client) (e : DeviceId) (cs : List Client)
    → (c.device_id == e) ≡ false
    → find_device e (filter (not_device c) cs ++ c ∷ []) ≡ find_device e cs
unfolding find_device
found_other c e [] n = ground (arith, n)
found_other c e (x ∷ xs) n = ground (arith, n, found_other c e xs n)

-- Who is found after a registration: the new connection for its user and device, and for all others
-- who was found before.
pub registered_found :
    (c : Client) (h : Hub) (v : UserId) (e : DeviceId)
    → get_client_device v e (register c h)
      ≡ (if c.user_id == v && c.device_id == e then some c else get_client_device v e h)
unfolding get_client_device
registered_found c h v e =
    rw (register-clients c h)
      (ground (arith, found_last c (h.clients c.user_id), found_other c e (h.clients c.user_id)))

-- A device connects again before its old connection `k` is seen to end: when that end is handled, the
-- hub is as it was, so that the new connection stays and no grace period starts.
pub late_departure_harmless :
    (now : Time) (k : ℕ) (c : Client) (h : Hub)
    → c.conn ≢ k
    → unregister now (record c { conn = k }) (register c h) ≡ register c h
unfolding unregister is_user_online
late_departure_harmless now k c h n =
    ap (if_offline now c.user_id) (
      detach-absent (record c { conn = k }) (register c h)
        (rw (registered c h) (not_there k c (h.clients c.user_id) n)))
    ∙ if_offline-online now c.user_id (register c h)
        (rw (registered c h) (last_there (filter (not_device c) (h.clients c.user_id)) c))
