-- ===== src/Push/Owners.antt =====
-- Whose rows a request to the push gateway's server changes: internal/push/server.go with the
-- handlers and the statements behind it.
use lalo_lao_alo.Base.{
  ◌≡◌, ◌≢◌, refl, Bool, true, false, [], ◌∷◌, Option, none, some, if◌then◌else◌, arith,
}
use lalo_lao_alo.Common.{UserId, DeviceId, Time}
use lalo_lao_alo.Text.{text, text_eq}
use lalo_lao_alo.Auth.Tokens.{Jwt, JwtService, Claims, Fallible, fine, fails, authenticate}
use lalo_lao_alo.Push.{RegisterRequest}
use lalo_lao_alo.Push.Store.{Table, of_device, deactivate, unregister}
use lalo_lao_alo.Push.Handlers.{Answer, register_token, unregister_token}
use lalo_lao_alo.Push.Rows.{row_of, row_of-register}
use lalo_lao_alo.Push.Server.{PushRequest, Reply, healthy, no_route, behind_auth, serve}

row_of-deactivate :
    (now : Time) (u v : UserId) (e d : DeviceId) (ts : Table)
    → u ≢ v
    → row_of v d (deactivate now (of_device u e) ts) ≡ row_of v d ts
unfolding row_of deactivate
row_of-deactivate now u v e d [] n = refl
row_of-deactivate now u v e d (t ∷ ts) n = ground (arith, row_of-deactivate now u v e d ts n)

module _ (now : Time) (refused flag : Bool) (u v : UserId) (d : DeviceId) (ts : Table)
    (n : u ≢ v) where
  register-kept :
      (body : Option RegisterRequest)
      → row_of v d (register_token now refused flag (some u) body ts).0 ≡ row_of v d ts
  unfolding register_token
  register-kept none = ground arith
  register-kept (some req) = ground (arith, row_of-register now u v d req ts)

  unregister-kept :
      (body : Option DeviceId)
      → row_of v d (unregister_token now refused flag (some u) body ts).0 ≡ row_of v d ts
  unfolding unregister_token unregister
  unregister-kept none = ground arith
  unregister-kept (some e) = ground (arith, row_of-deactivate now u v e d ts n)

-- A request to the server of the push gateway, whatever its path, body and credentials, leaves every
-- row of a user as it was, unless the middleware admits its credentials as that user's.
pub others_rows_kept :
    (jwt : Jwt) (s : JwtService) (now : Time) (r : PushRequest) (ts : Table) (v : UserId)
    (d : DeviceId)
    → ((c : Claims) → authenticate jwt s now r.credentials ≡ fine c → c.user_id ≢ v)
    → row_of v d (serve jwt s now r ts).0 ≡ row_of v d ts
unfolding serve
others_rows_kept jwt s now r ts v d other =
    let a = authenticate jwt s now r.credentials in
    let reg =
      by_auth a (λ c. register_token now r.refused r.is_post (some c.user_id) r.register_body ts)
        (λ c e.
          register-kept now r.refused r.is_post c.user_id v d ts (other c e) r.register_body) in
    let unreg =
      by_auth a
        (λ c. unregister_token now r.refused r.is_delete (some c.user_id) r.unregister_body ts)
        (λ c e.
          unregister-kept now r.refused r.is_delete c.user_id v d ts (other c e)
            r.unregister_body) in
    routed (text_eq r.path (text "/health")) (text_eq r.path (text "/v1/push/register"))
      (text_eq r.path (text "/v1/push/unregister")) (ts, healthy) _ _ (ts, no_route) refl reg unreg
      refl
  where
    by_auth :
        (a : Fallible Claims) (handler : Claims → Table × Answer)
        → ((c : Claims) → a ≡ fine c → row_of v d (handler c).0 ≡ row_of v d ts)
        → row_of v d (behind_auth handler ts a).0 ≡ row_of v d ts
    by_auth (fails e) handler k = refl
    by_auth (fine c) handler k = k c refl

    routed :
        (a b c : Bool) (w x y z : Table × Reply)
        → row_of v d w.0 ≡ row_of v d ts
        → row_of v d x.0 ≡ row_of v d ts
        → row_of v d y.0 ≡ row_of v d ts
        → row_of v d z.0 ≡ row_of v d ts
        → row_of v d (if a then w else if b then x else if c then y else z).0 ≡ row_of v d ts
    routed true b c w x y z p q m n = p
    routed false true c w x y z p q m n = q
    routed false false true w x y z p q m n = m
    routed false false false w x y z p q m n = n
