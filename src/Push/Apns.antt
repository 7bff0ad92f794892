-- ===== src/Push/Apns.antt =====
-- The sender to Apple's devices: internal/push/apns.go. The key, JSON, the signature of a token and
-- the HTTP client are parameters. A call that fails has the text of its error.
use lalo_lao_alo.Base.{
  ℕ, Bool, ◌+◌, ◌*◌, [], ◌&&◌, not, ◌++◌, Option, none, some, ◌==◌, ltb, is_empty, if◌then◌else◌,
}
use lalo_lao_alo.Common.{Time}
use lalo_lao_alo.Text.{Text, text, Try, done, error}
use lalo_lao_alo.Text.Decimal.{show}

pub record ApnsConfig : Type 0 where
  pub team_id : Text
  pub key_id : Text
  pub bundle_id : Text
  pub production : Bool

-- The private key is a number.
pub record ApnsSender : Type 0 where
  pub cfg : ApnsConfig
  pub private_key : ℕ
  pub jwt_token : Text
  pub jwt_exp : Time

-- What becomes of the key file: `os.ReadFile`, `pem.Decode`, `ParsePKCS8PrivateKey` and the key's kind.
pub data KeyFile : Type 0 where
  unreadable : Text → KeyFile
  not_pem not_ecdsa : KeyFile
  not_pkcs8 : Text → KeyFile
  ecdsa : ℕ → KeyFile

unfoldable pub new_apns_sender : ApnsConfig → KeyFile → Try ApnsSender
new_apns_sender cfg (unreadable e) = error (text "read APNs key file: " ++ e)
new_apns_sender cfg not_pem = error (text "failed to decode PEM block from APNs key")
new_apns_sender cfg (not_pkcs8 e) = error (text "parse APNs private key: " ++ e)
new_apns_sender cfg not_ecdsa = error (text "APNs key is not an ECDSA private key")
new_apns_sender cfg (ecdsa key) =
    done (record { cfg = cfg; private_key = key; jwt_token = []; jwt_exp = 0 })

pub record ApnsRequest : Type 0 where
  pub url : Text
  pub authorization : Text
  pub apns_topic : Text
  pub apns_push_type : Text
  pub apns_priority : Text
  pub apns_expiration : Text
  pub apns_collapse_id : Text
  pub body : Text

pub record Response : Type 0 where
  pub status_code : ℕ
  pub body : Text

-- The outside of one call: the two readings of the clock in `getJWT`, the signature of the claims of a
-- team, issued at a time, with the identifier of the key, the payload as JSON, whether the request can
-- be made of a URL, and the answer.
pub record Apple : Type 0 where
  pub checked_at : Time
  pub signed_at : Time
  pub sign : ℕ → Text → Text → Time → Try Text
  pub marshalled : Try Text
  pub creates : Text → Option Text
  pub answers : ApnsRequest → Try Response

abbrev pub refreshed : Time → ApnsSender → Try Text → ApnsSender × Try Text
refreshed now s (error e) = (s, error (text "sign APNs JWT: " ++ e))
refreshed now s (done signed) =
    (record s { jwt_token = signed; jwt_exp = now + 50 * 60 }, done signed)

unfoldable pub get_jwt : Apple → ApnsSender → ApnsSender × Try Text
get_jwt a s =
    if not (is_empty s.jwt_token) && ltb a.checked_at s.jwt_exp
    then (s, done s.jwt_token)
    else refreshed a.signed_at s (a.sign s.private_key s.cfg.team_id s.cfg.key_id a.signed_at)

unfoldable pub endpoint : ApnsSender → Text
endpoint s =
    if s.cfg.production
    then text "https://api.push.apple.com"
    else text "https://api.sandbox.push.apple.com"

abbrev pub apns_request : ApnsSender → Text → Text → Text → Text → ApnsRequest
apns_request s token voip_token call_id body = record {
  url = endpoint s ++ text "/3/device/" ++ voip_token;
  authorization = text "bearer " ++ token;
  apns_topic = s.cfg.bundle_id ++ text ".voip";
  apns_push_type = text "voip";
  apns_priority = text "10";
  apns_expiration = text "0";
  apns_collapse_id = text "call_" ++ call_id;
  body = body;
}

-- The error of `Send`, if it returns one.
abbrev pub apns_answer : Try Response → Option Text
apns_answer (error e) = some (text "send APNs request: " ++ e)
apns_answer (done r) =
    if r.status_code == 200
    then none
    else if r.status_code == 410
    then some (text "APNs token invalid (410 Gone): " ++ r.body)
    else some (text "APNs error (status " ++ (show r.status_code ++ (text "): " ++ r.body)))

abbrev pub requested : Apple → ApnsRequest → Option Text → Option Text
requested a r (some e) = some (text "create APNs request: " ++ e)
requested a r none = apns_answer (a.answers r)

abbrev pub with_body : Apple → ApnsSender → Text → Text → Text → Try Text → Option Text
with_body a s token voip_token call_id (error e) = some (text "marshal APNs payload: " ++ e)
with_body a s token voip_token call_id (done body) =
    let r = apns_request s token voip_token call_id body in requested a r (a.creates r.url)

abbrev pub with_token : Apple → Text → Text → ApnsSender × Try Text → ApnsSender × Option Text
with_token a voip_token call_id (s, error e) = (s, some (text "generate APNs JWT: " ++ e))
with_token a voip_token call_id (s, done token) =
    (s, with_body a s token voip_token call_id a.marshalled)

unfoldable pub apns_send : Apple → Text → Text → ApnsSender → ApnsSender × Option Text
unfolding get_jwt endpoint
apns_send a voip_token call_id s = with_token a voip_token call_id (get_jwt a s)
