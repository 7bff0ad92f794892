-- ===== src/Push/Fcm.antt =====
-- The sender to Android devices: internal/push/fcm.go. JSON and the HTTP client are parameters; the
-- texts of a push are arguments.
use lalo_lao_alo.Base.{
  ℕ, not, ◌||◌, List, [], ◌∷◌, ◌++◌, Option, none, some, ◌==◌, ltb, is_empty, if◌then◌else◌,
}
use lalo_lao_alo.Text.{Try, done, error, Text, text, text_eq}
use lalo_lao_alo.Text.Decimal.{show}
use lalo_lao_alo.Push.Apns.{Response}

-- The texts of an `IncomingCallPush`, with its numbers.
pub record CallTexts : Type 0 where
  pub call_id : Text
  pub caller_id : Text
  pub caller_name : Text
  pub caller_avatar_url : Text
  pub call_type : Text
  pub timestamp : ℕ
  pub ttl : ℕ

pub record FcmMessage : Type 0 where
  pub to : Text
  pub priority : Text
  pub ttl : Text
  pub entries : List (Text × Text)

pub record FcmResult : Type 0 where
  pub message_id : Text
  pub error_text : Text

pub record FcmResponse : Type 0 where
  pub success : ℕ
  pub failure : ℕ
  pub results : List FcmResult

abbrev pub avatar_entry : Text → List (Text × Text)
avatar_entry url = if is_empty url then [] else (text "caller_avatar_url", url) ∷ []

unfoldable pub fcm_message : Text → CallTexts → FcmMessage
fcm_message token p = record {
  to = token;
  priority = text "high";
  ttl = show p.ttl;
  entries =
      (text "type", text "incoming_call")
      ∷ (text "call_id", p.call_id)
      ∷ (text "caller_id", p.caller_id)
      ∷ (text "caller_name", p.caller_name)
      ∷ (text "call_type", p.call_type)
      ∷ (text "timestamp", show p.timestamp)
      ∷ (text "ttl", show p.ttl)
      ∷ avatar_entry p.caller_avatar_url;
}

-- The body, and the header "Authorization".
pub record FcmRequest : Type 0 where
  pub authorization : Text
  pub body : Text

pub record Google : Type 0 where
  pub server_key : Text
  pub marshalled : FcmMessage → Try Text
  pub create_error : Option Text
  pub answers : FcmRequest → Try Response
  pub unmarshalled : Text → Try FcmResponse

abbrev pub result_error : Text → Text
result_error e =
    if text_eq e (text "NotRegistered") || text_eq e (text "InvalidRegistration")
    then text "FCM token invalid (" ++ (e ++ text ")")
    else text "FCM delivery failed: " ++ e

abbrev pub of_results : ℕ → List FcmResult → Option Text
of_results failures [] = none
of_results failures (r ∷ rs) = if ltb 0 failures then some (result_error r.error_text) else none

abbrev pub of_response : Try FcmResponse → Option Text
of_response (error e) = some (text "parse FCM response: " ++ e)
of_response (done r) = of_results r.failure r.results

abbrev pub fcm_answer : Google → Try Response → Option Text
fcm_answer g (error e) = some (text "send FCM request: " ++ e)
fcm_answer g (done r) =
    if not (r.status_code == 200)
    then some (text "FCM error (status " ++ (show r.status_code ++ (text "): " ++ r.body)))
    else of_response (g.unmarshalled r.body)

abbrev pub fcm_created : Google → Text → Option Text → Option Text
fcm_created g body (some e) = some (text "create FCM request: " ++ e)
fcm_created g body none =
    fcm_answer g (g.answers (record { authorization = text "key=" ++ g.server_key; body = body }))

abbrev pub fcm_body : Google → Try Text → Option Text
fcm_body g (error e) = some (text "marshal FCM message: " ++ e)
fcm_body g (done body) = fcm_created g body g.create_error

-- The error of `Send`, if it returns one.
unfoldable pub fcm_send : Google → Text → CallTexts → Option Text
unfolding fcm_message
fcm_send g token p = fcm_body g (g.marshalled (fcm_message token p))
