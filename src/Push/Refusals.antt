-- ===== src/Push/Refusals.antt =====
-- A token that a platform refuses for good: internal/push/apns.go and fcm.go with the retries of
-- internal/push/gateway.go.
use lalo_lao_alo.Base.{
  ℕ, ◌<◌, ◌≡◌, ◌⊎◌, inl, inr, refl, Bool-cases, ap, ◌∙◌, true, List, ◌∷◌, ◌++◌, none, some, arith,
}
use lalo_lao_alo.Text.{Try, done, error, Text, text}
use lalo_lao_alo.Push.Senders.{
  is_gone_error, is_unregistered_error, is_invalid_token, Sender, send_with_retry,
}
use lalo_lao_alo.Push.Search.{contains_iff, invalid_token_final}
use lalo_lao_alo.Push.Apns.{
  Apple, ApnsSender, ApnsRequest, apns_request, apns_send, apns_answer, requested, with_body,
  with_token, get_jwt,
}
use lalo_lao_alo.Push.Fcm.{
  Google, FcmRequest, FcmResponse, FcmResult, CallTexts, fcm_message, fcm_send, fcm_body,
  fcm_created, fcm_answer, of_response, of_results, result_error,
}

gone_text : Text → Text
gone_text body = text "APNs token invalid (410 Gone): " ++ body

gone-invalid : (body : Text) → is_invalid_token (gone_text body) ≡ true
unfolding is_gone_error gone_text
gone-invalid body =
    let found =
      (contains_iff (gone_text body) (text "410 Gone")).1
        (text "APNs token invalid (", text "): " ++ body, refl) in
    ground (arith, found)

with_token-done :
    (a : Apple) (voip_token call_id provider : Text) (x : ApnsSender × Try Text)
    → x.1 ≡ done provider
    → (with_token a voip_token call_id x).1
      ≡ with_body a x.0 provider voip_token call_id a.marshalled
with_token-done a voip_token call_id provider (s, error e) h = cc
with_token-done a voip_token call_id provider (s, done t) h =
    ap (λ k. with_body a s k voip_token call_id a.marshalled) (cc)

-- The first call of the sender is one of `Send`, whose token is signed or kept, whose payload is
-- encoded, and which Apple answers by the status 410: it is the only call, however many retries
-- there could be, and the error that is returned says that the token is invalid.
pub gone_token_given_up :
    (a : Apple) (s : ApnsSender) (voip_token call_id provider payload body : Text)
    (send cancelled : Sender) (retries : ℕ)
    → send 0 ≡ (apns_send a voip_token call_id s).1
    → (get_jwt a s).1 ≡ done provider
    → a.marshalled ≡ done payload
    → ((u : Text) → a.creates u ≡ none)
    → ((r : ApnsRequest) → a.answers r ≡ done (record { status_code = 410; body = body }))
    → (e : Text) × (send_with_retry send cancelled retries ≡ (1, some e))
      × (is_invalid_token e ≡ true)
unfolding gone_text apns_send
gone_token_given_up a s voip_token call_id provider payload body send cancelled retries h t m c r =
    let req = apns_request (get_jwt a s).0 provider voip_token call_id payload in
    let first : send 0 ≡ some (gone_text body) =
      h
      ∙ with_token-done a voip_token call_id provider (get_jwt a s) t
      ∙ ap (with_body a (get_jwt a s).0 provider voip_token call_id) m
      ∙ ap (requested a req) (c req.url)
      ∙ ap apns_answer (r req) in
    (
      gone_text body,
      invalid_token_final send cancelled retries (gone_text body) first (gone-invalid body),
      gone-invalid body,
    )

-- The texts of FCM for a token that is not in use any more.
abbrev pub IsUnregistered : Text → Type 0
IsUnregistered e = (e ≡ text "NotRegistered") ⊎ (e ≡ text "InvalidRegistration")

result_error-invalid : (e : Text) → IsUnregistered e → is_invalid_token (result_error e) ≡ true
unfolding is_unregistered_error
result_error-invalid e (inl h) =
    let found =
      (contains_iff (result_error (text "NotRegistered")) (text "NotRegistered")).1
        (text "FCM token invalid (", text ")", refl) in
    rw h (ground (arith, found, Bool-cases (is_gone_error (result_error (text "NotRegistered")))))
result_error-invalid e (inr h) =
    let found =
      (contains_iff (result_error (text "InvalidRegistration")) (text "InvalidRegistration")).1
        (text "FCM token invalid (", text ")", refl) in
    rw h (
      ground (arith, found, Bool-cases (is_gone_error (result_error (text "InvalidRegistration")))))

-- The first call of the sender is one of `Send`, whose message is encoded, and which FCM answers by
-- the status 200 and a failure whose first result says that the token is not registered or invalid:
-- it is the only call, however many retries there could be, and the error that is returned says that
-- the token is invalid.
pub unregistered_token_given_up :
    (g : Google) (token : Text) (p : CallTexts) (payload body : Text) (response : FcmResponse)
    (first : FcmResult) (others : List FcmResult) (send cancelled : Sender) (retries : ℕ)
    → send 0 ≡ fcm_send g token p
    → g.marshalled (fcm_message token p) ≡ done payload
    → g.create_error ≡ none
    → ((r : FcmRequest) → g.answers r ≡ done (record { status_code = 200; body = body }))
    → g.unmarshalled body ≡ done response
    → 0 < response.failure
    → response.results ≡ first ∷ others
    → IsUnregistered first.error_text
    → (e : Text) × (send_with_retry send cancelled retries ≡ (1, some e))
      × (is_invalid_token e ≡ true)
unfolding fcm_send
unregistered_token_given_up g token p payload body response first others send cancelled retries h m
      c r u l rs k =
    let req : FcmRequest = record { authorization = text "key=" ++ g.server_key; body = payload } in
    let failed : send 0 ≡ some (result_error first.error_text) =
      h
      ∙ ap (fcm_body g) m
      ∙ ap (fcm_created g payload) c
      ∙ ap (fcm_answer g) (r req)
      ∙ ap of_response u
      ∙ ap (of_results response.failure) rs
      ∙ ground (arith, l) in
    let invalid = result_error-invalid first.error_text k in
    (
      result_error first.error_text,
      invalid_token_final send cancelled retries (result_error first.error_text) failed invalid,
      invalid,
    )
