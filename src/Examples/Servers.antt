-- ===== src/Examples/Servers.antt =====
-- The theorems on the servers behind the tokens, and on the keys in Redis, at concrete inputs.
use lalo_lao_alo.Base.{
  ◌≡◌, ◌≢◌, ◌↔◌, refl, ap, ltb, false, true, [], ◌∷◌, some, none, if◌then◌else◌, arith,
}
use lalo_lao_alo.Common.{UserId}
use lalo_lao_alo.Text.{text}
use lalo_lao_alo.Auth.Tokens.{
  Claims, Fallible, fine, fails, authenticate, validate, extract_token, split_space, wrong_type,
  expired_token,
}
use lalo_lao_alo.Auth.Pairs.{bearing}
use lalo_lao_alo.Orchestrator.Server.{not_authenticated, serve_all}
use lalo_lao_alo.Orchestrator.Admitted as Admitted
use lalo_lao_alo.Orchestrator.Admitted.{served_as}
use lalo_lao_alo.Push.{android}
use lalo_lao_alo.Push.Rows.{row_of}
use lalo_lao_alo.Push.Server.{PushRequest, serve}
use lalo_lao_alo.Push.Owners as Owners
use lalo_lao_alo.Push.Store.{Table}
use lalo_lao_alo.Redis.Keys.{
  session_key, session_participants_key, user_active_call_key, hub_session_key, hub_user_key,
}
use lalo_lao_alo.Redis.KeySpace as KeySpace
use lalo_lao_alo.Base.{is_empty, ◌&&◌, not}
use lalo_lao_alo.Text.{text_eq}
use lalo_lao_alo.Orchestrator.Store.{is_some}
use lalo_lao_alo.CallState.{ringing}
use lalo_lao_alo.Signaling.Hub.{Hub}
use lalo_lao_alo.Signaling.Handler.{WsRequest, ws_token, check_origin, serve_ws}
use lalo_lao_alo.Signaling.Admission.{showing}
use lalo_lao_alo.Signaling.Server as Signaling
use lalo_lao_alo.Signaling.Entry as Entry
use lalo_lao_alo.Signaling.Entry.{entrant, in_place, is_named, is_admitted}
use lalo_lao_alo.Signaling.Hub.Connections.{get_client_device}
use lalo_lao_alo.Examples.{hub_with}
use lalo_lao_alo.Examples.Tokens.{upgrader, library, service, pair, documented, issued}
use lalo_lao_alo.Examples.Api.{outside, services, joining}

pair_served_example :
    (serve_all library service
        (λ c r. 200)
        outside
        (bearing pair.access_token)
        (joining none)
        services
      ≡ (if ltb 20 1000
          then served_as 2 outside (joining none) services
          else (services, not_authenticated expired_token)))
    × (serve_all library service
          (λ c r. 200)
          outside
          (bearing pair.refresh_token)
          (joining none)
          services
        ≡ (if ltb 20 604900
            then (services, not_authenticated wrong_type)
            else (services, not_authenticated expired_token)))
pair_served_example =
    Admitted.pair_served library service (λ c r. 200) 100 (8, 9) 2 3 (text "call" ∷ []) pair outside
      (joining none) services documented issued refl refl refl

abbrev rows : Table
rows =
    record {
      user_id = 7;
      device_id = 5;
      platform = android;
      push_token = 77;
      voip_token = 0;
      app_version = 1;
      bundle_id = 1;
      is_active = true;
      updated_at = 3;
    }
    ∷ []

-- The user 2 asks to unregister a device that has the number of a device of the user 7.
abbrev unregistering : PushRequest
unregistering = record {
  path = text "/v1/push/unregister";
  is_post = false;
  is_delete = true;
  credentials = bearing pair.access_token;
  register_body = none;
  unregister_body = some 5;
  refused = false;
}

abbrev user_or : Fallible Claims → UserId
user_or (fine c) = c.user_id
user_or (fails e) = 0

user_two : user_or (authenticate library service 200 (bearing pair.access_token)) ≡ 2
unfolding authenticate validate extract_token split_space
user_two = refl

others_rows_kept_example :
    row_of 7 5 (serve library service 200 unregistering rows).0 ≡ row_of 7 5 rows
others_rows_kept_example =
    Owners.others_rows_kept library service 200 unregistering rows 7 5
      (λ c e same. ground (arith, user_two, ap user_or e, same))

keys_apart_example :
    ((hub_session_key (text "c1") ≡ session_key (text "c2")) ↔ (text "c1" ≡ text "c2"))
    × (session_key (text "c1") ≢ session_participants_key (text "c2"))
    × ((session_participants_key (text "c1") ≡ session_participants_key (text "c2"))
        ↔ (text "c1" ≡ text "c2"))
    × (hub_user_key (text "u1") ≢ user_active_call_key (text "u1"))
keys_apart_example =
    KeySpace.keys_apart (text "c1") (text "c2") (text "u1") (text "u1") refl refl refl (λ e. cc)

abbrev connecting : WsRequest
connecting = showing true pair.access_token (text "app")

abbrev entering : Hub × Signaling.Answer
entering =
    Signaling.serve library service upgrader (text "app" ∷ []) 200 (text "/ws") connecting
      (hub_with ringing)

admitted_enters_example :
    (get_client_device 2 3 entering.0
      ≡ in_place 2 3 (entrant entering.1) (get_client_device 2 3 (hub_with ringing)))
    × (is_named (validate library service 200 (ws_token connecting)) (entrant entering.1) ≡ true)
    × (is_some (entrant entering.1)
        ≡ text_eq (text "/ws") (text "/ws")
          && (not (is_empty (ws_token connecting))
              && (is_admitted (validate library service 200 (ws_token connecting))
                  && is_some
                      (upgrader.upgrade (check_origin (text "app" ∷ []) connecting) connecting))))
admitted_enters_example =
    Entry.admitted_enters library service upgrader (text "app" ∷ []) 200 (text "/ws") connecting
      (hub_with ringing) 2 3

entered : entrant entering.1 ≡ some (record { user_id = 2; device_id = 3; conn = 4 })
unfolding Signaling.serve serve_ws validate ws_token check_origin
entered = refl
