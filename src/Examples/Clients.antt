-- ===== src/Examples/Clients.antt =====
-- The theorems on the connections of clients and on TURN credentials at concrete inputs.
use mathlib.Core.List.{Sublist}
use lalo_lao_alo.Base.{true, false, List, [], ◌∷◌, ◌++◌, none, some, ◌≡◌, refl, arith}
use lalo_lao_alo.Text.{Text, text}
use lalo_lao_alo.Signaling.Client.{
  Step, sends, closes, receives, ticks, reads, takes_message, takes_unregister, stops_reading, run,
  new_client,
}
use lalo_lao_alo.Signaling.Client.Safety as Safety
use lalo_lao_alo.Signaling.Client.Safety.{IsSafe}
use lalo_lao_alo.Signaling.Client.Delivery as Delivery
use lalo_lao_alo.Signaling.Client.Delivery.{delivered, sent, texts}
use lalo_lao_alo.Signaling.Client.Quiet as Quiet
use lalo_lao_alo.Signaling.Client.Quiet.{receptions}
use lalo_lao_alo.Auth.Credentials as Credentials
use lalo_lao_alo.Auth.Credentials.{Mac, TurnService}

-- Two messages are sent and one is written, the peer goes away, and one more is sent.
abbrev broken : List Step
broken =
    sends (some (text "one"))
    ∷ sends (some (text "two"))
    ∷ receives true
    ∷ ticks true
    ∷ reads none
    ∷ takes_unregister
    ∷ sends (some (text "three"))
    ∷ receives false
    ∷ stops_reading
    ∷ closes
    ∷ []

client-IsSafe_example : IsSafe (run broken new_client)
client-IsSafe_example = Safety.client-IsSafe broken

in_order_example : Sublist (delivered (run broken new_client)) (sent broken)
in_order_example = Delivery.in_order broken

abbrev calm : List Step
calm =
    sends (some (text "one"))
    ∷ ticks true
    ∷ sends (some (text "two"))
    ∷ receives true
    ∷ reads (some (text "hello"))
    ∷ takes_message
    ∷ []

all_delivered_example :
    ((run (receptions 2) (run calm new_client)).channel.buffered ≡ [])
    × (texts (run (receptions 2) (run calm new_client)).written ≡ sent calm)
all_delivered_example = Quiet.all_delivered calm refl (omega arith)

-- This HMAC puts the secret before the message.
abbrev mac : Mac
mac secret message = secret ++ message

abbrev turn : Text → TurnService
turn secret = record { secret = secret; ttl = 600; uris = [] }
