-- ===== src/Signaling/Hub/Stopped.antt =====
-- What a hub does after `Stop` of internal/signaling/hub.go.
use mathlib.Core.List.{append-nil}
use lalo_lao_alo.Base.{ℕ, ◌≡◌, refl}
use lalo_lao_alo.Common.{UserId, Time}
use lalo_lao_alo.Signaling.Message.{Message}
use lalo_lao_alo.Signaling.Hub.{Hub, send_to_user}
use lalo_lao_alo.Signaling.Hub.Reconnect.{grace_expired, room_grace_expired}
use lalo_lao_alo.Signaling.Hub.Run.{stop}

-- Nobody is sent anything, no number is used, and the timers of disconnected users change nothing:
-- calls and rooms are as they were, for a hub that is started again to recover.
stopped_silent :
    (u : UserId) (m : Message) (now : Time) (n : ℕ) (h : Hub)
    → ((send_to_user u m (stop h)).outbox ≡ h.outbox)
      × ((send_to_user u m (stop h)).seq_counters ≡ h.seq_counters)
      × (grace_expired now n (stop h) ≡ stop h)
      × (room_grace_expired now n (stop h) ≡ stop h)
unfolding stop send_to_user grace_expired room_grace_expired
stopped_silent u m now n h = (append-nil h.outbox, refl, refl, refl)
