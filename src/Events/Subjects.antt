-- ===== src/Events/Subjects.antt =====
-- The subjects of the event bus and the stream that keeps them: internal/events/subjects.go.
use lalo_lao_alo.Base.{ℕ, ◌*◌, List, [], ◌∷◌}
use lalo_lao_alo.Text.{Text, text}

abbrev pub subject_call_initiated : Text
subject_call_initiated = text "call.initiated"

abbrev pub subject_quality_metrics : Text
subject_quality_metrics = text "quality.metrics"

abbrev pub subject_sfu_participant_joined : Text
subject_sfu_participant_joined = text "sfu.participant_joined"

abbrev pub subject_sfu_participant_left : Text
subject_sfu_participant_left = text "sfu.participant_left"

abbrev pub subject_sfu_room_finished : Text
subject_sfu_room_finished = text "sfu.room_finished"

abbrev pub subject_sfu_track_published : Text
subject_sfu_track_published = text "sfu.track_published"

abbrev pub subject_push_delivery : Text
subject_push_delivery = text "push.delivery"

unfoldable pub all_subjects : List Text
all_subjects =
    subject_call_initiated
    ∷ text "call.accepted"
    ∷ text "call.rejected"
    ∷ text "call.ended"
    ∷ text "call.state_changed"
    ∷ text "quality.tier_changed"
    ∷ subject_quality_metrics
    ∷ text "presence.updated"
    ∷ subject_sfu_participant_joined
    ∷ subject_sfu_participant_left
    ∷ subject_sfu_room_finished
    ∷ subject_sfu_track_published
    ∷ subject_push_delivery
    ∷ text "room.created"
    ∷ text "room.closed"
    ∷ text "room.participant_joined"
    ∷ text "room.participant_left"
    ∷ []

-- `StreamName`, `StreamMaxAge` in seconds, `StreamReplicas`.
abbrev pub stream_name : Text
stream_name = text "CALLS"

abbrev pub stream_max_age : ℕ
stream_max_age = 7 * 24 * 60 * 60

abbrev pub stream_replicas : ℕ
stream_replicas = 1
