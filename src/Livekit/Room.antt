-- ===== src/Livekit/Room.antt =====
-- The rooms of the SFU: internal/livekit/room.go. The client of the SDK is a parameter; a call of it
-- that fails has the text of its error.
use lalo_lao_alo.Base.{
  ℕ, ◌≡◌, Bool, List, [], ◌∷◌, ◌++◌, Option, none, some, if◌then◌else◌, is_empty, refl, arith,
}
use lalo_lao_alo.Common.{Time, is_zero}
use lalo_lao_alo.Text.{Text, text, Try, done, error, under, refused_under}

pub record Room : Type 0 where
  pub name : Text
  pub num_participants : ℕ
  pub creation_time : Time
  pub metadata : Text

pub record CreateRoomRequest : Type 0 where
  pub room_name : Text
  pub max_participants : ℕ
  pub empty_timeout : ℕ
  pub metadata : Text

pub record UpdateSubscriptionRequest : Type 0 where
  pub room_name : Text
  pub identity : Text
  pub track_sids : List Text
  pub subscribe : Bool

-- `DataPacket_LOSSY` and `DataPacket_RELIABLE`.
pub data PacketKind : Type 0 where
  lossy reliable : PacketKind

pub record SendDataRequest : Type 0 where
  pub room_name : Text
  pub payload : Text
  pub destination_identities : List Text
  pub reliable : Bool

pub record MuteRequest : Type 0 where
  pub room_name : Text
  pub identity : Text
  pub track_sid : Text
  pub muted : Bool

pub record RoomServiceClient : Type 0 where
  pub create_room : CreateRoomRequest → Try Room
  pub update_subscriptions : UpdateSubscriptionRequest → Option Text
  pub send_data : SendDataRequest → PacketKind → Option Text
  pub delete_room : Text → Option Text
  pub list_rooms : List Text → Try (List Room)
  pub list_participants : Text → Try (List Text)
  pub remove_participant : Text → Text → Option Text
  pub mute_published_track : MuteRequest → Option Text

unfoldable pub create_room : RoomServiceClient → CreateRoomRequest → Try Room
create_room c r = under (text "livekit create room " ++ (r.room_name ++ text ": ")) (
    c.create_room (record r {
      max_participants = if is_zero r.max_participants then 8 else r.max_participants;
      empty_timeout = if is_zero r.empty_timeout then 300 else r.empty_timeout;
    }))

unfoldable pub update_subscription : RoomServiceClient → UpdateSubscriptionRequest → Option Text
update_subscription c r =
    if is_empty r.track_sids
    then none
    else refused_under (text "livekit update subscription for " ++ (r.identity ++ text ": "))
        (c.update_subscriptions r)

unfoldable pub send_data : RoomServiceClient → SendDataRequest → Option Text
send_data c r =
    refused_under (text "livekit send data to " ++ (r.room_name ++ text ": "))
      (c.send_data r (if r.reliable then reliable else lossy))

unfoldable pub delete_room : RoomServiceClient → Text → Option Text
delete_room c name =
    refused_under (text "livekit delete room " ++ (name ++ text ": ")) (c.delete_room name)

unfoldable pub list_rooms : RoomServiceClient → List Text → Try (List Room)
list_rooms c names = under (text "livekit list rooms: ") (c.list_rooms names)

-- No room is `none`.
abbrev pub first_room : Try (List Room) → Try (Option Room)
first_room (error e) = error e
first_room (done []) = done none
first_room (done (r ∷ rs)) = done (some r)

unfoldable pub get_room : RoomServiceClient → Text → Try (Option Room)
unfolding list_rooms
get_room c name = first_room (list_rooms c (name ∷ []))

unfoldable pub list_participants : RoomServiceClient → Text → Try (List Text)
list_participants c name =
    under (text "livekit list participants " ++ (name ++ text ": ")) (c.list_participants name)

unfoldable pub remove_participant : RoomServiceClient → Text → Text → Option Text
remove_participant c name identity =
    refused_under
      (text "livekit remove participant " ++ (identity ++ (text " from " ++ (name ++ text ": "))))
      (c.remove_participant name identity)

unfoldable pub mute_track : RoomServiceClient → MuteRequest → Option Text
mute_track c r =
    refused_under (text "livekit mute track " ++ (r.track_sid ++ text ": "))
      (c.mute_published_track r)

pub record RoomStats : Type 0 where
  pub name : Text
  pub num_participants : ℕ
  pub created_at : Time
  pub metadata : Text

abbrev pub stats_of : Text → Try (Option Room) → Try RoomStats
stats_of name (error e) = error e
stats_of name (done none) = error (text "room " ++ (name ++ text " not found"))
stats_of name (done (some r)) = done (record {
  name = r.name;
  num_participants = r.num_participants;
  created_at = r.creation_time;
  metadata = r.metadata;
})

unfoldable pub get_room_stats : RoomServiceClient → Text → Try RoomStats
unfolding get_room
get_room_stats c name = stats_of name (get_room c name)

abbrev pub AllNamed : Text → List Room → Type 0
AllNamed name [] = Unit {0}
AllNamed name (r ∷ rs) = (r.name ≡ name) × AllNamed name rs

-- The SDK documents that a list by names has rooms of these names only.
abbrev pub ListsByName : RoomServiceClient → Type 0
ListsByName c =
    (name : Text) (rs : List Room) → c.list_rooms (name ∷ []) ≡ done rs → AllNamed name rs

-- Statistics that are returned are those of a room with the name that was asked for, which `GetRoom`
-- returns, where the SDK lists by names as it documents.
pub stats_of_named_room :
    (c : RoomServiceClient) (name : Text) (s : RoomStats)
    → ListsByName c
    → get_room_stats c name ≡ done s
    → (r : Room) × (get_room c name ≡ done (some r)) × (r.name ≡ name) × (s.name ≡ name)
unfolding get_room_stats
stats_of_named_room c name s doc h = by_list (c.list_rooms (name ∷ [])) (doc name) h
  where
    by_list :
        (l : Try (List Room))
        → ((rs : List Room) → l ≡ done rs → AllNamed name rs)
        → stats_of name (first_room (under (text "livekit list rooms: ") l)) ≡ done s
        → (r : Room) × (first_room (under (text "livekit list rooms: ") l) ≡ done (some r))
          × (r.name ≡ name)
          × (s.name ≡ name)
    by_list (error e) d k = cc
    by_list (done []) d k = cc
    by_list (done (r ∷ rs)) d k =
        let named = (d (r ∷ rs) refl).0 in (r, refl, named, ground (arith, named, k))
