-- ===== src/Signaling/Client.antt =====
-- The connection of one client: `Client` of internal/signaling/client.go. Its state is the Go channel
-- `send`, the flag `closed`, its two goroutines, and what they did to the connection and the hub. The
-- hub, the goroutines and the network interleave: a step is what one of them does under the mutex or
-- between two waits. The deadlines of reads and writes are the network's, which decides what fails.
pub mod Safety
pub mod Delivery
pub mod Quiet
use lalo_lao_alo.Base.{
  ℕ, suc, Bool, true, false, List, [], ◌∷◌, ◌++◌, Option, none, some, ltb, length, if◌then◌else◌,
}
use lalo_lao_alo.Text.{Text}

-- A buffered channel of Go. A send and a close on a closed channel panic.
pub record Channel : Type 0 where
  pub buffered : List Text
  pub is_closed : Bool

-- `sendBufSize`.
abbrev pub send_buf_size : ℕ
send_buf_size = 64

-- What `WritePump` writes.
pub data Frame : Type 0 where
  text_message : Text → Frame
  ping_message close_message : Frame

-- Where the goroutine of `ReadPump` is: before `ReadMessage`, before the send of a message to the hub,
-- before the send on `hub.unregister`, between that send and `Close`, or at its end. A send waits
-- until the hub takes it, for ever if the hub has stopped.
pub data Reader : Type 0 where
  reading : Reader
  handing : Text → Reader
  leaving left ended : Reader

-- `writing` is whether the goroutine of `WritePump` runs, and `reader` where that of `ReadPump` is.
-- `written` are the frames that the connection took, `incoming` the payloads that the hub got, `unregistered` how
-- often the hub was told that the client is gone, and `conn_closes` how often `conn.Close` was called.
pub record Connection : Type 0 where
  pub channel : Channel
  pub closed : Bool
  pub writing : Bool
  pub reader : Reader
  pub written : List Frame
  pub incoming : List Text
  pub unregistered : ℕ
  pub conn_closes : ℕ
  pub panicked : Bool

-- `NewClient`, with both goroutines started.
unfoldable pub new_client : Connection
new_client = record {
  channel = record { buffered = []; is_closed = false };
  closed = false;
  writing = true;
  reader = reading;
  written = [];
  incoming = [];
  unregistered = 0;
  conn_closes = 0;
  panicked = false;
}

abbrev pub panic : Connection → Connection
panic c = record c { panicked = true }

abbrev pub buffer : List Text → Connection → Connection
buffer b c = record c { channel = record { buffered = b; is_closed = c.channel.is_closed } }

-- The `select` with a send and a default.
abbrev pub offer : Text → Connection → Connection
offer msg c =
    if c.channel.is_closed
    then panic c
    else if ltb (length c.channel.buffered) send_buf_size
    then buffer (c.channel.buffered ++ msg ∷ []) c
    else c

-- `SendJSONWithSeq`. The message is absent where one of the two calls of `json.Marshal` fails.
unfoldable pub send_json_with_seq : Option Text → Connection → Connection
send_json_with_seq none c = c
send_json_with_seq (some msg) c = if c.closed then c else offer msg c

-- `close(c.send)` and `c.conn.Close()`.
abbrev pub close_channel : Connection → Connection
close_channel c = if c.channel.is_closed then panic c else record c {
  channel = record { buffered = c.channel.buffered; is_closed = true };
  closed = true;
  conn_closes = suc c.conn_closes;
}

unfoldable pub close : Connection → Connection
close c = if c.closed then c else close_channel c

-- The deferred `Close` of `WritePump`.
abbrev pub stop_writing : Connection → Connection
stop_writing c = record (close c) { writing = false }

abbrev pub write : Frame → Connection → Connection
write f c = record c { written = c.written ++ f ∷ [] }

-- A receive of `WritePump` on the channel, where `accepts` is whether the connection takes the frame.
-- On an open channel with nothing buffered it waits.
abbrev pub received : Bool → List Text → Connection → Connection
received accepts [] c =
    if c.channel.is_closed then stop_writing (if accepts then write close_message c else c) else c
received accepts (msg ∷ rest) c =
    if accepts then write (text_message msg) (buffer rest c) else stop_writing (buffer rest c)

unfoldable pub receive : Bool → Connection → Connection
unfolding close
receive accepts c = if c.writing then received accepts c.channel.buffered c else c

-- The ticker of `WritePump`.
abbrev pub ticked : Bool → Connection → Connection
ticked accepts c = if accepts then write ping_message c else stop_writing c

unfoldable pub tick : Bool → Connection → Connection
unfolding close
tick accepts c = if c.writing then ticked accepts c else c

-- `ReadMessage` returns a message, or an error of the connection, which ends the loop.
abbrev pub was_read : Option Text → Reader
was_read none = leaving
was_read (some payload) = handing payload

abbrev pub read_at : Reader → Option Text → Connection → Connection
read_at reading message c = record c { reader = was_read message }
read_at r message c = c

unfoldable pub read : Option Text → Connection → Connection
read message c = read_at c.reader message c

-- The hub takes from the channel `incoming`, whose room for 256 messages is not counted here.
abbrev pub take_message_at : Reader → Connection → Connection
take_message_at (handing payload) c = record c {
  reader = reading;
  incoming = c.incoming ++ payload ∷ [];
}
take_message_at r c = c

unfoldable pub take_message : Connection → Connection
take_message c = take_message_at c.reader c

-- The hub takes from the channel `unregister`.
abbrev pub take_unregister_at : Reader → Connection → Connection
take_unregister_at leaving c = record c { reader = left; unregistered = suc c.unregistered }
take_unregister_at r c = c

unfoldable pub take_unregister : Connection → Connection
take_unregister c = take_unregister_at c.reader c

-- The deferred `Close` of `ReadPump`, which comes after the send.
abbrev pub stop_reading_at : Reader → Connection → Connection
stop_reading_at left c = record (close c) { reader = ended }
stop_reading_at r c = c

unfoldable pub stop_reading : Connection → Connection
unfolding close
stop_reading c = stop_reading_at c.reader c

-- The hub sends or closes, `WritePump` receives or ticks, `ReadPump` reads, the hub takes what it
-- sends, and `ReadPump` closes the client.
pub data Step : Type 0 where
  sends : Option Text → Step
  closes : Step
  receives : Bool → Step
  ticks : Bool → Step
  reads : Option Text → Step
  takes_message takes_unregister stops_reading : Step

unfoldable pub step : Step → Connection → Connection
unfolding send_json_with_seq receive tick read take_message take_unregister stop_reading close
step (sends msg) c = send_json_with_seq msg c
step closes c = close c
step (receives accepts) c = receive accepts c
step (ticks accepts) c = tick accepts c
step (reads message) c = read message c
step takes_message c = take_message c
step takes_unregister c = take_unregister c
step stops_reading c = stop_reading c

unfoldable pub run : List Step → Connection → Connection
unfolding step
run [] c = c
run (s ∷ ss) c = run ss (step s c)
