-- ===== src/Signaling/Client/Safety.antt =====
-- Whatever the hub, the two goroutines and the network do to a client of
-- internal/signaling/client.go, in whatever order.
use lalo_lao_alo.Base.{
  ℕ, ◌≤◌, ◌≡◌, refl, Bool, false, List, [], ◌∷◌, none, some, length, length-append, if◌then◌else◌,
  arith,
}
use lalo_lao_alo.Signaling.Client

abbrev pub count : Bool → ℕ
count b = if b then 1 else 0

abbrev pub stopped : Bool → ℕ
stopped b = if b then 0 else 1

-- How often a reader has told the hub that it leaves, and whether it has come to its end.
abbrev pub told : Client.Reader → ℕ
told Client.left = 1
told Client.ended = 1
told r = 0

abbrev pub over : Client.Reader → ℕ
over Client.ended = 1
over r = 0

-- No panic; the flag says whether the channel is closed; the queue is within its bound; the
-- connection is closed, and the hub told, exactly as often as it should; and a goroutine that has come
-- to its end has closed the client.
pub record IsSafe (c : Client.Connection) : Type 0 where
  pub no_panic : c.panicked ≡ false
  pub flag : c.channel.is_closed ≡ c.closed
  pub bound : length c.channel.buffered ≤ 64
  pub closed_once : c.conn_closes ≡ count c.closed
  pub told_once : c.unregistered ≡ told c.reader
  pub reader_closes : over c.reader ≤ count c.closed
  pub writer_closes : stopped c.writing ≤ count c.closed

step-IsSafe : (s : Client.Step) (c : Client.Connection) → IsSafe c → IsSafe (Client.step s c)
unfolding Client.step
step-IsSafe (Client.Step.sends none) c h = h
step-IsSafe (Client.Step.sends (some m)) c h =
    ground (arith, h, length-append c.channel.buffered (m ∷ []))
step-IsSafe Client.Step.closes c h = ground (arith, h)
step-IsSafe (Client.Step.receives a) c h = ground (arith, h)
step-IsSafe (Client.Step.ticks a) c h = ground (arith, h)
step-IsSafe (Client.Step.reads none) c h = ground (arith, h)
step-IsSafe (Client.Step.reads (some m)) c h = ground (arith, h)
step-IsSafe Client.Step.takes_message c h = ground (arith, h)
step-IsSafe Client.Step.takes_unregister c h = ground (arith, h)
step-IsSafe Client.Step.stops_reading c h = ground (arith, h)

run-IsSafe : (ss : List Client.Step) (c : Client.Connection) → IsSafe c → IsSafe (Client.run ss c)
unfolding Client.run
run-IsSafe [] c h = h
run-IsSafe (s ∷ ss) c h = run-IsSafe ss (Client.step s c) (step-IsSafe s c h)

-- In whatever order the hub, the two goroutines and the network do their steps with a new client,
-- nothing panics: no message is sent on the closed channel, and the channel is not closed twice. The
-- flag says whether the channel is closed, and at most 64 messages are queued. The connection is
-- closed once if the client is closed and not otherwise; the hub takes once that the client is gone
-- if `ReadPump` has got past its send of that and not otherwise; and where either goroutine has come to
-- its end the client is closed. Nothing is said of a `ReadPump` whose send the hub never takes.
pub client-IsSafe : (ss : List Client.Step) → IsSafe (Client.run ss Client.new_client)
unfolding Client.new_client
client-IsSafe ss = run-IsSafe ss Client.new_client fresh
  where
    fresh : IsSafe Client.new_client
    fresh = record {
      no_panic = refl;
      flag = refl;
      bound = omega arith;
      closed_once = refl;
      told_once = refl;
      reader_closes = omega arith;
      writer_closes = omega arith;
    }
