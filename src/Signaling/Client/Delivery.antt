-- ===== src/Signaling/Client/Delivery.antt =====
-- What a client of internal/signaling/client.go is sent, against what is written to it.
use mathlib.Core.List.Sublist
use mathlib.Core.List.{Sublist, append_assoc, append-nil, sublist-append_left}
use lalo_lao_alo.Base.{
  ◌≡◌, refl, Bool, true, false, List, [], ◌∷◌, ◌++◌, none, some, length, ◌||◌, ◌⊎◌, inl, inr, ltb,
  Bool-cases, arith,
}
use lalo_lao_alo.Text.{Text}
use lalo_lao_alo.Signaling.Client

-- The messages that the hub sends, with no regard to what becomes of them.
abbrev pub sent : List Client.Step → List Text
sent [] = []
sent (Client.Step.sends (some m) ∷ ss) = m ∷ sent ss
sent (s ∷ ss) = sent ss

abbrev pub texts : List Client.Frame → List Text
texts [] = []
texts (Client.Frame.text_message m ∷ fs) = m ∷ texts fs
texts (f ∷ fs) = texts fs

-- What the peer has got and will get.
abbrev pub delivered : Client.Connection → List Text
delivered c = texts c.written ++ c.channel.buffered

texts-append : (fs gs : List Client.Frame) → texts (fs ++ gs) ≡ texts fs ++ texts gs
texts-append [] gs = refl
texts-append (Client.Frame.text_message m ∷ fs) gs = rw (texts-append fs gs)
texts-append (Client.Frame.ping_message ∷ fs) gs = texts-append fs gs
texts-append (Client.Frame.close_message ∷ fs) gs = texts-append fs gs

pub delivered-write :
    (f : Client.Frame) (b : List Text) (c : Client.Connection)
    → texts (c.written ++ f ∷ []) ++ b ≡ texts c.written ++ (texts (f ∷ []) ++ b)
delivered-write f b c = simp (texts-append, append_assoc)

-- One of three things happens: all is kept, and a message that is sent is dropped or queued; or the
-- first message of the queue is lost.
data Outcome (s : Client.Step) (c : Client.Connection) : Type 0 where
  queued : delivered (Client.step s c) ≡ delivered c ++ sent (s ∷ []) → Outcome s c
  dropped : delivered (Client.step s c) ≡ delivered c → Outcome s c
  lost :
      (m : Text) (rest : List Text)
      → c.channel.buffered ≡ m ∷ rest
      → delivered (Client.step s c) ≡ texts c.written ++ rest
      → sent (s ∷ []) ≡ []
      → Outcome s c

received_outcome :
    (a : Bool) (c : Client.Connection) (b : List Text)
    → c.channel.buffered ≡ b
    → (c.writing ≡ true) ⊎ (c.writing ≡ false)
    → Outcome (Client.Step.receives a) c
unfolding Client.step
received_outcome a c b e (inr w) = dropped (ground arith)
received_outcome a c [] e (inl w) = dropped (
    ground
      (arith, texts-append c.written (Client.close_message ∷ []), append-nil (texts c.written)))
received_outcome true c (m ∷ rest) e (inl w) =
    dropped (rw (w, e) (delivered-write (Client.text_message m) rest c))
received_outcome false c (m ∷ rest) e (inl w) = lost m rest e (ground arith) refl

outcome : (s : Client.Step) (c : Client.Connection) → Outcome s c
unfolding Client.step
outcome (Client.Step.sends none) c = dropped refl
outcome (Client.Step.sends (some m)) c = elim (Bool-cases (c.closed || c.channel.is_closed)) [
  | inl shut ↦ dropped (ground arith)
  | inr open_now ↦ elim (Bool-cases (ltb (length c.channel.buffered) 64)) [
    | inl room ↦ queued (ground (arith, append_assoc (texts c.written) c.channel.buffered (m ∷ [])))
    | inr full ↦ dropped (ground arith)
  ]
]
outcome Client.Step.closes c = dropped (ground arith)
outcome (Client.Step.receives a) c =
    received_outcome a c c.channel.buffered refl (Bool-cases c.writing)
outcome (Client.Step.ticks a) c =
    dropped (ground (arith, delivered-write Client.ping_message c.channel.buffered c))
outcome (Client.Step.reads none) c = dropped (ground arith)
outcome (Client.Step.reads (some m)) c = dropped (ground arith)
outcome Client.Step.takes_message c = dropped (ground arith)
outcome Client.Step.takes_unregister c = dropped (ground arith)
outcome Client.Step.stops_reading c = dropped (ground arith)

step_sublist :
    (s : Client.Step) (c : Client.Connection)
    → Outcome s c
    → Sublist (delivered (Client.step s c)) (delivered c ++ sent (s ∷ []))
step_sublist s c (queued e) = rw e (Sublist.refl (delivered c ++ sent (s ∷ [])))
step_sublist s c (dropped e) = rw e (sublist-append_left (delivered c) (sent (s ∷ [])))
step_sublist s c (lost m rest e d n) =
    rw (d, n, e, append-nil)
      (Sublist.append (Sublist.refl (texts c.written)) (Sublist.cons m (Sublist.refl rest)))

pub sent-cons : (s : Client.Step) (ss : List Client.Step) → sent (s ∷ ss) ≡ sent (s ∷ []) ++ sent ss
sent-cons (Client.Step.sends none) ss = refl
sent-cons (Client.Step.sends (some m)) ss = refl
sent-cons Client.Step.closes ss = refl
sent-cons (Client.Step.receives a) ss = refl
sent-cons (Client.Step.ticks a) ss = refl
sent-cons (Client.Step.reads m) ss = refl
sent-cons Client.Step.takes_message ss = refl
sent-cons Client.Step.takes_unregister ss = refl
sent-cons Client.Step.stops_reading ss = refl

run_sublist :
    (ss : List Client.Step) (c : Client.Connection)
    → Sublist (delivered (Client.run ss c)) (delivered c ++ sent ss)
unfolding Client.run
run_sublist [] c = rw append-nil (Sublist.refl (delivered c))
run_sublist (s ∷ ss) c =
    rw (sent-cons s ss, ← append_assoc (delivered c) (sent (s ∷ [])) (sent ss))
      (Sublist.trans (run_sublist ss (Client.step s c))
        (Sublist.append (step_sublist s c (outcome s c)) (Sublist.refl (sent ss))))

-- In whatever order the hub, the two goroutines and the network do their steps, what is written to a
-- new client and then what is queued are messages that the hub sent to it, each at most as often as
-- it was sent, and in the order in which they were sent.
pub in_order :
    (ss : List Client.Step) → Sublist (delivered (Client.run ss Client.new_client)) (sent ss)
unfolding Client.new_client
in_order ss = run_sublist ss Client.new_client
