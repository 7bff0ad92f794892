-- ===== src/Events/Published.antt =====
-- A message that a bus of internal/events/bus.go has published is read as it was written.
use lalo_lao_alo.Base.{
  ℕ, zero, suc, ◌≡◌, refl, ap, inl, inr, Bool-cases, Bool, Option, none, some, arith,
}
use lalo_lao_alo.Common.{Time}
use lalo_lao_alo.Text.{Text}
use lalo_lao_alo.Events.Bus.{Codec, RoundTrips, Envelope, BusError, Bus, publish, marshalled}

abbrev pub repeat : {A : Type 0} → ℕ → (A → A) → A → A
repeat zero f a = a
repeat (suc n) f a = repeat n f (f a)

pub published_raw :
    (j : Codec) (takes : Text → Text → Bool) (bus : Bus) (now : Time) (fresh : ℕ)
    (subject payload raw : Text)
    → RoundTrips j
    → publish j takes bus now fresh subject payload ≡ (none, some raw)
    → j.unmarshal raw
      ≡ some (record {
        id = fresh;
        subject = subject;
        timestamp = now;
        source = bus.source;
        payload = payload;
      })
unfolding publish
published_raw j takes bus now fresh subject payload raw trips h =
    by_marshal (j.marshal env) refl (ap (λ (x : Option BusError × Option Text). x.1) h)
  where
    env : Envelope
    env = record {
      id = fresh;
      subject = subject;
      timestamp = now;
      source = bus.source;
      payload = payload;
    }

    by_marshal :
        (m : Option Text)
        → j.marshal env ≡ m
        → (marshalled takes subject m).1 ≡ some raw
        → j.unmarshal raw ≡ some env
    by_marshal none e p = cc
    by_marshal (some r) e p = elim (Bool-cases (takes subject r)) [
      | inl t ↦ trips env raw (ground (arith, e, p, t))
      | inr t ↦ ground (arith, p, t)
    ]
