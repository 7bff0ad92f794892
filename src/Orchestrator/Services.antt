-- ===== src/Orchestrator/Services.antt =====
-- The orchestrator's surroundings: Redis, the event bus, the call history in Postgres, and its
-- configuration; and computations over them.
use lalo_lao_alo.Base.{ℕ, Bool, true, false, List, [], ◌∷◌, ◌++◌, if◌then◌else◌}
use lalo_lao_alo.Common.{Error, wrapped, Result, ok, err, is_zero}
use lalo_lao_alo.Redis.{Redis, M}
use lalo_lao_alo.Session.{Session, Participant}
use lalo_lao_alo.Session.Cdr.{Cdr, generate_cdr}
use lalo_lao_alo.Events.{Event, call_ended}

-- `history` lists the rows offered to Postgres, oldest first; a failed write is only logged by
-- the code. `max_participants` is the configured number, where 0 means the default.
pub record Services : Type 0 where
  pub rdb : Redis
  pub published : List Event
  pub history : List (Cdr × List Participant)
  pub max_participants : ℕ

abbrev pub O : Type 0 → Type 0
O A = Services → Services × Result A

abbrev pub pure : {A : Type 0} → A → O A
pure a w = (w, ok a)

abbrev pub fail : {A : Type 0} → Error → O A
fail e w = (w, err e)

abbrev pub and_then : {A B : Type 0} → Services × Result A → (A → O B) → Services × Result B
and_then (w, ok a) f = f a w
and_then (w, err e) f = (w, err e)

infixl 5 ◌>>=◌ ◌>>◌
abbrev pub ◌>>=◌ : {A B : Type 0} → O A → (A → O B) → O B
◌>>=◌ m f w = and_then (m w) f

abbrev pub ◌>>◌ : {B : Type 0} → O (Unit {0}) → O B → O B
m >> k = m >>= λ _. k

abbrev pub guard : Bool → Error → O (Unit {0})
guard true e = pure tt
guard false e = fail e

abbrev pub stored : {A : Type 0} → Services → Redis × Result A → Services × Result A
stored w (r, x) = (record w { rdb = r }, x)

-- A call of the store.
abbrev pub store : {A : Type 0} → M A → O A
store m w = stored w (m w.rdb)

abbrev pub rewrapped : {A : Type 0} → Services × Result A → Services × Result A
rewrapped (w, ok a) = (w, ok a)
rewrapped (w, err e) = (w, err (wrapped e))

-- A call whose error is returned through `fmt.Errorf("...: %w", err)`.
abbrev pub wrapping : {A : Type 0} → O A → O A
wrapping m w = rewrapped (m w)

-- A call whose error is only logged.
abbrev pub ignored : {A : Type 0} → Services × Result A → Services × Result (Unit {0})
ignored (w, x) = (w, ok tt)

abbrev pub logged : {A : Type 0} → O A → O (Unit {0})
logged m w = ignored (m w)

unfoldable pub publish : Event → O (Unit {0})
publish e w = (record w { published = w.published ++ e ∷ [] }, ok tt)

-- The configured limit, read in each operation that needs it.
unfoldable pub room_limit : Services → ℕ
room_limit w = if is_zero w.max_participants then 8 else w.max_participants

-- `WriteFull`: the call and its participants to Postgres, and the end of the call to the bus.
unfoldable pub write_full : Session → O (Unit {0})
unfolding generate_cdr
write_full s w = (
  record w {
    history = w.history ++ (generate_cdr s, s.participants) ∷ [];
    published =
        w.published ++ call_ended s.call_id s.end_reason (generate_cdr s).duration_seconds ∷ [];
  },
  ok tt,
)
