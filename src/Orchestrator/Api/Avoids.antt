-- ===== src/Orchestrator/Api/Avoids.antt =====
-- How a handler of internal/session/handler.go avoids a status.
use lalo_lao_alo.Base.{ℕ, true, Option, none, some, ◌≡◌, ◌≢◌, refl}
use lalo_lao_alo.Common.{UserId, Error, Result, ok, err}
use lalo_lao_alo.Text.{Text}
use lalo_lao_alo.Orchestrator.Services.{Services, O}
use lalo_lao_alo.Orchestrator.Plain.{Plain, is_plain, Plain-error}
use lalo_lao_alo.Orchestrator.Api.{Request, Reply, Handler, asking, answered, say, if_known}
use lalo_lao_alo.Orchestrator.Api.Sessions
use lalo_lao_alo.Orchestrator.Api.Routes.{Meets, meets, Meets-if}

abbrev pub Avoids : ℕ → Services → Services × Reply → Type 0
Avoids n w x = x.1.status ≢ n

pub say-Avoids : (n : ℕ) (rep : Reply) → rep.status ≢ n → Meets (Avoids n) (say rep)
say-Avoids n rep e = meets (λ w. e)

pub if_known-Avoids :
    (n : ℕ) (claims : Option UserId) (f : UserId → Handler)
    → 401 ≢ n
    → ((u : UserId) → Meets (Avoids n) (f u))
    → Meets (Avoids n) (if_known claims f)
if_known-Avoids n none f e k = meets (λ w. e)
if_known-Avoids n (some u) f e k = k u

pub asking-Avoids :
    (n : ℕ) {A : Type 0} (m : O A) (bad : Error → Reply) (good : A → Reply)
    → ((w : Services) (e : Error) → (m w).1 ≡ err e → (bad e).status ≢ n)
    → ((a : A) → (good a).status ≢ n)
    → Meets (Avoids n) (asking m bad good)
unfolding asking
asking-Avoids n {A} m bad good k l = meets (λ w. go w (m w) refl)
  where
    go : (w : Services) (x : Services × Result A) → m w ≡ x → (answered x bad good).1.status ≢ n
    go w (w', ok a) e = l a
    go w (w', err e') e = k w e' (rw e refl)

-- `bad` never sends the status `n` for an error that is not one of a conflict.
pub asking-Plain :
    (n : ℕ) {A : Type 0} (m : O A) (bad : Error → Reply) (good : A → Reply)
    → Plain m
    → ((e : Error) → is_plain e ≡ true → (bad e).status ≢ n)
    → ((a : A) → (good a).status ≢ n)
    → Meets (Avoids n) (asking m bad good)
asking-Plain n m bad good p k l = asking-Avoids n m bad good (λ w e h. k e (Plain-error p w e h)) l

pub failed-Avoids :
    {A : Type 0} (n : ℕ) (m : O A) (good : A → Reply)
    → 500 ≢ n
    → ((a : A) → (good a).status ≢ n)
    → Meets (Avoids n) (asking m Sessions.failed good)
failed-Avoids n m good h l = asking-Avoids n m Sessions.failed good (λ w e q. h) l

pub with_segment-Avoids :
    (n : ℕ) (prefix suffix : Text) (r : Request) (f : Text → Handler)
    → 400 ≢ n
    → ((t : Text) → Meets (Avoids n) (f t))
    → Meets (Avoids n) (Sessions.with_segment prefix suffix r f)
with_segment-Avoids n prefix suffix r f h k = Meets-if _ (say-Avoids n _ h) (k _)
