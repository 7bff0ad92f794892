-- ===== src/Turn/Health.antt =====
-- What a check of internal/turn/health.go does to the statuses.
use lalo_lao_alo.Base.{
  ℕ, ◌≡◌, refl, Bool, true, false, ◌&&◌, ◌||◌, List, [], ◌∷◌, Option, none, some, if◌then◌else◌,
  Bool-cases, inl, inr, Option-cases, arith,
}
use lalo_lao_alo.Text.{Text, text_eq, text_eq_iff, text_eq_self}
use lalo_lao_alo.Turn.{
  ServerStatus, Dial, unchecked, find_status, put_status, first_statuses, parse_addr,
  checked_status, check, healthy_of,
}

abbrev pub is_listed : Text → List Text → Bool
is_listed uri [] = false
is_listed uri (u ∷ us) = text_eq u uri || is_listed uri us

abbrev pub answers : Option Text → Bool
answers none = true
answers (some e) = false

abbrev pub is_known : Option ServerStatus → Bool
is_known none = false
is_known (some s) = true

find-put :
    (ss : List (Text × ServerStatus)) (u v : Text) (s : ServerStatus)
    → find_status (put_status ss u s) v ≡ (if text_eq u v then some s else find_status ss v)
unfolding find_status put_status
find-put [] u v s = refl
find-put ((k, t) ∷ ss) u v s =
    ground (arith, find-put ss u v s, text_eq_iff k u, text_eq_iff k v, text_eq_iff u v)

pub known-first :
    (us : List Text) (ss : List (Text × ServerStatus)) (v : Text)
    → is_known (find_status (first_statuses us ss) v)
      ≡ is_listed v us || is_known (find_status ss v)
unfolding first_statuses
known-first [] ss v = refl
known-first (u ∷ us) ss v =
    ground (arith, known-first us (put_status ss u (unchecked u)) v, find-put ss u v (unchecked u))

check-other :
    (d : Dial) (u v : Text) (ss : List (Text × ServerStatus))
    → text_eq u v ≡ false
    → find_status (check d u ss) v ≡ find_status ss v
unfolding check
check-other d u v ss n = elim (Option-cases (find_status ss u)) [
  | inl e ↦ rw e refl
  | inr (s, e) ↦ rw (e, find-put ss u v _, n) refl
]

check-unknown :
    (d : Dial) (v : Text) (ss : List (Text × ServerStatus))
    → find_status ss v ≡ none
    → find_status (check d v ss) v ≡ none
unfolding check
check-unknown d v ss e = rw e e

check-known :
    (d : Dial) (v : Text) (ss : List (Text × ServerStatus)) (s : ServerStatus)
    → find_status ss v ≡ some s
    → find_status (check d v ss) v
      ≡ some (checked_status d (d.latency (parse_addr v)) (d.error (parse_addr v)) s)
unfolding check
check-known d v ss s e = rw (e, find-put ss v v _, text_eq_self v) refl

pub nowhere : (v : Text) → find_status [] v ≡ none
unfolding find_status
nowhere v = refl

-- One check, seen at any address.
pub check_lem :
    (d : Dial) (u v : Text) (ss : List (Text × ServerStatus))
    → (healthy_of (find_status (check d u ss) v) ≡ (
        if text_eq u v && is_known (find_status ss v)
        then answers (d.error (parse_addr v))
        else healthy_of (find_status ss v)))
      × (is_known (find_status (check d u ss) v) ≡ is_known (find_status ss v))
check_lem d u v ss = elim (Bool-cases (text_eq u v)) [
  | inl e ↦ rw ((text_eq_iff u v).0 e, text_eq_self v) (same v)
  | inr n ↦ rw (n, check-other d u v ss n) (refl, refl)
]
  where
    dialled :
        (v : Text) (s : ServerStatus) (l : ℕ) (o : Option Text)
        → (checked_status d l o s).healthy ≡ answers o
    dialled v s l none = refl
    dialled v s l (some e) = refl

    same :
        (v : Text)
        → (healthy_of (find_status (check d v ss) v) ≡ (
            if true && is_known (find_status ss v)
            then answers (d.error (parse_addr v))
            else healthy_of (find_status ss v)))
          × (is_known (find_status (check d v ss) v) ≡ is_known (find_status ss v))
    same v = elim (Option-cases (find_status ss v)) [
      | inl e ↦ rw (check-unknown d v ss e, e) (refl, refl)
      | inr (s, e) ↦ rw (check-known d v ss s e, e) (dialled v s _ (d.error (parse_addr v)), refl)
    ]

pub unknown-unhealthy : (o : Option ServerStatus) → is_known o ≡ false → healthy_of o ≡ false
unknown-unhealthy none h = refl
unknown-unhealthy (some s) h = cc

pub first-unhealthy :
    (us : List Text) (ss : List (Text × ServerStatus)) (v : Text)
    → healthy_of (find_status ss v) ≡ false
    → healthy_of (find_status (first_statuses us ss) v) ≡ false
unfolding first_statuses
first-unhealthy [] ss v h = h
first-unhealthy (u ∷ us) ss v h =
    first-unhealthy us (put_status ss u (unchecked u)) v
      (ground (arith, find-put ss u v (unchecked u), h))
