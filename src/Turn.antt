-- ===== src/Turn.antt =====
-- The health checks of the TURN servers: internal/turn/health.go. The map from addresses to statuses
-- is an association list; what a dial answers comes from the outside. A check writes its
-- status under the mutex; in which order the checks of a round do so is left open (see Life).
pub mod Health
pub mod Life
use lalo_lao_alo.Base.{
  ℕ, ◌+◌, Bool, true, false, not, ◌&&◌, ◌||◌, List, [], ◌∷◌, ◌++◌, Option, none, some, ◌==◌, ltb,
  if◌then◌else◌, drop, length, contains,
}
use lalo_lao_alo.Common.{Time}
use lalo_lao_alo.Text.{Text, text, take, text_eq}

pub record ServerStatus : Type 0 where
  pub uri : Text
  pub healthy : Bool
  pub latency : ℕ
  pub last_check : Time
  pub error : Text

pub record HealthChecker : Type 0 where
  pub servers : List Text
  pub interval : ℕ
  pub timeout : ℕ
  pub statuses : List (Text × ServerStatus)

-- The error of a connection attempt to an address, if it fails, and its duration.
pub record Dial : Type 0 where
  pub now : Time
  pub latency : Text → ℕ
  pub error : Text → Option Text

abbrev pub unchecked : Text → ServerStatus
unchecked uri = record { uri = uri; healthy = false; latency = 0; last_check = 0; error = [] }

unfoldable pub find_status : List (Text × ServerStatus) → Text → Option ServerStatus
find_status [] uri = none
find_status ((k, s) ∷ ss) uri =
    let rest = find_status ss uri in if text_eq k uri then some s else rest

unfoldable pub put_status :
    List (Text × ServerStatus) → Text → ServerStatus → List (Text × ServerStatus)
put_status [] uri s = (uri, s) ∷ []
put_status ((k, t) ∷ ss) uri s =
    let rest = put_status ss uri s in if text_eq k uri then (k, s) ∷ ss else (k, t) ∷ rest

unfoldable pub first_statuses : List Text → List (Text × ServerStatus) → List (Text × ServerStatus)
unfolding put_status
first_statuses [] ss = ss
first_statuses (uri ∷ uris) ss = first_statuses uris (put_status ss uri (unchecked uri))

-- An interval or a timeout that is not positive is 0; they are in seconds.
unfoldable pub new_health_checker : List Text → ℕ → ℕ → HealthChecker
unfolding first_statuses
new_health_checker uris interval timeout = record {
  servers = uris;
  interval = if interval == 0 then 10 else interval;
  timeout = if timeout == 0 then 5 else timeout;
  statuses = first_statuses uris [];
}

abbrev pub count_of : ℕ → Text → ℕ
count_of c [] = 0
count_of c (d ∷ s) = (if d == c then 1 else 0) + count_of c s

-- `[host]:port`, from the text after the first bracket on.
abbrev pub closes_with_port : Text → Bool
closes_with_port [] = false
closes_with_port (c ∷ []) = false
closes_with_port (c ∷ d ∷ s) =
    let rest = closes_with_port (d ∷ s) in
    if c == b']' then d == b':' && not (contains s b':' || contains s b']') else rest

-- Whether `net.SplitHostPort` finds a host and a port.
unfoldable pub has_port : Text → Bool
has_port [] = false
has_port (c ∷ s) =
    if c == b'['
    then closes_with_port s && not (contains s b'[')
    else count_of b':' (c ∷ s) == 1 && not (contains (c ∷ s) b'[' || contains (c ∷ s) b']')

abbrev pub starts_with : Text → Text → Bool
starts_with prefix uri =
    ltb (length prefix) (length uri) && text_eq (take (length prefix) uri) prefix

abbrev pub without_scheme : Text → Text
without_scheme uri =
    if starts_with (text "turns:") uri
    then drop 6 uri
    else if starts_with (text "turn:") uri
    then drop 5 uri
    else uri

unfoldable pub parse_addr : Text → Text
unfolding has_port
parse_addr uri =
    if has_port (without_scheme uri) then without_scheme uri else without_scheme uri ++ text ":3478"

abbrev pub checked_status : Dial → ℕ → Option Text → ServerStatus → ServerStatus
checked_status d l none s = record s { last_check = d.now; latency = l; healthy = true; error = [] }
checked_status d l (some e) s = record s {
  last_check = d.now;
  latency = l;
  healthy = false;
  error = e;
}

abbrev pub updated :
    List (Text × ServerStatus) → Text → Dial → Option ServerStatus → List (Text × ServerStatus)
updated ss uri d none = ss
updated ss uri d (some s) =
    put_status ss uri (checked_status d (d.latency (parse_addr uri)) (d.error (parse_addr uri)) s)

unfoldable pub check : Dial → Text → List (Text × ServerStatus) → List (Text × ServerStatus)
unfolding put_status find_status parse_addr
check d uri ss = updated ss uri d (find_status ss uri)

abbrev pub healthy_of : Option ServerStatus → Bool
healthy_of none = false
healthy_of (some s) = s.healthy

unfoldable pub is_healthy : HealthChecker → Text → Bool
unfolding find_status
is_healthy h uri = healthy_of (find_status h.statuses uri)

unfoldable pub healthy_uris : List (Text × ServerStatus) → List Text
healthy_uris [] = []
healthy_uris ((k, s) ∷ ss) = let rest = healthy_uris ss in if s.healthy then s.uri ∷ rest else rest

unfoldable pub healthy_servers : HealthChecker → List Text
unfolding healthy_uris
healthy_servers h = healthy_uris h.statuses

unfoldable pub statuses_in : List (Text × ServerStatus) → List ServerStatus
statuses_in [] = []
statuses_in ((k, s) ∷ ss) = s ∷ statuses_in ss

unfoldable pub all_statuses : HealthChecker → List ServerStatus
unfolding statuses_in
all_statuses h = statuses_in h.statuses
