-- ===== src/Orchestrator/Identity.antt =====
-- The three forms of an identity: internal/session/identity_resolver.go. The test of the UUID library
-- and the two lookups in the table of users are parameters.
use lalo_lao_alo.Base.{
  ℕ, ◌≡◌, ap, Bool, true, false, ◌&&◌, [], ◌∷◌, ◌++◌, ◌==◌, leb, if◌then◌else◌, is_empty, length,
  drop,
}
use lalo_lao_alo.Text.Strings.{all_space, trim_space, trim_space-around}
use lalo_lao_alo.Text.{Text, text, take, text_eq}

pub data Resolved : Type 0 where
  user : Text → Resolved
  invalid_identity not_found lookup_failed : Resolved

-- A lookup finds a user, finds none, or fails.
pub record Directory : Type 0 where
  pub is_uuid : Text → Bool
  pub by_phone : Text → Resolved
  pub by_external_id : Text → Resolved

abbrev pub is_digit : ℕ → Bool
is_digit c = leb b'0' c && leb c b'9'

abbrev pub all_digits : Text → Bool
all_digits [] = true
all_digits (c ∷ s) = is_digit c && all_digits s

-- The expression `^\+[1-9]\d{6,14}$`.
unfoldable pub is_phone : Text → Bool
is_phone [] = false
is_phone (p ∷ []) = false
is_phone (p ∷ c ∷ s) =
    p == b'+'
    && (leb b'1' c && leb c b'9' && (all_digits s && (leb 6 (length s) && leb (length s) 14)))

abbrev pub with_external_id : Directory → Text → Resolved
with_external_id d s = if is_empty s then invalid_identity else d.by_external_id s

abbrev pub resolve_trimmed : Directory → Text → Resolved
resolve_trimmed d id =
    if is_empty id
    then invalid_identity
    else if d.is_uuid id
    then user id
    else if is_phone id
    then d.by_phone id
    else if text_eq (take 4 id) (text "ext:")
    then with_external_id d (drop 4 id)
    else invalid_identity

unfoldable pub resolve : Directory → Text → Resolved
unfolding is_phone trim_space
resolve d id = resolve_trimmed d (trim_space id)

-- White space around an identity does not matter.
resolve-space :
    (d : Directory) (before id after : Text)
    → all_space before ≡ true
    → all_space after ≡ true
    → resolve d (before ++ (id ++ after)) ≡ resolve d id
unfolding resolve
resolve-space d before id after h k = ap (resolve_trimmed d) (trim_space-around before id after h k)
