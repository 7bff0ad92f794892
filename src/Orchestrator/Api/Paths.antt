-- ===== src/Orchestrator/Api/Paths.antt =====
-- The helpers on paths of internal/session/handler.go.
use lalo_lao_alo.Base.{
  ℕ, ◌+◌, ◌-◌, ◌<◌, ◌≡◌, ◌≢◌, ◌↔◌, refl, ◌∙◌, Bool, true, false, ◌&&◌, [], ◌∷◌, ◌++◌, leb,
  if◌then◌else◌, drop, length, length-append, length-drop, contains, arith,
}
use mathlib.Core.List.{append_assoc}
use lalo_lao_alo.Text.{
  Text, take, text_eq, text_eq_iff, text_eq_self, take-append, drop-append_length, take-drop,
  take-take, length-take,
}

unfoldable pub match_path : Text → Text → Text → Bool
match_path path prefix suffix =
    if leb (length path) (length prefix + length suffix)
    then false
    else text_eq (take (length prefix) path) prefix
      && text_eq (drop (length path - length suffix) path) suffix

unfoldable pub match_prefix : Text → Text → Bool
match_prefix path prefix =
    if leb (length path) (length prefix)
    then false
    else if contains (drop (length prefix) path) b'/'
    then false
    else text_eq (take (length prefix) path) prefix

-- `id[:len(id)-1]` where the last byte is a slash.
abbrev pub ends_in_slash : Text → Bool
ends_in_slash s = text_eq (drop (length s - 1) s) (b'/' ∷ [])

unfoldable pub extract_id : Text → Text → Text
extract_id path prefix =
    if leb (length path) (length prefix)
    then []
    else let id = drop (length prefix) path in
      if ends_in_slash id then take (length id - 1) id else id

unfoldable pub extract_segment : Text → Text → Text → Text
extract_segment path prefix suffix =
    if leb (length path) (length prefix + length suffix)
    then []
    else drop (length prefix) (take (length path - length suffix) path)

nonempty : (s : Text) → s ≢ [] → 0 < length s
nonempty [] n = absurd (n refl)
nonempty (c ∷ s) n = omega arith

module _ (prefix id suffix : Text) where
  front_length : length (prefix ++ (id ++ suffix)) - length suffix ≡ length (prefix ++ id)
  front_length =
      omega (
        arith,
        length-append prefix (id ++ suffix),
        length-append id suffix,
        length-append prefix id,
      )

  front :
      take (length (prefix ++ (id ++ suffix)) - length suffix) (prefix ++ (id ++ suffix))
      ≡ prefix ++ id
  front = rw (front_length, ← append_assoc prefix id suffix) (take-append (prefix ++ id) suffix)

  back :
      drop (length (prefix ++ (id ++ suffix)) - length suffix) (prefix ++ (id ++ suffix)) ≡ suffix
  back =
      rw (front_length, ← append_assoc prefix id suffix) (drop-append_length (prefix ++ id) suffix)

  long_enough :
      id ≢ [] → leb (length (prefix ++ (id ++ suffix))) (length prefix + length suffix) ≡ false
  long_enough n =
      ground (arith, nonempty id, length-append prefix (id ++ suffix), length-append id suffix)

  -- A path that is put together from its parts matches.
  pub match_path-parts : id ≢ [] → match_path (prefix ++ (id ++ suffix)) prefix suffix ≡ true
  unfolding match_path
  match_path-parts n =
      rw (long_enough n, take-append prefix (id ++ suffix), back, text_eq_self prefix)
        (text_eq_self suffix)

  -- The identifier of such a path comes back.
  pub extract_segment-parts :
      id ≢ [] → extract_segment (prefix ++ (id ++ suffix)) prefix suffix ≡ id
  unfolding extract_segment
  extract_segment-parts n = rw (long_enough n, front) (drop-append_length prefix id)

module _ (path prefix suffix : Text) (matches : match_path path prefix suffix ≡ true) where
  longer : length prefix + length suffix < length path
  unfolding match_path
  longer = ground arith

  starts : take (length prefix) path ≡ prefix
  unfolding match_path
  starts = ground (arith, text_eq_iff (take (length prefix) path) prefix)

  ends : drop (length path - length suffix) path ≡ suffix
  unfolding match_path
  ends = ground (arith, text_eq_iff (drop (length path - length suffix) path) suffix)

  segment :
      extract_segment path prefix suffix
      ≡ drop (length prefix) (take (length path - length suffix) path)
  unfolding extract_segment
  segment = ground (arith, longer)

  -- A path that matches is the prefix, a segment and the suffix.
  pub parts-match_path : path ≡ prefix ++ (extract_segment path prefix suffix ++ suffix)
  parts-match_path =
      let n : ℕ = length path - length suffix in
      let whole = take-drop n path in
      let inner = take-drop (length prefix) (take n path) in
      let before : take (length prefix) (take n path) ≡ prefix =
        take-take (length prefix) n path (omega (arith, longer)) ∙ starts in
      cc (
        whole,
        inner,
        before,
        ends,
        segment,
        append_assoc prefix (drop (length prefix) (take n path)) suffix,
      )

  pub segment_nonempty : extract_segment path prefix suffix ≢ []
  segment_nonempty e = ground (
    arith,
    segment,
    longer,
    length-drop (length prefix) (take (length path - length suffix) path),
    length-take (length path - length suffix) path,
  )

-- A path matches a route with a prefix and a suffix, and yields an identifier, exactly if the
-- identifier is not empty and the path is the prefix, the identifier and the suffix.
pub segment_iff :
    (path prefix id suffix : Text)
    → ((match_path path prefix suffix ≡ true) × (extract_segment path prefix suffix ≡ id))
      ↔ ((id ≢ []) × (path ≡ prefix ++ (id ++ suffix)))
segment_iff path prefix id suffix = (
  λ (m, e). (
    λ empty. segment_nonempty path prefix suffix m (e ∙ empty),
    rw (← e) (parts-match_path path prefix suffix m),
  ),
  λ (n, e).
      (rw e (match_path-parts prefix id suffix n), rw e (extract_segment-parts prefix id suffix n)),
)
