-- ===== src/Orchestrator/Api/RoomRead.antt =====
-- `GET /api/v1/rooms/:id` in internal/session/handler.go.
use lalo_lao_alo.Base.{
  ℕ, ◌-◌, ◌<◌, ◌≡◌, ◌≢◌, refl, Bool, true, false, [], ◌∷◌, ◌++◌, ◌&&◌, some, zero, suc, Bool-cases,
  inl, inr, drop, length, length-append, contains, arith,
}
use lalo_lao_alo.Text.{
  Text, take, text_eq_iff, take-drop, append_cancel, contains-append, take-append,
  drop-append_length, text_eq_self,
}
use lalo_lao_alo.Common.{UserId}
use lalo_lao_alo.Orchestrator.Services.{Services}
use lalo_lao_alo.Orchestrator.Api.{get, Request, Outside}
use lalo_lao_alo.Orchestrator.Api.Paths.{
  match_path, match_prefix, extract_id, extract_segment, ends_in_slash, parts-match_path,
}
use lalo_lao_alo.Orchestrator.Api.Sessions
use lalo_lao_alo.Orchestrator.Api.Sessions.{sessions_prefix, get_with}
use lalo_lao_alo.Orchestrator.Api.Groups.{rooms_prefix}
use lalo_lao_alo.Orchestrator.Api.Router.{serve, serve_rooms}

nonempty : (s : Text) → s ≢ [] → 0 < length s
nonempty [] n = absurd (n refl)
nonempty (c ∷ s) n = omega arith

match_prefix-append :
    (prefix id : Text)
    → id ≢ []
    → contains id b'/' ≡ false
    → match_prefix (prefix ++ id) prefix ≡ true
unfolding match_prefix
match_prefix-append prefix id n c = ground (
  arith,
  nonempty id,
  length-append prefix id,
  drop-append_length prefix id,
  take-append prefix id,
  text_eq_self prefix,
)

not_sessions_path :
    (id suffix : Text) → match_path (rooms_prefix ++ id) sessions_prefix suffix ≡ false
unfolding match_path
not_sessions_path id suffix = ground arith

not_sessions_prefix : (id : Text) → match_prefix (rooms_prefix ++ id) sessions_prefix ≡ false
unfolding match_prefix
not_sessions_prefix id = ground arith

-- An identifier with no slash leaves no room for a suffix that begins with one.
no_suffix :
    (id suffix : Text)
    → contains id b'/' ≡ false
    → match_path (rooms_prefix ++ id) rooms_prefix (b'/' ∷ suffix) ≡ false
no_suffix id suffix c =
    elim (Bool-cases (match_path (rooms_prefix ++ id) rooms_prefix (b'/' ∷ suffix))) [
      | inl m ↦ absurd (clash m)
      | inr m ↦ m
    ]
  where
    clash : match_path (rooms_prefix ++ id) rooms_prefix (b'/' ∷ suffix) ≡ true → ⊥
    clash m =
        let seg = extract_segment (rooms_prefix ++ id) rooms_prefix (b'/' ∷ suffix) in
        let e =
          append_cancel rooms_prefix id (seg ++ b'/' ∷ suffix)
            (parts-match_path (rooms_prefix ++ id) rooms_prefix (b'/' ∷ suffix) m) in
        ground (arith, e, contains-append seg (b'/' ∷ suffix) b'/')

no_slash_at_end : (s : Text) → contains s b'/' ≡ false → ends_in_slash s ≡ false
no_slash_at_end s c = elim (Bool-cases (ends_in_slash s)) [ inl m ↦ absurd (clash m) | inr m ↦ m ]
  where
    clash : ends_in_slash s ≡ true → ⊥
    clash m =
        let e = (text_eq_iff (drop (length s - 1) s) (b'/' ∷ [])).0 m in
        let whole = take-drop (length s - 1) s in
        ground (arith, e, whole, contains-append (take (length s - 1) s) (b'/' ∷ []) b'/')

no_slash_after : (n : ℕ) (s : Text) → contains s b'/' ≡ false → contains (drop n s) b'/' ≡ false
no_slash_after zero s c = c
no_slash_after (suc n) [] c = c
no_slash_after (suc n) (x ∷ s) c = no_slash_after n s (ground arith)

extract_id-rooms :
    (id : Text)
    → contains id b'/' ≡ false
    → extract_id (rooms_prefix ++ id) sessions_prefix ≡ drop 3 id
unfolding extract_id
extract_id-rooms [] c = refl
extract_id-rooms (x ∷ []) c = refl
extract_id-rooms (x ∷ y ∷ []) c = refl
extract_id-rooms (x ∷ y ∷ z ∷ []) c = refl
extract_id-rooms (x ∷ y ∷ z ∷ t ∷ s) c =
    rw (no_slash_at_end (t ∷ s) (no_slash_after 3 (x ∷ y ∷ z ∷ t ∷ s) c)) (ground arith)

and_false : (b : Bool) → b && false ≡ false
and_false true = refl
and_false false = refl

-- A user's request to read the room `id`, `GET /api/v1/rooms/<id>`, looks up the call whose identifier
-- is `id` without its first three bytes.
room_read :
    (o : Outside) (r : Request) (w : Services) (u : UserId) (id : Text)
    → r.claims ≡ some u
    → r.method ≡ get
    → r.path ≡ rooms_prefix ++ id
    → id ≢ []
    → contains id b'/' ≡ false
    → serve o r w ≡ get_with o (drop 3 id) w
unfolding serve serve_rooms Sessions.handle_get_session
room_read o r w u id hu hm hp n c = simp (
  hm,
  hp,
  hu,
  and_false,
  not_sessions_path id,
  not_sessions_prefix id,
  no_suffix id _ c,
  match_prefix-append rooms_prefix id n c,
  extract_id-rooms id c,
)
