-- ===== src/Signaling/Hub/Orphans.antt =====
-- What `RecoverSessions` of internal/signaling/hub.go does to the sessions of group calls.
use lalo_lao_alo.Base.{
  Bool, true, false, not, ◌&&◌, List, [], ◌∷◌, Option, none, some, ◌==◌, if◌then◌else◌, contains,
  ◌≡◌, refl, arith, inl, inr, Bool-cases, ==_iff,
}
use mathlib.Core.List.{Memᴰ}
use mathlib.Core.List.Memᴰ.{head, tail}
use lalo_lao_alo.Common.{CallId, Result, ok, err}
use lalo_lao_alo.Redis.{query, Redis, CallSession, room, as_call}
use lalo_lao_alo.Session.{Session}
use lalo_lao_alo.Signaling.Store
use lalo_lao_alo.Signaling.Store.{keep_active, decoded}
use lalo_lao_alo.Signaling.Hub.{Hub, asking, with_rdb, is_user_online}
use lalo_lao_alo.Signaling.Store.Marks.{ticked}
use lalo_lao_alo.CallState.{is, ended, cleanup}
use lalo_lao_alo.Signaling.Hub.Recover.{
  is_orphan, clean_call, clean_calls, recover_calls, delete-none, delete-gone, Answering,
}

delete-Answering : (d : CallId) (r : Redis) → Answering r → Answering (Store.delete d r).0
unfolding Store.delete
delete-Answering d r well n = ground (arith, well n)

clean_call-none :
    (s : CallSession) (c : CallId) (h : Hub)
    → h.rdb.sessions c ≡ none
    → (clean_call s h).rdb.sessions c ≡ none
unfolding clean_call asking
clean_call-none s c h e = ground (arith, delete-none c s.call_id h.rdb e)

clean_calls-none :
    (ss : List CallSession) (c : CallId) (h : Hub)
    → h.rdb.sessions c ≡ none
    → (clean_calls ss h).rdb.sessions c ≡ none
unfolding clean_calls
clean_calls-none [] c h e = e
clean_calls-none (s ∷ ss) c h e = clean_calls-none ss c (clean_call s h) (clean_call-none s c h e)

clean_call-Answering :
    (s : CallSession) (h : Hub) → Answering h.rdb → Answering (clean_call s h).rdb
unfolding clean_call asking
clean_call-Answering s h well n = ground (arith, well n, delete-Answering s.call_id h.rdb well n)

pub clean_call-clients : (s : CallSession) (h : Hub) → (clean_call s h).clients ≡ h.clients
unfolding clean_call asking
clean_call-clients s h = ground arith

clean_call-gone :
    (s : CallSession) (h : Hub)
    → Answering h.rdb
    → is_orphan h s ≡ true
    → (clean_call s h).rdb.sessions s.call_id ≡ none
unfolding clean_call asking
clean_call-gone s h well orphan = ground (arith, delete-gone s.call_id h.rdb well)

clean_calls-gone :
    (s : CallSession) (ss : List CallSession) (h : Hub)
    → Memᴰ s ss
    → Answering h.rdb
    → is_orphan h s ≡ true
    → (clean_calls ss h).rdb.sessions s.call_id ≡ none
unfolding clean_calls is_user_online
clean_calls-gone s [] h m well orphan = elim m [ ]
clean_calls-gone s (t ∷ ss) h (head e) well orphan =
    clean_calls-none ss s.call_id (clean_call t h) (rw (← e) (clean_call-gone s h well orphan))
clean_calls-gone s (t ∷ ss) h (tail m) well orphan =
    clean_calls-gone s ss (clean_call t h) m (clean_call-Answering t h well)
      (rw (clean_call-clients t h) orphan)

pub scan_keeps :
    (keys : List CallId) (r : Redis)
    → let r' = (Store.scan_active_sessions keys r).0 in
      (r'.sessions ≡ r.sessions) × (r'.fails ≡ r.fails)
unfolding Store.scan_active_sessions
scan_keeps [] r = (refl, refl)
scan_keeps (c ∷ keys) r = scan_keeps keys (ticked r)

keep_active-mem :
    {s : CallSession} (q : Result (Option CallSession)) (rest : List CallSession)
    → Memᴰ s rest
    → Memᴰ s (keep_active q rest)
keep_active-mem (ok none) rest m = m
keep_active-mem (err e) rest m = m
keep_active-mem {s} (ok (some t)) rest m = go (not (is t.state ended) && not (is t.state cleanup))
  where
    go : (b : Bool) → Memᴰ s (if b then t ∷ rest else rest)
    go true = tail m
    go false = m

scan_finds :
    (keys : List CallId) (r : Redis) (c : CallId) (s : Session)
    → Answering r
    → contains keys c ≡ true
    → r.sessions c ≡ some (room s)
    → Memᴰ (as_call (room s)) (Store.scan_active_sessions keys r).1
unfolding Store.scan_active_sessions
scan_finds [] r c s well k e = cc
scan_finds (d ∷ keys) r c s well k e = elim (Bool-cases (d == c)) [
  | inl same ↦ let path : d ≡ c = (==_iff d c).0 same in rw (well r.commands, path, e) (head refl)
  | inr other ↦
      keep_active-mem (query (λ db. decoded (db.sessions d)) r).1 _
        (scan_finds keys (ticked r) c s well (ground (arith, k, other)) e)
]

-- A group call that is stored under its own identifier, and whose key SCAN returns, is deleted with
-- the calls, whoever is in it, where no Redis command fails and nobody is connected whose identifier
-- is empty.
recovery_deletes_rooms :
    (keys : List CallId) (h : Hub) (s : Session)
    → Answering h.rdb
    → contains keys s.call_id ≡ true
    → h.rdb.sessions s.call_id ≡ some (room s)
    → h.clients 0 ≡ []
    → (recover_calls keys h).rdb.sessions s.call_id ≡ none
unfolding recover_calls is_user_online as_call
recovery_deletes_rooms keys h s well k e away =
    clean_calls-gone (as_call (room s)) (Store.scan_active_sessions keys h.rdb).1
      (with_rdb (Store.scan_active_sessions keys h.rdb).0 h)
      (scan_finds keys h.rdb s.call_id s well k e) (λ n. rw (scan_keeps keys h.rdb).1 (well n))
      (rw away refl)
