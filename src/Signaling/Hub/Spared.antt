-- ===== src/Signaling/Hub/Spared.antt =====
-- The calls that `RecoverSessions` of internal/signaling/hub.go does not touch.
use lalo_lao_alo.Base.{
  Bool, true, false, not, ◌&&◌, ◌||◌, List, [], ◌∷◌, Option, none, some, ◌==◌, if◌then◌else◌,
  ==_iff, ◌≡◌, ◌≢◌, refl, arith, inl, inr, Bool-cases,
}
use lalo_lao_alo.Common.{CallId, Result, ok, err}
use lalo_lao_alo.CallState.{is, ended, cleanup}
use lalo_lao_alo.Redis.{query, Redis, CallSession, call, as_call, Stored}
use lalo_lao_alo.Signaling.Store
use lalo_lao_alo.Signaling.Store.{keep_active, decoded}
use lalo_lao_alo.Signaling.Store.Marks.{ticked}
use lalo_lao_alo.Signaling.Hub.{Hub, asking, with_rdb, is_user_online}
use lalo_lao_alo.Signaling.Hub.Recover.{is_orphan, clean_call, clean_calls, recover_calls}
use lalo_lao_alo.Signaling.Hub.Orphans.{scan_keeps, clean_call-clients}

-- Every record is stored under its own identifier.
abbrev pub OwnKeys : Redis → Type 0
OwnKeys r = (c : CallId) (v : Stored) → r.sessions c ≡ some v → (as_call v).call_id ≡ c

-- The call `c`, if it is in the list, is no orphan.
abbrev Spares : CallId → Hub → List CallSession → Type 0
Spares c h [] = Unit {0}
Spares c h (t ∷ ts) = (t.call_id ≡ c → is_orphan h t ≡ false) × Spares c h ts

delete_other : (c d : CallId) (r : Redis) → d ≢ c → (Store.delete d r).0.sessions c ≡ r.sessions c
unfolding Store.delete
delete_other c d r n = ground arith

clean_call_other :
    (c : CallId) (t : CallSession) (h : Hub)
    → (t.call_id ≡ c → is_orphan h t ≡ false)
    → (clean_call t h).rdb.sessions c ≡ h.rdb.sessions c
unfolding clean_call asking
clean_call_other c t h k = elim (Bool-cases (t.call_id == c)) [
  | inl same ↦ rw (k ((==_iff t.call_id c).0 same)) refl
  | inr other ↦ ground (arith, delete_other c t.call_id h.rdb)
]

clean_call-Spares :
    (c : CallId) (t : CallSession) (ts : List CallSession) (h : Hub)
    → Spares c h ts
    → Spares c (clean_call t h) ts
unfolding is_user_online
clean_call-Spares c t [] h k = tt
clean_call-Spares c t (u ∷ ts) h k =
    (λ e. rw (clean_call-clients t h) (k.0 e), clean_call-Spares c t ts h k.1)

clean_calls_spare :
    (c : CallId) (ts : List CallSession) (h : Hub)
    → Spares c h ts
    → (clean_calls ts h).rdb.sessions c ≡ h.rdb.sessions c
unfolding clean_calls
clean_calls_spare c [] h k = refl
clean_calls_spare c (t ∷ ts) h k =
    rw (clean_calls_spare c ts (clean_call t h) (clean_call-Spares c t ts h k.1))
      (clean_call_other c t h k.0)

keep_active-Spares :
    (c : CallId) (h : Hub) (q : Result (Option CallSession)) (rest : List CallSession)
    → ((t : CallSession) → q ≡ ok (some t) → t.call_id ≡ c → is_orphan h t ≡ false)
    → Spares c h rest
    → Spares c h (keep_active q rest)
keep_active-Spares c h (ok none) rest k m = m
keep_active-Spares c h (err e) rest k m = m
keep_active-Spares c h (ok (some t)) rest k m =
    go (not (is t.state ended) && not (is t.state cleanup))
  where
    go : (b : Bool) → Spares c h (if b then t ∷ rest else rest)
    go true = (k t refl, m)
    go false = m

read_nothing :
    (d : CallId) (r : Redis) (t : CallSession)
    → r.sessions d ≡ none
    → (query (λ db. decoded (db.sessions d)) r).1 ≢ ok (some t)
unfolding query
read_nothing d r t m q = ground arith

read_record :
    (d : CallId) (r : Redis) (t : CallSession) (v : Stored)
    → r.sessions d ≡ some v
    → (query (λ db. decoded (db.sessions d)) r).1 ≡ ok (some t)
    → as_call v ≡ t
unfolding query
read_record d r t v m q = ground arith

module _ (h : Hub) (c : CallId) (s : CallSession) (present : is_orphan h s ≡ false) where
  found_spared :
      (d : CallId) (r : Redis) (t : CallSession)
      → OwnKeys r
      → r.sessions c ≡ some (call s)
      → (query (λ db. decoded (db.sessions d)) r).1 ≡ ok (some t)
      → t.call_id ≡ c
      → is_orphan h t ≡ false
  unfolding as_call
  found_spared d r t own e q same = go (r.sessions d) refl
    where
      go : (o : Option Stored) → r.sessions d ≡ o → is_orphan h t ≡ false
      go none m = absurd (read_nothing d r t m q)
      go (some v) m =
          let read = read_record d r t v m q in
          let path : d ≡ c = ground (arith, own d v m, read, same) in
          let record_of_c : v ≡ call s = ground (arith, rw path at m, e) in
          rw (← read, record_of_c) present

  scan-Spares :
      (keys : List CallId) (r : Redis)
      → OwnKeys r
      → r.sessions c ≡ some (call s)
      → Spares c h (Store.scan_active_sessions keys r).1
  unfolding Store.scan_active_sessions
  scan-Spares [] r own e = tt
  scan-Spares (d ∷ keys) r own e =
      keep_active-Spares c h (query (λ db. decoded (db.sessions d)) r).1 _
        (λ t q. found_spared d r t own e q) (scan-Spares keys (ticked r) own e)

-- Where every record is stored under its own identifier, a stored call with a party who is connected
-- is still stored as it was after the recovery of the calls, whatever keys SCAN returns, in whatever
-- order and however often, and wherever Redis commands fail.
recovery_spares_connected :
    (keys : List CallId) (h : Hub) (c : CallId) (s : CallSession)
    → OwnKeys h.rdb
    → h.rdb.sessions c ≡ some (call s)
    → (is_user_online s.caller_id h || is_user_online s.callee_id h) ≡ true
    → (recover_calls keys h).rdb.sessions c ≡ some (call s)
unfolding recover_calls is_user_online
recovery_spares_connected keys h c s own e online =
    let h' : Hub = with_rdb (Store.scan_active_sessions keys h.rdb).0 h in
    let spared = scan-Spares h' c s (ground (arith, online)) keys h.rdb own e in
    rw
      (
        clean_calls_spare c (Store.scan_active_sessions keys h.rdb).1 h' spared,
        (scan_keeps keys h.rdb).0,
      )
      e
