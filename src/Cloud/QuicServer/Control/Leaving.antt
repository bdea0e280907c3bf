-- ===== src/Cloud/QuicServer/Control/Leaving.antt =====
-- internal/cloud/quic_server.go: what a connection leaves behind.
use famfun.Prelude.{
  ℕ, zero, suc, ◌≡◌, refl, sym, ap, ◌∙◌, String, List, [], ◌∷◌, Option, none, some, ◌||◌, Result,
  ok, err, panic, length, ltb, Bool-cases, Option-cases, inl, inr, arith, eq_iff,
}
use famfun.Prelude.Dict.{lookup, insert, delete, lookup-insert, lookup-delete}
use famfun.Model.{Video}
use famfun.Protocol.Message.{Envelope, RegisterRequest}
use famfun.Protocol.Message
use famfun.Protocol.Stream.{Stream}
use famfun.Protocol.Framing.{Codec, read_message, write_message}
use famfun.Cloud.Connection.{HomeConn, new_quic_home_conn}
use famfun.Cloud.DataRequest.{Wire}
use famfun.Cloud.HomeManager.{
  HomeManager, get_home, register_home, unregister_home, rebuild_sorted, sync_home_videos,
}
use famfun.Cloud.QuicServer.{
  QuicServer, perform_registration, cleanup_connection, dispatch_control_message, sync_videos,
  store_videos, fetch_loop, admit, enter, confirm, receive_registration, registered,
  fetch_video_info,
}
use famfun.Cloud.QuicServer.Control.{
  End, control_loop, on_message, on_dispatched, after_answer, cleaned, on_registered,
  handle_connection,
}

sync_home_videos-homes :
    (home : String) (add : List Video) (gone : List String) (m : HomeManager)
    → (sync_home_videos home add gone m).homes ≡ m.homes
unfolding sync_home_videos rebuild_sorted
sync_home_videos-homes home add gone m =
    elim (Bool-cases (ltb 0 (length add) || ltb 0 (length gone))) [
      | inl e ↦ rw e refl
      | inr e ↦ rw e refl
    ]

store_videos-homes :
    (hc : HomeConn) (m m' : HomeManager) (fetched : Option (List Video))
    → store_videos hc m fetched ≡ some m'
    → m'.homes ≡ m.homes
store_videos-homes hc m m' none e = absurd cc
store_videos-homes hc m m' (some []) e =
    ap (λ o. elim o [ none ↦ m.homes | some x ↦ x.homes ]) (sym e)
store_videos-homes hc m m' (some (v ∷ vs)) e =
    ap (λ o. elim o [ none ↦ m.homes | some x ↦ x.homes ]) (sym e)
    ∙ sync_home_videos-homes hc.home_id (v ∷ vs) [] m

-- The registry of what a handler returns.
abbrev Handled : HomeManager → Option (HomeManager × Option Envelope) → Type 0
Handled m none = Unit
Handled m (some (m', answer)) = m'.homes ≡ m.homes

dispatch_control_message-Handled :
    (w : Wire) (hc : HomeConn) (e : Envelope) (m : HomeManager)
    → Handled m (dispatch_control_message w hc e m)
unfolding dispatch_control_message sync_videos
dispatch_control_message-Handled w hc (Message.heartbeat_request req) m =
    let fetched = fetch_loop (fetch_video_info w hc) m hc.home_id req.video_ids [] in
    elim (Option-cases (store_videos hc m fetched)) [
      | inl e ↦ rw (e, Handled) tt
      | inr (m', e) ↦ rw (e, Handled) (store_videos-homes hc m m' fetched e)
    ]
dispatch_control_message-Handled w hc (Message.video_list_update req) m =
    let fetched = fetch_loop (fetch_video_info w hc) m hc.home_id req.video_ids [] in
    elim (Option-cases (store_videos hc m fetched)) [
      | inl e ↦ rw (e, Handled) tt
      | inr (m', e) ↦ rw (e, Handled) (store_videos-homes hc m m' fetched e)
    ]
dispatch_control_message-Handled w hc _ m = refl

-- The registry of a connection that has ended.
abbrev Left : HomeManager → End → Type 0
Left m (End.ended m') = m'.homes ≡ m.homes
Left m End.crashed = Unit
Left m End.still_open = Unit

Left-trans : (m m' : HomeManager) (e : End) → m'.homes ≡ m.homes → Left m' e → Left m e
Left-trans m m' (End.ended m'') p q = q ∙ p
Left-trans m m' End.crashed p q = tt
Left-trans m m' End.still_open p q = tt

on_dispatched-Left :
    (c : Codec) (st : Stream) (loop : HomeManager → Stream → End) (m : HomeManager)
    (d : Option (HomeManager × Option Envelope))
    → Handled m d
    → ((m' : HomeManager) (st' : Stream) → Left m' (loop m' st'))
    → Left m (on_dispatched c st loop d)
on_dispatched-Left c st loop m none h k = tt
on_dispatched-Left c st loop m (some (m', answer)) h k =
    Left-trans m m' _ h (k m' (after_answer c answer st))

on_message-Left :
    (w : Wire) (hc : HomeConn) (m : HomeManager) (loop : HomeManager → Stream → End)
    (r : Result Envelope × Stream)
    → ((m' : HomeManager) (st' : Stream) → Left m' (loop m' st'))
    → Left m (on_message w hc m loop r)
on_message-Left w hc m loop (err e, st) k = refl
on_message-Left w hc m loop (panic, st) k = tt
on_message-Left w hc m loop (ok env, st) k =
    on_dispatched-Left w.codec st loop m (dispatch_control_message w hc env m)
      (dispatch_control_message-Handled w hc env m) k

control_loop-Left :
    (n : ℕ) (w : Wire) (hc : HomeConn) (m : HomeManager) (st : Stream)
    → Left m (control_loop n w hc m st)
unfolding control_loop
control_loop-Left zero w hc m st = tt
control_loop-Left (suc n) w hc m st =
    on_message-Left w hc m (control_loop n w hc) (read_message w.codec st)
      (control_loop-Left n w hc)

-- Every connection of a registry is in the other one, and no other is.
abbrev pub SameHomes : HomeManager → HomeManager → Type 0
SameHomes m m' = (id : String) → get_home id m' ≡ get_home id m

abbrev pub Restored : HomeManager → End → Type 0
Restored m (End.ended m') = SameHomes m m'
Restored m End.crashed = Unit
Restored m End.still_open = Unit

-- The clean-up takes back what a registration entered.
cleaned-Restored :
    (hc : HomeConn) (m m' : HomeManager) (e : End)
    → lookup hc.home_id m.homes ≡ none
    → m'.homes ≡ insert hc.home_id hc m.homes
    → Left m' e
    → Restored m (cleaned hc e)
unfolding cleanup_connection unregister_home rebuild_sorted get_home
cleaned-Restored hc m m' End.crashed free entered left = tt
cleaned-Restored hc m m' End.still_open free entered left = tt
cleaned-Restored hc m m' (End.ended m'') free entered left = λ id.
    let same : m''.homes ≡ insert hc.home_id hc m.homes = left ∙ entered in
    ap (λ h. lookup id (delete hc.home_id h)) same
    ∙ ground (
      arith,
      lookup-delete hc.home_id id (insert hc.home_id hc m.homes),
      lookup-insert hc.home_id id hc m.homes,
      free,
      eq_iff hc.home_id id,
    )

-- The registry after a registration.
abbrev Entered : HomeManager → (Result HomeConn × HomeManager) × Stream → Type 0
Entered m ((ok hc, m'), st) =
    (lookup hc.home_id m.homes ≡ none) × (m'.homes ≡ insert hc.home_id hc m.homes)
Entered m ((err e, m'), st) = SameHomes m m'
Entered m ((panic, m'), st) = Unit

confirm-Entered :
    (hc : HomeConn) (w : Result (Unit {0}) × Stream) (m : HomeManager)
    → lookup hc.home_id m.homes ≡ none
    → Entered m (confirm hc w (record m { homes = insert hc.home_id hc m.homes }))
unfolding confirm unregister_home rebuild_sorted get_home
confirm-Entered hc (ok _, st) m free = (free, refl)
confirm-Entered hc (err e, st) m free = λ id. ground (
  arith,
  lookup-delete hc.home_id id (insert hc.home_id hc m.homes),
  lookup-insert hc.home_id id hc m.homes,
  free,
  eq_iff hc.home_id id,
)
confirm-Entered hc (panic, st) m free = tt

admit-Entered :
    (c : Codec) (conn : ℕ) (m : HomeManager) (p : Result RegisterRequest × Stream)
    → Entered m (admit c conn m p)
unfolding admit enter register_home new_quic_home_conn
admit-Entered c conn m (ok req, st) =
    let hc = new_quic_home_conn req.home_server_id req.name conn in
    elim (Option-cases (lookup req.home_server_id m.homes)) [
      | inl free ↦
          rw (free, register_home) (confirm-Entered hc (write_message c registered st) m free)
      | inr (old, taken) ↦ rw (taken, register_home) (λ other. refl)
    ]
admit-Entered c conn m (err e, st) = λ other. refl
admit-Entered c conn m (panic, st) = tt

on_registered-Restored :
    (n : ℕ) (w : Wire) (m : HomeManager) (r : (Result HomeConn × HomeManager) × Stream)
    → Entered m r
    → Restored m (on_registered n w r)
on_registered-Restored n w m ((ok hc, m'), st) (free, entered) =
    cleaned-Restored hc m m' (control_loop n w hc m' st) free entered
      (control_loop-Left n w hc m' st)
on_registered-Restored n w m ((err e, m'), st) same = same
on_registered-Restored n w m ((panic, m'), st) same = tt

-- A connection that has ended has left the connections of the registry as it found them: whether the home
-- was registered or refused, and whatever messages it sent, its own connection is gone, and each
-- other home has the connection that it had.
pub handle_connection-Restored :
    (n : ℕ) (q : QuicServer) (w : Wire) (conn : ℕ) (m : HomeManager) (st : Stream)
    → Restored m (handle_connection n q w conn m st)
unfolding handle_connection perform_registration
handle_connection-Restored n q w conn m st =
    on_registered-Restored n w m _ (admit-Entered q.codec conn m (receive_registration q st))
