-- ===== src/Cloud/QuicServer/Registration.antt =====
-- internal/cloud/quic_server.go: what a registration that succeeds has shown, and what one that fails
-- leaves behind.
use famfun.Prelude.{
  ℕ, String, ◌++◌, ◌≡◌, refl, subst, ◌∙◌, none, some, Result, ok, err, panic, Error, Option-cases,
  inl, inr, arith, err_ne_ok, eq_refl, eq_iff,
}
use famfun.Prelude.Dict.{lookup, insert, lookup-insert, lookup-delete}
use famfun.Protocol.Message.{Bytes, RegisterRequest}
use famfun.Protocol.Stream.{Stream}
use famfun.Protocol.Framing.{Codec, write_message}
use famfun.Cloud.Connection.{HomeConn, new_quic_home_conn}
use famfun.Cloud.HomeManager.{HomeManager, rebuild_sorted, register_home, unregister_home, get_home}
use famfun.Cloud.QuicServer.{
  registered, QuicServer, admit, confirm, enter, receive_registration, perform_registration,
}
use famfun.Cloud.QuicServer.Handshake.{Authentic, Talked, receive_registration-Authentic}

-- What the end of a registration does to the registry.
abbrev Registry : Result HomeConn → HomeManager → HomeManager → Type 0
Registry (ok hc) m m' = (get_home hc.home_id m ≡ none) × (get_home hc.home_id m' ≡ some hc)
Registry (err e) m m' = (other : String) → get_home other m' ≡ get_home other m
Registry panic m m' = Unit

get_home-delete-insert :
    (id other : String) (hc : HomeConn) (m : HomeManager)
    → get_home id m ≡ none
    → get_home other (unregister_home id (record m { homes = insert id hc m.homes }))
      ≡ get_home other m
unfolding get_home unregister_home rebuild_sorted
get_home-delete-insert id other hc m free = ground (
  arith,
  lookup-delete id other (insert id hc m.homes),
  lookup-insert id other hc m.homes,
  eq_iff id other,
)

confirm-Registry :
    (hc : HomeConn) (w : Result (Unit {0}) × Stream) (m : HomeManager)
    → get_home hc.home_id m ≡ none
    → let m₁ : HomeManager = record m { homes = insert hc.home_id hc m.homes } in
      Registry (confirm hc w m₁).0.0 m (confirm hc w m₁).0.1
unfolding confirm get_home
confirm-Registry hc (ok u, st) m free =
    (free, lookup-insert hc.home_id hc.home_id hc m.homes ∙ rw (eq_refl hc.home_id))
confirm-Registry hc (err e, st) m free = λ other. get_home-delete-insert hc.home_id other hc m free
confirm-Registry hc (panic, st) m free = tt

confirm-hc :
    (hc hc' : HomeConn) (w : Result (Unit {0}) × Stream) (m : HomeManager)
    → (confirm hc w m).0.0 ≡ ok hc'
    → hc ≡ hc'
unfolding confirm
confirm-hc hc hc' (ok u, st) m h = cc
confirm-hc hc hc' (err e, st) m h = absurd cc
confirm-hc hc hc' (panic, st) m h = absurd cc

admit-Registry :
    (c : Codec) (conn : ℕ) (m : HomeManager) (p : Result RegisterRequest × Stream)
    → Registry (admit c conn m p).0.0 m (admit c conn m p).0.1
unfolding admit enter get_home register_home new_quic_home_conn
admit-Registry c conn m (ok req, st) =
    let hc = new_quic_home_conn req.home_server_id req.name conn in
    elim (Option-cases (lookup req.home_server_id m.homes)) [
      | inl free ↦
          rw (free, register_home) (confirm-Registry hc (write_message c registered st) m free)
      | inr (old, taken) ↦ rw (taken, register_home) (λ other. refl)
    ]
admit-Registry c conn m (err e, st) = λ other. refl
admit-Registry c conn m (panic, st) = tt

admit-hc :
    (c : Codec) (conn : ℕ) (m : HomeManager) (hc : HomeConn) (p : Result RegisterRequest × Stream)
    → (admit c conn m p).0.0 ≡ ok hc
    → (req : RegisterRequest) × (st : Stream) × (p ≡ (ok req, st))
      × (new_quic_home_conn req.home_server_id req.name conn ≡ hc)
unfolding admit enter register_home
admit-hc c conn m hc (ok req, st) h =
    let hc' = new_quic_home_conn req.home_server_id req.name conn in
    elim (Option-cases (lookup req.home_server_id m.homes)) [
      | inl free ↦ (
        req,
        st,
        refl,
        confirm-hc hc' hc (write_message c registered st) _ (rw (free, register_home) at h),
      )
      | inr (old, taken) ↦ absurd (err_ne_ok (rw (taken, register_home) at h))
    ]
admit-hc c conn m hc (err e, st) h = absurd cc
admit-hc c conn m hc (panic, st) h = absurd cc

-- A registration that succeeds has read a challenge from the home, made and sent one of its own, and
-- then read a request that answers with the first followed by the second, and that the key stored for
-- its identifier has signed; the identifier was free, and is now that of the connection, with the
-- identifier and the name of the request.
pub perform_registration-Authentic :
    (q : QuicServer) (conn : ℕ) (m : HomeManager) (st : Stream) (hc : HomeConn)
    → (perform_registration q conn m st).0.0 ≡ ok hc
    → (get_home hc.home_id m ≡ none)
      × (get_home hc.home_id (perform_registration q conn m st).0.1 ≡ some hc)
      × ((req : RegisterRequest) × (client server : Bytes) × (new_quic_home_conn req.home_server_id
              req.name conn
            ≡ hc)
          × Talked q st client server req
          × Authentic q req (client ++ server))
unfolding perform_registration
perform_registration-Authentic q conn m st hc h =
    let (req, st', p, same) = admit-hc q.codec conn m hc (receive_registration q st) h in
    let (client, server, talked, a) = receive_registration-Authentic q st st' req p in
    let (free, now) =
      subst (λ r. Registry r m (perform_registration q conn m st).0.1) h
        (admit-Registry q.codec conn m (receive_registration q st)) in
    (free, now, (req, client, server, same, talked, a))

-- A registration that fails, for whatever reason and at whatever step, leaves every connection of the
-- registry as it was.
perform_registration-err :
    (q : QuicServer) (conn : ℕ) (m : HomeManager) (st : Stream) (e : Error) (other : String)
    → (perform_registration q conn m st).0.0 ≡ err e
    → get_home other (perform_registration q conn m st).0.1 ≡ get_home other m
unfolding perform_registration
perform_registration-err q conn m st e other h =
    subst (λ r. Registry r m (perform_registration q conn m st).0.1) h
      (admit-Registry q.codec conn m (receive_registration q st)) other
