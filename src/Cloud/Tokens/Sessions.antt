-- ===== src/Cloud/Tokens/Sessions.antt =====
-- internal/cloud/auth.go: how long a session lasts.
use famfun.Prelude.{
  ℕ, ◌+◌, ◌<◌, ◌≤◌, ◌≡◌, refl, ap, ◌∙◌, String, List, [], ◌∷◌, Option, none, some, ok, ltb, arith,
  Bool-cases, inl, inr, if◌then◌else◌,
}
use famfun.Protocol.Message.{Bytes}
use famfun.Cloud.Users.{User}
use famfun.Cloud.Tokens.{
  Jwt, IsJwt, Dated, Signs, Session, Cookie, Auth, session_for, expiry_of, claims_of, create_token,
  validate_token, auth_middleware, renewal, user_of, set_auth_cookie, minute, second, token_expiry,
}

-- What a browser holds after a response: the new cookie, if there is one.
abbrev pub held : String → Auth → String
held token (Auth.passed s (some c)) = c.value
held token (Auth.passed s none) = token
held token (Auth.refused m) = token
held token Auth.crashed = token

-- What the middleware decides on the requests of one browser, at the given times.
unfoldable pub visits : Jwt → Bytes → String → List ℕ → List Auth
visits j key token [] = []
visits j key token (t ∷ ts) =
    let a = auth_middleware j key t (some token) in a ∷ visits j key (held token a) ts

-- Each time is less than a minute after the one before.
abbrev pub Steady : ℕ → List ℕ → Type 0
Steady last [] = Unit
Steady last (t ∷ ts) = (last ≤ t) × (t < last + minute) × Steady t ts

abbrev pub AllPass : Session → List Auth → Type 0
AllPass s [] = Unit
AllPass s (a ∷ rest) = ((c : Option Cookie) × (a ≡ Auth.passed s c)) × AllPass s rest

module _ (j : Jwt) (law : IsJwt j) (key : Bytes) where
  claims_of-Dated : (made : ℕ) (user : User) → Dated j (claims_of j made user) (expiry_of j made)
  unfolding claims_of
  claims_of-Dated made user = (refl, law.date_twice _, law.date_twice _)

  pub fresh_token :
      (made : ℕ) (user : User) (token : String) (now : ℕ)
      → create_token j key made user ≡ ok token
      → now < expiry_of j made
      → auth_middleware j key now (some token)
        ≡ Auth.passed
            (session_for user)
            (renewal j key now (claims_of j made user) (expiry_of j made))
  unfolding create_token auth_middleware validate_token claims_of
  fresh_token made user token now signed early =
      rw
        (law.accepts key (claims_of j made user) token (expiry_of j made) now signed
          (claims_of-Dated made user) early)
        refl

  -- A token that was made for an account lets every request pass as that account until it ends, and
  -- from then on none; it ends at most a second earlier than 30 minutes after it was made.
  pub create_token-auth_middleware :
      (made : ℕ) (user : User) (token : String) (now : ℕ)
      → create_token j key made user ≡ ok token
      → (auth_middleware j key now (some token) ≡ (
          if ltb now (expiry_of j made)
          then Auth.passed
              (session_for user)
              (renewal j key now (claims_of j made user) (expiry_of j made))
          else Auth.refused "invalid or expired token"))
        × (expiry_of j made ≤ made + token_expiry)
        × (made + token_expiry < expiry_of j made + second)
  unfolding create_token auth_middleware validate_token
  create_token-auth_middleware made user token now signed = (
    elim (Bool-cases (ltb now (expiry_of j made))) [
      | inl early ↦ rw early (fresh_token made user token now signed (ground arith))
      | inr late ↦
          let (e, r) =
            law.refuses key (claims_of j made user) token (expiry_of j made) now signed
              (claims_of-Dated made user) (ground arith) in
          rw late (rw r refl)
    ],
    law.date_le (made + token_expiry),
    law.date_near (made + token_expiry),
  )

  -- A token that will be good for another minute after a time.
  abbrev Lasting : Session → ℕ → String → Type 0
  Lasting s last token =
      (made : ℕ) × (user : User) × Signs j key user
      × (create_token j key made user ≡ ok token)
      × (session_for user ≡ s)
      × (last + minute ≤ expiry_of j made)

  -- After a visit at such a time the browser holds a token that lasts from that visit on.
  held-Lasting :
      (s : Session) (last t : ℕ) (token : String)
      → Lasting s last token
      → t < last + minute
      → ((c : Option Cookie) × (auth_middleware j key t (some token) ≡ Auth.passed s c))
        × Lasting s t (held token (auth_middleware j key t (some token)))
  unfolding renewal create_token set_auth_cookie claims_of
  held-Lasting s last t token (made, user, signs, signed, same, long) near =
      let pass = fresh_token made user token t signed (omega (arith, near, long)) in
      let claims = claims_of j made user in
      elim (Bool-cases (ltb (expiry_of j made) (t + minute))) [
        | inl soon ↦
            let (token', signed') = signs t in
            let e : auth_middleware j key t (some token)
                ≡ Auth.passed s (some (set_auth_cookie token')) =
              pass
              ∙ rw (soon, renewal)
                  (rw signed' (ap (λ z. Auth.passed z (some (set_auth_cookie token'))) same)) in
            rw e (
              (_, refl),
              (
                t,
                user_of claims,
                signs,
                signed',
                same,
                omega (arith, law.date_near (t + token_expiry)),
              ),
            )
        | inr later ↦
            let e : auth_middleware j key t (some token) ≡ Auth.passed s none =
              pass ∙ rw (later, renewal) (ap (λ z. Auth.passed z none) same) in
            rw e ((_, refl), (made, user, signs, signed, same, ground arith))
      ]

  Lasting-AllPass :
      (s : Session) (last : ℕ) (token : String) (times : List ℕ)
      → Lasting s last token
      → Steady last times
      → AllPass s (visits j key token times)
  unfolding visits
  Lasting-AllPass s last token [] lasting steady = tt
  Lasting-AllPass s last token (t ∷ ts) lasting (after, near, steady) =
      let (pass, lasting') = held-Lasting s last t token lasting near in
      (pass, Lasting-AllPass s t _ ts lasting' steady)

  -- A user whose requests come less than a minute apart is never logged out: as long as the first
  -- comes within a minute of the login, each of them passes as the account that logged in.
  pub visits-AllPass :
      (login : ℕ) (user : User) (token : String) (times : List ℕ)
      → Signs j key user
      → create_token j key login user ≡ ok token
      → Steady login times
      → AllPass (session_for user) (visits j key token times)
  visits-AllPass login user token times signs signed steady =
      Lasting-AllPass (session_for user) login token times
        (login, user, signs, signed, refl, omega (arith, law.date_near (login + token_expiry)))
        steady
