-- ===== src/Cloud/QuicServer/Control/Ending.antt =====
-- internal/cloud/quic_server.go: the rounds of the control loop.
use famfun.Prelude.{
  ℕ, zero, suc, ◌+◌, ◌-◌, ◌≤◌, ◌<◌, ◌≡◌, ◌≢◌, refl, sym, ap, ap₂, subst, String, ◌%◌, ◌^◌, ◌∙◌,
  List, [], ◌∷◌, Option, none, some, Result, ok, err, panic, length, drop, arith,
}
use famfun.Prelude.Exec.{Exec, next, next-ok, wrapped-ok, wrapped}
use famfun.Protocol.Message.{Bytes, Envelope}
use famfun.Protocol.Stream.{Stream, Fate, write_fate, read_full, write}
use famfun.Protocol.Framing.{
  put_uint32, validate_message_size, Codec, read_message, read_header, read_payload, write_message,
  write_header,
}
use famfun.Cloud.Connection.{HomeConn}
use famfun.Cloud.DataRequest.{Wire}
use famfun.Cloud.HomeManager.{HomeManager}
use famfun.Cloud.QuicServer.{dispatch_control_message}
use famfun.Cloud.QuicServer.Control.{End, control_loop, on_message, on_dispatched, after_answer}

length-drop : (n : ℕ) (b : Bytes) → length (drop n b) ≡ length b - n
length-drop zero b = omega arith
length-drop (suc n) [] = omega arith
length-drop (suc n) (x ∷ b) = omega (arith, length-drop n b)

-- What an action leaves of the other side of a stream.
abbrev Kept : Stream → Stream → Type 0
Kept st st' = (st'.peer ≡ st.peer) × (st'.written ≡ st.written)

read_full-ok :
    (n : ℕ) (st st' : Stream) (b : Bytes)
    → read_full n st ≡ (ok b, st')
    → Kept st st'
      × (st'.consumed ≡ st.consumed + n)
      × (n ≤ length (st.peer st.written) - st.consumed)
unfolding read_full
read_full-ok n st st' b h = ground (arith, length-drop st.consumed (st.peer st.written))

read_header-ok :
    (st st' : Stream) (n : ℕ)
    → read_header st ≡ (ok n, st')
    → Kept st st'
      × (st'.consumed ≡ st.consumed + 4)
      × (st.consumed + 4 ≤ length (st.peer st.written))
unfolding read_header
read_header-ok st st' n h =
    let (b, s₁, got, rest) = next-ok (read_full 4 st) _ n st' h in
    let (kept, moved, room) = read_full-ok 4 st s₁ b got in
    let same : s₁ ≡ st' = ap (λ p. p.1) rest in
    subst
      (λ z.
        Kept st z
        × (z.consumed ≡ st.consumed + 4)
        × (st.consumed + 4 ≤ length (st.peer st.written)))
      same (kept, moved, omega (arith, room))

write-Kept :
    (b : Bytes) (st : Stream)
    → ((write b st).1.peer ≡ st.peer) × ((write b st).1.consumed ≡ st.consumed)
unfolding write write_fate
write-Kept b st = go st.fates
  where
    go :
        (fs : List Fate)
        → ((write_fate b st fs).1.peer ≡ st.peer) × ((write_fate b st fs).1.consumed ≡ st.consumed)
    go [] = (refl, refl)
    go (Fate.accepts ∷ fs) = (refl, refl)
    go (Fate.fails_after n ∷ fs) = (refl, refl)

-- The other side, and how far it was read.
abbrev Unread : Stream → Stream → Type 0
Unread st st' = (st'.peer ≡ st.peer) × (st'.consumed ≡ st.consumed)

next-Unread :
    {A B : Type 0} (st : Stream) (p : Result A × Stream) (f : A → Exec Stream B)
    → Unread st p.1
    → ((a : A) (s : Stream) → Unread st s → Unread st (f a s).1)
    → Unread st (next p f).1
next-Unread st (ok a, s) f u k = k a s u
next-Unread st (err e, s) f u k = u
next-Unread st (panic, s) f u k = u

wrapped-Unread :
    {A : Type 0} (st : Stream) (c : String) (p : Result A × Stream)
    → Unread st p.1
    → Unread st (wrapped c p).1
wrapped-Unread st c (ok a, s) u = u
wrapped-Unread st c (err e, s) u = u
wrapped-Unread st c (panic, s) u = u

then_write :
    (st s : Stream) (c : String) (b : Bytes) → Unread st s → Unread st (wrapped c (write b s)).1
then_write st s c b (p, n) =
    let (p', n') = write-Kept b s in wrapped-Unread st c (write b s) (p' ∙ p, n' ∙ n)

write_message-Unread : (c : Codec) (e : Envelope) (st : Stream) → Unread st (write_message c e st).1
unfolding write_message write_header
write_message-Unread c e st =
    next-Unread st (wrapped "marshal envelope" (c.marshal e, st)) _
      (wrapped-Unread st "marshal envelope" (c.marshal e, st) (refl, refl))
      (λ b s u.
        next-Unread st (wrapped "write header" (write (put_uint32 (length b % 2 ^ 32)) s)) _
          (then_write st s "write header" (put_uint32 (length b % 2 ^ 32)) u)
          (λ _ s' u'. then_write st s' "write payload" b u'))

read_message-ok :
    (c : Codec) (st st' : Stream) (e : Envelope)
    → read_message c st ≡ (ok e, st')
    → (st'.peer ≡ st.peer)
      × (st.consumed + 4 ≤ st'.consumed)
      × (st'.consumed ≤ length (st.peer st.written))
unfolding read_message read_payload
read_message-ok c st st' e h =
    let (n, s₁, hdr, h₁) = next-ok (wrapped "read header" (read_header st)) _ e st' h in
    let (kept₁, moved₁, room₁) =
      read_header-ok st s₁ n (wrapped-ok "read header" (read_header st) n s₁ hdr) in
    let (_, s₂, valid, h₂) = next-ok (validate_message_size n, s₁) _ e st' h₁ in
    let (b, s₃, body, h₃) = next-ok (wrapped "read payload" (read_full n s₂)) _ e st' h₂ in
    let (kept₃, moved₃, room₃) =
      read_full-ok n s₂ s₃ b (wrapped-ok "read payload" (read_full n s₂) b s₃ body) in
    let same₂ : s₁ ≡ s₂ = ap (λ p. p.1) valid in
    let same₃ : s₃ ≡ st' = ap (λ p. p.1) h₃ in
    let size : length (s₂.peer s₂.written) ≡ length (st.peer st.written) =
      ap (λ z. length (z.peer z.written)) (sym same₂) ∙ ap₂ (λ p w. length (p w)) kept₁.0 kept₁.1 in
    let at₂ : s₂.consumed ≡ s₁.consumed = ap (λ z. z.consumed) (sym same₂) in
    let at' : st'.consumed ≡ s₃.consumed = ap (λ z. z.consumed) (sym same₃) in
    (
      ap (λ z. z.peer) (sym same₃) ∙ kept₃.0 ∙ ap (λ z. z.peer) (sym same₂) ∙ kept₁.0,
      omega (arith, at₂, at', moved₁, moved₃),
      omega (arith, at₂, at', moved₁, moved₃, room₁, room₃, size),
    )

on_dispatched-ends :
    (c : Codec) (st : Stream) (loop : HomeManager → Stream → End)
    (d : Option (HomeManager × Option Envelope))
    → ((m : HomeManager) (answer : Option Envelope)
        → loop m (after_answer c answer st) ≢ End.still_open)
    → on_dispatched c st loop d ≢ End.still_open
on_dispatched-ends c st loop none k = λ e. cc
on_dispatched-ends c st loop (some (m, answer)) k = k m answer

on_message-ends :
    (w : Wire) (hc : HomeConn) (m : HomeManager) (loop : HomeManager → Stream → End)
    (r : Result Envelope × Stream)
    → ((env : Envelope) (st : Stream) (m' : HomeManager) (answer : Option Envelope)
        → r ≡ (ok env, st)
        → loop m' (after_answer w.codec answer st) ≢ End.still_open)
    → on_message w hc m loop r ≢ End.still_open
on_message-ends w hc m loop (err e, st) k = λ e. cc
on_message-ends w hc m loop (panic, st) k = λ e. cc
on_message-ends w hc m loop (ok env, st) k =
    on_dispatched-ends w.codec st loop (dispatch_control_message w hc env m)
      (λ m' answer. k env st m' answer refl)

after_answer-Unread :
    (c : Codec) (answer : Option Envelope) (st : Stream) → Unread st (after_answer c answer st)
after_answer-Unread c none st = (refl, refl)
after_answer-Unread c (some e) st = write_message-Unread c e st

rounds-end :
    (bound n : ℕ) (w : Wire) (hc : HomeConn) (m : HomeManager) (st : Stream)
    → ((written : Bytes) → length (st.peer written) ≤ bound)
    → bound < n + st.consumed
    → 1 ≤ n
    → control_loop n w hc m st ≢ End.still_open
unfolding control_loop
rounds-end bound zero w hc m st few room some_fuel = absurd (omega (arith, some_fuel))
rounds-end bound (suc n) w hc m st few room some_fuel =
    on_message-ends w hc m (control_loop n w hc) (read_message w.codec st) (λ env s m' answer got.
      let (peer, more, most) = read_message-ok w.codec st s env got in
      let (peer', same) = after_answer-Unread w.codec answer s in
      rounds-end bound n w hc m' (after_answer w.codec answer s)
        (λ b. subst (λ p. length (p b) ≤ bound) (sym (peer' ∙ peer)) (few b))
        (omega (arith, room, more, same)) (omega (arith, room, more, most, few st.written)))

-- Where the other side closes the stream after at most some number of bytes, as the streams of the model
-- do, one round more than that number is enough fuel.
control_loop-ends :
    (bound : ℕ) (w : Wire) (hc : HomeConn) (m : HomeManager) (st : Stream)
    → ((written : Bytes) → length (st.peer written) ≤ bound)
    → control_loop (suc bound) w hc m st ≢ End.still_open
control_loop-ends bound w hc m st few =
    rounds-end bound (suc bound) w hc m st few (omega arith) (omega arith)
