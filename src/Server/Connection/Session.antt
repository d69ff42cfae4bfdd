-- ===== src/Server/Connection/Session.antt =====
-- What a client must have sent, and what it was told, before a request of its is served.

use next_socks.Server.Connection.{
  Conn, greeting_attempt, userpass_attempt, request_attempt, write_all, emit, Handler, resume,
  ◌>>=◌, read_message, send, tell, requires_userpass, answer_credentials, authenticate,
  answer_greeting, after_greeting, negotiate,
}
use next_socks.Server.Connection.Loop.{received}
use next_socks.Protocol.Handshake.Greeting.{greeting, contains→Mem}
use next_socks.Protocol.Request.{Request}
use next_socks.Protocol.Request.Laws.{message}
use next_socks.Prelude.{
  if◌then◌else◌, Bool-cases, length, drop-length_append, All-drop, ℕ, ◌≡◌, refl, sym, ap, ap₂, ◌∙◌,
  subst, ◌≢◌, inl, inr, Bool, true, false, Option, none, some, List, [], ◌++◌, Mem, arith,
}
use next_socks.Wire.{IsByte, IsBytes, Str}
use next_socks.Config.{none_required, password_required, Config}
use next_socks.Protocol.Handshake.{
  method_no_auth, method_userpass, method_none_acceptable, contains, select_method, method_reply,
  userpass_reply,
}
use next_socks.Auth.{verify_credentials}
use next_socks.Server.Connection.Messages.{incoming, read_greeting, read_userpass, read_request}
use next_socks.Protocol.Handshake.Userpass.{credentials}
use next_socks.Auth.Laws.{verify_credentials_iff}

module _ {ℓ κ} {A : Type ℓ} {B : Type κ} where
  resume-eq-some :
      (o : Option A) (f : A → Handler B) (c c' : Conn) (b : B)
      → resume o f c ≡ (some b, c')
      → (a : A) × (o ≡ some a) × (f a c ≡ (some b, c'))
  resume-eq-some none f c c' b h = cc
  resume-eq-some (some a) f c c' b h = (a, refl, h)

  bind-eq-some :
      (m : Handler A) (f : A → Handler B) (c c' : Conn) (b : B)
      → (m >>= f) c ≡ (some b, c')
      → (a : A) × (d : Conn) × (m c ≡ (some a, d)) × (f a d ≡ (some b, c'))
  bind-eq-some m f c c' b h =
      let (a, e, k) = resume-eq-some (m c).0 f (m c).1 c' b h in
      (a, (m c).1, ap (λ o. (o, (m c).1)) e, k)

pub IsBytes-right : (all xs ys : List ℕ) → IsBytes all → all ≡ xs ++ ys → IsBytes ys
IsBytes-right all xs ys b e =
    subst IsBytes (drop-length_append xs ys)
      (All-drop IsByte (length xs) (xs ++ ys) (subst IsBytes e b))

answer_credentials-eq-some :
    (cfg : Config) (m : (Str × Str) × List ℕ) (c d : Conn) (buf : List ℕ)
    → answer_credentials cfg m c ≡ (some buf, d)
    → (verify_credentials cfg.auth.users m.0.0 m.0.1 ≡ true)
      × (buf ≡ m.1)
      × (d.stream.reads ≡ c.stream.reads)
      × (d.stream.sent ≡ c.stream.sent ++ userpass_reply true)
unfolding answer_credentials send tell write_all emit
answer_credentials-eq-some cfg m c d buf h = ground arith

answer_greeting-eq-some :
    (cfg : Config) (offered : List ℕ) (c d : Conn) (chosen : ℕ)
    → answer_greeting cfg offered c ≡ (some chosen, d)
    → (chosen ≡ select_method offered (requires_userpass cfg))
      × (chosen ≢ method_none_acceptable)
      × (d.stream.reads ≡ c.stream.reads)
      × (d.stream.sent ≡ c.stream.sent ++ method_reply chosen)
unfolding answer_greeting send write_all
answer_greeting-eq-some cfg offered c d chosen h = ground arith

-- What reading the credentials and answering them establishes, where the connection goes on.
abbrev Passed : Config → List ℕ → Conn → List ℕ → Conn → Type 0
Passed cfg buf c buf' d =
    (user : Str) × (pass : Str) × (buf ++ incoming c
      ≡ credentials user pass ++ (buf' ++ incoming d))
    × Mem (record { username = user; password = pass }) cfg.auth.users
    × (d.stream.sent ≡ c.stream.sent ++ userpass_reply true)

authenticate_userpass :
    (cfg : Config) (buf : List ℕ) (c d : Conn) (buf' : List ℕ)
    → IsBytes (buf ++ incoming c)
    → authenticate cfg method_userpass buf c ≡ (some buf', d)
    → Passed cfg buf c buf' d
unfolding authenticate
authenticate_userpass cfg buf c d buf' b h =
    let (m, c1, e1, h1) =
      bind-eq-some (read_message userpass_attempt buf) (answer_credentials cfg) c d buf' h in
    let (wire, frame) = read_userpass buf c c1 m.0.0 m.0.1 m.1 b e1 in
    let (good, left, reads, sent) = answer_credentials-eq-some cfg m c1 d buf' h1 in
    (
      m.0.0,
      m.0.1,
      wire
          ∙ ap (λ t. credentials m.0.0 m.0.1 ++ t)
              (ap₂ (λ x rs. x ++ received rs) (sym left) (sym reads)),
      (verify_credentials_iff cfg.auth.users m.0.0 m.0.1).0 good,
      sent ∙ ap (λ (x : Conn). x.stream.sent ++ userpass_reply true) frame,
    )

-- The greeting's part: the choice that was made, and what is left to read.
abbrev Greeted : Config → Conn → List ℕ → List ℕ → ℕ → Conn → Type 0
Greeted cfg c methods rest chosen d =
    (incoming c ≡ greeting methods ++ (rest ++ incoming d))
    × (chosen ≡ select_method methods (requires_userpass cfg))
    × (chosen ≢ method_none_acceptable)
    × (d.stream.sent ≡ c.stream.sent ++ method_reply chosen)

negotiate-greeting :
    (cfg : Config) (c c' : Conn) (r : Request) (tail : List ℕ)
    → IsBytes (incoming c)
    → negotiate cfg c ≡ (some (r, tail), c')
    → (methods : List ℕ) × (rest : List ℕ) × (chosen : ℕ) × (d : Conn) × Greeted cfg c methods rest
        chosen d
      × ((authenticate cfg chosen rest >>= read_message request_attempt) d ≡ (some (r, tail), c'))
unfolding negotiate after_greeting
negotiate-greeting cfg c c' r tail b h =
    let (m, c1, e1, h1) =
      bind-eq-some (read_message greeting_attempt []) (after_greeting cfg) c c' (r, tail) h in
    let (chosen, c2, e2, h2) =
      bind-eq-some (answer_greeting cfg m.0)
        (λ chosen. authenticate cfg chosen m.1 >>= read_message request_attempt) c1 c' (r, tail)
        h1 in
    let (wire, frame) = read_greeting [] c c1 m.0 m.1 b e1 in
    let (choice, acceptable, reads, sent) = answer_greeting-eq-some cfg m.0 c1 c2 chosen e2 in
    (
      m.0,
      m.1,
      chosen,
      c2,
      (
        wire ∙ ap (λ rs. greeting m.0 ++ (m.1 ++ received rs)) (sym reads),
        choice,
        acceptable,
        sent ∙ ap (λ (x : Conn). x.stream.sent ++ method_reply chosen) frame,
      ),
      h2,
    )

-- The method chosen is the one that the configuration wants, and the client offered it.
chosen-wanted :
    (offered : List ℕ) (required : Bool) (chosen : ℕ)
    → chosen ≡ select_method offered required
    → chosen ≢ method_none_acceptable
    → let wanted = if required then method_userpass else method_no_auth in
      (chosen ≡ wanted) × Mem wanted offered
unfolding select_method
chosen-wanted offered required chosen e h =
    let wanted = if required then method_userpass else method_no_auth in
    elim (Bool-cases (contains offered wanted)) [
      | inl found ↦ (
        e ∙ ap (λ b. if b then wanted else method_none_acceptable) found,
        contains→Mem offered wanted found,
      )
      | inr missing ↦
          absurd (h (e ∙ ap (λ b. if b then wanted else method_none_acceptable) missing))
    ]

-- Where a password is required, a request is served only on a connection whose bytes are a greeting
-- that offers the username and password method, the credentials of a configured user and that
-- request, in this order and with nothing between them, followed by the bytes handed on and those
-- still to come; and the client was told exactly the method and that its credentials were accepted.
-- This holds however the bytes were cut into chunks.
pub negotiate-authenticated :
    (cfg : Config) (c c' : Conn) (r : Request) (tail : List ℕ)
    → cfg.auth.method ≡ password_required
    → IsBytes (incoming c)
    → negotiate cfg c ≡ (some (r, tail), c')
    → (methods : List ℕ) × (user : Str) × (pass : Str) × (rsv : ℕ) × Mem method_userpass methods
      × Mem (record { username = user; password = pass }) cfg.auth.users
      × (incoming c
          ≡ greeting methods ++ (credentials user pass ++ (message r rsv ++ (tail ++ incoming c'))))
      × (c'.stream.sent ≡ (c.stream.sent ++ method_reply method_userpass) ++ userpass_reply true)
unfolding requires_userpass
negotiate-authenticated cfg c c' r tail p b h =
    let (methods, rest, chosen, d, greeted, h1) = negotiate-greeting cfg c c' r tail b h in
    let (wire, choice, acceptable, sent) = greeted in
    let required : requires_userpass cfg ≡ true = rw p refl in
    let wanted =
      chosen-wanted methods true chosen (choice ∙ ap (select_method methods) required) acceptable in
    let (m, d1, e2, h2) =
      bind-eq-some (authenticate cfg chosen rest) (read_message request_attempt) d c' (r, tail)
        h1 in
    let b1 = IsBytes-right (incoming c) (greeting methods) (rest ++ incoming d) b wire in
    let (user, pass, wire2, known, sent2) =
      authenticate_userpass cfg rest d d1 m b1
        (subst (λ k. authenticate cfg k rest d ≡ (some m, d1)) wanted.0 e2) in
    let b2 =
      IsBytes-right (rest ++ incoming d) (credentials user pass) (m ++ incoming d1) b1 wire2 in
    let (wire3, frame) = read_request m d1 c' r tail b2 h2 in
    (
      methods,
      user,
      pass,
      wire3.0,
      wanted.1,
      known,
      wire ∙ ap (λ t. greeting methods ++ t) (wire2 ∙ ap (λ t. credentials user pass ++ t) wire3.1),
      ap (λ (x : Conn). x.stream.sent) frame
          ∙ sent2
          ∙ ap (λ t. t ++ userpass_reply true)
              (sent ∙ ap (λ k. c.stream.sent ++ method_reply k) wanted.0),
    )

-- Where no password is required, the bytes are a greeting that offers the method without
-- authentication and the request, and the client was told exactly that method.
pub negotiate-open :
    (cfg : Config) (c c' : Conn) (r : Request) (tail : List ℕ)
    → cfg.auth.method ≡ none_required
    → IsBytes (incoming c)
    → negotiate cfg c ≡ (some (r, tail), c')
    → (methods : List ℕ) × (rsv : ℕ) × Mem method_no_auth methods
      × (incoming c ≡ greeting methods ++ (message r rsv ++ (tail ++ incoming c')))
      × (c'.stream.sent ≡ c.stream.sent ++ method_reply method_no_auth)
unfolding requires_userpass authenticate
negotiate-open cfg c c' r tail p b h =
    let (methods, rest, chosen, d, greeted, h1) = negotiate-greeting cfg c c' r tail b h in
    let (wire, choice, acceptable, sent) = greeted in
    let required : requires_userpass cfg ≡ false = rw p refl in
    let wanted =
      chosen-wanted methods false chosen (choice ∙ ap (select_method methods) required)
        acceptable in
    let h2 =
      subst
        (λ k. (authenticate cfg k rest >>= read_message request_attempt) d ≡ (some (r, tail), c'))
        wanted.0 h1 in
    let b1 = IsBytes-right (incoming c) (greeting methods) (rest ++ incoming d) b wire in
    let (wire3, frame) = read_request rest d c' r tail b1 h2 in
    (
      methods,
      wire3.0,
      wanted.1,
      wire ∙ ap (λ t. greeting methods ++ t) wire3.1,
      ap (λ (x : Conn). x.stream.sent) frame
          ∙ sent
          ∙ ap (λ k. c.stream.sent ++ method_reply k) wanted.0,
    )
