-- ===== src/Server/Connection/Reading.antt =====
-- What the server reads of a message that the client sent whole, and what it answers.
use next_socks.Server.Connection.{
  Conn, Verdict, done, greeting_verdict, greeting_attempt, userpass_verdict, userpass_attempt,
  request_verdict, request_attempt, read_loop, write_all, emit, Handler, resume, ◌>>=◌, settle,
  read_message, send, tell, requires_userpass, answer_credentials, answer_greeting,
}
use next_socks.Prelude.{
  ◌==◌, length, drop, length-append, drop-append_of_length, ℕ, ◌+◌, ◌≡◌, refl, ap, ◌∙◌, subst, Bool,
  true, false, some, List, [], ◌∷◌, ◌++◌, arith,
}
use next_socks.Wire.{IsBytes, is_utf8}
use next_socks.Config.{Config}
use next_socks.Metrics.{auth}
use next_socks.Auth.{verify_credentials}
use next_socks.Protocol.Address.{encode, IsAddress}
use next_socks.Protocol.Handshake.{
  method_none_acceptable, select_method, method_reply, userpass_reply,
}
use next_socks.Protocol.Handshake.Greeting.{greeting, parse_greeting-greeting}
use next_socks.Protocol.Handshake.Userpass.{credentials, parse_userpass-credentials}
use next_socks.Protocol.Request.{Request}
use next_socks.Protocol.Request.Laws.{message, parse_request-message}
use next_socks.Server.Connection.Loop.{received, IsIncremental, Agrees, read_loop-Agrees}
use next_socks.Server.Connection.Attempts.{
  greeting_attempt-IsIncremental, userpass_attempt-IsIncremental, request_attempt-IsIncremental,
}
use next_socks.Server.Connection.Messages.{with_reads, incoming}

pub bind-some {ℓ κ} :
    {A : Type ℓ} {B : Type κ} (m : Handler A) (f : A → Handler B) (c d : Conn) (a : A)
    → m c ≡ (some a, d)
    → (m >>= f) c ≡ f a d
bind-some m f c d a e = ap (λ x. resume x.0 f x.1) e

-- The message is read, with what is behind it left in the buffer or still to come.
abbrev pub Reads {ℓ} : {A : Type ℓ} → (List ℕ → Verdict A) → List ℕ → Conn → A → List ℕ → Type ℓ
Reads attempt buf c a behind =
    (rest : List ℕ) × (reads : List (List ℕ)) × (read_message attempt buf c
      ≡ (some (a, rest), with_reads reads c))
    × (rest ++ received reads ≡ behind)

module _ {ℓ} {A : Type ℓ} where
  pub Agrees-Reads :
      (attempt : List ℕ → Verdict A) (buf all : List ℕ) (c : Conn) (a : A) (n : ℕ)
      → let r = read_loop attempt buf c.stream.reads in
        Agrees (done a n) all r.0 r.1 → Reads attempt buf c a (drop n all)
  unfolding read_message settle
  Agrees-Reads attempt buf all c a n (rest, o, behind) =
      let r = read_loop attempt buf c.stream.reads in
      (rest, r.1, ap (λ x. settle x (with_reads r.1 c)) o, behind)

  -- Where the attempt succeeds on all that arrives, the message is read.
  pub read_message-Reads :
      (attempt : List ℕ → Verdict A)
      → IsIncremental attempt
      → (buf : List ℕ) (c : Conn) (a : A) (n : ℕ) (front behind : List ℕ)
      → IsBytes (buf ++ incoming c)
      → buf ++ incoming c ≡ front ++ behind
      → length front ≡ n
      → attempt (front ++ behind) ≡ done a n
      → Reads attempt buf c a behind
  read_message-Reads attempt inc buf c a n front behind b split size e =
      let all = buf ++ incoming c in
      let r = read_loop attempt buf c.stream.reads in
      let verdict : attempt all ≡ done a n = ap attempt split ∙ e in
      subst (Reads attempt buf c a) (ap (drop n) split ∙ drop-append_of_length n front behind size)
        (Agrees-Reads attempt buf all c a n (
          subst (λ v. Agrees v all r.0 r.1) verdict
            (read_loop-Agrees attempt inc buf c.stream.reads b)))

pub greeting-Reads :
    (c : Conn) (methods behind : List ℕ)
    → IsBytes (incoming c)
    → incoming c ≡ greeting methods ++ behind
    → Reads greeting_attempt [] c methods behind
unfolding greeting_attempt greeting_verdict
greeting-Reads c methods behind b split =
    read_message-Reads greeting_attempt greeting_attempt-IsIncremental [] c methods
      (2 + length methods) (greeting methods) behind b split (omega arith)
      (ap greeting_verdict (parse_greeting-greeting methods behind))

pub userpass-Reads :
    (buf : List ℕ) (c : Conn) (user pass behind : List ℕ)
    → IsBytes (buf ++ incoming c)
    → buf ++ incoming c ≡ credentials user pass ++ behind
    → is_utf8 user ≡ true
    → is_utf8 pass ≡ true
    → Reads userpass_attempt buf c (user, pass) behind
unfolding userpass_attempt userpass_verdict
userpass-Reads buf c user pass behind b split u p =
    read_message-Reads userpass_attempt userpass_attempt-IsIncremental buf c (user, pass)
      (2 + length user + 1 + length pass) (credentials user pass) behind b split
      (omega (arith, length-append user (length pass ∷ pass)))
      (ap userpass_verdict (parse_userpass-credentials user pass behind u p))

pub request-Reads :
    (buf : List ℕ) (c : Conn) (r : Request) (rsv : ℕ) (behind : List ℕ)
    → IsBytes (buf ++ incoming c)
    → buf ++ incoming c ≡ message r rsv ++ behind
    → IsAddress r.address
    → Reads request_attempt buf c r behind
unfolding request_attempt request_verdict
request-Reads buf c r rsv behind b split good =
    read_message-Reads request_attempt request_attempt-IsIncremental buf c r
      (3 + length (encode r.address [])) (message r rsv) behind b split (omega arith)
      (ap request_verdict (parse_request-message r rsv behind good))

-- The client's connection after a write that succeeded.
abbrev pub wrote : List ℕ → List Bool → Conn → Conn
wrote bytes later c = record c {
  stream = record c.stream { writes = later; sent = c.stream.sent ++ bytes };
}

pub answer_greeting-some :
    (cfg : Config) (offered : List ℕ) (c : Conn) (wanted : ℕ) (later : List Bool)
    → select_method offered (requires_userpass cfg) ≡ wanted
    → (wanted == method_none_acceptable) ≡ false
    → c.stream.writes ≡ true ∷ later
    → answer_greeting cfg offered c ≡ (some wanted, wrote (method_reply wanted) later c)
unfolding answer_greeting send write_all
answer_greeting-some cfg offered c wanted later e f w = rw (e, w) (rw f refl)

pub answer_credentials-some :
    (cfg : Config) (user pass rest : List ℕ) (c : Conn) (later : List Bool)
    → verify_credentials cfg.auth.users user pass ≡ true
    → c.stream.writes ≡ true ∷ later
    → answer_credentials cfg ((user, pass), rest) c
      ≡ (some rest, wrote (userpass_reply true) later (emit (auth true user) c))
unfolding answer_credentials send tell write_all emit
answer_credentials-some cfg user pass rest c later e w = rw (e, w) refl
