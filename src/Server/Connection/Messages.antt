-- ===== src/Server/Connection/Messages.antt =====
-- Reading one message: what a success says of the bytes on the wire.
use next_socks.Prelude.{
  get_or, take, drop, take-append-drop, ℕ, ◌≡◌, sym, ap, ap₂, ◌∙◌, subst, some, List, ◌++◌,
}
use next_socks.Server.Connection.{
  Conn, Verdict, done, more, reject, Outcome, got, failed, greeting_attempt, userpass_attempt,
  request_attempt, read_loop, settle, read_message,
}
use next_socks.Server.Connection.Loop.{received, IsIncremental, Agrees, read_loop-Agrees}
use next_socks.Wire.{IsBytes}
use next_socks.Server.Connection.Attempts.{
  greeting_done, greeting_attempt-IsIncremental, userpass_done, userpass_attempt-IsIncremental,
  request_done, request_attempt-IsIncremental,
}
use next_socks.Protocol.Handshake.{parse_greeting, parse_userpass}
use next_socks.Protocol.Handshake.Greeting.{greeting, parse_greeting-take}
use next_socks.Protocol.Handshake.Userpass.{credentials, parse_userpass-take}
use next_socks.Protocol.Request.{Request, parse_request}
use next_socks.Protocol.Request.Laws.{message, parse_request-take}

abbrev pub with_reads : List (List ℕ) → Conn → Conn
with_reads reads c = record c { stream = record c.stream { reads = reads } }

-- The bytes that arrive on a connection from now on.
abbrev pub incoming : Conn → List ℕ
incoming c = received c.stream.reads

Agrees-got {ℓ} :
    {A : Type ℓ} (v : Verdict A) (all : List ℕ) (o : Outcome A) (reads : List (List ℕ)) (a : A)
    (rest : List ℕ)
    → Agrees v all o reads
    → o ≡ got a rest
    → (n : ℕ) × (v ≡ done a n) × (rest ++ received reads ≡ drop n all)
Agrees-got (done b n) all o reads a rest (r, e, d) h =
    let same : b ≡ a = cc in
    let tail : r ≡ rest = cc in
    (n, ap (λ x. done x n) same, ap (λ t. t ++ received reads) (sym tail) ∙ d)
Agrees-got more all o reads a rest e h = cc
Agrees-got (reject r) all o reads a rest e h = cc

module _ {ℓ} {A : Type ℓ} where
  settle-eq-some :
      (o : Outcome A) (c c' : Conn) (a : A) (rest : List ℕ)
      → settle o c ≡ (some (a, rest), c')
      → (o ≡ got a rest) × (c ≡ c')
  unfolding settle
  settle-eq-some (got b r) c c' a rest h = (cc, cc)
  settle-eq-some (failed r) c c' a rest h = (cc, cc)

  -- A message that was read is what a look at all the incoming bytes finds, and what was left over
  -- together with what is still to come are the bytes behind it.
  pub read_message-eq-some :
      (attempt : List ℕ → Verdict A)
      → IsIncremental attempt
      → (buf : List ℕ) (c c' : Conn) (a : A) (rest : List ℕ) → IsBytes (buf ++ incoming c)
      → read_message attempt buf c ≡ (some (a, rest), c')
      → ((n : ℕ) × (attempt (buf ++ incoming c) ≡ done a n)
          × (rest ++ incoming c' ≡ drop n (buf ++ incoming c)))
        × (c' ≡ with_reads c'.stream.reads c)
  unfolding read_message
  read_message-eq-some attempt inc buf c c' a rest b h =
      let r = read_loop attempt buf c.stream.reads in
      let (o, same) = settle-eq-some r.0 (with_reads r.1 c) c' a rest h in
      let reads : r.1 ≡ c'.stream.reads = ap (λ (d : Conn). d.stream.reads) same in
      let found =
        Agrees-got (attempt (buf ++ incoming c)) (buf ++ incoming c) r.0 r.1 a rest
          (read_loop-Agrees attempt inc buf c.stream.reads b) o in
      (
        subst
            (λ rs.
              (n : ℕ) × (attempt (buf ++ incoming c) ≡ done a n)
              × (rest ++ received rs ≡ drop n (buf ++ incoming c)))
            reads found,
        sym same ∙ ap (λ rs. with_reads rs c) reads,
      )

-- The message found in front of the rest.
in_front :
    (all : List ℕ) (n : ℕ) (message rest : List ℕ)
    → take n all ≡ message
    → rest ≡ drop n all
    → all ≡ message ++ rest
in_front all n message rest t d = sym (take-append-drop n all) ∙ ap₂ ◌++◌ t (sym d)

pub read_greeting :
    (buf : List ℕ) (c c' : Conn) (methods rest : List ℕ)
    → IsBytes (buf ++ incoming c)
    → read_message greeting_attempt buf c ≡ (some (methods, rest), c')
    → (buf ++ incoming c ≡ greeting methods ++ (rest ++ incoming c'))
      × (c' ≡ with_reads c'.stream.reads c)
unfolding greeting_attempt
read_greeting buf c c' methods rest b h =
    let (found, same) =
      read_message-eq-some greeting_attempt greeting_attempt-IsIncremental buf c c' methods rest b
        h in
    let n = found.0 in
    let (p, e) = greeting_done (parse_greeting (buf ++ incoming c)) found.1 in
    let (fits, t) = parse_greeting-take (buf ++ incoming c) methods p in
    (
      in_front (buf ++ incoming c) n (greeting methods) (rest ++ incoming c')
          (ap (λ k. take k (buf ++ incoming c)) e ∙ t) found.2,
      same,
    )

pub read_userpass :
    (buf : List ℕ) (c c' : Conn) (user pass rest : List ℕ)
    → IsBytes (buf ++ incoming c)
    → read_message userpass_attempt buf c ≡ (some ((user, pass), rest), c')
    → (buf ++ incoming c ≡ credentials user pass ++ (rest ++ incoming c'))
      × (c' ≡ with_reads c'.stream.reads c)
unfolding userpass_attempt
read_userpass buf c c' user pass rest b h =
    let all = buf ++ incoming c in
    let (found, same) =
      read_message-eq-some userpass_attempt userpass_attempt-IsIncremental buf c c' (user, pass)
        rest b h in
    let n = found.0 in
    let (p, e) = userpass_done (parse_userpass all) found.1 in
    let (fits, t) = parse_userpass-take all user pass p in
    (
      in_front all n (credentials user pass) (rest ++ incoming c') (ap (λ k. take k all) e ∙ t)
          found.2,
      same,
    )

pub read_request :
    (buf : List ℕ) (c c' : Conn) (r : Request) (rest : List ℕ)
    → IsBytes (buf ++ incoming c)
    → read_message request_attempt buf c ≡ (some (r, rest), c')
    → ((rsv : ℕ) × (buf ++ incoming c ≡ message r rsv ++ (rest ++ incoming c')))
      × (c' ≡ with_reads c'.stream.reads c)
unfolding request_attempt
read_request buf c c' r rest b h =
    let all = buf ++ incoming c in
    let (found, same) =
      read_message-eq-some request_attempt request_attempt-IsIncremental buf c c' r rest b h in
    let n = found.0 in
    let (p, e) = request_done (parse_request all) found.1 in
    let (fits, t, good) = parse_request-take all r b p in
    (
      (
        get_or all 2 0,
        in_front all n (message r (get_or all 2 0)) (rest ++ incoming c')
            (ap (λ k. take k all) e ∙ t) found.2,
      ),
      same,
    )
