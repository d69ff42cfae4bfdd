-- ===== src/Protocol/Handshake/Userpass.antt =====
-- The username/password message as a parser of a buffer that is still being filled.
use next_socks.Prelude.{
  leb, if◌then◌else◌, Result, ok, err, ok_or, length, take, length-append, length-take, take_append,
  take-length_append, drop-length_append, take_all, All-drop, get_elem?-length_append,
  get_elem?-length, drop-suc-length_append, split_at, take-length-add_append, ℕ, suc, ◌+◌, ◌≤◌, ◌<◌,
  ◌≡◌, refl, sym, ◌∙◌, subst, subst₂, ◌≢◌, true, List, [], ◌∷◌, ◌++◌, append-nil, append_assoc,
  arith, dec_lt, ℕ_discrete, ◌>>=◌,
}
use next_socks.Wire.{IsByte, IsBytes, Str, is_utf8, from_utf8}
use next_socks.Protocol.Handshake.{
  userpass_version, HandshakeError, truncated, bad_version, bad_domain, parse_userpass,
}

-- The message on the wire.
abbrev pub credentials : Str → Str → List ℕ
credentials user pass = userpass_version ∷ length user ∷ (user ++ length pass ∷ pass)

-- What is left to check when both strings have arrived.
abbrev finish : List ℕ → List ℕ → Result (Str × Str) HandshakeError
finish uname passwd = do
  username ← ok_or (from_utf8 uname) bad_domain
  password ← ok_or (from_utf8 passwd) bad_domain
  ok (username, password)

-- The password is cut off behind its length.
abbrev tail : List ℕ → List ℕ → Result (Str × Str) HandshakeError
tail uname [] = err truncated
tail uname (m ∷ ys) = if leb m (length ys) then finish uname (take m ys) else err truncated

parse_userpass-tail :
    (us ys : List ℕ) → parse_userpass (userpass_version ∷ length us ∷ (us ++ ys)) ≡ tail us ys
unfolding parse_userpass
parse_userpass-tail us [] =
    let i : 2 + length us ≡ suc (suc (length us)) = omega arith in
    rw (i, append-nil us, get_elem?-length us) (ground (arith, take_all (length us) us))
parse_userpass-tail us (m ∷ ys) =
    let i : 2 + length us ≡ suc (suc (length us)) = omega arith in
    let j : suc (suc (length us)) + 1 ≡ suc (suc (suc (length us))) = omega arith in
    rw (i, j, get_elem?-length_append us m ys, drop-suc-length_append us m ys)
      (ground (arith, length-append us (m ∷ ys), take-length_append us (m ∷ ys)))

parse_userpass_short :
    (n : ℕ) (xs : List ℕ)
    → length xs < n
    → parse_userpass (userpass_version ∷ n ∷ xs) ≡ err truncated
unfolding parse_userpass
parse_userpass_short n xs h = ground arith

parse_userpass_version :
    (v : ℕ) (xs : List ℕ) → v ≢ userpass_version → parse_userpass (v ∷ xs) ≡ err (bad_version v)
unfolding parse_userpass
parse_userpass_version v xs h = ground arith

-- The shapes of a buffer, as far as the parser tells them apart.
data Shape : List ℕ → Type 0 where
  empty : Shape []
  wrong : (v : ℕ) (xs : List ℕ) → v ≢ userpass_version → Shape (v ∷ xs)
  one : Shape (userpass_version ∷ [])
  short : (n : ℕ) (xs : List ℕ) → length xs < n → Shape (userpass_version ∷ n ∷ xs)
  named : (us ys : List ℕ) → Shape (userpass_version ∷ length us ∷ (us ++ ys))

Shape-long : (n : ℕ) (xs : List ℕ) → n ≤ length xs → Shape (userpass_version ∷ n ∷ xs)
Shape-long n xs h =
    let (us, ys, e, l) = split_at n xs h in
    subst₂ (λ k (t : List ℕ). Shape (userpass_version ∷ k ∷ t)) l (sym e) (named us ys)

shape : (buf : List ℕ) → Shape buf
shape [] = empty
shape (v ∷ xs) = elim (ℕ_discrete v userpass_version) [
  | no other ↦ wrong v xs other
  | yes same ↦ subst (λ k. Shape (k ∷ xs)) (sym same) (versioned xs)
]
  where
    versioned : (ys : List ℕ) → Shape (userpass_version ∷ ys)
    versioned [] = one
    versioned (n ∷ ys) = elim (dec_lt (length ys) n) [
      | yes lt ↦ short n ys lt
      | no ge ↦ Shape-long n ys (omega arith)
    ]

-- A message of two valid strings is read back, whatever the client sent behind it.
pub parse_userpass-credentials :
    (user pass rest : List ℕ)
    → is_utf8 user ≡ true
    → is_utf8 pass ≡ true
    → parse_userpass (credentials user pass ++ rest) ≡ ok (user, pass)
parse_userpass-credentials user pass rest u p =
    rw
      (
        append_assoc user (length pass ∷ pass) rest,
        parse_userpass-tail user (length pass ∷ (pass ++ rest)),
      )
      (ground (arith, length-append pass rest, take-length_append pass rest))

tail-eq-ok :
    (us : List ℕ) (m : ℕ) (ys : List ℕ) (user pass : Str)
    → tail us (m ∷ ys) ≡ ok (user, pass)
    → (m ≤ length ys) × (us ≡ user) × (take m ys ≡ pass)
tail-eq-ok us m ys user pass h = ground arith

credentials-take :
    (us : List ℕ) (m : ℕ) (ys : List ℕ)
    → m ≤ length ys
    → take (2 + length us + 1 + length (take m ys)) (userpass_version ∷ length us ∷ (us ++ m ∷ ys))
      ≡ credentials us (take m ys)
credentials-take us m ys fits =
    let l : length (take m ys) ≡ m = length-take m ys fits in
    let e : 2 + length us + 1 + m ≡ suc (suc (length us + suc m)) = omega arith in
    rw (l, e, take-length-add_append (suc m) us (m ∷ ys))

abbrev Starts : List ℕ → Str → Str → Type 0
Starts buf user pass =
    (2 + length user + 1 + length pass ≤ length buf)
    × (take (2 + length user + 1 + length pass) buf ≡ credentials user pass)

parse_userpass-Shape :
    (buf : List ℕ) (user pass : Str)
    → Shape buf
    → parse_userpass buf ≡ ok (user, pass)
    → Starts buf user pass
parse_userpass-Shape buf user pass empty h = unfold parse_userpass in cc
parse_userpass-Shape buf user pass (wrong v xs n) h = cc (parse_userpass_version v xs n)
parse_userpass-Shape buf user pass one h = unfold parse_userpass in cc
parse_userpass-Shape buf user pass (short n xs n') h = cc (parse_userpass_short n xs n')
parse_userpass-Shape buf user pass (named us []) h = cc (parse_userpass-tail us [])
parse_userpass-Shape buf user pass (named us (m ∷ ys)) h =
    let h' : tail us (m ∷ ys) ≡ ok (user, pass) = sym (parse_userpass-tail us (m ∷ ys)) ∙ h in
    let (fits, u, p) = tail-eq-ok us m ys user pass h' in
    subst₂ (Starts (userpass_version ∷ length us ∷ (us ++ m ∷ ys))) u p (
      omega (arith, length-append us (m ∷ ys), length-take m ys fits),
      credentials-take us m ys fits,
    )

-- What `parse_userpass` accepts starts with the message of exactly the strings returned, so the
-- caller, which drops as many bytes as that message has, drops the message.
pub parse_userpass-take :
    (buf : List ℕ) (user pass : Str)
    → parse_userpass buf ≡ ok (user, pass)
    → (2 + length user + 1 + length pass ≤ length buf)
      × (take (2 + length user + 1 + length pass) buf ≡ credentials user pass)
parse_userpass-take buf user pass h = parse_userpass-Shape buf user pass (shape buf) h

tail_append : (us ys more : List ℕ) → tail us ys ≢ err truncated → tail us (ys ++ more) ≡ tail us ys
tail_append us [] more h = absurd (h refl)
tail_append us (m ∷ ys) more h = ground (arith, length-append ys more, take_append m ys more)

append-Shape :
    (buf more : List ℕ)
    → Shape buf
    → parse_userpass buf ≢ err truncated
    → parse_userpass (buf ++ more) ≡ parse_userpass buf
append-Shape buf more empty h = absurd (h (unfold parse_userpass in refl))
append-Shape buf more (wrong v xs n) h =
    parse_userpass_version v (xs ++ more) n ∙ sym (parse_userpass_version v xs n)
append-Shape buf more one h = absurd (h (unfold parse_userpass in refl))
append-Shape buf more (short n xs n') h = absurd (h (parse_userpass_short n xs n'))
append-Shape buf more (named us ys) h =
    let settled : tail us ys ≢ err truncated = λ e. h (parse_userpass-tail us ys ∙ e) in
    rw (append_assoc us ys more, parse_userpass-tail us (ys ++ more), parse_userpass-tail us ys)
      (tail_append us ys more settled)

pub parse_userpass_append :
    (buf more : List ℕ)
    → parse_userpass buf ≢ err truncated
    → parse_userpass (buf ++ more) ≡ parse_userpass buf
parse_userpass_append buf more h = append-Shape buf more (shape buf) h

tail_truncated-lt : (us ys : List ℕ) → IsBytes ys → tail us ys ≡ err truncated → length ys < 256
tail_truncated-lt us [] b h = omega arith
tail_truncated-lt us (m ∷ ys) b h = ground arith

truncated-Shape-lt :
    (buf : List ℕ) → Shape buf → IsBytes buf → parse_userpass buf ≡ err truncated → length buf < 513
truncated-Shape-lt buf empty b h = omega arith
truncated-Shape-lt buf (wrong v xs n) b h = cc (parse_userpass_version v xs n)
truncated-Shape-lt buf one b h = omega arith
truncated-Shape-lt buf (short n xs n') b h = omega arith
truncated-Shape-lt buf (named us ys) b h =
    let bytes : IsBytes ys =
      subst IsBytes (drop-length_append us ys) (All-drop IsByte (length us) (us ++ ys) b.1.1) in
    omega (
      arith,
      length-append us ys,
      tail_truncated-lt us ys bytes (sym (parse_userpass-tail us ys) ∙ h),
    )

pub parse_userpass_truncated-lt :
    (buf : List ℕ) → IsBytes buf → parse_userpass buf ≡ err truncated → length buf < 513
parse_userpass_truncated-lt buf b h = truncated-Shape-lt buf (shape buf) b h
