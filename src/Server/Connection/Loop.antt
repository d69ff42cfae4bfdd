-- ===== src/Server/Connection/Loop.antt =====
-- The read loop against one look at everything that the client sends.
use next_socks.Prelude.{
  ltb, if◌then◌else◌, ge→ltb, length, drop, drop_append, take-length_append, All-take, ℕ, ◌≤◌, ◌≡◌,
  refl, sym, subst, ◌≢◌, ◌⊎◌, inl, inr, Bool, true, false, List, [], ◌∷◌, ◌++◌, append-nil,
  append_assoc,
}
use next_socks.Wire.{IsByte, IsBytes}
use next_socks.Server.Connection.{
  Refusal, close, Verdict, done, more, reject, Outcome, got, failed, read_buf, read_loop,
}

-- The bytes that arrive before the stream ends.
abbrev pub received : List (List ℕ) → List ℕ
received [] = []
received ([] ∷ cs) = []
received ((b ∷ bs) ∷ cs) = (b ∷ bs) ++ received cs

-- An attempt that more bytes do not overturn, that asks for more only below the buffer's limit, and
-- that consumes bytes which are there.
pub record IsIncremental {ℓ} {A : Type ℓ} (attempt : List ℕ → Verdict A) : Type ℓ where
  pub stable : (buf rest : List ℕ) → attempt buf ≢ more → attempt (buf ++ rest) ≡ attempt buf
  pub small : (buf : List ℕ) → IsBytes buf → attempt buf ≡ more → length buf ≤ read_buf
  pub fits : (buf : List ℕ) {a : A} {n : ℕ} → IsBytes buf → attempt buf ≡ done a n → n ≤ length buf

-- What the loop must return, given the verdict on all the bytes that arrive: the same message with
-- the bytes behind it, or the same refusal.
abbrev pub Agrees {ℓ} : {A : Type ℓ} → Verdict A → List ℕ → Outcome A → List (List ℕ) → Type ℓ
Agrees (done a n) all o reads =
    (rest : List ℕ) × (o ≡ got a rest) × (rest ++ received reads ≡ drop n all)
Agrees (reject r) all o reads = o ≡ failed r
Agrees more all o reads = o ≡ failed close

IsBytes-left : (xs ys : List ℕ) → IsBytes (xs ++ ys) → IsBytes xs
IsBytes-left xs ys b =
    subst IsBytes (take-length_append xs ys) (All-take IsByte (length xs) (xs ++ ys) b)

module _ {ℓ} {A : Type ℓ} where
  Verdict-cases :
      (v : Verdict A)
      → (v ≡ more) ⊎ (((a : A) × (n : ℕ) × (v ≡ done a n)) ⊎ ((r : Refusal) × (v ≡ reject r)))
  Verdict-cases (done a n) = inr (inl (a, n, refl))
  Verdict-cases more = inl refl
  Verdict-cases (reject r) = inr (inr (r, refl))

  loop_done :
      (attempt : List ℕ → Verdict A) (buf : List ℕ) (reads : List (List ℕ)) (a : A) (n : ℕ)
      → attempt buf ≡ done a n
      → read_loop attempt buf reads ≡ (got a (drop n buf), reads)
  unfolding read_loop
  loop_done attempt buf [] a n e = rw (e, read_loop)
  loop_done attempt buf ([] ∷ cs) a n e = rw (e, read_loop)
  loop_done attempt buf ((b ∷ bs) ∷ cs) a n e = rw (e, read_loop)

  loop_reject :
      (attempt : List ℕ → Verdict A) (buf : List ℕ) (reads : List (List ℕ)) (r : Refusal)
      → attempt buf ≡ reject r
      → read_loop attempt buf reads ≡ (failed r, reads)
  unfolding read_loop
  loop_reject attempt buf [] r e = rw (e, read_loop)
  loop_reject attempt buf ([] ∷ cs) r e = rw (e, read_loop)
  loop_reject attempt buf ((b ∷ bs) ∷ cs) r e = rw (e, read_loop)

  same_outcome :
      (t : Bool) (o : Outcome A) (xs ys : List (List ℕ))
      → let r : Outcome A × List (List ℕ) = if t then (o, xs) else (o, ys) in r.0 ≡ o
  same_outcome true o xs ys = refl
  same_outcome false o xs ys = refl

  -- The stream ends while more is wanted.
  loop_eof :
      (attempt : List ℕ → Verdict A) (buf : List ℕ) (reads : List (List ℕ))
      → received reads ≡ []
      → attempt buf ≡ more
      → (read_loop attempt buf reads).0 ≡ failed close
  unfolding read_loop
  loop_eof attempt buf [] z e = rw (e, read_loop)
  loop_eof attempt buf ([] ∷ cs) z e =
      rw (e, read_loop) (same_outcome (ltb read_buf (length buf)) (failed close) ([] ∷ cs) cs)
  loop_eof attempt buf ((b ∷ bs) ∷ cs) z e = cc

  loop_more :
      (attempt : List ℕ → Verdict A) (buf : List ℕ) (b : ℕ) (bs : List ℕ) (cs : List (List ℕ))
      → attempt buf ≡ more
      → length buf ≤ read_buf
      → read_loop attempt buf ((b ∷ bs) ∷ cs) ≡ read_loop attempt (buf ++ b ∷ bs) cs
  unfolding read_loop
  loop_more attempt buf b bs cs e h = rw (e, read_loop) (rw (ge→ltb read_buf (length buf) h))

  -- The buffer alone decides.
  settled :
      (attempt : List ℕ → Verdict A)
      → IsIncremental attempt
      → (buf : List ℕ) (reads : List (List ℕ)) → IsBytes buf
      → attempt buf ≢ more
      → let (o, reads') = read_loop attempt buf reads in
        Agrees (attempt (buf ++ received reads)) (buf ++ received reads) o reads'
  settled attempt inc buf reads b h = elim (Verdict-cases (attempt buf)) [
    | inl e ↦ absurd (h e)
    | inr (inl (a, n, e)) ↦
        rw (loop_done attempt buf reads a n e, inc.stable buf (received reads) h, e)
          (drop n buf, refl, sym (drop_append n buf (received reads) (inc.fits buf b e)))
    | inr (inr (r, e)) ↦
        rw (loop_reject attempt buf reads r e, inc.stable buf (received reads) h, e) refl
  ]

  is_settled :
      {v : Verdict A}
      → ((a : A) × (n : ℕ) × (v ≡ done a n)) ⊎ ((r : Refusal) × (v ≡ reject r))
      → v ≢ more
  is_settled (inl (a, n, e)) = λ f. cc
  is_settled (inr (r, e)) = λ f. cc

  -- With such an attempt, for every way in which the bytes are cut into chunks, the loop returns what
  -- a single look at all of them returns.
  pub read_loop-Agrees :
      (attempt : List ℕ → Verdict A)
      → IsIncremental attempt
      → (buf : List ℕ) (reads : List (List ℕ)) → IsBytes (buf ++ received reads)
      → let (o, reads') = read_loop attempt buf reads in
        Agrees (attempt (buf ++ received reads)) (buf ++ received reads) o reads'
  read_loop-Agrees attempt inc buf [] b = elim (Verdict-cases (attempt buf)) [
    | inl e ↦ rw (append-nil buf, e) (loop_eof attempt buf [] refl e)
    | inr s ↦ settled attempt inc buf [] (IsBytes-left buf [] b) (is_settled s)
  ]
  read_loop-Agrees attempt inc buf ([] ∷ cs) b = elim (Verdict-cases (attempt buf)) [
    | inl e ↦ rw (append-nil buf, e) (loop_eof attempt buf ([] ∷ cs) refl e)
    | inr s ↦ settled attempt inc buf ([] ∷ cs) (IsBytes-left buf [] b) (is_settled s)
  ]
  read_loop-Agrees attempt inc buf ((x ∷ xs) ∷ cs) b =
      let t = received cs in
      let here = IsBytes-left buf ((x ∷ xs) ++ t) b in
      let assoc : (buf ++ x ∷ xs) ++ t ≡ buf ++ ((x ∷ xs) ++ t) = append_assoc buf (x ∷ xs) t in
      let ih = read_loop-Agrees attempt inc (buf ++ x ∷ xs) cs (subst IsBytes (sym assoc) b) in
      elim (Verdict-cases (attempt buf)) [
        | inl e ↦ rw (loop_more attempt buf x xs cs e (inc.small buf here e)) (
            subst
              (λ all.
                Agrees (attempt all) all (read_loop attempt (buf ++ x ∷ xs) cs).0
                  (read_loop attempt (buf ++ x ∷ xs) cs).1)
              assoc ih)
        | inr s ↦ settled attempt inc buf ((x ∷ xs) ∷ cs) here (is_settled s)
      ]
