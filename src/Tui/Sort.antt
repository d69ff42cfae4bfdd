-- ===== src/Tui/Sort.antt =====
-- src/tui/widgets.rs: `sort_connections`. The standard library documents `sort_by` as a stable sort; it
-- is written here by insertion, which gives the same list; `first_seen` is a function, with no time for an id that is not in the map.
pub mod Order
use next_socks.Prelude.{
  ltb, leb, ◌==◌, if◌then◌else◌, if_elim, ℕ, ◌+◌, ◌≡◌, refl, ap, ◌∙◌, Bool, true, false, ◌&&◌, ◌||◌,
  Option, none, some, List, [], ◌∷◌, arith,
}
use next_socks.Metrics.{ConnInfo}
use next_socks.Tui.View.{SortKey, by_id, by_up, by_down, by_age}

-- The order on `Option<&Instant>`: an id without a time is first.
abbrev pub seen_earlier : Option ℕ → Option ℕ → Bool
seen_earlier none (some t) = true
seen_earlier (some s) (some t) = ltb s t
seen_earlier _ _ = false

abbrev pub seen_together : Option ℕ → Option ℕ → Bool
seen_together none none = true
seen_together (some s) (some t) = s == t
seen_together _ _ = false

-- Whether `a` is not after `b` in the order chosen.
unfoldable pub not_after : SortKey → (ℕ → Option ℕ) → ConnInfo → ConnInfo → Bool
not_after by_id seen a b = leb a.id b.id
not_after by_up seen a b = ltb b.up a.up || (a.up == b.up && leb a.id b.id)
not_after by_down seen a b = ltb b.down a.down || (a.down == b.down && leb a.id b.id)
not_after by_age seen a b =
    seen_earlier (seen a.id) (seen b.id) || (seen_together (seen a.id) (seen b.id) && leb a.id b.id)

unfoldable pub insert : (ConnInfo → ConnInfo → Bool) → ConnInfo → List ConnInfo → List ConnInfo
insert before c [] = c ∷ []
insert before c (d ∷ ds) =
    let rest = insert before c ds in if before c d then c ∷ d ∷ ds else d ∷ rest

unfoldable pub sort_by : (ConnInfo → ConnInfo → Bool) → List ConnInfo → List ConnInfo
unfolding insert
sort_by before [] = []
sort_by before (c ∷ cs) = insert before c (sort_by before cs)

unfoldable pub sort_connections : List ConnInfo → SortKey → (ℕ → Option ℕ) → List ConnInfo
unfolding sort_by not_after
sort_connections conns sort seen = sort_by (not_after sort seen) conns

seen-total :
    (s t : Option ℕ) (p q : Bool)
    → (p ≡ false → q ≡ true)
    → (seen_earlier s t || (seen_together s t && p)) ≡ false
    → (seen_earlier t s || (seen_together t s && q)) ≡ true
seen-total none none p q f h = f h
seen-total none (some t) p q f h = cc
seen-total (some s) none p q f h = refl
seen-total (some s) (some t) p q f h = ground arith

not_after-total :
    (sort : SortKey) (seen : ℕ → Option ℕ) (a b : ConnInfo)
    → not_after sort seen a b ≡ false
    → not_after sort seen b a ≡ true
unfolding not_after
not_after-total by_id seen a b h = ground arith
not_after-total by_up seen a b h = ground arith
not_after-total by_down seen a b h = ground arith
not_after-total by_age seen a b h =
    seen-total (seen a.id) (seen b.id) (leb a.id b.id) (leb b.id a.id) (λ e. ground arith) h

-- Each connection behind `c` is not before the one in front of it.
abbrev pub Chain : (ConnInfo → ConnInfo → Bool) → ConnInfo → List ConnInfo → Type 0
Chain before c [] = Unit {0}
Chain before c (d ∷ ds) = (before c d ≡ true) × Chain before d ds

abbrev pub Ascending : (ConnInfo → ConnInfo → Bool) → List ConnInfo → Type 0
Ascending before [] = Unit {0}
Ascending before (c ∷ cs) = Chain before c cs

-- How many connections of a list a test accepts.
abbrev pub tally : (ConnInfo → Bool) → List ConnInfo → ℕ
tally test [] = 0
tally test (c ∷ cs) = (if test c then 1 else 0) + tally test cs

module _ (before : ConnInfo → ConnInfo → Bool)
    (total : (a b : ConnInfo) → before a b ≡ false → before b a ≡ true) where
  insert-Chain :
      (c d : ConnInfo) (ds : List ConnInfo)
      → before d c ≡ true
      → Chain before d ds
      → Chain before d (insert before c ds)
  unfolding insert
  insert-Chain c d [] p h = (p, tt)
  insert-Chain c d (e ∷ es) p (q, h) =
      if_elim (Chain before d) (before c e) (c ∷ e ∷ es) (e ∷ insert before c es) (λ b. (p, (b, h)))
        (λ b. (q, insert-Chain c e es (total c e b) h))

  insert-Ascending :
      (c : ConnInfo) (ds : List ConnInfo)
      → Ascending before ds
      → Ascending before (insert before c ds)
  unfolding insert
  insert-Ascending c [] h = tt
  insert-Ascending c (d ∷ ds) h =
      if_elim (Ascending before) (before c d) (c ∷ d ∷ ds) (d ∷ insert before c ds) (λ b. (b, h))
        (λ b. insert-Chain c d ds (total c d b) h)

  sort_by-Ascending : (cs : List ConnInfo) → Ascending before (sort_by before cs)
  unfolding sort_by
  sort_by-Ascending [] = tt
  sort_by-Ascending (c ∷ cs) = insert-Ascending c (sort_by before cs) (sort_by-Ascending cs)

tally-insert :
    (before : ConnInfo → ConnInfo → Bool) (test : ConnInfo → Bool) (c : ConnInfo)
    (ds : List ConnInfo)
    → tally test (insert before c ds) ≡ tally test (c ∷ ds)
unfolding insert
tally-insert before test c [] = refl
tally-insert before test c (d ∷ ds) =
    if_elim (λ xs. tally test xs ≡ tally test (c ∷ d ∷ ds)) (before c d) (c ∷ d ∷ ds)
      (d ∷ insert before c ds) (λ b. refl) (λ b. omega (arith, tally-insert before test c ds))

tally-sort_by :
    (before : ConnInfo → ConnInfo → Bool) (test : ConnInfo → Bool) (cs : List ConnInfo)
    → tally test (sort_by before cs) ≡ tally test cs
unfolding sort_by
tally-sort_by before test [] = refl
tally-sort_by before test (c ∷ cs) =
    tally-insert before test c (sort_by before cs)
    ∙ ap (λ n. (if test c then 1 else 0) + n) (tally-sort_by before test cs)

-- The connections shown are in the order chosen, each not after the next, and they are the
-- connections given: every test accepts as many of them before as after.
pub sort_connections-Ascending :
    (conns : List ConnInfo) (sort : SortKey) (seen : ℕ → Option ℕ) (test : ConnInfo → Bool)
    → Ascending (not_after sort seen) (sort_connections conns sort seen)
      × (tally test (sort_connections conns sort seen) ≡ tally test conns)
unfolding sort_connections
sort_connections-Ascending conns sort seen test = (
  sort_by-Ascending (not_after sort seen) (not_after-total sort seen) conns,
  tally-sort_by (not_after sort seen) test conns,
)
