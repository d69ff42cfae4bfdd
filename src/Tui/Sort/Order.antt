-- ===== src/Tui/Sort/Order.antt =====
-- The order in which the connections are shown, said of the figures themselves.
use next_socks.Prelude.{
  ltb, leb, ◌==◌, ltb→lt, Bool-cases, ℕ, ◌≤◌, ◌<◌, ◌≡◌, ◌⊎◌, inl, inr, Bool, true, false, ◌&&◌,
  ◌||◌, Option, none, some, List, [], ◌∷◌, arith,
}
use next_socks.Metrics.{ConnInfo}
use next_socks.Tui.View.{SortKey, by_id, by_up, by_down, by_age}
use next_socks.Tui.Sort.{
  seen_earlier, seen_together, not_after, sort_connections, Chain, Ascending, tally,
  sort_connections-Ascending,
}

-- One of the first is larger, or they are equal and the id decides.
abbrev pub LargerOr : ℕ → ℕ → ℕ → ℕ → Type 0
LargerOr m n i j = (n < m) ⊎ ((m ≡ n) × (i ≤ j))

-- The connection that was seen earlier is first, and one without a time before those with one.
abbrev pub OlderOr : Option ℕ → Option ℕ → ℕ → ℕ → Type 0
OlderOr none none i j = i ≤ j
OlderOr none (some t) i j = Unit {0}
OlderOr (some s) none i j = true ≡ false
OlderOr (some s) (some t) i j = LargerOr t s i j

-- By id upwards; by traffic downwards; by age from the oldest. Ties go by id upwards.
abbrev pub InOrder : SortKey → (ℕ → Option ℕ) → ConnInfo → ConnInfo → Type 0
InOrder by_id seen a b = a.id ≤ b.id
InOrder by_up seen a b = LargerOr a.up b.up a.id b.id
InOrder by_down seen a b = LargerOr a.down b.down a.id b.id
InOrder by_age seen a b = OlderOr (seen a.id) (seen b.id) a.id b.id

larger_or : (m n i j : ℕ) → (ltb n m || (m == n && leb i j)) ≡ true → LargerOr m n i j
larger_or m n i j h = elim (Bool-cases (ltb n m)) [
  | inl e ↦ inl (ltb→lt n m e)
  | inr e ↦ inr (ground arith, ground arith)
]

older_or :
    (s t : Option ℕ) (i j : ℕ)
    → (seen_earlier s t || (seen_together s t && leb i j)) ≡ true
    → OlderOr s t i j
older_or none none i j h = ground arith
older_or none (some t) i j h = tt
older_or (some s) none i j h = cc
older_or (some s) (some t) i j h = elim (Bool-cases (ltb s t)) [
  | inl e ↦ inl (ltb→lt s t e)
  | inr e ↦ inr (ground arith, ground arith)
]

not_after-InOrder :
    (sort : SortKey) (seen : ℕ → Option ℕ) (a b : ConnInfo)
    → not_after sort seen a b ≡ true
    → InOrder sort seen a b
unfolding not_after
not_after-InOrder by_id seen a b h = ground arith
not_after-InOrder by_up seen a b h = larger_or a.up b.up a.id b.id h
not_after-InOrder by_down seen a b h = larger_or a.down b.down a.id b.id h
not_after-InOrder by_age seen a b h = older_or (seen a.id) (seen b.id) a.id b.id h

-- Each connection of a list and the next are in order.
abbrev pub FollowedBy : SortKey → (ℕ → Option ℕ) → ConnInfo → List ConnInfo → Type 0
FollowedBy sort seen c [] = Unit {0}
FollowedBy sort seen c (d ∷ ds) = InOrder sort seen c d × FollowedBy sort seen d ds

abbrev pub Ordered : SortKey → (ℕ → Option ℕ) → List ConnInfo → Type 0
Ordered sort seen [] = Unit {0}
Ordered sort seen (c ∷ cs) = FollowedBy sort seen c cs

Chain-FollowedBy :
    (sort : SortKey) (seen : ℕ → Option ℕ) (c : ConnInfo) (cs : List ConnInfo)
    → Chain (not_after sort seen) c cs
    → FollowedBy sort seen c cs
Chain-FollowedBy sort seen c [] h = tt
Chain-FollowedBy sort seen c (d ∷ ds) h =
    (not_after-InOrder sort seen c d h.0, Chain-FollowedBy sort seen d ds h.1)

Ascending-Ordered :
    (sort : SortKey) (seen : ℕ → Option ℕ) (cs : List ConnInfo)
    → Ascending (not_after sort seen) cs
    → Ordered sort seen cs
Ascending-Ordered sort seen [] h = tt
Ascending-Ordered sort seen (c ∷ cs) h = Chain-FollowedBy sort seen c cs h

-- The connections shown are ordered as chosen: by id upwards, by the bytes sent or received downwards,
-- or by age from the oldest, with ties by id upwards. And they are the connections given: every test
-- accepts as many of them before as after.
pub sort_connections-Ordered :
    (conns : List ConnInfo) (sort : SortKey) (seen : ℕ → Option ℕ) (test : ConnInfo → Bool)
    → Ordered sort seen (sort_connections conns sort seen)
      × (tally test (sort_connections conns sort seen) ≡ tally test conns)
sort_connections-Ordered conns sort seen test =
    let (ascending, same) = sort_connections-Ascending conns sort seen test in
    (Ascending-Ordered sort seen (sort_connections conns sort seen) ascending, same)
