-- ===== src/Mock/Removal.antt =====
-- Taking the generator's connections out of the registry.
use next_socks.Prelude.{
  ok, length, All, ℕ, zero, suc, ◌+◌, ◌<◌, ◌≡◌, refl, sym, ap, ◌∙◌, List, [], ◌∷◌, ◌++◌, arith,
}
use next_socks.Metrics.{ConnKind, ConnInfo, remove, update}
use next_socks.Mock.{take_at}

abbrev pub remove_all : List (ℕ × ConnKind) → List ConnInfo → List ConnInfo
remove_all [] cs = cs
remove_all ((id, kind) ∷ rest) cs = remove_all rest (remove id cs)

remove_comm : (i j : ℕ) (cs : List ConnInfo) → remove i (remove j cs) ≡ remove j (remove i cs)
remove_comm i j [] = refl
remove_comm i j (c ∷ cs) = ground (arith, remove_comm i j cs)

remove_idem : (i : ℕ) (cs : List ConnInfo) → remove i (remove i cs) ≡ remove i cs
remove_idem i [] = refl
remove_idem i (c ∷ cs) = ground (arith, remove_idem i cs)

remove-update :
    (f : ConnInfo → ConnInfo)
    → ((c : ConnInfo) → (f c).id ≡ c.id)
    → (i : ℕ) (cs : List ConnInfo) → remove i (update f i cs) ≡ remove i cs
remove-update f keeps i [] = refl
remove-update f keeps i (c ∷ cs) = ground (arith, keeps c, remove-update f keeps i cs)

pub remove_all-snoc :
    (own : List (ℕ × ConnKind)) (id : ℕ) (kind : ConnKind) (cs : List ConnInfo)
    → remove_all (own ++ (id, kind) ∷ []) cs ≡ remove id (remove_all own cs)
remove_all-snoc [] id kind cs = refl
remove_all-snoc ((a, k) ∷ own) id kind cs = remove_all-snoc own id kind (remove a cs)

pub remove_all-remove :
    (own : List (ℕ × ConnKind)) (id : ℕ) (cs : List ConnInfo)
    → remove_all own (remove id cs) ≡ remove id (remove_all own cs)
remove_all-remove [] id cs = refl
remove_all-remove ((a, k) ∷ own) id cs =
    ap (remove_all own) (remove_comm a id cs) ∙ remove_all-remove own id (remove a cs)

-- An id that makes no difference, since it is taken out with the others.
abbrev pub Absorbs : List (ℕ × ConnKind) → ℕ × ConnKind → Type 0
Absorbs own x = (cs : List ConnInfo) → remove_all own (remove x.0 cs) ≡ remove_all own cs

Absorbs-weaken :
    (a : ℕ × ConnKind) (own xs : List (ℕ × ConnKind))
    → All (Absorbs own) xs
    → All (Absorbs (a ∷ own)) xs
Absorbs-weaken a own [] h = tt
Absorbs-weaken a own (x ∷ xs) h = (
  (λ cs. ap (remove_all own) (remove_comm a.0 x.0 cs) ∙ h.0 (remove a.0 cs)),
  Absorbs-weaken a own xs h.1,
)

pub Absorbs-all : (own : List (ℕ × ConnKind)) → All (Absorbs own) own
Absorbs-all [] = tt
Absorbs-all (a ∷ own) =
    ((λ cs. ap (remove_all own) (remove_idem a.0 cs)), Absorbs-weaken a own own (Absorbs-all own))

pub remove_all-update :
    (f : ConnInfo → ConnInfo)
    → ((c : ConnInfo) → (f c).id ≡ c.id)
    → (own : List (ℕ × ConnKind)) (x : ℕ × ConnKind) (cs : List ConnInfo) → Absorbs own x
    → remove_all own (update f x.0 cs) ≡ remove_all own cs
remove_all-update f keeps own x cs h =
    sym (h (update f x.0 cs)) ∙ ap (remove_all own) (remove-update f keeps x.0 cs) ∙ h cs

-- Taking out the entry at an index that there is.
pub take_at-remove :
    (i : ℕ) (own : List (ℕ × ConnKind))
    → i < length own
    → (x : ℕ × ConnKind) × (rest : List (ℕ × ConnKind)) × (take_at i own ≡ ok (x, rest))
      × (length own ≡ length rest + 1)
      × ((cs : List ConnInfo) → remove_all rest (remove x.0 cs) ≡ remove_all own cs)
take_at-remove i [] p = absurd (omega arith)
take_at-remove zero (a ∷ own) p = (a, own, refl, omega arith, λ cs. refl)
take_at-remove (suc i) (a ∷ own) p =
    let (x, rest, e, n, same) = take_at-remove i own (omega arith) in
    (
      x,
      a ∷ rest,
      rw e refl,
      omega arith,
      λ cs. ap (remove_all rest) (remove_comm a.0 x.0 cs) ∙ same (remove a.0 cs),
    )
