-- ===== src/Admin/Socket/Laws.antt =====
-- What a claim of the path removes, and what it does where someone serves there.
use next_socks.Prelude.{
  if◌then◌else◌, if_elim, Result, ok, err, All, All-append, ◌≡◌, refl, ◌≢◌, Bool, true, false, List,
  [], ◌∷◌, ◌++◌,
}
use next_socks.Admin.Socket.{
  Entry, absent, live_socket, stale_socket, other_file, unreadable, Parent, unnamed, standing,
  creatable, uncreatable, ClaimError, already_running, failed, Effect, created_parent, unlinked,
  bound, restricted, socket_is_live, refuse_live, LockFile, unopened, held, free, acquire_lock,
  unlink_if_socket, ensure_parent_dir, World, after_unlink, after_second, after_lock, after_first,
  after_parent, claim_socket,
}

-- Whether a list of effects unlinks a live socket.
abbrev pub UnlinksNoLive : List Effect → Type 0
UnlinksNoLive effects = All (λ e. e ≢ unlinked live_socket) effects

-- A refusal that at most created the parent directory.
abbrev pub Refused : Result (Unit {0}) ClaimError × List Effect → Type 0
Refused x = ((e : ClaimError) × (x.0 ≡ err e)) × All (λ e. e ≡ created_parent) x.1

abbrev No : Result (Unit {0}) ClaimError × List Effect → Type 0
No x = UnlinksNoLive x.1

after_unlink-No :
    (w : World) (effects : List Effect) → UnlinksNoLive effects → No (after_unlink w (ok effects))
after_unlink-No w effects h =
    let both = All-append (λ e. e ≢ unlinked live_socket) effects in
    if_elim No w.binds
      (if w.restricts
        then (ok tt, effects ++ bound ∷ restricted ∷ [])
        else (err failed, effects ++ bound ∷ []))
      (err failed, effects)
      (λ b.
        if_elim No w.restricts (ok tt, effects ++ bound ∷ restricted ∷ [])
          (err failed, effects ++ bound ∷ [])
          (λ c. both (bound ∷ restricted ∷ []) h ((λ e. cc), ((λ e. cc), tt)))
          (λ c. both (bound ∷ []) h ((λ e. cc), tt)))
      (λ b. h)

unlink-No :
    (w : World) (removes : Bool) (entry : Entry)
    → entry ≢ live_socket
    → No (after_unlink w (unlink_if_socket removes entry))
unfolding unlink_if_socket
unlink-No w removes absent n = after_unlink-No w [] tt
unlink-No w removes live_socket n = absurd (n refl)
unlink-No w true stale_socket n = after_unlink-No w (unlinked stale_socket ∷ []) ((λ e. cc), tt)
unlink-No w false stale_socket n = tt
unlink-No w removes other_file n = tt
unlink-No w removes unreadable n = tt

second-No :
    (w : World) (entry : Entry)
    → (w.third ≡ live_socket → entry ≡ live_socket)
    → No (after_second w (refuse_live (socket_is_live entry)))
unfolding socket_is_live
second-No w absent honest = unlink-No w w.removes w.third (λ e. cc (honest e))
second-No w live_socket honest = tt
second-No w stale_socket honest = unlink-No w w.removes w.third (λ e. cc (honest e))
second-No w other_file honest = unlink-No w w.removes w.third (λ e. cc (honest e))
second-No w unreadable honest = tt

-- That the lock keeps the path as it was: once it is ours, nothing becomes live there.
abbrev pub Keeps : World → Type 0
Keeps w = (w.lock ≡ free) → (w.third ≡ live_socket) → w.second ≡ live_socket

lock-No :
    (w : World) (lock : LockFile) → w.lock ≡ lock → Keeps w → No (after_lock w (acquire_lock lock))
unfolding acquire_lock
lock-No w unopened e keeps = tt
lock-No w held e keeps = ((λ e. cc), tt)
lock-No w free e keeps = ((λ e. cc), ((λ e. cc), second-No w w.second (keeps e)))

first-No :
    (w : World) (entry : Entry) → Keeps w → No (after_first w (refuse_live (socket_is_live entry)))
unfolding socket_is_live
first-No w absent keeps = lock-No w w.lock refl keeps
first-No w live_socket keeps = tt
first-No w stale_socket keeps = lock-No w w.lock refl keeps
first-No w other_file keeps = lock-No w w.lock refl keeps
first-No w unreadable keeps = tt

parent-No :
    (w : World) (parent : Parent)
    → No (after_first w (refuse_live (socket_is_live w.first)))
    → No (after_parent w (ensure_parent_dir parent))
unfolding ensure_parent_dir
parent-No w unnamed h = h
parent-No w standing h = h
parent-No w creatable h = ((λ e. cc), h)
parent-No w uncreatable h = tt

parent-Refused :
    (w : World) (parent : Parent)
    → w.first ≡ live_socket
    → Refused (after_parent w (ensure_parent_dir parent))
unfolding ensure_parent_dir socket_is_live
parent-Refused w unnamed e = rw e ((already_running, refl), tt)
parent-Refused w standing e = rw e ((already_running, refl), tt)
parent-Refused w creatable e = rw e ((already_running, refl), (refl, tt))
parent-Refused w uncreatable e = ((failed, refl), tt)

-- Where the holder of the lock is the only one who may begin to serve at the path, so that nothing
-- becomes live there between the second probe and the unlink once the lock is ours, a claim never
-- removes a live socket, whatever another process that holds the lock does meanwhile; and where one
-- is served at the first probe already, it is refused, and has created a missing parent directory at
-- most.
pub claim_socket-UnlinksNoLive :
    (w : World)
    → (w.lock ≡ free → w.third ≡ live_socket → w.second ≡ live_socket)
    → UnlinksNoLive (claim_socket w).1 × (w.first ≡ live_socket → Refused (claim_socket w))
unfolding claim_socket socket_is_live
claim_socket-UnlinksNoLive w keeps =
    (parent-No w w.parent (first-No w w.first keeps), parent-Refused w w.parent)
