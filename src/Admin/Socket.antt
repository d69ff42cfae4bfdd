-- ===== src/Admin/Socket.antt =====
-- src/admin/server.rs: how a server claims the path of its admin socket. The file system is a state:
-- what the path leads to, and whether another process holds the lock. Other processes may act between
-- two steps, so each step takes the state that it finds.
pub mod Laws
use next_socks.Prelude.{if◌then◌else◌, Result, ok, err, Bool, true, false, List, [], ◌∷◌, ◌++◌}

-- What stands at the path. A socket is live where a server accepts on it.
pub data Entry : Type 0 where
  absent : Entry
  live_socket : Entry
  stale_socket : Entry
  other_file : Entry
  unreadable : Entry

-- The parent directory of the path: there is none named, it stands, or it has to be created, which
-- succeeds or not.
pub data Parent : Type 0 where
  unnamed : Parent
  standing : Parent
  creatable : Parent
  uncreatable : Parent

pub data ClaimError : Type 0 where
  already_running : ClaimError
  lock_held : ClaimError
  not_a_socket : ClaimError
  failed : ClaimError

-- The calls that change the file system.
pub data Effect : Type 0 where
  created_parent : Effect
  removed_file : Effect
  lock_file : Effect
  locked : Effect
  unlinked : Entry → Effect
  bound : Effect
  restricted : Effect

-- `socket_is_live`: what `connect` says of the path. A file that is no socket refuses.
unfoldable pub socket_is_live : Entry → Result Bool ClaimError
socket_is_live absent = ok false
socket_is_live live_socket = ok true
socket_is_live stale_socket = ok false
socket_is_live other_file = ok false
socket_is_live unreadable = err failed

abbrev pub refuse_live : Result Bool ClaimError → Result (Unit {0}) ClaimError
refuse_live (ok true) = err already_running
refuse_live (ok false) = ok tt
refuse_live (err e) = err e

-- The lock file: it cannot be opened or created, another process holds its lock, or it is free.
pub data LockFile : Type 0 where
  unopened : LockFile
  held : LockFile
  free : LockFile

-- `acquire_lock`, with its effects: a lock that is held is met only once the file is there.
unfoldable pub acquire_lock : LockFile → Result (Unit {0}) ClaimError × List Effect
acquire_lock unopened = (err failed, [])
acquire_lock held = (err lock_held, lock_file ∷ [])
acquire_lock free = (ok tt, lock_file ∷ locked ∷ [])

-- `unlink_if_socket`, given whether a file can be removed, with the effect it has.
unfoldable pub unlink_if_socket : Bool → Entry → Result (List Effect) ClaimError
unlink_if_socket removes absent = ok []
unlink_if_socket true live_socket = ok (unlinked live_socket ∷ [])
unlink_if_socket true stale_socket = ok (unlinked stale_socket ∷ [])
unlink_if_socket false live_socket = err failed
unlink_if_socket false stale_socket = err failed
unlink_if_socket removes other_file = err not_a_socket
unlink_if_socket removes unreadable = err failed

-- `ensure_parent_dir`; a directory that it created is restricted, as far as that succeeds.
unfoldable pub ensure_parent_dir : Parent → Result (List Effect) ClaimError
ensure_parent_dir unnamed = ok []
ensure_parent_dir standing = ok []
ensure_parent_dir creatable = ok (created_parent ∷ [])
ensure_parent_dir uncreatable = err failed

-- What `claim_socket` meets: the parent directory, the entry at the first probe, the lock file, the
-- entry at the second probe and at the unlink, and whether removing, binding and
-- restricting succeed. With the result go the effects.
pub record World : Type 0 where
  pub parent : Parent
  pub first : Entry
  pub lock : LockFile
  pub second : Entry
  pub third : Entry
  pub removes : Bool
  pub binds : Bool
  pub restricts : Bool

abbrev pub after_unlink :
    World → Result (List Effect) ClaimError → Result (Unit {0}) ClaimError × List Effect
after_unlink w (err e) = (err e, [])
after_unlink w (ok effects) =
    if w.binds
    then (if w.restricts
        then (ok tt, effects ++ bound ∷ restricted ∷ [])
        else (err failed, effects ++ bound ∷ []))
    else (err failed, effects)

abbrev pub after_second :
    World → Result (Unit {0}) ClaimError → Result (Unit {0}) ClaimError × List Effect
after_second w (err e) = (err e, [])
after_second w (ok u) = after_unlink w (unlink_if_socket w.removes w.third)

-- The effects so far come before those that follow.
abbrev pub behind :
    List Effect
    → Result (Unit {0}) ClaimError × List Effect
    → Result (Unit {0}) ClaimError × List Effect
behind effects (r, later) = (r, effects ++ later)

abbrev pub after_lock :
    World → Result (Unit {0}) ClaimError × List Effect → Result (Unit {0}) ClaimError × List Effect
after_lock w (err e, effects) = (err e, effects)
after_lock w (ok u, effects) =
    behind effects (after_second w (refuse_live (socket_is_live w.second)))

abbrev pub after_first :
    World → Result (Unit {0}) ClaimError → Result (Unit {0}) ClaimError × List Effect
after_first w (err e) = (err e, [])
after_first w (ok u) = after_lock w (acquire_lock w.lock)

abbrev pub after_parent :
    World → Result (List Effect) ClaimError → Result (Unit {0}) ClaimError × List Effect
after_parent w (err e) = (err e, [])
after_parent w (ok effects) = behind effects (after_first w (refuse_live (socket_is_live w.first)))

unfoldable pub claim_socket : World → Result (Unit {0}) ClaimError × List Effect
unfolding socket_is_live unlink_if_socket acquire_lock ensure_parent_dir
claim_socket w = after_parent w (ensure_parent_dir w.parent)
