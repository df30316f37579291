-- ===== src/Actions/Status.antt =====
-- The status of an action under the operations of src/server/actions.rs.
use chbackup.Base.{
  ℕ, Bool, Option, none, some, List, [], ◌∷◌, ◌≡◌, refl, arith, if◌then◌else◌, ◌==◌,
}
use chbackup.Actions.{
  ActionStatus, ActionEntry, ActionLog, Message, completed, failed, killed, is_killed, update_first,
  close, finish_action, fail_action, kill_action, status_of,
}

-- What an operation does to a status.
abbrev pub closed_status : ActionStatus → ActionStatus → ActionStatus
closed_status status old = if is_killed old then old else status

abbrev pub change : Bool → (ActionStatus → ActionStatus) → Option ActionStatus → Option ActionStatus
change at f none = none
change at f (some s) = if at then some (f s) else some s

status_of-update_first :
    (id j : ℕ) (f : ActionEntry → ActionEntry) (g : ActionStatus → ActionStatus)
    (es : List ActionEntry)
    → ((e : ActionEntry) → ((f e).id ≡ e.id) × ((f e).status ≡ g e.status))
    → status_of j (update_first id f es) ≡ change (id == j) g (status_of j es)
unfolding status_of update_first
status_of-update_first id j f g [] h = refl
status_of-update_first id j f g (e ∷ es) h =
    ground (arith, h e, status_of-update_first id j f g es h)

close-effect :
    (status : ActionStatus) (now : ℕ) (e : ActionEntry)
    → ((close status now e).id ≡ e.id)
      × ((close status now e).status ≡ closed_status status e.status)
unfolding close
close-effect status now e = ground arith

-- Finishing or failing an action changes only its own status, and not if it was killed; killing it
-- always makes it killed.
pub status_of-close :
    (log : ActionLog) (id j now : ℕ) (error : Message)
    → (status_of j (finish_action log id now).entries
        ≡ change (id == j) (closed_status completed) (status_of j log.entries))
      × (status_of j (fail_action log id error now).entries
          ≡ change (id == j) (closed_status (failed error)) (status_of j log.entries))
      × (status_of j (kill_action log id now).entries
          ≡ change (id == j) (λ s. killed) (status_of j log.entries))
unfolding finish_action fail_action kill_action
status_of-close log id j now error = (
  status_of-update_first id j _ _ log.entries (close-effect completed now),
  status_of-update_first id j _ _ log.entries (close-effect (failed error) now),
  status_of-update_first id j _ _ log.entries (λ e. (refl, refl)),
)
