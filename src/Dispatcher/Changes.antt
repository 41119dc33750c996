-- ===== src/Dispatcher/Changes.antt =====
-- What a dispatcher does while the links of its node change, Dispatcher.start_changes, handle_info, notify
-- and commit_changes.
use stars.Prelude.{Bool, List, [], ◌∷◌}
use stars.Address.{Address}
use stars.Dispatcher.Interface.{Info, Branch}
use stars.Dispatcher.{Dispatcher, Effect, Env, send_info, handle_info}

module _ {T : Type 0} (info : Info T) where
  -- The availability messages that were sent, the latest first.
  abbrev pub infos : List (Effect T) → List (Address × T)
  infos [] = []
  infos (send_info to t ∷ out) = (to, t) ∷ infos out
  infos (_ ∷ out) = infos out

  -- Whether the links are changing, and the delayed messages.
  abbrev pub status : Dispatcher T → Bool × List (Address × T)
  status d = (d.in_change, d.delayed)

  -- A run of availability messages.
  abbrev pub receive_infos : Env → Branch → List (Address × T) → Dispatcher T → Dispatcher T
  receive_infos env b [] d = d
  receive_infos env b ((src, msg) ∷ rest) d =
      receive_infos env b rest (handle_info info env b src msg d)
