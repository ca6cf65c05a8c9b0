-- ===== src/Election/Members.antt =====
-- The use of memberlist in internal/election/election.go: Join, Winner, watchEvents and shutdown.
use purelb.Base.{ℕ, List, [], ◌∷◌, String, Option, length, take, ltb, if◌then◌else◌}
use purelb.Election.{winner}

-- The calls of memberlist, on a list of members in M; members are given by their names.
pub record Memberlist (M E : Type 0) : Type 0 where
  pub members : M → List String
  pub join : M → List String → Option E × M
  pub leave : M → Option E × M
  pub shut_down : M → M

-- What reaches watchEvents: an event of a node, or the close of the stop channel.
pub data Signal : Type 0 where
  node_event stop : Signal

-- At most five initial peers.
unfoldable pub initial_peers : List String → List String
initial_peers iplist =
    let pod_count = if ltb 5 (length iplist) then 5 else length iplist in take pod_count iplist

module _ {M E : Type 0} (ml : Memberlist M E) where
  unfoldable pub join : M → List String → Option E × M
  unfolding initial_peers
  join m iplist = ml.join m (initial_peers iplist)

  -- The error of Leave is returned, and the list is shut down in any case.
  unfoldable pub shutdown : M → Option E × M
  shutdown m = let (e, m') = ml.leave m in (e, ml.shut_down m')

  -- The loop of watchEvents, with ForceSync as a change of the client's state.
  unfoldable pub watch_events : {C : Type 0} → (C → C) → List Signal → C → M → C × M
  unfolding shutdown
  watch_events force_sync [] c m = (c, m)
  watch_events force_sync (node_event ∷ signals) c m =
      watch_events force_sync signals (force_sync c) m
  watch_events force_sync (stop ∷ signals) c m = (c, (shutdown m).1)

  -- Winner, whose count of pods is only logged; no winner is an index out of range.
  unfoldable pub winner_among : (String → List ℕ) → M → String → Option String
  unfolding winner
  winner_among sha256 m key = winner sha256 key (ml.members m)
