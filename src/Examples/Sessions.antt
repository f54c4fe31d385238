-- ===== src/Examples/Sessions.antt =====
-- Sessions under the theorems on the registry, the relays, the frames and the history.
use blitzpool_rental_proxy.Prelude.{
  Text, ℕ, ◌≡◌, ◌≢◌, refl, ◌↔◌, ◌+◌, ◌%◌, ◌^◌, true, false, not, ◌&&◌, Option, none, some, List, [],
  ◌∷◌, ◌++◌, ok, arith, if◌then◌else◌, ◌==◌, text_eq, nat_eq, nat_beq,
}
use blitzpool_rental_proxy.Prelude.Strings.{codes, trim, contains_text}
use blitzpool_rental_proxy.Prelude.Dict.{Dict, lookup}
use blitzpool_rental_proxy.Session.{rented}
use blitzpool_rental_proxy.Session.PoolUrl.{normalize_pool_url, strip_scheme}
use blitzpool_rental_proxy.Session.PoolUrl.Accepts.{IsHostPort, normalize_pool_url-accepts}
use blitzpool_rental_proxy.Session.Window.{record_at}
use blitzpool_rental_proxy.Session.Window.Rolling.{Ordered, recent, record_at-eq-recent}
use blitzpool_rental_proxy.Control.{sv2}
use blitzpool_rental_proxy.Registry.{get_all, without}
use blitzpool_rental_proxy.Sv2.{
  OpenSpec, ChannelInfo, Channel, Inner, open_error, set_extranonce_prefix, set_target,
}
use blitzpool_rental_proxy.Sv2.Channels.{
  contains, contains_pair, group_recipients, detach_member, owned_by,
}
use blitzpool_rental_proxy.Sv2.Groups.{Serves, DistinctPairs, group_recipients_lem}
use blitzpool_rental_proxy.Sv2.Forwarding.{All, Rightful, forward-Rightful}
use blitzpool_rental_proxy.Sv2.Members.{InList, detach_member_lem}
use blitzpool_rental_proxy.Sv2.Frames.{Sent, forward, on_upstream_frame}
use blitzpool_rental_proxy.Sv2.Switch.{swap_upstream}
use blitzpool_rental_proxy.Sv2.Rigs.{is_target, reap_idle_rig, reap_idle_rig_lem}
use blitzpool_rental_proxy.Sv2.Abandoned.{Waits, error_to, swap_upstream-abandons}
use blitzpool_rental_proxy.Sv2.Continuity.{Kept, swap_upstream-Kept, swap_upstream-stale}
use blitzpool_rental_proxy.Examples.Rig.{window, session, job, no_codec}
use blitzpool_rental_proxy.Examples.Data.{whole, pool, live_sessions}

normalize_pool_url-accepts_example :
    (normalize_pool_url (codes "tcp://pool:80") ≡ ok (codes "pool:80")) ↔ (
      (strip_scheme (trim (codes "tcp://pool:80")) ≡ codes "pool:80")
      × IsHostPort (codes "pool:80")
      × (contains_text (codes "://") (codes "pool:80") ≡ false))
normalize_pool_url-accepts_example =
    normalize_pool_url-accepts (codes "tcp://pool:80") (codes "pool:80")

record_at-eq-recent_example :
    ((record_at 700 9 window).samples ≡ recent 600 700 window.samples ++ (700, 9) ∷ [])
    × Ordered 0 700 (record_at 700 9 window).samples
record_at-eq-recent_example = record_at-eq-recent 0 500 700 9 window (omega arith) (omega arith)

abbrev leaver : ℕ
leaver = 2

abbrev group : ℕ
group = 7

group_recipients_lem_example :
    ((p : ℕ × ℕ)
      → (contains_pair p (group_recipients group session) ≡ true)
        ↔ ((group ≢ 0) × Serves group p session.channels))
    × DistinctPairs (group_recipients group session)
group_recipients_lem_example = group_recipients_lem group session

forward-Rightful_example : All (Rightful 7 job session) (forward 7 job session)
forward-Rightful_example = forward-Rightful 7 job session

detach_member_lem_example :
    ((m : ℕ)
      → contains m (detach_member leaver session).2.members
        ≡ (not (nat_beq m leaver) && contains m session.members))
    × ((c : Channel ℕ)
        → InList c (detach_member leaver session).2.channels
          ↔ ((c.owner ≢ leaver) × InList c session.channels))
    × ((e : ℕ × (ℕ × OpenSpec ℕ))
        → InList e (detach_member leaver session).2.pending
          ↔ ((e.1.0 ≢ leaver) × InList e session.pending))
    × ((up : ℕ)
        → lookup up (detach_member leaver session).2.up_to_down ≡ (
            if contains up (owned_by leaver session.channels)
            then none
            else lookup up session.up_to_down))
    × (((detach_member leaver session).0 ≡ true)
        ↔ ((m : ℕ) → contains m (detach_member leaver session).2.members ≡ false))
detach_member_lem_example = detach_member_lem leaver session

abbrev answer : ℕ → ChannelInfo
answer up = record {
  request_id = 1;
  up_channel_id = up;
  extranonce_prefix = [];
  target = [];
  extranonce_size = 8;
  group_channel_id = 9;
}

abbrev opens : List (Option ChannelInfo)
opens = some (answer 21) ∷ some (answer 22) ∷ some (answer 23) ∷ []

abbrev swapped : Inner ℕ
swapped = (swap_upstream no_codec pool (rented (codes "a")) opens session).1

abbrev told_at_switch : List (Sent ℕ)
told_at_switch =
    (1, set_extranonce_prefix 1 [])
    ∷ (1, set_target 1 [])
    ∷ (2, set_extranonce_prefix 2 [])
    ∷ (2, set_target 2 [])
    ∷ (3, set_extranonce_prefix 3 [])
    ∷ (3, set_target 3 [])
    ∷ (2, open_error 4)
    ∷ []

swap_upstream-Kept_example :
    Kept
      (swap_upstream no_codec pool (rented (codes "a")) opens session).1.channels
      session.channels
    × (swapped.generation ≡ (session.generation_counter + 1) % 2 ^ 64)
    × (swapped.target ≡ pool)
    × (swapped.routing ≡ rented (codes "a"))
    × (swapped.pending ≡ [])
    × (swapped.translating ≡ false)
    × (swapped.members ≡ session.members)
unfolding swap_upstream
swap_upstream-Kept_example =
    swap_upstream-Kept no_codec pool (rented (codes "a")) opens session _ refl

swap_upstream-stale_example : on_upstream_frame no_codec 5 1 job swapped ≡ ([], none, swapped)
unfolding swap_upstream
swap_upstream-stale_example =
    swap_upstream-stale no_codec pool (rented (codes "a")) opens session _ 5 job refl (omega arith)
      (omega arith)

swap_upstream-abandons_example :
    ((member up_req : ℕ)
      → InList (error_to member up_req) told_at_switch
        ↔ ((contains member session.members ≡ true) × Waits up_req member session.pending))
    × (swapped.pending ≡ [])
unfolding swap_upstream contains
swap_upstream-abandons_example =
    swap_upstream-abandons no_codec pool (rented (codes "a")) opens session told_at_switch refl

-- The session above, left by all of its members.
abbrev empty_session : Inner ℕ
empty_session = record session { members = [] }

abbrev targets : Dict Text ℕ
targets = (codes "w", 2) ∷ (codes "v", 3) ∷ []

reap_idle_rig_lem_example :
    ((reap_idle_rig 2 empty_session (codes "w") 2 targets live_sessions).0 ≡ not false)
    × (lookup (codes "w") (reap_idle_rig 2 empty_session (codes "w") 2 targets live_sessions).1 ≡ (
        if not false && (codes "w" == codes "w") && is_target (codes "w") 2 targets
        then none
        else lookup (codes "w") targets))
    × (get_all (codes "w") (reap_idle_rig 2 empty_session (codes "w") 2 targets live_sessions).2 ≡ (
        if not false && (codes "w" == codes "w")
        then without (sv2 2) (get_all (codes "w") live_sessions)
        else get_all (codes "w") live_sessions))
reap_idle_rig_lem_example =
    reap_idle_rig_lem 2 2 empty_session (codes "w") (codes "w") targets live_sessions
