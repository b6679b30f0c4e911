-- ===== src/Tests/Throttle.antt =====
-- A guest and the throttle of internal/server/limit.go.
use vtpm_mds.Prelude.{
  ◌≡◌, ◌≢◌, ◌≤◌, refl, true, ◌&&◌, ◌||◌, if◌then◌else◌, [], length, arith, leb, ltb, Text, codes,
  same, same_iff,
}
use vtpm_mds.Limiter.{
  new_guest_limiter, prune, budget, track_conn_state, state_new, max_conns_per_peer, guest_limit,
}
use vtpm_mds.Limiter.Window.{request, token, enroll, times, allow, cap}
use vtpm_mds.Limiter.Admission
use vtpm_mds.Limiter.Admission.{sliding_window}
use vtpm_mds.Limiter.Open
use vtpm_mds.Limiter.Open.{connections_counted, count}
use vtpm_mds.Limiter.Middleware.{
  has_room, is_health, is_token_put, is_enroll_post, guest_limit_iff, guest_limit_isolated,
}

abbrev guest : Text
guest = codes "10.0.0.5"

abbrev other_guest : Text
other_guest = codes "10.0.0.6"

abbrev called : Admission.Run
called = record {
  limiter = (allow request new_guest_limiter guest 100 100).0;
  admitted =
      Admission.admit Admission.start.admitted request guest 100
        (allow request new_guest_limiter guest 100 100).1;
  at = 100;
}

Reach-called : Admission.Reach called
Reach-called = Admission.next Admission.here (Admission.call request guest 100 100 (omega arith))

sliding_window_example :
    ((allow request called.limiter guest 130 130).1
      ≡ ltb (length (prune (called.admitted request guest) 130)) (cap request))
    × (length (prune (called.admitted request guest) 130) ≤ cap request)
sliding_window_example = sliding_window called request guest 130 130 Reach-called (omega arith)

abbrev connected : Open.Run
connected = record {
  limiter = (track_conn_state new_guest_limiter 1 guest state_new 100).0;
  open_conns = Open.let_in (track_conn_state new_guest_limiter 1 guest state_new 100).1 1 guest [];
}

Reach-connected : Open.Reach connected
Reach-connected = Open.next Open.here (Open.arrive 1 guest 100 tt refl)

connections_counted_example :
    ((budget connected.limiter guest).conns ≡ count guest connected.open_conns)
    × (count guest connected.open_conns ≤ max_conns_per_peer)
    × ((track_conn_state connected.limiter 2 guest state_new 110).1
        ≡ leb max_conns_per_peer (count guest connected.open_conns))
connections_counted_example = connections_counted connected 2 guest 110 Reach-connected

abbrev put : Text
put = codes "PUT"

abbrev token_path : Text
token_path = codes "/latest/api/token"

guest_limit_iff_example : (guest_limit called.limiter put token_path guest 130 130).1 ≡ (
    is_health put token_path
    || (has_room request called.limiter guest 130
        && (if is_token_put put token_path then has_room token called.limiter guest 130 else true)
        && (if is_enroll_post put token_path
            then has_room enroll called.limiter guest 130
            else true)))
guest_limit_iff_example = guest_limit_iff put token_path guest 130 130 called.limiter

different : other_guest ≢ guest
unfolding same
different e = absurd (ground (arith, (same_iff other_guest guest).1 e))

guest_limit_isolated_example :
    times request (budget (guest_limit called.limiter put token_path other_guest 130 130).0 guest)
    ≡ times request (budget called.limiter guest)
guest_limit_isolated_example =
    guest_limit_isolated put token_path other_guest 130 130 called.limiter request guest different
