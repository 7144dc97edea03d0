-- ===== src/Tests/Server.antt =====
-- Daemons that start on one socket path, and the directory that they put their sockets in.
use project_persona.Prelude.{ℕ, false, ◌||◌, ◌≡◌, refl, arith, true, some, none, ok, ◌%◌, ◌-◌, ◌⊎◌}
use project_persona.Server.{
  World, quiet, Reach, start, calls, call, call_granted, call_failed, flock, bind_socket, crash,
  in_turn, bind_listener, leave_select, clean_up, leaves, cleans, further, granted, failed, Answers,
  serving, leaving, InSelect, preparing, stopped, stops, already_running,
}
use project_persona.Server.Directory.{
  found, prepare_socket_dir, accept_existing, tighten, Trusted, prepare_socket_dir-Trusted,
}
use project_persona.Server.Exclusive.{one_server, serving-kept}
use project_persona.Server.Startup.{all_granted, Outcome}
use project_persona.Server.Takeover.{bind_listener-Reach, refused_while_serving, start_after_crash}

-- A socket that a third daemon left stands at the path; the first daemon starts.
abbrev begun : World
begun = bind_listener 0 all_granted (quiet (some 3))

begun-Reach : Reach (some 3) false begun
begun-Reach = bind_listener-Reach 0 all_granted start

begun-serving : begun.phase 0 ≡ serving
unfolding bind_listener in_turn call call_granted flock bind_socket
begun-serving = refl

begun-left : InSelect (begun.phase 0)
unfolding bind_listener in_turn call call_granted flock bind_socket
begun-left = tt

begun-preparing : begun.phase 1 ≡ preparing
unfolding bind_listener in_turn call call_granted flock bind_socket
begun-preparing = refl

one_server_example :
    (◌≡◌ {A = ℕ} 0 0) × ((begun.socket ≡ some 0) ⊎ ((false ≡ true) × (begun.socket ≡ none)))
one_server_example = one_server 0 0 begun-Reach begun-serving begun-serving

serving-kept_example :
    (((call 1 granted begun).phase 0 ≡ serving)
      × (((call 1 granted begun).socket ≡ some 0)
          ⊎ (((false || false) ≡ true) × ((call 1 granted begun).socket ≡ none))))
    ⊎ ((call 1 granted begun ≡ crash 0 begun) ⊎ (call 1 granted begun ≡ leave_select 0 begun))
serving-kept_example = serving-kept 0 begun-Reach (calls 1 granted) begun-serving

-- The second daemon's `chmod` would fail, but it does not come that far.
abbrev no_chmod : Answers
no_chmod = record all_granted { restrict = failed }

refused_while_serving_example :
    ((bind_listener 1 no_chmod begun).phase 1 ≡ stopped already_running)
    × ((bind_listener 1 no_chmod begun).phase 0 ≡ serving)
    × (((bind_listener 1 no_chmod begun).socket ≡ some 0)
        ⊎ ((false ≡ true) × ((bind_listener 1 no_chmod begun).socket ≡ none)))
refused_while_serving_example =
    refused_while_serving 1 0 no_chmod begun-Reach begun-serving begun-preparing

start_after_crash_example : Outcome (bind_listener 1 all_granted (crash 0 begun)) 1 none
start_after_crash_example =
    start_after_crash 1 0 all_granted begun-Reach begun-serving begun-preparing

-- A refused daemon leaves its socket at the path, and the next one removes it.
bind_listener-stale : (bind_listener 0 no_chmod (quiet none)).socket ≡ some 0
unfolding bind_listener in_turn call call_granted call_failed flock bind_socket stops
bind_listener-stale = refl

prepare_socket_dir-wide :
    prepare_socket_dir
      (λ m. m - m % 64)
      1000
      true
      true
      (found (record { is_dir = true; uid = 1000; mode = 493 }))
    ≡ ok (record { is_dir = true; uid = 1000; mode = 448 })
unfolding prepare_socket_dir accept_existing tighten
prepare_socket_dir-wide = refl

-- 0o755 is tightened, with the umask 0o077.
prepare_socket_dir-Trusted_example : Trusted 1000 (record { is_dir = true; uid = 1000; mode = 448 })
prepare_socket_dir-Trusted_example =
    prepare_socket_dir-Trusted (λ m. m - m % 64) 1000 true true
      (found (record { is_dir = true; uid = 1000; mode = 493 }))
      (record { is_dir = true; uid = 1000; mode = 448 }) (λ m h. omega (arith, h))
      prepare_socket_dir-wide

prepare_socket_dir-tmp :
    prepare_socket_dir
      (λ m. m)
      1000
      true
      true
      (found (record { is_dir = true; uid = 0; mode = 1023 }))
    ≡ ok (record { is_dir = true; uid = 0; mode = 1023 })
unfolding prepare_socket_dir accept_existing
prepare_socket_dir-tmp = refl

-- Between the lock and the clean-up of a daemon that is told to stop another one starts: it serves,
-- and the clean-up then removes its socket.
abbrev taken_over : World
taken_over = bind_listener 1 all_granted (leave_select 0 begun)

taken_over-Reach : Reach (some 3) false taken_over
taken_over-Reach = bind_listener-Reach 1 all_granted (further begun-Reach (leaves 0 begun-left))

taken_over-leaving : taken_over.phase 0 ≡ leaving
unfolding bind_listener in_turn call call_granted flock bind_socket leave_select
taken_over-leaving = refl

clean_up-Reach : Reach (some 3) true (clean_up 0 granted taken_over)
clean_up-Reach = further taken_over-Reach (cleans 0 granted taken_over-leaving)

clean_up-displaces :
    (taken_over.phase 1 ≡ serving)
    × (taken_over.socket ≡ some 1)
    × ((clean_up 0 granted taken_over).phase 1 ≡ serving)
    × ((clean_up 0 granted taken_over).socket ≡ none)
unfolding bind_listener in_turn call call_granted flock bind_socket leave_select clean_up
clean_up-displaces = (refl, refl, refl, refl)
