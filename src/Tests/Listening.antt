-- ===== src/Tests/Listening.antt =====
-- The server over its sockets at a concrete input.
use gnugol.Base.{◌≡◌, refl, true, false, some, codes, ok}
use gnugol.Server.Dummy.{server_main-dummy}
use gnugol.Server.Listening.{main_over, main_over-dummy}
use gnugol.Server.Loop.{Exchange, running, dummy_answer, server_main}
use gnugol.Server.Options.Settings.{is_given}
use gnugol.Server.Replies.{replies}
use gnugol.Sockets.Chosen.{attempt, first_some, chosen, with_listener}
use gnugol.Tests.Server.{echo, packets, packets_fit}
use gnugol.Tests.Sockets.{system, addresses, held}

given_longhelp : is_given b'L' (codes "FD") ≡ false
unfolding is_given
given_longhelp = refl

given_h : is_given b'h' (codes "FD") ≡ false
unfolding is_given
given_h = refl

given_v : is_given b'v' (codes "FD") ≡ false
unfolding is_given
given_v = refl

given_d : is_given b'D' (codes "FD") ≡ true
unfolding is_given
given_d = refl

dummy_without_sockets :
    (after : Exchange) × (server_main echo 100 true (codes "FD") packets
      ≡ ok (running after (replies (λ query. dummy_answer) packets)))
dummy_without_sockets =
    server_main-dummy echo 100 (codes "FD") packets given_d given_v given_h given_longhelp
      packets_fit

first_is_bound : chosen system system.binds held addresses ≡ some 7
unfolding attempt first_some
first_is_bound = refl

main_over-dummy_example :
    (after : Exchange) × (main_over system echo 100 (codes "FD") packets held
      ≡ ok (running after (replies (λ query. dummy_answer) packets), with_listener (some 7) held))
main_over-dummy_example =
    main_over-dummy system echo 100 (codes "FD") packets held addresses 7 given_d given_v given_h
      given_longhelp packets_fit refl first_is_bound
