-- ===== src/Net/Tests/Reactor.antt =====
-- A loop with one channel, and the theorem on its iterations applied to it.
use rabbit_server.Prelude.{refl, true, none, some, [], ◌∷◌, arith}
use rabbit_server.Net.Channel.{Events, no_event, new_channel, enable_reading}
use rabbit_server.Net.Poller.{put, reading_on, change, update_channel, update_in, ready}
use rabbit_server.Net.Reactor.{
  Reactor, new_reactor, begin_round, change_channel, Reachable, start, step, creates, changes,
  polls,
}
use rabbit_server.Net.Reactor.Calls.{IsCalled, Reachable-IsCalled}
use rabbit_server.Net.Tests.Epolls.{Table, table}

abbrev no_entry : Table
no_entry = λ fd. none

abbrev with_channel : Reactor Table
with_channel = record (new_reactor no_entry) { heap = put 3 (some (new_channel 5)) (λ p. none) }

abbrev watching : Reactor Table
watching = change_channel table reading_on 3 (new_channel 5) with_channel

abbrev readable : Events
readable = record no_event { epollin = true }

watching-Reachable : Reachable table no_entry watching
watching-Reachable =
    step (step start (creates 3 5 refl))
      (changes reading_on 3 (new_channel 5) (λ e. ground (arith, e)) refl)

Reachable-IsCalled_example : IsCalled table (begin_round (ready ((3, readable) ∷ [])) watching)
unfolding table change_channel change enable_reading update_channel update_in
Reachable-IsCalled_example =
    Reachable-IsCalled table no_entry watching (begin_round (ready ((3, readable) ∷ [])) watching)
      (λ fd. refl) watching-Reachable
      (polls (ready ((3, readable) ∷ [])) refl
        (((5, record no_event { epollin = true; epollpri = true }, refl), tt), (tt, tt)))
