-- ===== src/Net/Tests/Sockets.antt =====
-- A system without earlier calls, and the theorems on net/Socket.cpp and net/Acceptor.cpp applied to it.
use rabbit_server.Prelude.{ℕ, ◌≡◌, [], true, some, if◌then◌else◌, ◌==◌}
use rabbit_server.Net.Acceptor.{new_acceptor, regist_acceptor}
use rabbit_server.Net.Acceptor.Registration.{calls_of, regist_acceptor_unchecked}
use rabbit_server.Net.NetAddr.{NetAddr}
use rabbit_server.Net.Socket.{Outcome, failed, succeeded, System}

abbrev any_addr : NetAddr
any_addr = record { address = 0; port = 80; ret = 0 }

abbrev quiet_system : System
quiet_system = record { errno = 4; calls = [] }

-- The descriptor is 5, and `bind` fails.
abbrev bind_fails : ℕ → Outcome
bind_fails n = if n == 5 then failed 98 else succeeded 5

regist_acceptor_unchecked_example :
    let made = new_acceptor any_addr bind_fails quiet_system in
    let heard = regist_acceptor made.0 (bind_fails 6) made.1 in
    (heard.1.calls ≡ calls_of bind_fails (some 5) any_addr)
    × (heard.0.sock ≡ some 5)
    × (heard.0.channel.fd ≡ 5)
    × (heard.0.channel.events.epollin ≡ true)
    × (heard.0.channel.callbacks.has_read ≡ true)
regist_acceptor_unchecked_example = regist_acceptor_unchecked any_addr bind_fails quiet_system
