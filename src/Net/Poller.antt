-- ===== src/Net/Poller.antt =====
-- net/Poller.h and net/Poller.cpp. epoll is a parameter with what epoll_ctl(2) promises. A channel
-- pointer is a number, and the channels are a store from pointers to channels.
pub mod Registration
pub mod Entries
use rabbit_server.Prelude.{
  ℕ, zero, suc, ◌+◌, ◌*◌, ◌≡◌, ◌≢◌, Bool, true, false, Option, none, some, List, [], ◌∷◌, ◌++◌,
  ◌==◌, if◌then◌else◌, length, Result, ok, fault, dangling, ◌>>=◌,
}
use rabbit_server.Net.Channel.{
  Channel, Events, Index, new, added, enable_reading, disable_reading, enable_writing,
  disable_writing, disable_all,
}

pub data Operation : Type 0 where
  add del mod' : Operation

-- `struct epoll_event`: the pointer `data.ptr`, and `events`.
abbrev pub EpollEvent : Type 0
EpollEvent = ℕ × Events

-- The interest list of an epoll instance: what it holds for a descriptor, and `epoll_ctl`, whose
-- errors leave it alone.
pub record Epoll (K : Type 0) : Type 0 where
  pub interest : K → ℕ → Option EpollEvent
  pub ctl : Operation → ℕ → EpollEvent → K → K
  pub interest-add :
      (k : K) (fd : ℕ) (e : EpollEvent)
      → interest k fd ≡ none
      → interest (ctl add fd e k) fd ≡ some e
  pub interest-add_again :
      (k : K) (fd : ℕ) (e old : EpollEvent)
      → interest k fd ≡ some old
      → interest (ctl add fd e k) fd ≡ some old
  pub interest-mod :
      (k : K) (fd : ℕ) (e old : EpollEvent)
      → interest k fd ≡ some old
      → interest (ctl mod' fd e k) fd ≡ some e
  pub interest-mod_absent :
      (k : K) (fd : ℕ) (e : EpollEvent)
      → interest k fd ≡ none
      → interest (ctl mod' fd e k) fd ≡ none
  pub interest-del : (k : K) (fd : ℕ) (e : EpollEvent) → interest (ctl del fd e k) fd ≡ none
  pub interest-other :
      (k : K) (o : Operation) (fd j : ℕ) (e : EpollEvent)
      → fd ≢ j
      → interest (ctl o fd e k) j ≡ interest k j

-- The methods of `Channel` that end in a call of the poller.
pub data Change : Type 0 where
  reading_on reading_off writing_on writing_off all_off removed : Change

-- `this` and `channel` are the pointer `p`.
module _ {K : Type 0} (epoll : Epoll K) (p : ℕ) where
  unfoldable pub update_in : Index → K → Channel → K × Channel
  update_in new k c = (epoll.ctl add c.fd (p, c.events) k, record c { index = added })
  update_in added k c = (epoll.ctl mod' c.fd (p, c.events) k, c)

  -- `upDateChannel`.
  unfoldable pub update_channel : K → Channel → K × Channel
  unfolding update_in
  update_channel k c = update_in c.index k c

  pub remove_in : Index → K → Channel → K × Channel
  remove_in new k c = (k, c)
  remove_in added k c = (epoll.ctl del c.fd (p, c.events) k, record c { index = new })

  -- `removeChannel`.
  unfoldable pub remove_channel : K → Channel → K × Channel
  unfolding remove_in
  remove_channel k c = remove_in c.index k c

  abbrev pub updated : K → Channel → K × Channel
  updated k c = update_channel k c

  unfoldable pub change : Change → K → Channel → K × Channel
  unfolding update_channel remove_channel
  change reading_on k c = updated k (enable_reading c)
  change reading_off k c = updated k (disable_reading c)
  change writing_on k c = updated k (enable_writing c)
  change writing_off k c = updated k (disable_writing c)
  change all_off k c = updated k (disable_all c)
  change removed k c = let (k', c') = updated k (disable_all c) in remove_channel k' c'

-- The channels behind the pointers, until they are deleted.
abbrev pub Heap : Type 0
Heap = ℕ → Option Channel

abbrev pub put : ℕ → Option Channel → Heap → Heap
put p c h q = if p == q then c else h q

unfoldable pub find : ℕ → Heap → Result Channel
find p h = elim (h p) [ none ↦ fault dangling | some c ↦ ok c ]

abbrev pub set_revents : Events → Channel → Channel
set_revents e c = record c { revents = e }

-- `fillActiveChannels`, over the events that `epoll_wait` returned.
unfoldable pub fill_active_channels : List EpollEvent → Heap × List ℕ → Result (Heap × List ℕ)
unfolding find
fill_active_channels [] s = ok s
fill_active_channels ((p, e) ∷ es) (h, active) =
    find p h >>= λ c. fill_active_channels es (put p (some (set_revents e c)) h, active ++ p ∷ [])

-- `epoll_wait`: -1, or the events that are ready.
pub data WaitOutcome : Type 0 where
  wait_failed : WaitOutcome
  ready : List EpollEvent → WaitOutcome

-- `Poll`: the room for events doubles when it was all used.
unfoldable pub poll : WaitOutcome → ℕ → Heap × List ℕ → Result (ℕ × (Heap × List ℕ))
unfolding fill_active_channels
poll wait_failed room s = ok (room, s)
poll (ready es) room s =
    fill_active_channels es s >>= λ s'. ok (if room == length es then length es * 2 else room, s')

abbrev pub init_events_num : ℕ
init_events_num = 255
