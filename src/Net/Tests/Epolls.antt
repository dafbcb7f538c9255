-- ===== src/Net/Tests/Epolls.antt =====
-- An epoll instance for the theorems on net/: the function from descriptors to what it holds.
use rabbit_server.Prelude.{ℕ, ◌≡◌, ◌≢◌, ap, ◌∙◌, Option, none, some, arith, ◌==◌, if◌then◌else◌}
use rabbit_server.Net.Poller.{Epoll, EpollEvent, Operation, add, del, mod'}

abbrev pub Table : Type 0
Table = ℕ → Option EpollEvent

abbrev keep_or : Option EpollEvent → EpollEvent → Option EpollEvent
keep_or none e = some e
keep_or (some old) e = some old

abbrev replaced : Option EpollEvent → EpollEvent → Option EpollEvent
replaced none e = none
replaced (some old) e = some e

abbrev table_ctl : Operation → ℕ → EpollEvent → Table → Table
table_ctl add fd e k j = if fd == j then keep_or (k fd) e else k j
table_ctl mod' fd e k j = if fd == j then replaced (k fd) e else k j
table_ctl del fd e k j = if fd == j then none else k j

pub table_other :
    (k : Table) (o : Operation) (fd j : ℕ) (e : EpollEvent) → fd ≢ j → table_ctl o fd e k j ≡ k j
table_other k add fd j e n = ground (arith, n)
table_other k mod' fd j e n = ground (arith, n)
table_other k del fd j e n = ground (arith, n)

pub table_same : (fd : ℕ) (o p : Option EpollEvent) → (if fd == fd then o else p) ≡ o
table_same fd o p = ground arith

unfoldable pub table : Epoll Table
table = record {
  interest = λ k. k;
  ctl = table_ctl;
  interest-add = λ k fd e h. table_same fd (keep_or (k fd) e) (k fd) ∙ ap (λ o. keep_or o e) h;
  interest-add_again =
      λ k fd e old h. table_same fd (keep_or (k fd) e) (k fd) ∙ ap (λ o. keep_or o e) h;
  interest-mod =
      λ k fd e old h. table_same fd (replaced (k fd) e) (k fd) ∙ ap (λ o. replaced o e) h;
  interest-mod_absent =
      λ k fd e h. table_same fd (replaced (k fd) e) (k fd) ∙ ap (λ o. replaced o e) h;
  interest-del = λ k fd e. table_same fd none (k fd);
  interest-other = table_other;
}
