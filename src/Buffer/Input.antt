-- ===== src/Buffer/Input.antt =====
-- net/Buffer.cpp as the input of the request parser: `peek` and `retrieveUntill`.
use rabbit_server.Prelude.{ℕ, ◌≡◌, drop}
use rabbit_server.Buffer.Contents.{contents-retrieve}
use rabbit_server.Buffer.{Buffer, contents, retrieve_until}
use rabbit_server.Input.{Input}

pub contents-retrieve_until :
    (b : Buffer) (n : ℕ) → contents (retrieve_until b n).0 ≡ drop n (contents b)
unfolding retrieve_until
contents-retrieve_until b n = contents-retrieve b n

abbrev pub buffer_input : Input Buffer
buffer_input = record {
  bytes = contents;
  consume = λ b n. (retrieve_until b n).0;
  bytes-consume = contents-retrieve_until;
}
