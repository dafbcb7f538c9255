-- ===== src/Http/Tests/Connection.antt =====
-- A connection that is waiting for its first request, and the theorems on HTTP/HttpServer.cpp with
-- net/TcpConnection.cpp applied to it.
use rabbit_server.Prelude.{
  ℕ, ◌≡◌, ◌++◌, refl, arith, codes, length, inl, ◌∷◌, [], equal, sym, subst, decimal, ◌<◌, ◌^◌,
  length-replicate,
}
use rabbit_server.Dict.{lookup, insert}
use rabbit_server.Vector.{doubling, capacity}
use rabbit_server.Buffer.Contents.{init-IsValid}
use rabbit_server.Buffer.{contents, init, default_init_size}
use rabbit_server.Buffer.ReadFd.{Catches}
use rabbit_server.Net.Channel.{tie, enable_reading}
use rabbit_server.Http.Connection.KeepAlive.{
  Exchange, IsServable, AreServable, Conversed, converse-Conversed,
}
use rabbit_server.Http.Connection.Sent.{IsIdle, response_to}
use rabbit_server.Http.Connection.Served.{Served, handle_readable-Served, closing-Served}
use rabbit_server.Http.Context.Message.{print}
use rabbit_server.Http.Request.{unknown, method_string, get_header}
use rabbit_server.Http.Response.Render.{head_text, render}
use rabbit_server.Http.Response.{status_line, content_length, head_pieces}
use rabbit_server.Http.Server.{HttpCallback, default_http_callback, wants_close}
use rabbit_server.Http.Tests.{hello, hello-IsWellFormed}
use rabbit_server.Net.Connection
use rabbit_server.Net.Connection.{
  TcpConnection, WriteOutcome, written, write_failed, new_connection, connection_establish,
}
use rabbit_server.Net.Connection.Carries.{wire}
use rabbit_server.Net.Connection.Closing.{Closed, closing}

abbrev waiting : TcpConnection
waiting = (connection_establish (new_connection (codes "Tcp#0") 5)).0

waiting-IsIdle : IsIdle waiting
unfolding connection_establish new_connection init tie enable_reading
waiting-IsIdle = record {
  up = refl;
  watched = record { begun = refl; waits = λ _. refl; flag = refl; drains = λ e. cc };
  in_valid = init-IsValid default_init_size;
  out_valid = init-IsValid default_init_size;
  all_sent = refl;
  in_size = omega arith;
}

waiting-Catches : Catches waiting.in_buffer (print hello [])
unfolding connection_establish new_connection init method_string
waiting-Catches = inl (omega (arith, length-replicate {A = ℕ} 1024 0))

waiting_bytes : contents waiting.in_buffer ++ print hello [] ≡ print hello []
unfolding connection_establish new_connection init
waiting_bytes = refl

waiting_empty : contents waiting.in_buffer ≡ []
unfolding connection_establish new_connection init
waiting_empty = refl

waiting_front : waiting.in_buffer.write_index ≡ 0
unfolding connection_establish new_connection init
waiting_front = refl

hello-long : 0 < length (print hello [])
unfolding method_string
hello-long = omega arith

abbrev ten : ℕ → WriteOutcome
ten n = written 10

hello-head : length (head_text (response_to default_http_callback 7 hello)) ≡ 45
unfolding head_pieces status_line content_length decimal default_http_callback wants_close
    get_header
hello-head = refl

hello-body : length (response_to default_http_callback 7 hello).body < 2 ^ 31
unfolding default_http_callback
hello-body = omega arith

hello-render : length (render (response_to default_http_callback 7 hello)) ≡ 45
unfolding head_pieces status_line content_length decimal default_http_callback wants_close
    get_header
hello-render = refl

handle_readable-Served_example :
    Served doubling default_http_callback 7 ten unknown hello waiting (print hello [])
handle_readable-Served_example =
    handle_readable-Served doubling default_http_callback 7 ten unknown hello waiting
      (print hello []) waiting-IsIdle hello-IsWellFormed waiting_bytes hello-long waiting-Catches
      (omega (arith, hello-head)) hello-body

closing-Served_example :
    Closed (
      Connection.run doubling handle_readable-Served_example.connection
        (closing (written 1000 ∷ [])))
    × (wire handle_readable-Served_example.effects
          ++ wire
              (Connection.run doubling handle_readable-Served_example.connection
                (closing (written 1000 ∷ []))).1
        ≡ render (response_to default_http_callback 7 hello))
closing-Served_example =
    closing-Served doubling default_http_callback 7 ten unknown hello waiting (print hello [])
      handle_readable-Served_example (written 1000 ∷ []) (omega (arith, hello-render))

-- A callback that keeps the connection.
abbrev say_hi : HttpCallback
say_hi request response = record response { body = codes "hi" }

abbrev exchange : ℕ → Exchange
exchange now = record { message = hello; now = now; outcomes = ten; ready = written 100 ∷ [] }

exchange-IsServable : (now : ℕ) → IsServable say_hi 1024 (exchange now)
unfolding head_pieces status_line content_length decimal wants_close get_header method_string equal
    lookup insert
exchange-IsServable now = record {
  well_formed = hello-IsWellFormed;
  fits = omega arith;
  keeps = refl;
  head = omega arith;
  body = omega arith;
  taken = omega arith;
}

waiting_room : capacity waiting.in_buffer.buffer ≡ 1024
unfolding connection_establish new_connection init
waiting_room = length-replicate {A = ℕ} 1024 0

converse-Conversed_example :
    Conversed doubling say_hi unknown waiting (exchange 7 ∷ exchange 8 ∷ [])
converse-Conversed_example =
    converse-Conversed doubling say_hi unknown waiting (exchange 7 ∷ exchange 8 ∷ []) waiting-IsIdle
      waiting_empty waiting_front
      (subst (λ n. AreServable say_hi n (exchange 7 ∷ exchange 8 ∷ [])) (sym waiting_room)
        (exchange-IsServable 7, (exchange-IsServable 8, tt)))
