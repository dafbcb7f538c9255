-- ===== src/Sample/Tests.antt =====
-- A request for the greeting, and the theorem on test/main.cpp applied to it.
use rabbit_server.Prelude.{◌≡◌, [], ◌∷◌, not, ◌||◌, if◌then◌else◌, codes}
use rabbit_server.Vector.{doubling}
use rabbit_server.Http.Request.{HttpRequest, fresh, get}
use rabbit_server.Http.Server.{send, on_request, wants_close, close_connection}
use rabbit_server.Sample.Pages.{answer, is_known, on_request-Sampled}
use rabbit_server.Sample.{sample}

abbrev greeting_request : HttpRequest
greeting_request = record fresh { method = get; path = codes "/hello" }

on_request-Sampled_example :
    on_request doubling (sample 7) greeting_request
    ≡ send (answer 7 (wants_close greeting_request) (codes "/hello"))
      ∷ (if not (is_known (codes "/hello")) || wants_close greeting_request
          then close_connection ∷ []
          else [])
on_request-Sampled_example = on_request-Sampled doubling 7 greeting_request
