-- ===== src/Http/Response.antt =====
-- HTTP/HttpResponse.h and HTTP/HttpResponse.cpp.
pub mod Render
use rabbit_server.Prelude.{
  ℕ, ◌+◌, Bool, true, false, List, [], ◌∷◌, ◌++◌, if◌then◌else◌, Bytes, codes, length, take,
  decimal,
}
use rabbit_server.Dict.{Dict, insert}
use rabbit_server.Vector.{Allocator}
use rabbit_server.Buffer.{Buffer, append}

pub data StatusCode : Type 0 where
  unknown ok moved_permanently bad_request not_found : StatusCode

abbrev pub code_of : StatusCode → ℕ
code_of unknown = 0
code_of ok = 200
code_of moved_permanently = 301
code_of bad_request = 400
code_of not_found = 404

pub record HttpResponse : Type 0 where
  pub headers : Dict Bytes
  pub status_code : StatusCode
  pub status_message : Bytes
  pub close_connection : Bool
  pub body : Bytes

-- The constructor.
abbrev pub new_response : Bool → HttpResponse
new_response close = record {
  headers = [];
  status_code = unknown;
  status_message = [];
  close_connection = close;
  body = [];
}

abbrev pub set_status_code : StatusCode → HttpResponse → HttpResponse
set_status_code code r = record r { status_code = code }

abbrev pub set_status_message : Bytes → HttpResponse → HttpResponse
set_status_message message r = record r { status_message = message }

abbrev pub set_close_connection : Bool → HttpResponse → HttpResponse
set_close_connection on r = record r { close_connection = on }

abbrev pub set_body : Bytes → HttpResponse → HttpResponse
set_body body r = record r { body = body }

unfoldable pub add_header : Bytes → Bytes → HttpResponse → HttpResponse
add_header key value r = record r { headers = insert key value r.headers }

unfoldable pub set_content_type : Bytes → HttpResponse → HttpResponse
unfolding add_header
set_content_type content_type r = add_header (codes "Content-Type") content_type r

-- `snprintf` into `char buf[32]`: 31 bytes and the terminator.
abbrev pub snprintf32 : Bytes → Bytes
snprintf32 s = take 31 s

abbrev pub crlf : Bytes
crlf = codes "\r\n"

unfoldable pub status_line : HttpResponse → Bytes
status_line r = codes "HTTP/1.1 " ++ (decimal (code_of r.status_code) ++ codes " ")

unfoldable pub content_length : HttpResponse → Bytes
content_length r = codes "Content-Length: " ++ (decimal (length r.body) ++ crlf)

-- The strings that one entry of the map appends.
abbrev pub header_pieces : Dict Bytes → List Bytes
header_pieces [] = []
header_pieces ((key, value) ∷ m) = key ∷ codes ": " ∷ value ∷ crlf ∷ header_pieces m

abbrev pub connection_pieces : HttpResponse → List Bytes
connection_pieces r =
    if r.close_connection
    then codes "Connection: close\r\n" ∷ []
    else snprintf32 (content_length r) ∷ codes "Connection: Keep-Alive\r\n" ∷ []

-- What `appendToBuffer` appends in front of the body, a string for each call of `append`.
unfoldable pub head_pieces : HttpResponse → List Bytes
head_pieces r =
    snprintf32 (status_line r)
    ∷ r.status_message
    ∷ crlf
    ∷ (connection_pieces r ++ (header_pieces r.headers ++ (crlf ∷ [])))

abbrev pub append_all : Allocator → Buffer → List Bytes → Buffer
append_all a b [] = b
append_all a b (s ∷ ss) = append_all a (append a b s) ss

unfoldable pub append_to_buffer : Allocator → HttpResponse → Buffer → Buffer
append_to_buffer a r b = append a (append_all a b (head_pieces r)) r.body
