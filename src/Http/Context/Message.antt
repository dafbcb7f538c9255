-- ===== src/Http/Context/Message.antt =====
-- Requests as a client writes them, and the contexts that HTTP/HttpContext.cpp has before and behind them.
use rabbit_server.Prelude.{ℕ, ◌≡◌, ◌≢◌, true, List, [], ◌∷◌, ◌++◌, Bytes, codes, Lacks}
use rabbit_server.Dict.{Dict, insert}
use rabbit_server.Http.Request.Headers.{IsTrimmed}
use rabbit_server.Http.Request.{
  Method, Version, unknown, http10, http11, fresh, is_valid, method_string,
}
use rabbit_server.Http.Context.{expect_request_line, got_all, HttpContext}

-- A request as a client states it.
pub record Message : Type 0 where
  pub method : Method
  pub path : Bytes
  pub query : Bytes
  pub version : Version
  pub fields : List (Bytes × Bytes)

abbrev pub version_text : Version → Bytes
version_text http11 = codes "HTTP/1.1"
version_text http10 = codes "HTTP/1.0"
version_text unknown = codes "HTTP/0.9"

abbrev pub request_line : Message → Bytes
request_line m =
    method_string m.method ++ (b' ' ∷ ((m.path ++ m.query) ++ (b' ' ∷ version_text m.version)))

abbrev pub field_line : Bytes → Bytes → Bytes
field_line key value = key ++ (b':' ∷ b' ' ∷ value)

abbrev pub print_fields : List (Bytes × Bytes) → Bytes → Bytes
print_fields [] rest = b'\r' ∷ b'\n' ∷ rest
print_fields ((key, value) ∷ fs) rest =
    field_line key value ++ (b'\r' ∷ b'\n' ∷ print_fields fs rest)

-- The bytes on the wire, and what comes behind them.
abbrev pub print : Message → Bytes → Bytes
print m rest = request_line m ++ (b'\r' ∷ b'\n' ∷ print_fields m.fields rest)

abbrev pub IsQuery : Bytes → Type 0
IsQuery [] = Unit {0}
IsQuery (c ∷ cs) = (c ≡ b'?') × Lacks b' ' cs × Lacks b'\r' cs

abbrev pub AreFields : List (Bytes × Bytes) → Type 0
AreFields [] = Unit {0}
AreFields ((key, value) ∷ fs) =
    (Lacks b':' key × Lacks b'\r' key × Lacks b'\r' value × IsTrimmed value) × AreFields fs

pub record IsWellFormed (m : Message) : Type 0 where
  pub method_valid : is_valid m.method ≡ true
  pub version_known : m.version ≢ unknown
  pub path_no_space : Lacks b' ' m.path
  pub path_no_question : Lacks b'?' m.path
  pub path_no_return : Lacks b'\r' m.path
  pub query_ok : IsQuery m.query
  pub fields_ok : AreFields m.fields

abbrev pub insert_all : List (Bytes × Bytes) → Dict Bytes → Dict Bytes
insert_all [] d = d
insert_all ((key, value) ∷ fs) d = insert_all fs (insert key value d)

-- A context before a request: only the version may be left of an earlier one.
abbrev pub start : Version → HttpContext
start v = record { state = expect_request_line; request = record fresh { version = v } }

-- The context that the request leads to.
abbrev pub complete_with : ℕ → Message → HttpContext
complete_with now m = record {
  state = got_all;
  request = record {
    method = m.method;
    version = m.version;
    path = m.path;
    query = m.query;
    receive_time = now;
    headers = insert_all m.fields [];
  };
}
