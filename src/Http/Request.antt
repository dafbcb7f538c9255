-- ===== src/Http/Request.antt =====
-- HTTP/HttpRequest.h. A range of characters is the list of its bytes; a timestamp is its number of
-- microseconds.
pub mod Headers
use mathlib.Core.List.{reverse}
use rabbit_server.Prelude.{
  ℕ, ◌+◌, Bool, true, false, Option, none, some, List, [], ◌∷◌, if◌then◌else◌, Bytes, codes, equal,
  is_space, drop, Result, ok, fault, assertion,
}
use rabbit_server.Dict.{Dict, insert, lookup}

pub data Method : Type 0 where
  invalid get post head put delete : Method

pub data Version : Type 0 where
  unknown http10 http11 : Version

pub record HttpRequest : Type 0 where
  pub method : Method
  pub version : Version
  pub path : Bytes
  pub query : Bytes
  pub receive_time : ℕ
  pub headers : Dict Bytes

-- The constructor.
abbrev pub fresh : HttpRequest
fresh = record {
  method = invalid;
  version = unknown;
  path = [];
  query = [];
  receive_time = 0;
  headers = [];
}

abbrev pub set_version : Version → HttpRequest → HttpRequest
set_version v r = record r { version = v }

abbrev pub set_path : Bytes → HttpRequest → HttpRequest
set_path path r = record r { path = path }

abbrev pub set_query : Bytes → HttpRequest → HttpRequest
set_query query r = record r { query = query }

abbrev pub set_receive_time : ℕ → HttpRequest → HttpRequest
set_receive_time t r = record r { receive_time = t }

unfoldable pub method_of : Bytes → Method
method_of m =
    if equal m (codes "GET")
    then get
    else if equal m (codes "POST")
    then post
    else if equal m (codes "HEAD")
    then head
    else if equal m (codes "PUT")
    then put
    else if equal m (codes "DELETE")
    then delete
    else invalid

abbrev pub is_valid : Method → Bool
is_valid invalid = false
is_valid _ = true

-- `setMethod`. Its `assert` wants that no method was set before.
unfoldable pub set_method : Bytes → HttpRequest → Result (Bool × HttpRequest)
set_method m r =
    if is_valid r.method
    then fault assertion
    else ok (is_valid (method_of m), record r { method = method_of m })

unfoldable pub method_string : Method → Bytes
method_string invalid = codes "UNKNOWN"
method_string get = codes "GET"
method_string post = codes "POST"
method_string head = codes "HEAD"
method_string put = codes "PUT"
method_string delete = codes "DELETE"

-- `while (colon < end && isspace(*colon)) ++colon`.
unfoldable pub skip_spaces : Bytes → Bytes
skip_spaces [] = []
skip_spaces (c ∷ cs) = if is_space c then skip_spaces cs else c ∷ cs

-- The second loop resizes the value from its end.
unfoldable pub trim : Bytes → Bytes
trim value = reverse (skip_spaces (reverse (skip_spaces value)))

-- `addHeader(start, colon, end)`: the field before the colon, and the bytes behind it.
unfoldable pub add_header : Bytes → Bytes → HttpRequest → HttpRequest
add_header field value r = record r { headers = insert field (trim value) r.headers }

-- `getHeader`: empty for a field that is not there.
unfoldable pub get_header : Bytes → HttpRequest → Bytes
get_header field r = elim (lookup field r.headers) [ none ↦ [] | some value ↦ value ]

-- `swap(that)`, as it leaves this request: the version stays, and so does nothing else.
unfoldable pub swap : HttpRequest → HttpRequest → HttpRequest
swap this that = record this {
  method = that.method;
  path = that.path;
  query = that.query;
  receive_time = that.receive_time;
  headers = that.headers;
}
