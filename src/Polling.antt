-- ===== src/Polling.antt =====
-- engineio/transport/polling: what a connection of the polling transport answers to each request, and the
-- client's loops of requests. `FeedIn`, `FlushOut`, `Store` and the HTTP client answer with what the
-- arguments say; `mime.ParseMediaType` is a parameter.
pub mod Timestamp
pub mod Loops
pub mod Headers
use go_socket_io.Prelude.{
  ℕ, ◌+◌, Bool, true, false, not, Option, none, some, List, [], ◌∷◌, ◌++◌, Bytes, if◌then◌else◌,
  bytes_eq, ◌==◌, ℕ-Eq,
}
use go_socket_io.Prelude.Dict.{has_value}
use go_socket_io.Packet.{PacketType, open_packet}
use go_socket_io.Reader.{Err}

-- `application/octet-stream`, `text/plain` and `utf-8`
pub record MimeNames : Type 0 where
  pub octet_stream : Bytes
  pub text_plain : Bytes
  pub utf_8 : Bytes

-- `mimeIsSupportBinary`: `none` for an error. `parse` gives the type and the charset in small letters, which is
-- empty where there is none.
unfoldable pub mime_is_support_binary :
    MimeNames → (Bytes → Option (Bytes × Bytes)) → Bytes → Option Bool
mime_is_support_binary names parse mime = elim (parse mime) [
  | none ↦ none
  | some parsed ↦
      if bytes_eq parsed.0 names.octet_stream
      then some true
      else if bytes_eq parsed.0 names.text_plain
      then (if bytes_eq parsed.1 names.utf_8 then some false else none)
      else none
]

pub data Method : Type 0 where
  options get post other_method : Method

-- A request, its content type's answer, and what `FlushOut` and `FeedIn` answer.
pub record Request : Type 0 where
  pub method : Method
  pub jsonp : Bytes
  pub is_support_binary : Option Bool
  pub flushed : Option Err
  pub fed : Option Err

pub data Content : Type 0 where
  javascript binary_content plain_text : Content

pub data Effect : Type 0 where
  headers_set : Effect
  content_type : Content → Effect
  flushed_out : Effect
  fed_in : Bool → Effect
  -- The content that was flushed, in a call of the function of that number.
  wrapped : Bytes → Effect
  ok_written : Effect
  -- `WriteHeader(200)`, and `http.Error`
  status : ℕ → Effect

is_empty : Bytes → Bool
is_empty [] = true
is_empty (b ∷ bs) = false

-- `newServerConn`: whether the connection sends binary packets as they are; `b64` is the query's.
unfoldable pub new_server_conn : Bytes → Bytes → Bool
unfolding is_empty
new_server_conn jsonp b64 = if is_empty jsonp then is_empty b64 else false

-- `serverConn.ServeHTTP`
unfoldable pub serve_http : Bool → Request → List Effect
unfolding is_empty
serve_http support_binary r = elim r.method [
  | options ↦ if is_empty r.jsonp then headers_set ∷ status 200 ∷ [] else []
  | get ↦
      if not (is_empty r.jsonp)
      then headers_set
        ∷ flushed_out
        ∷ (if has_value r.flushed
            then status 500 ∷ []
            else content_type javascript ∷ wrapped r.jsonp ∷ [])
      else headers_set
        ∷ content_type (if support_binary then binary_content else plain_text)
        ∷ flushed_out
        ∷ (if has_value r.flushed then status 500 ∷ [] else [])
  | post ↦ headers_set ∷ elim r.is_support_binary [
    | none ↦ status 400 ∷ []
    | some binary ↦ fed_in binary ∷ (if has_value r.fed then status 400 ∷ [] else ok_written ∷ [])
  ]
  | other_method ↦ status 400 ∷ []
]
