-- ===== src/Polling/Headers.antt =====
-- `SetHeaders` of engineio/transport/polling/server.go: the headers of a response for a request from another origin.
use go_socket_io.Prelude.{
  ◌≡◌, Bool, true, false, not, ◌&&◌, ◌||◌, Option, none, some, [], ◌∷◌, Bytes, if◌then◌else◌, ◌==◌,
  arith, bytes_eq,
}

-- What the headers are made of: the query's `j`, the origin and the user agent, which are empty where they are missing.
pub record Asked : Type 0 where
  pub jsonp : Bytes
  pub origin : Bytes
  pub user_agent : Bytes

-- `X-XSS-Protection`, `Access-Control-Allow-Origin` and `Access-Control-Allow-Credentials`; `none` where one is not set.
pub record Headers : Type 0 where
  pub xss_protection : Option Bytes
  pub allow_origin : Option Bytes
  pub allow_credentials : Option Bytes

has_prefix : Bytes → Bytes → Bool
has_prefix [] bs = true
has_prefix (p ∷ ps) [] = false
has_prefix (p ∷ ps) (b ∷ bs) = p == b && has_prefix ps bs

-- `strings.Contains` of a text, with the part first.
contains : Bytes → Bytes → Bool
contains part [] = has_prefix part []
contains part (b ∷ bs) = has_prefix part (b ∷ bs) || contains part bs

-- ";MSIE" and "Trident/"
abbrev pub msie : Bytes
msie = 59 ∷ 77 ∷ 83 ∷ 73 ∷ 69 ∷ []

abbrev pub trident : Bytes
trident = 84 ∷ 114 ∷ 105 ∷ 100 ∷ 101 ∷ 110 ∷ 116 ∷ 47 ∷ []

-- "true"
abbrev pub true_text : Bytes
true_text = 116 ∷ 114 ∷ 117 ∷ 101 ∷ []

-- The transport's function, or else that of `Default`; both may be nil.
abbrev pub checked_by : Option (Asked → Bool) → Option (Asked → Bool) → Option (Asked → Bool)
checked_by none default = default
checked_by (some check) default = some check

abbrev pub passes : Option (Asked → Bool) → Asked → Bool
passes none r = false
passes (some check) r = check r

cross_origin : Asked → Headers → Headers
cross_origin r h =
    if not (bytes_eq r.jsonp [])
    then h
    else if bytes_eq r.origin []
    then record h { allow_origin = some (b'*' ∷ []) }
    else record h { allow_origin = some r.origin; allow_credentials = some true_text }

unfoldable pub set_headers : (transport default : Option (Asked → Bool)) → Asked → Headers → Headers
unfolding cross_origin contains has_prefix
set_headers transport default r h =
    let h' =
      if contains msie r.user_agent || contains trident r.user_agent
      then record h { xss_protection = some (b'0' ∷ []) }
      else h in
    if passes (checked_by transport default) r then cross_origin r h' else h'

-- Credentials are allowed to a response, whose headers did not say so, exactly if the check of origins, that of the transport
-- or else of `Default`, is there and passes the request, which is no JSONP request and names its origin; and then
-- they are allowed to that origin alone. Without a check that passes, no origin is allowed that was not before.
pub set_headers_lem :
    (transport default : Option (Asked → Bool)) (r : Asked) (h : Headers)
    → h.allow_credentials ≡ none
    → let h' = set_headers transport default r h in
      let trusted =
        passes (checked_by transport default) r
        && bytes_eq r.jsonp []
        && not (bytes_eq r.origin []) in
      (h'.allow_credentials ≡ (if trusted then some true_text else none))
      × (trusted ≡ true → h'.allow_origin ≡ some r.origin)
      × (passes (checked_by transport default) r ≡ false → h'.allow_origin ≡ h.allow_origin)
unfolding set_headers cross_origin
set_headers_lem transport default r h e = ground arith
