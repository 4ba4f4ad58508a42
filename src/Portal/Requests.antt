-- ===== src/Portal/Requests.antt =====
-- net/wifi_portal.c: `post_handler`, which gathers the body of a request in one buffer, checks the
-- header that authorizes it, and calls the endpoint.
use oskey_firmware.Prelude.{
  ℕ, ◌+◌, ◌-◌, Bool, true, false, ◌&&◌, ◌||◌, Option, none, some, List, [], ◌∷◌, ◌++◌,
  if◌then◌else◌, ltb, leb, length, take, drop, replicate, map, Code, value, fail, enomem, codes,
}
use oskey_firmware.Media.Card.{same_text}
use oskey_firmware.Portal.Endpoints.{
  Transaction, aborted, complete, more_data, final_data, HttpStatus, forbidden, body_max,
}

-- `enum http_header_status`
pub data HeaderStatus : Type 0 where
  headers_none headers_ok headers_dropped : HeaderStatus

-- `struct http_request_ctx`: the headers captured with this part of the body, and the part.
pub record Part : Type 0 where
  pub status : HeaderStatus
  pub headers : List (List ℕ × List ℕ)
  pub bytes : List ℕ

abbrev pub is_headed : HeaderStatus → Bool
is_headed headers_none = false
is_headed _ = true

abbrev pub to_lower : ℕ → ℕ
to_lower c = if leb b'A' c && leb c b'Z' then c + 32 else c

-- `strcasecmp(a, b) == 0`
abbrev pub same_caseless : List ℕ → List ℕ → Bool
same_caseless a b = same_text (map to_lower a) (map to_lower b)

abbrev pub is_authorizing : List ℕ × List ℕ → Bool
is_authorizing (name, content) =
    same_caseless name (codes "X-OSKey-Request") && same_text content (codes "1")

abbrev pub any_authorizing : List (List ℕ × List ℕ) → Bool
any_authorizing [] = false
any_authorizing (h ∷ rest) = is_authorizing h || any_authorizing rest

-- `request_has_authorization`
unfoldable pub has_authorization : Part → Bool
has_authorization p = elim p.status [ headers_ok ↦ any_authorizing p.headers | _ ↦ false ]

-- `request_body`, `request_body_len` and `request_authorized`, and the state behind the endpoints.
pub record Portal (W : Type 0) : Type 0 where
  pub buffer : List ℕ
  pub len : ℕ
  pub authorized : Bool
  pub world : W

-- The `handle` of `struct post_endpoint`.
abbrev pub Handler : Type 0 → Type 0
Handler W = Transaction → List ℕ → W → HttpStatus × W

module _ {W : Type 0} where
  abbrev pub body : Portal W → List ℕ
  body s = take s.len s.buffer

  -- `request_body_reset`
  unfoldable pub body_reset : Portal W → Portal W
  body_reset s = record s { buffer = replicate s.len 0 ++ drop s.len s.buffer; len = 0 }

  -- `memcpy` behind the body, and its new length.
  unfoldable pub body_append : List ℕ → Portal W → Portal W
  body_append bytes s = record s {
    buffer = body s ++ bytes ++ drop (s.len + length bytes) s.buffer;
    len = s.len + length bytes;
  }

  abbrev pub forget : Portal W → Portal W
  forget s = record s { authorized = false }

  -- Where the headers come with this part, they decide.
  unfoldable pub authorize : Part → Portal W → Portal W
  authorize p s = if is_headed p.status then record s { authorized = has_authorization p } else s

module _ {W : Type 0} (handle : Handler W) where
  -- The end of a transaction.
  unfoldable pub post_end : Transaction → Portal W → Portal W
  unfolding body_reset
  post_end status s =
      let (answer, w) = handle status (body s) s.world in
      forget (body_reset (if s.authorized then record s { world = w } else s))

  -- The last part is in the buffer: the status of the response.
  unfoldable pub post_final : Portal W → HttpStatus × Portal W
  unfolding body_reset
  post_final s =
      let (answer, w) = handle final_data (body s) s.world in
      if s.authorized
      then (answer, body_reset (record s { world = w }))
      else (forbidden, body_reset s)

  -- A part that does not fit.
  unfoldable pub post_overflow : Portal W → Portal W
  unfolding body_reset
  post_overflow s =
      let (answer, w) = handle aborted (body s) s.world in
      forget (body_reset (record s { world = w }))

  -- `post_handler` for a part of the body.
  unfoldable pub post_part : Bool → Part → Portal W → Code × Option HttpStatus × Portal W
  unfolding post_final post_overflow body_append authorize
  post_part final p s =
      let t = authorize p s in
      let u = body_append p.bytes t in
      let (answer, v) = post_final u in
      if ltb (body_max - t.len) (length p.bytes)
      then (fail enomem, none, post_overflow t)
      else if final
      then (value 0, some answer, v)
      else (value 0, none, u)

  -- `post_handler`: its result, the status of the response if this is the last part, and the state.
  unfoldable pub post : Transaction → Part → Portal W → Code × Option HttpStatus × Portal W
  unfolding post_end post_part
  post aborted p s = (value 0, none, post_end aborted s)
  post complete p s = (value 0, none, post_end complete s)
  post more_data p s = post_part false p s
  post final_data p s = post_part true p s
