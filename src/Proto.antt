-- ===== src/Proto.antt =====
-- src/proto.rs: the messages of the PostgreSQL protocol that the client sends and reads. The digest
-- MD5 comes from a package, so it is a parameter: the digest of some bytes in hexadecimal.
pub mod Frame
use pgr.Prelude.{
  ℕ, suc, ◌+◌, ◌%◌, ◌^◌, Bool, true, false, ◌&&◌, not, Option, none, some, List, [], ◌∷◌, ◌++◌,
  Bytes, length, take, drop, to_be, from_be, ltb, ◌==◌, if◌then◌else◌, codes, zero,
}
use pgr.Utf8.{from_utf8_lossy}

abbrev pub f_proto_version : ℕ
f_proto_version = 196608

abbrev pub f_password_message : ℕ
f_password_message = b'p'

abbrev pub f_parse : ℕ
f_parse = b'P'

abbrev pub f_bind : ℕ
f_bind = b'B'

abbrev pub f_execute : ℕ
f_execute = b'E'

abbrev pub f_close : ℕ
f_close = b'C'

abbrev pub f_sync : ℕ
f_sync = b'S'

abbrev pub f_query : ℕ
f_query = b'Q'

abbrev pub f_terminate : ℕ
f_terminate = b'X'

abbrev pub b_auth_request : ℕ
b_auth_request = b'R'

abbrev pub b_parameter_status : ℕ
b_parameter_status = b'S'

abbrev pub b_backend_key_data : ℕ
b_backend_key_data = b'K'

abbrev pub b_error : ℕ
b_error = b'E'

abbrev pub b_notice : ℕ
b_notice = b'N'

abbrev pub b_ready_for_query : ℕ
b_ready_for_query = b'Z'

pub record ErrorFields : Type 0 where
  pub severity : Option Bytes
  pub code : Option Bytes
  pub message : Option Bytes
  pub detail : Option Bytes
  pub hint : Option Bytes

abbrev pub no_fields : ErrorFields
no_fields = record { severity = none; code = none; message = none; detail = none; hint = none }

-- An i32 is its 32 bits.
pub data Authentication : Type 0 where
  auth_ok : Authentication
  cleartext : Authentication
  md5 : (salt : Bytes) → Authentication
  unsupported : (code : ℕ) → Authentication

pub data BackendMessage : Type 0 where
  authentication : Authentication → BackendMessage
  parameter_status : (name value : Bytes) → BackendMessage
  backend_key_data : (pid secret : ℕ) → BackendMessage
  ready_for_query : BackendMessage
  error_response : ErrorFields → BackendMessage
  notice_response : BackendMessage
  other : (tag : ℕ) (frame : Bytes) → BackendMessage

-- The tag and the length of the frame that the buffer starts with, if it holds the whole frame. The
-- four bytes behind the tag count themselves and the rest.
unfoldable pub try_read_frame : Bytes → Option (ℕ × ℕ)
try_read_frame (t ∷ l1 ∷ l2 ∷ l3 ∷ l4 ∷ rest) =
    let frame_len = 1 + from_be 0 (l1 ∷ l2 ∷ l3 ∷ l4 ∷ []) in
    if ltb (5 + length rest) frame_len then none else some (t, frame_len)
try_read_frame _ = none

-- `position(|&b| b == 0).unwrap_or(len)`
unfoldable pub position_zero : Bytes → ℕ
position_zero [] = 0
position_zero (b ∷ bs) = if b == 0 then 0 else suc (position_zero bs)

unfoldable pub read_cstr : Bytes → Bytes × Bytes
read_cstr buf =
    let pos = position_zero buf in
    (
      from_utf8_lossy (take pos buf),
      if ltb pos (length buf) then drop (pos + 1) buf else drop pos buf,
    )

-- The match on the type of a field.
unfoldable pub set_field : ErrorFields → ℕ → Bytes → ErrorFields
set_field fields field_type val =
    if field_type == b'S'
    then record fields { severity = some val }
    else if field_type == b'C'
    then record fields { code = some val }
    else if field_type == b'M'
    then record fields { message = some val }
    else if field_type == b'D'
    then record fields { detail = some val }
    else if field_type == b'H'
    then record fields { hint = some val }
    else fields

-- The loop over the fields: a round reads at least one byte, so as many rounds as bytes suffice.
unfoldable pub error_fields_loop : ℕ → Bytes → ErrorFields → ErrorFields
error_fields_loop zero buf fields = fields
error_fields_loop (suc fuel) [] fields = fields
error_fields_loop (suc fuel) (b ∷ buf) fields =
    let later = error_fields_loop fuel (read_cstr buf).1 (set_field fields b (read_cstr buf).0) in
    if b == 0 then fields else later

unfoldable pub parse_error_fields : Bytes → ErrorFields
parse_error_fields buf = error_fields_loop (length buf) buf no_fields

-- The match on the code of an authentication request, with the bytes behind the code.
unfoldable pub parse_auth : ℕ → Bytes → Option BackendMessage
parse_auth code rest =
    if code == 0
    then some (authentication auth_ok)
    else if code == 3
    then some (authentication cleartext)
    else if code == 5
    then (if ltb (length rest) 4 then none else some (authentication (md5 (take 4 rest))))
    else some (authentication (unsupported code))

-- `none` is the error of a message that is too short.
unfoldable pub parse_message : ℕ → Bytes → Option BackendMessage
parse_message tag body =
    if tag == b_auth_request
    then (if ltb (length body) 4 then none else parse_auth (from_be 0 (take 4 body)) (drop 4 body))
    else if tag == b_parameter_status
    then some (parameter_status (read_cstr body).0 (read_cstr (read_cstr body).1).0)
    else if tag == b_backend_key_data
    then (if ltb (length body) 8
        then none
        else some (backend_key_data (from_be 0 (take 4 body)) (from_be 0 (take 4 (drop 4 body)))))
    else if tag == b_ready_for_query
    then some ready_for_query
    else if tag == b_error
    then some (error_response (parse_error_fields body))
    else if tag == b_notice
    then some notice_response
    else some (other tag body)

abbrev pub terminate_msg : Bytes
terminate_msg = f_terminate ∷ 0 ∷ 0 ∷ 0 ∷ 4 ∷ []

-- The loop over the parameters.
unfoldable pub startup_params : List (Bytes × Bytes) → Bytes
startup_params [] = []
startup_params ((k, v) ∷ params) = k ++ (0 ∷ v ++ (0 ∷ startup_params params))

-- The length is an i32 sum, which wraps.
unfoldable pub encode_startup : List (Bytes × Bytes) → Bytes
encode_startup params =
    let body = to_be 4 f_proto_version ++ (startup_params params ++ 0 ∷ []) in
    to_be 4 ((4 + length body) % 2 ^ 32) ++ body

unfoldable pub encode_password : Bytes → Bytes
encode_password pass =
    f_password_message ∷ to_be 4 ((4 + length pass + 1) % 2 ^ 32) ++ (pass ++ 0 ∷ [])

module _ (md5_hex : Bytes → Bytes) where
  unfoldable pub hash_md5_password : Bytes → Bytes → Bytes → Bytes
  hash_md5_password user pass salt = codes "md5" ++ md5_hex (md5_hex (pass ++ user) ++ salt)

-- The parts that `Display` joins, each with its name.
unfoldable pub shown_part : Bytes → Option Bytes → List Bytes
shown_part name none = []
shown_part name (some s) = (name ++ s) ∷ []

unfoldable pub join : Bytes → List Bytes → Bytes
join separator [] = []
join separator (p ∷ []) = p
join separator (p ∷ q ∷ ps) = p ++ (separator ++ join separator (q ∷ ps))

unfoldable pub fmt : ErrorFields → Bytes
fmt e = join (codes ", ") (
    shown_part (codes "severity=") e.severity
    ++ (shown_part (codes "code=") e.code
        ++ (shown_part (codes "message=") e.message
            ++ (shown_part (codes "detail=") e.detail ++ shown_part (codes "hint=") e.hint))))
