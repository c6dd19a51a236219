-- ===== src/Client.antt =====
-- internal/client/client.go: the client of the HTTP API. The network is an argument, a function from a
-- request to the response, and so are encoding/json, net/url and bufio.Scanner. A body is its text.
pub mod Streaming
pub mod RoundTrip
use Prim.Native.String.{◌++◌ as str_append}
use web_sandbox.Common.Decimal.{itoa}
use web_sandbox.Guest.Stream.{ExecEvent}
use web_sandbox.Guest.Exec.{ExecRequest, ExecResult}
use web_sandbox.Registry.Types.{Sandbox, PortMapping}
use web_sandbox.Common.{
  Bool, List, Option, Result, String, [], err, false, if◌then◌else◌, leb, ltb, length, nat_eq, none,
  ok, some, true, ℕ, ◌++◌, ◌==◌, ◌∷◌, ℤ, pos, negsuc, Eq-String, Eq-ℕ,
}

-- Client: where it sends its requests, and the bearer that it presents, if any.
pub record Client : Type 0 where
  pub base_url : String
  pub ws_url : String
  pub token : String

-- New and NewHTTP
unfoldable pub new_unix : Client
new_unix = record { base_url = "http://unix"; ws_url = "ws://sandbox"; token = "" }

unfoldable pub new_http : String → String → Client
new_http addr token = record {
  base_url = str_append "http://" addr;
  ws_url = str_append "ws://" addr;
  token = token;
}

pub record Request : Type 0 where
  pub method : String
  pub url : String
  pub authorization : Option String
  pub body : Option String

pub record Response : Type 0 where
  pub status : ℕ
  pub status_text : String
  pub body : String

-- What a call reports instead of a value.
pub data CallError : Type 0 where
  unreachable : CallError
  server : String → CallError
  undecodable : CallError

-- The network; `none` when no response came.
abbrev pub Net : Type 0
Net = Request → Option Response

-- encoding/json on the types of the API, url.Values.Encode, and the scan of a body into lines, with
-- whether it ended by an error.
pub record Codec : Type 0 where
  pub error_of : String → String
  pub sandbox : String → Option Sandbox
  pub sandboxes : String → Option (List Sandbox)
  pub mapping : String → Option PortMapping
  pub mappings : String → Option (List PortMapping)
  pub exec_result : String → Option ExecResult
  pub create_body : ℕ → String
  pub port_body : ℤ → String
  pub exec_body : ExecRequest → String
  pub query : List (String × String) → String
  pub scan : String → List (List ℕ) × Bool
  pub trim : List ℕ → List ℕ
  pub event : List ℕ → Option ExecEvent

unfoldable pub bearer : Client → Option String
bearer c = if c.token == "" then none else some (str_append "Bearer " c.token)

unfoldable pub new_request : Client → String → String → Option String → Request
unfolding bearer
new_request c method path body = record {
  method = method;
  url = str_append c.base_url path;
  authorization = bearer c;
  body = body;
}

-- The message of an error response: its `error` field, or its status.
unfoldable pub error_text : Codec → Response → String
error_text j r = let e = j.error_of r.body in if e == "" then r.status_text else e

unfoldable pub checked : Codec → Option Response → Result CallError Response
unfolding error_text
checked j none = err unreachable
checked j (some r) = if leb 400 r.status then err (server (error_text j r)) else ok r

-- doRaw
unfoldable pub do_raw :
    Codec → Net → Client → String → String → Option String → Result CallError Response
unfolding checked new_request
do_raw j net c method path body = checked j (net (new_request c method path body))

-- The end of do, for a call that has an answer. A response without content leaves it empty.
unfoldable pub decoded :
    {A : Type 0} → A → (String → Option A) → Result CallError Response → Result CallError A
decoded empty decode (err e) = err e
decoded empty decode (ok r) =
    if nat_eq r.status 204
    then ok empty
    else (elim (decode r.body) [ none ↦ err undecodable | some a ↦ ok a ])

abbrev pub forgotten : {A : Type 0} → Result CallError A → Result CallError (Unit {0})
forgotten (ok a) = ok tt
forgotten (err e) = err e

abbrev pub sandboxes_path : String → String → String
sandboxes_path id rest = str_append "/sandboxes/" (str_append id rest)

unfoldable pub file_path : Codec → String → String → String → String
file_path j id endpoint path =
    let q = if path == "" then [] else (("path", path) ∷ []) in
    sandboxes_path id (str_append "/" (str_append endpoint (str_append "?" (j.query q))))

module _ (j : Codec) (net : Net) (c : Client) where
  -- The body is sent only with a time limit above 0. `zero_` is Go's zero value of the answer.
  create_body_of : ℤ → Option String
  create_body_of (pos n) = if ltb 0 n then some (j.create_body n) else none
  create_body_of (negsuc n) = none

  unfoldable pub create : Sandbox → ℤ → Result CallError Sandbox
  unfolding decoded do_raw create_body_of
  create zero_ limit =
      decoded zero_ j.sandbox (do_raw j net c "POST" "/sandboxes" (create_body_of limit))

  unfoldable pub list : Result CallError (List Sandbox)
  unfolding decoded do_raw
  list = decoded [] j.sandboxes (do_raw j net c "GET" "/sandboxes" none)

  unfoldable pub get : Sandbox → String → Result CallError Sandbox
  unfolding decoded do_raw
  get zero_ id = decoded zero_ j.sandbox (do_raw j net c "GET" (sandboxes_path id "") none)

  unfoldable pub destroy : String → Result CallError (Unit {0})
  unfolding do_raw
  destroy id = forgotten (do_raw j net c "DELETE" (sandboxes_path id "") none)

  unfoldable pub exec : ExecResult → String → ExecRequest → Result CallError ExecResult
  unfolding decoded do_raw
  exec zero_ id req =
      decoded zero_ j.exec_result
        (do_raw j net c "POST" (sandboxes_path id "/exec") (some (j.exec_body req)))

  unfoldable pub expose_port : String → ℤ → Result CallError PortMapping
  unfolding decoded do_raw
  expose_port id guest_port =
      decoded (record { guest_port = 0; host_port = 0 }) j.mapping
        (do_raw j net c "POST" (sandboxes_path id "/ports") (some (j.port_body guest_port)))

  unfoldable pub list_ports : String → Result CallError (List PortMapping)
  unfolding decoded do_raw
  list_ports id = decoded [] j.mappings (do_raw j net c "GET" (sandboxes_path id "/ports") none)

  unfoldable pub read_file : String → String → Result CallError Response
  unfolding do_raw file_path
  read_file id path = do_raw j net c "GET" (file_path j id "files" path) none

  unfoldable pub write_file : String → String → String → Result CallError (Unit {0})
  unfolding do_raw file_path
  write_file id path body =
      forgotten (do_raw j net c "PUT" (file_path j id "files" path) (some body))

  unfoldable pub list_dir :
      {A : Type 0} → (String → Option (List A)) → String → String → Result CallError (List A)
  unfolding decoded do_raw file_path
  list_dir entries id path =
      decoded [] entries (do_raw j net c "GET" (file_path j id "dir" path) none)

-- The URL and the bearer that DialShell dials with.
unfoldable pub shell_url : Codec → Client → String → ℕ → ℕ → String
shell_url j c id cols rows =
    let q =
      (if ltb 0 cols then (("cols", itoa cols) ∷ []) else [])
      ++ (if ltb 0 rows then (("rows", itoa rows) ∷ []) else []) in
    let enc = j.query q in
    let u = str_append c.ws_url (sandboxes_path id "/shell") in
    if enc == "" then u else str_append u (str_append "?" enc)
