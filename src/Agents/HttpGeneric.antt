-- ===== src/Agents/HttpGeneric.antt =====
-- services/agent-orchestration/src/tools/http_generic.py: the tool that requests a URL, and its guard
-- on private addresses.
pub mod Private
use constructor.Prelude.{
  ℕ, ◌/◌, ◌^◌, ◌*◌, ◌+◌, String, Bool, false, ◌||◌, Option, none, some, List, [], ◌∷◌, get_or, eqb,
  if◌then◌else◌,
}
use constructor.Prelude.Int.{pos}
use constructor.Json.{Value, Fields, null, str, num, arr, obj, nil, cons, end, field, get}
use constructor.Outcome.{Outcome, return, raise, value_error, or_key_error, concat, ◌>>=◌}
use constructor.Agents.Tools.{Moment, Tool, property}

-- An address of `ipaddress`, as a number of 32 or of 128 bits.
pub data Ip : Type 0 where
  ipv4 ipv6 : ℕ → Ip

-- A network: its first address, and the number of bits that are free in it.
pub data Network : Type 0 where
  network4 network6 : ℕ → ℕ → Network

-- The number of a dotted address.
abbrev pub dotted : ℕ → ℕ → ℕ → ℕ → ℕ
dotted a b c d = ((a * 256 + b) * 256 + c) * 256 + d

abbrev pub private_networks : List Network
private_networks =
    network4 (dotted 10 0 0 0) 24
    ∷ network4 (dotted 172 16 0 0) 20
    ∷ network4 (dotted 192 168 0 0) 16
    ∷ network4 (dotted 127 0 0 0) 24
    ∷ network4 (dotted 169 254 0 0) 16
    ∷ network6 1 0
    ∷ network6 (252 * 2 ^ 120) 121
    ∷ []

-- `ip in net`: an address is in no network of the other version.
unfoldable pub in_network : Ip → Network → Bool
in_network (ipv4 a) (network4 first bits) = eqb (a / 2 ^ bits) (first / 2 ^ bits)
in_network (ipv6 a) (network6 first bits) = eqb (a / 2 ^ bits) (first / 2 ^ bits)
in_network _ _ = false

unfoldable pub in_any : Ip → List Network → Bool
unfolding in_network
in_any ip [] = false
in_any ip (net ∷ nets) = in_network ip net || in_any ip nets

-- What the client answers; `body_json` is `none` if the body is no JSON.
pub record Response : Type 0 where
  pub status_code : ℕ
  pub body_json : Option Value
  pub body_text : String
  pub headers : Fields

-- The network, and the readings of addresses and URLs: `ipaddress.ip_address` with `none` for a
-- text that is no address, `socket.gethostbyname` with `none` for a name that is not resolved,
-- `urlparse(url).hostname`, and `client.request` with the method, the URL, the headers and the body.
pub record Internet : Type 0 where
  pub ip_address : String → Option Ip
  pub gethostbyname : Moment → String → Option String
  pub hostname : Value → Outcome (Option String)
  pub request : Moment → Value → Value → Value → Value → Outcome Response

module _ (net : Internet) where
  unfoldable pub is_private_ip : Option Ip → Bool
  unfolding in_any
  is_private_ip none = false
  is_private_ip (some ip) = in_any ip private_networks

  -- The inner `try`: a name that is not resolved counts as public.
  unfoldable pub is_private_name : Moment → String → Bool
  unfolding is_private_ip
  is_private_name moment host = elim (net.gethostbyname moment host) [
    | none ↦ false
    | some resolved ↦ is_private_ip (net.ip_address resolved)
  ]

  unfoldable pub is_private : Moment → String → Bool
  unfolding is_private_name is_private_ip
  is_private moment host = elim (net.ip_address host) [
    | none ↦ is_private_name moment host
    | some ip ↦ is_private_ip (some ip)
  ]

  abbrev pub answer_of : Response → Fields
  answer_of r =
      field "status_code" (num (pos r.status_code))
        (field "body" (get_or (str r.body_text) r.body_json) (field "headers" (obj r.headers) end))

  -- The request itself, after the guard.
  unfoldable pub send : Moment → Value → Fields → Outcome Fields
  send moment url inputs = do
    method ← or_key_error "method" (get "method" inputs)
    response ←
        net.request moment method url (get_or (obj end) (get "headers" inputs))
          (get_or null (get "body" inputs))
    return (answer_of response)

  unfoldable pub guarded : Moment → String → Value → Fields → Outcome Fields
  unfolding is_private send
  guarded moment host url inputs =
      if is_private moment host
      then raise
          (value_error (concat "Access to private/internal networks is not allowed: " host ""))
      else send moment url inputs

  unfoldable pub execute : Moment → Fields → Fields → Outcome Fields
  unfolding guarded
  execute moment inputs tenant_context = do
    url ← or_key_error "url" (get "url" inputs)
    parsed ← net.hostname url
    guarded moment (get_or "" parsed) url inputs

  abbrev input_schema : Fields
  input_schema = field "type" (str "object") (
      field "properties"
        (obj (
          field "url" (property "string" "Full URL to request") (
            field "method"
              (obj (
                field "type" (str "string")
                  (field "enum" (arr (cons (str "GET") (cons (str "POST") nil))) end)))
              (field "headers" (property "object" "HTTP headers")
                (field "body" (property "object" "Request body (POST only)") end)))))
        (field "required" (arr (cons (str "url") (cons (str "method") (cons (str "headers") nil))))
          end))

  -- `HttpGenericTool`
  abbrev pub http_generic : Tool
  http_generic = record {
    name = "http_generic";
    description = "Make an HTTP GET or POST request to an external URL";
    input_schema = input_schema;
    execute = execute;
  }
