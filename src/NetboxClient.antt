-- ===== src/NetboxClient.antt =====
-- internal/netbox/netbox.go: how an address is fetched from a Netbox system over HTTP.
pub mod Taken
use Prim.Native.String.{◌++◌ as text_append}
use purelb.Base.{
  ℕ, ◌≡◌, ◌≢◌, refl, List, [], ◌∷◌, String, Option, none, some, ltb, if◌then◌else◌, Bool, true,
  false,
}
use purelb.Base.Result.{Result, ok, err}

pub record Netbox : Type 0 where
  pub base : String
  pub tenant : String
  pub token : String

-- address
pub record Address : Type 0 where
  pub id : ℕ
  pub address : String

-- addressQueryResponse
pub record Reply : Type 0 where
  pub count : ℕ
  pub results : List Address

-- http.Request, with the headers that the client sets.
pub record Request : Type 0 where
  pub verb : String
  pub url : String
  pub query : String
  pub headers : List (String × String)
  pub body : String

-- The answer of Fetch: an address, an error, or the panic of an index out of range.
pub data Fetched : Type 0 where
  fetched : String → Fetched
  failed : String → Fetched
  out_of_range : Fetched

-- The calls of Go's library, on a remote system in H: http.NewRequest may refuse a URL, Do answers
-- with a body, and encoding/json reads a reply; the texts of numbers and of queries.
pub record Http (H : Type 0) : Type 0 where
  pub refuses : String → Option String
  pub send : H → Request → Result String String × H
  pub decode : String → Result String Reply
  pub encode_query : String → String → String
  pub number : ℕ → String

module _ {H : Type 0} (http : Http H) where
  unfoldable pub new_request : Netbox → String → String → String → String → Result String Request
  new_request n verb url query body =
      let full = text_append n.base url in
      elim (http.refuses full) [
        | some e ↦ err e
        | none ↦ ok (record {
          verb = verb;
          url = full;
          query = query;
          headers =
              ("Content-Type", "application/json")
              ∷ ("accept", "application/json")
              ∷ ("Authorization", text_append "Token " n.token)
              ∷ [];
          body = body;
        })
      ]

  unfoldable pub address_query : Netbox → String → Result String Request
  unfolding new_request
  address_query n status =
      new_request n "GET" "api/ipam/ip-addresses/" (http.encode_query n.tenant status) ""

  unfoldable pub activation : Netbox → Address → Result String Request
  unfolding new_request
  activation n a =
      new_request n "PATCH"
        (text_append "api/ipam/ip-addresses/" (text_append (http.number a.id) "/")) ""
        "{\"status\": \"active\"}"

  -- The addresses of a reply, which must count one at least.
  unfoldable pub some_results : Result String Reply → Result String (List Address)
  some_results (err e) = err e
  some_results (ok reply) =
      if ltb reply.count 1 then err "No addresses available" else ok reply.results

  read_body : Result String String → Result String (List Address)
  unfolding some_results
  read_body (err e) = err e
  read_body (ok body) = some_results (http.decode body)

  unfoldable pub fetch_addrs : Netbox → String → H → Result String (List Address) × H
  unfolding read_body
  fetch_addrs n status h = elim (address_query n status) [
    | err e ↦ (err e, h)
    | ok request ↦ let (answer, h') = http.send h request in (read_body answer, h')
  ]

  sent : Result String String → Option String
  sent (err e) = some e
  sent (ok body) = none

  -- allocateAddr: what the system answers to the request is not looked at.
  unfoldable pub allocate_addr : Netbox → Address → H → Option String × H
  unfolding sent
  allocate_addr n a h = elim (activation n a) [
    | err e ↦ (some e, h)
    | ok request ↦ let (answer, h') = http.send h request in (sent answer, h')
  ]

  allocated : Address → Option String × H → Fetched × H
  allocated a (none, h) = (fetched a.address, h)
  allocated a (some e, h) = (failed e, h)

  first_of : Netbox → Result String (List Address) × H → Fetched × H
  unfolding allocated
  first_of n (err e, h) = (failed e, h)
  first_of n (ok [], h) = (out_of_range, h)
  first_of n (ok (a ∷ addrs), h) = allocated a (allocate_addr n a h)

  -- Fetch, whose caller drops the address that comes with an error.
  unfoldable pub fetch : Netbox → H → Fetched × H
  unfolding first_of
  fetch n h = first_of n (fetch_addrs n "reserved" h)
