-- ===== src/NetboxClient/Taken.antt =====
-- What Fetch of internal/netbox/netbox.go takes from a remote system.
use purelb.Base.{
  ℕ, ◌≡◌, refl, ap, ◌∙◌, inl, inr, List, [], ◌∷◌, String, Option, none, some, if◌then◌else◌, Bool,
  true, false, not, ◌++◌, Bool-cases, arith, ◌==◌, nat_eq,
}
use purelb.Base.Result.{Result, ok, err, Result-cases}
use purelb.NetboxClient.{
  Netbox, Address, Reply, Request, fetched, Http, address_query, activation, some_results,
  read_body, sent, allocated, first_of, fetch_addrs, allocate_addr, fetch,
}

-- The addresses without those of one id.
abbrev pub without : ℕ → List Address → List Address
without id [] = []
without id (a ∷ addrs) = let rest = without id addrs in if a.id == id then rest else a ∷ rest

abbrev pub has_id : ℕ → List Address → Bool
has_id id [] = false
has_id id (a ∷ addrs) = if a.id == id then true else has_id id addrs

pub has_id-without : (id : ℕ) (addrs : List Address) → has_id id (without id addrs) ≡ false
has_id-without id [] = refl
has_id-without id (a ∷ addrs) = ground (arith, has_id-without id addrs)

-- What Netbox documents of its addresses, of which `reserved` are those of the tenant with this
-- status: a query answers with a first page of them and changes nothing; and of a change of the status
-- of one of them to active, which it may refuse with an answer too, that it takes the address from them
-- where it is granted, and leaves them as they are where it is refused.
pub record IsNetbox {H : Type 0} (http : Http H) (n : Netbox) (reserved : H → List Address)
    (grants : H → Address → Bool) : Type 0 where
  pub queried :
      (h : H) {request : Request} {body : String} {reply : Reply} {h' : H}
      → address_query http n "reserved" ≡ ok request
      → http.send h request ≡ (ok body, h')
      → http.decode body ≡ ok reply
      → (more : List Address) × (reserved h ≡ reply.results ++ more)
        × (reserved h' ≡ reserved h)
        × ((a : Address) → grants h' a ≡ grants h a)
  pub activated :
      (h : H) (a : Address) {request : Request} {body : String} {h' : H}
      → has_id a.id (reserved h) ≡ true
      → activation http n a ≡ ok request
      → http.send h request ≡ (ok body, h')
      → reserved h' ≡ (if grants h a then without a.id (reserved h) else reserved h)

-- What a fetch that succeeds has done, where `grants` tells whether the change of an address's status
-- is granted.
pub record Takes (grants : Address → Bool) (before after : List Address) (text : String)
    : Type 0 where
  pub taken : Address
  pub others : List Address
  pub first : before ≡ taken ∷ others
  pub given : taken.address ≡ text
  pub rest : after ≡ (if grants taken then without taken.id before else before)
  pub gone : has_id taken.id after ≡ not (grants taken)

module _ {H : Type 0} (http : Http H) (n : Netbox) where
  -- A request that was sent and answered.
  abbrev Answered : Result String Request → H → String → H → Type 0
  Answered request h body h' = (r : Request) × (request ≡ ok r) × (http.send h r ≡ (ok body, h'))

  pair : {A B : Type 0} (r : A × B) {a : A} {b : B} → r.0 ≡ a → r.1 ≡ b → r ≡ (a, b)
  pair r e f = cc

  read_body-ok :
      (answer : Result String String) {addrs : List Address}
      → read_body http answer ≡ ok addrs
      → (body : String) × (reply : Reply) × (answer ≡ ok body)
        × (http.decode body ≡ ok reply)
        × (reply.results ≡ addrs)
  unfolding read_body some_results
  read_body-ok (err e) h = cc
  read_body-ok (ok body) h = elim (Result-cases (http.decode body)) [
    | inr (e, f) ↦ absurd (ground arith)
    | inl (reply, f) ↦ (body, reply, refl, f, ground arith)
  ]

  fetch_addrs-ok :
      (h : H) {addrs : List Address} {h' : H}
      → fetch_addrs http n "reserved" h ≡ (ok addrs, h')
      → (body : String) × (reply : Reply) × Answered (address_query http n "reserved") h body h'
        × (http.decode body ≡ ok reply)
        × (reply.results ≡ addrs)
  unfolding fetch_addrs
  fetch_addrs-ok h {addrs} {h'} run = elim (Result-cases (address_query http n "reserved")) [
    | inr (e, f) ↦ absurd (ground arith)
    | inl (request, f) ↦
        let (body, reply, answer, decoded, results) =
          read_body-ok (http.send h request).0 {addrs = addrs} (ground arith) in
        (
          body,
          reply,
          (request, f, pair (http.send h request) answer (ground arith)),
          decoded,
          results,
        )
  ]

  sent-none :
      (answer : Result String String)
      → sent http answer ≡ none
      → (body : String) × (answer ≡ ok body)
  unfolding sent
  sent-none (err e) h = cc
  sent-none (ok body) h = (body, refl)

  allocate_addr-none :
      (a : Address) (h : H) {h' : H}
      → allocate_addr http n a h ≡ (none, h')
      → (body : String) × Answered (activation http n a) h body h'
  unfolding allocate_addr
  allocate_addr-none a h {h'} run = elim (Result-cases (activation http n a)) [
    | inr (e, f) ↦ absurd (ground arith)
    | inl (request, f) ↦
        let (body, answer) = sent-none (http.send h request).0 (ground arith) in
        (body, (request, f, pair (http.send h request) answer (ground arith)))
  ]

  allocated-fetched :
      (a : Address) (r : Option String × H) {text : String} {h' : H}
      → allocated http a r ≡ (fetched text, h')
      → (r ≡ (none, h')) × (a.address ≡ text)
  unfolding allocated
  allocated-fetched a (none, h) e = (cc, cc)
  allocated-fetched a (some f, h) e = absurd (ground arith)

  first_of-fetched :
      (r : Result String (List Address) × H) {text : String} {h' : H}
      → first_of http n r ≡ (fetched text, h')
      → (a : Address) × (addrs : List Address) × (r ≡ (ok (a ∷ addrs), r.1))
        × (allocate_addr http n a r.1 ≡ (none, h'))
        × (a.address ≡ text)
  unfolding first_of
  first_of-fetched (err e, h) run = absurd (ground arith)
  first_of-fetched (ok [], h) run = absurd (ground arith)
  first_of-fetched (ok (a ∷ addrs), h) run =
      let (done, given) = allocated-fetched a (allocate_addr http n a h) run in
      (a, addrs, refl, done, given)

has_id-taken :
    (grants : Address → Bool) (a : Address) (others before after : List Address)
    → before ≡ a ∷ others
    → after ≡ (if grants a then without a.id before else before)
    → has_id a.id after ≡ not (grants a)
has_id-taken grants a others before after first rest = elim (Bool-cases (grants a)) [
  | inl granted ↦ rw (rest, granted) (has_id-without a.id before)
  | inr refused ↦ rw (rest, refused, first) (ground arith)
]

module _ {H : Type 0} (http : Http H) (n : Netbox) (reserved : H → List Address)
    (grants : H → Address → Bool) (laws : IsNetbox http n reserved grants) where
  -- A fetch gives out the first of the reserved addresses.
  pub fetch-Takes :
      (h : H) {text : String} {h' : H}
      → fetch http n h ≡ (fetched text, h')
      → Takes (grants h) (reserved h) (reserved h') text
  unfolding fetch
  fetch-Takes h {text} {h'} run =
      let h1 = (fetch_addrs http n "reserved" h).1 in
      let (a, addrs, looked_up, done, given) =
        first_of-fetched http n (fetch_addrs http n "reserved" h) {text = text} {h' = h'} run in
      let (body, reply, (request, asked, answered), decoded, results) =
        fetch_addrs-ok http n h looked_up in
      let (more, page, kept, same) = laws.queried h asked answered decoded in
      let (body', (request', asked', answered')) = allocate_addr-none http n a h1 done in
      let first : reserved h ≡ a ∷ (addrs ++ more) = page ∙ ap (λ l. l ++ more) results in
      let present : has_id a.id (reserved h1) ≡ true =
        ap (has_id a.id) (kept ∙ first) ∙ ground arith in
      let rest : reserved h' ≡ (if grants h a then without a.id (reserved h) else reserved h) =
        laws.activated h1 a present asked' answered' ∙ rw (kept, same a) in
      record {
        taken = a;
        others = addrs ++ more;
        first = first;
        given = given;
        rest = rest;
        gone = has_id-taken (grants h) a (addrs ++ more) (reserved h) (reserved h') first rest;
      }

  -- Two fetches one after the other.
  pub record TakesTwice (h h' h'' : H) (text text' : String) : Type 0 where
    pub one : Takes (grants h) (reserved h) (reserved h') text
    pub two : Takes (grants h') (reserved h') (reserved h'') text'
    pub again : (two.taken.id == one.taken.id) ≡ not (grants h one.taken)
