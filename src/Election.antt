-- ===== src/Election.antt =====
-- internal/election/election.go: which node announces a service. The members are the names that
-- memberlist knows; SHA-256 and memberlist are not part of the program.
pub mod Least
pub mod Members
use Prim.Native.String.{◌++◌ as text_append}
use purelb.Base.{ℕ, Bool, List, [], ◌∷◌, String, Option, none, some, if◌then◌else◌}
use purelb.Net.{bytes_lt}

module _ (sha256 : String → List ℕ) where
  unfoldable pub hash : String → String → List ℕ
  hash key candidate = sha256 (text_append candidate (text_append "#" key))

  -- sort.Slice by the hash: candidates with equal hashes may come in any order.
  unfoldable pub insert : String → String → List String → List String
  unfolding bytes_lt
  insert key c [] = c ∷ []
  insert key c (d ∷ ds) =
      let rest = insert key c ds in
      if bytes_lt (hash key c) (hash key d) then c ∷ d ∷ ds else d ∷ rest

  unfoldable pub election : String → List String → List String
  unfolding insert
  election key [] = []
  election key (c ∷ cs) = insert key c (election key cs)

  -- election(key, nodes)[0], which is out of range where there is no member.
  abbrev pub head : List String → Option String
  head [] = none
  head (c ∷ cs) = some c

  unfoldable pub winner : String → List String → Option String
  unfolding election
  winner key members = head (election key members)
