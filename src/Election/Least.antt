-- ===== src/Election/Least.antt =====
-- The winner of an election in internal/election/election.go, by the order of the hashes.
use purelb.Base.{
  ℕ, ◌≡◌, ◌≢◌, refl, subst, sym, ap, ◌∙◌, ◌⊎◌, inl, inr, Bool, true, false, ◌||◌, List, [], ◌∷◌,
  String, none, some, arith, ◌==◌, nat_eq, string_eq, Bool-cases, Option-cases, none-ne-some,
  some-injective,
}
use purelb.Base.Dict
use purelb.Net.{bytes_le, bytes_lt}
use purelb.Election.{hash, insert, election, head, winner}

bytes_le_refl : (a : List ℕ) → bytes_le a a ≡ true
unfolding bytes_le
bytes_le_refl [] = refl
bytes_le_refl (b ∷ bs) = ground (arith, bytes_le_refl bs)

bytes_le_total : (a b : List ℕ) → bytes_le a b ≡ false → bytes_le b a ≡ true
unfolding bytes_le
bytes_le_total [] b h = cc
bytes_le_total (x ∷ xs) [] h = refl
bytes_le_total (x ∷ xs) (y ∷ ys) h = ground (arith, bytes_le_total xs ys)

bytes_le_trans : (a b c : List ℕ) → bytes_le a b ≡ true → bytes_le b c ≡ true → bytes_le a c ≡ true
unfolding bytes_le
bytes_le_trans [] b c h k = refl
bytes_le_trans (x ∷ xs) [] c h k = cc
bytes_le_trans (x ∷ xs) (y ∷ ys) [] h k = cc
bytes_le_trans (x ∷ xs) (y ∷ ys) (z ∷ zs) h k = ground (arith, bytes_le_trans xs ys zs)

bytes_le_antisym : (a b : List ℕ) → bytes_le a b ≡ true → bytes_le b a ≡ true → a ≡ b
unfolding bytes_le
bytes_le_antisym [] [] h k = refl
bytes_le_antisym [] (y ∷ ys) h k = cc
bytes_le_antisym (x ∷ xs) [] h k = cc
bytes_le_antisym (x ∷ xs) (y ∷ ys) h k = ground (arith, bytes_le_antisym xs ys)

module _ (sha256 : String → List ℕ) (key : String) where
  member-insert :
      (c : String) (ds : List String) (at : String)
      → Dict.member (insert sha256 key c ds) at ≡ (c == at || Dict.member ds at)
  unfolding insert
  member-insert c [] at = refl
  member-insert c (d ∷ ds) at = ground (arith, member-insert c ds at)

  member-election :
      (cs : List String) (at : String) → Dict.member (election sha256 key cs) at ≡ Dict.member cs at
  unfolding election
  member-election [] at = refl
  member-election (c ∷ cs) at =
      member-insert c (election sha256 key cs) at ∙ ground (arith, member-election cs at)

  -- The first of a list has the least hash in it.
  abbrev Least : List String → Type 0
  Least [] = Unit
  Least (w ∷ ws) =
      (c : String)
      → Dict.member (w ∷ ws) c ≡ true
      → bytes_le (hash sha256 key w) (hash sha256 key c) ≡ true

  le : String → String → Bool
  le c d = bytes_le (hash sha256 key c) (hash sha256 key d)

  le_moved : (w c d : String) → le w c ≡ true → (c == d) ≡ true → le w d ≡ true
  le_moved w c d h e = subst (λ x. le w x ≡ true) ((string_eq.beq_iff c d).0 e) h

  le_refl : (c : String) → le c c ≡ true
  unfolding le
  le_refl c = bytes_le_refl (hash sha256 key c)

  le_trans : (b c d : String) → le b c ≡ true → le c d ≡ true → le b d ≡ true
  unfolding le
  le_trans b c d h k =
      bytes_le_trans (hash sha256 key b) (hash sha256 key c) (hash sha256 key d) h k

  insert-Least : (c : String) (ds : List String) → Least ds → Least (insert sha256 key c ds)
  unfolding insert bytes_lt le
  insert-Least c [] l = λ at h. le_moved c c at (le_refl c) (ground arith)
  insert-Least c (d ∷ ds) l = elim (Bool-cases (le d c)) [
    | inl below ↦ rw below (λ at h.
        ground
          (arith, member-insert c ds at, le_moved d c at below, le_moved d d at (le_refl d), l at))
    | inr above ↦
        let first : le c d ≡ true = bytes_le_total (hash sha256 key d) (hash sha256 key c) above in
        rw above (λ at h. ground (arith, le_moved c c at (le_refl c), l at, le_trans c d at first))
  ]

  election-Least : (cs : List String) → Least (election sha256 key cs)
  unfolding election
  election-Least [] = tt
  election-Least (c ∷ cs) = insert-Least c (election sha256 key cs) (election-Least cs)

  -- A member with the least hash.
  abbrev pub IsWinner : List String → String → Type 0
  IsWinner cs w =
      (Dict.member cs w ≡ true)
      × ((c : String)
          → Dict.member cs c ≡ true
          → bytes_le (hash sha256 key w) (hash sha256 key c) ≡ true)

  head-IsWinner :
      (ds cs : List String)
      → ((at : String) → Dict.member ds at ≡ Dict.member cs at)
      → Least ds
      → (head sha256 ds ≡ none) ⊎ ((w : String) × (head sha256 ds ≡ some w) × IsWinner cs w)
  head-IsWinner [] cs same l = inl refl
  head-IsWinner (w ∷ ws) cs same l =
      inr (w, refl, (sym (same w) ∙ ground (arith, string_eq.beq_iff w w), λ c h. l c (same c ∙ h)))

  head-none : (ds : List String) (c : String) → Dict.member ds c ≡ true → head sha256 ds ≢ none
  head-none [] c h e = cc
  head-none (d ∷ ds) c h e = none-ne-some (sym e)

  -- Where there is a member, the election has a winner, and the winner is a member whose hash is
  -- the least of all members' hashes.
  pub winner-IsWinner :
      (cs : List String) (c : String)
      → Dict.member cs c ≡ true
      → (w : String) × (winner sha256 key cs ≡ some w) × IsWinner cs w
  unfolding winner
  winner-IsWinner cs c h =
      elim (head-IsWinner (election sha256 key cs) cs (member-election cs) (election-Least cs)) [
        | inl e ↦ absurd (head-none (election sha256 key cs) c (member-election cs c ∙ h) e)
        | inr found ↦ found
      ]

  found-IsWinner : (cs : List String) (w : String) → winner sha256 key cs ≡ some w → IsWinner cs w
  unfolding winner
  found-IsWinner cs w e =
      elim (head-IsWinner (election sha256 key cs) cs (member-election cs) (election-Least cs)) [
        | inl none_at_all ↦ absurd (none-ne-some (sym none_at_all ∙ e))
        | inr (v, f, won) ↦ subst (IsWinner cs) (some-injective (sym f ∙ e)) won
      ]

  no_winner :
      (cs : List String) → winner sha256 key cs ≡ none → (c : String) → Dict.member cs c ≡ false
  no_winner cs e c = elim (Bool-cases (Dict.member cs c)) [
    | inl h ↦ let (w, found, _) = winner-IsWinner cs c h in absurd (none-ne-some (sym e ∙ found))
    | inr h ↦ h
  ]

  module _ (cs ds : List String)
      (distinct : (a b : String)
        → Dict.member cs a ≡ true
        → Dict.member cs b ≡ true
        → hash sha256 key a ≡ hash sha256 key b
        → a ≡ b)
      (same : (c : String) → Dict.member cs c ≡ Dict.member ds c) where
    agree : (w : String) → IsWinner cs w → (v : String) → IsWinner ds v → w ≡ v
    agree w (mine, least) v (theirs, least') = distinct w v mine (same v ∙ theirs) (
        bytes_le_antisym (hash sha256 key w) (hash sha256 key v) (least v (same v ∙ theirs))
          (least' w (sym (same w) ∙ mine)))

    -- Where no two members have one hash, nodes that know the same members, in whatever order, elect
    -- the same winner.
    pub winner-agrees : winner sha256 key cs ≡ winner sha256 key ds
    winner-agrees = elim (Option-cases (winner sha256 key cs)) [
      | inl e ↦ elim (Option-cases (winner sha256 key ds)) [
        | inl f ↦ e ∙ sym f
        | inr (v, f) ↦
            let won = found-IsWinner ds v f in absurd (cc (no_winner cs e v, same v, won.0))
      ]
      | inr (w, e) ↦
          let won = found-IsWinner cs w e in
          let (v, f, other) = winner-IsWinner ds w (sym (same w) ∙ won.0) in
          e ∙ ap some (agree w won v other) ∙ sym f
    ]
