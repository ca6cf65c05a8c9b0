-- ===== src/Network/Delete/Loops.antt =====
-- deleteAddr of internal/local/network.go: which addresses the interfaces have afterwards.
use purelb.Base.{
  ℕ, ◌≡◌, ◌≢◌, refl, subst, sym, inl, inr, true, false, List, [], ◌∷◌, String, Option, none, some,
  All, arith, ◌==◌, nat_eq, string_eq, Bool-cases,
}
use purelb.Base.Dict
use purelb.Base.Result.{ok, on_success, on_success-eq_none, Result-cases}
use purelb.Net.{Ip, Parser}
use purelb.Network.{Interface, NetError, Netlink, delete_if, delete_among, delete_from, delete_addr}
use purelb.Network.Delete.{
  IsNetlink, is_address, Kept, Kept-trans, Gone, Absent, Absent-Kept, delete_if-Kept,
  delete_if-Gone,
}

pub err_ne :
    {S : Type 0} {e : NetError} {s s' : S} → ◌≢◌ {A = Option NetError × S} (some e, s) (none, s')
err_ne h = cc

-- All elements of a list are among those of a longer one.
All-member :
    (xs ys : List String)
    → ((t : String) → Dict.member ys t ≡ true → Dict.member xs t ≡ true)
    → All (λ t. Dict.member xs t ≡ true) ys
All-member xs [] h = tt
All-member xs (y ∷ ys) h =
    (h y (ground (arith, string_eq.beq_iff y y)), All-member xs ys (λ t m. h t (ground arith)))

-- A host whose interfaces can be listed and on which a deletion does not fail.
pub record Works {H P : Type 0} (nl : Netlink H P) (net : Parser) (is : List Interface)
    : Type 0 where
  pub lists : (h : H) → nl.interfaces h ≡ ok is
  pub deletes : (h : H) (ip : Ip) → (delete_addr nl net h ip).0 ≡ none

module _ {H P : Type 0} (nl : Netlink H P) (net : Parser) (held : H → ℕ → List String) (ip : Ip)
    (laws : IsNetlink nl net held) where
  on_success-Kept :
      (h : H) (first : Option NetError × H) (next : H → Option NetError × H)
      → Kept nl net held ip h first.1
      → ((h' : H) → Kept nl net held ip h' (next h').1)
      → Kept nl net held ip h (on_success first next).1
  on_success-Kept h (none, h') next k l = Kept-trans nl net held ip h h' (next h').1 k (l h')
  on_success-Kept h (some e, h') next k l = k

  Members : H → Interface → List String → Type 0
  Members h0 i texts = All (λ t. Dict.member (held h0 i.index) t ≡ true) texts

  delete_among-Kept :
      (h0 : H) (i : Interface) (texts : List String) (h : H)
      → Members h0 i texts
      → Kept nl net held ip h (delete_among nl net i ip texts h).1
  unfolding delete_among Members
  delete_among-Kept h0 i [] h had = λ index t. inl refl
  delete_among-Kept h0 i (text ∷ texts) h had =
      on_success-Kept h (delete_if nl net h i ip text) (λ h'. delete_among nl net i ip texts h')
        (delete_if-Kept nl net held ip laws h0 h i text had.0)
        (λ h'. delete_among-Kept h0 i texts h' had.1)

  delete_among-Gone :
      (h0 : H) (i : Interface) (texts : List String) (h : H) {h' : H}
      → Members h0 i texts
      → delete_among nl net i ip texts h ≡ (none, h')
      → Gone nl net held ip h' i.index texts
  unfolding delete_among Members
  delete_among-Gone h0 i [] h had run = λ t m a. cc
  delete_among-Gone h0 i (text ∷ texts) h {h'} had run =
      let (h1, first, next) =
        on_success-eq_none (delete_if nl net h i ip text) (λ h'. delete_among nl net i ip texts h')
          run in
      let kept : Kept nl net held ip h1 h' =
        subst (λ (r : Option NetError × H). Kept nl net held ip h1 r.1) next
          (delete_among-Kept h0 i texts h1 had.1) in
      λ t m a. elim (Bool-cases (text == t)) [
        | inl this ↦
            let same = (string_eq.beq_iff text t).0 this in
            subst (λ x. Dict.member (held h' i.index) x ≡ false) same
              (ground (
                arith,
                kept i.index text,
                delete_if-Gone nl net held ip laws h0 h i text had.0 first
                    (subst (λ x. is_address net ip x ≡ true) (sym same) a),
              ))
        | inr other ↦ delete_among-Gone h0 i texts h1 had.1 next t (ground arith) a
      ]

  -- The interface whose addresses were looked at has none of the address's texts left.
  Gone-Absent :
      (h h' : H) (i : Interface)
      → Kept nl net held ip h h'
      → Gone nl net held ip h' i.index (held h i.index)
      → Absent nl net held ip h' i
  Gone-Absent h h' i k g text m = ground (arith, k i.index text, g text)

  known-Members :
      (h : H) (i : Interface) {texts : List String}
      → nl.interface_addrs h i ≡ ok texts
      → Members h i texts
  unfolding Members
  known-Members h i {texts} answer =
      rw (laws.interface_addrs-held h i answer) (All-member texts texts (λ t m. m))

  -- What deleteAddr does to the host over the interfaces that the host has.
  pub record IsDeleted (is : List Interface) (h h' : H) : Type 0 where
    pub absent : All (Absent nl net held ip h') is
    pub others :
        (index : ℕ) (text : String)
        → is_address net ip text ≡ false
        → Dict.member (held h' index) text ≡ Dict.member (held h index) text

  delete_from-Kept :
      (is : List Interface) (h : H) → Kept nl net held ip h (delete_from nl net is ip h).1
  unfolding delete_from
  delete_from-Kept [] h = λ index t. inl refl
  delete_from-Kept (i ∷ is) h = elim (Result-cases (nl.interface_addrs h i)) [
    | inr (e, no_answer) ↦ rw (no_answer, delete_from) (λ index t. inl refl)
    | inl (texts, answer) ↦
        rw (answer, delete_from)
          (on_success-Kept h (delete_among nl net i ip texts h) (λ h'. delete_from nl net is ip h')
            (delete_among-Kept h i texts h (known-Members h i answer))
            (λ h'. delete_from-Kept is h'))
  ]

  delete_from-Absent :
      (is : List Interface) (h : H) {h' : H}
      → delete_from nl net is ip h ≡ (none, h')
      → All (Absent nl net held ip h') is
  unfolding delete_from
  delete_from-Absent [] h run = tt
  delete_from-Absent (i ∷ is) h {h'} run = elim (Result-cases (nl.interface_addrs h i)) [
    | inr (e, no_answer) ↦ absurd (err_ne (rw (no_answer, delete_from) at run))
    | inl (texts, answer) ↦
        let (h1, among, rest) =
          on_success-eq_none (delete_among nl net i ip texts h) (λ h'. delete_from nl net is ip h')
            (rw (answer, delete_from) at run) in
        let had = known-Members h i answer in
        let texts_held = laws.interface_addrs-held h i answer in
        let kept =
          subst (λ (r : Option NetError × H). Kept nl net held ip h r.1) among
            (delete_among-Kept h i texts h had) in
        let gone =
          subst (λ ts. Gone nl net held ip h1 i.index ts) (sym texts_held)
            (delete_among-Gone h i texts h had among) in
        let later =
          subst (λ (r : Option NetError × H). Kept nl net held ip h1 r.1) rest
            (delete_from-Kept is h1) in
        (
          Absent-Kept nl net held ip h1 h' i later (Gone-Absent h h1 i kept gone),
          delete_from-Absent is h1 rest,
        )
  ]

  pub delete_addr-Kept : (h : H) → Kept nl net held ip h (delete_addr nl net h ip).1
  unfolding delete_addr
  delete_addr-Kept h = elim (Result-cases (nl.interfaces h)) [
    | inr (e, none_listed) ↦ rw (none_listed, delete_addr) (λ index t. inl refl)
    | inl (is, listed) ↦ rw (listed, delete_addr) (delete_from-Kept is h)
  ]

  -- Whether or not an error stops it, deleteAddr leaves every other address where it was.
  pub delete_addr-others :
      (h : H) (index : ℕ) (text : String)
      → is_address net ip text ≡ false
      → Dict.member (held (delete_addr nl net h ip).1 index) text ≡ Dict.member (held h index) text
  delete_addr-others h index text other = ground (arith, delete_addr-Kept h index text)

  -- When the interfaces of a host can be listed and deleteAddr reports no error, none of them has the
  -- address any more, and every other address is where it was.
  pub delete_addr-IsDeleted :
      (h : H) {is : List Interface} {h' : H}
      → nl.interfaces h ≡ ok is
      → delete_addr nl net h ip ≡ (none, h')
      → IsDeleted is h h'
  unfolding delete_addr
  delete_addr-IsDeleted h {is} {h'} listed run = record {
    absent = delete_from-Absent is h (rw (listed, delete_addr) at run);
    others = λ index text other.
        subst
          (λ (r : Option NetError × H).
            Dict.member (held r.1 index) text ≡ Dict.member (held h index) text)
          run (delete_addr-others h index text other);
  }
