-- ===== src/LocalAnnouncer/Withdraw.antt =====
-- DeleteBalancer of internal/local/announcer_local.go: what one deletion does, and that nothing
-- appears on the host. Each has the loop.
pub mod Each
use purelb.Base.{
  ℕ, ◌≡◌, ◌≢◌, refl, subst, sym, ap, ◌∙◌, ◌⊎◌, inl, inr, Bool, true, false, not, ◌&&◌, ◌||◌, List,
  [], ◌∷◌, String, Option, none, some, is_nil, All, arith, ◌==◌, string_eq, if◌then◌else◌,
  Bool-cases,
}
use purelb.Base.Dict
use purelb.Base.Dict.{Dict, get-remove}
use purelb.Base.Result.{ok}
use purelb.Net.{Ip, Parser}
use purelb.Network.{Interface, Netlink, delete_addr}
use purelb.Network.Delete.{IsNetlink, is_address, Absent, Absent-Kept, Kept}
use purelb.Network.Delete.Loops.{
  IsDeleted, Works, delete_addr-Kept, delete_addr-others, delete_addr-IsDeleted,
}
use purelb.LocalAnnouncer.{
  Announcer, Fault, Label, label_eq, other_user, delete_address, delete_addresses, delete_balancer,
}

-- A service's own entry is no other service.
pub other_user-remove :
    (name ip : String) (m : Dict String (List String))
    → other_user name ip (Dict.remove m name) ≡ other_user name ip m
unfolding other_user Dict.remove
other_user-remove name ip [] = refl
other_user-remove name ip ((other, announced) ∷ m) =
    ground (arith, other_user-remove name ip m, string_eq.beq_iff other name)

module _ {H P : Type 0} (nl : Netlink H P) (net : Parser) where
  -- deleteAddress touches the gauge and the host only.
  pub delete_address-svc_ingresses :
      (a : Announcer H) (name : String) (ip : Ip)
      → (delete_address nl net a name ip).svc_ingresses ≡ a.svc_ingresses
  unfolding delete_address
  delete_address-svc_ingresses a name ip = ground arith

  pub delete_address-announcing :
      (a : Announcer H) (name : String) (ip : Ip)
      → (delete_address nl net a name ip).announcing
        ≡ Dict.remove a.announcing (record { service = name; ip = net.ip_string ip })
  unfolding delete_address
  delete_address-announcing a name ip = ground arith

  pub delete_address-shared :
      (a : Announcer H) (name : String) (ip : Ip)
      → other_user name (net.ip_string ip) a.svc_ingresses ≡ true
      → (delete_address nl net a name ip).host ≡ a.host
  unfolding delete_address
  delete_address-shared a name ip shared = ground arith

  pub delete_address-alone :
      (a : Announcer H) (name : String) (ip : Ip)
      → other_user name (net.ip_string ip) a.svc_ingresses ≡ false
      → (delete_address nl net a name ip).host ≡ (delete_addr nl net a.host ip).1
  unfolding delete_address
  delete_address-alone a name ip alone = ground arith

  module _ (held : H → ℕ → List String) (laws : IsNetlink nl net held) where
    -- Texts of an address that another service announces stay, and so do those of other addresses.
    abbrev pub Spared : Announcer H → String → String → String → Type 0
    Spared a name text x =
        (other_user name (net.ip_string (net.parse_ip text)) a.svc_ingresses ≡ true)
        ⊎ (is_address net (net.parse_ip text) x ≡ false)

    pub delete_address-Spared :
        (a : Announcer H) (name text x : String) (index : ℕ)
        → Spared a name text x
        → Dict.member (held (delete_address nl net a name (net.parse_ip text)).host index) x
          ≡ Dict.member (held a.host index) x
    delete_address-Spared a name text x index (inl shared) =
        rw (delete_address-shared a name (net.parse_ip text) shared)
    delete_address-Spared a name text x index (inr other) =
        let ip = net.parse_ip text in
        elim (Bool-cases (other_user name (net.ip_string ip) a.svc_ingresses)) [
          | inl shared ↦ rw (delete_address-shared a name ip shared)
          | inr alone ↦
              rw (delete_address-alone a name ip alone)
                (delete_addr-others nl net held ip laws a.host index x other)
        ]

    -- Without another service that announces the address, no interface has it any more.
    pub delete_address-Absent :
        (a : Announcer H) (name : String) (ip : Ip) {is : List Interface}
        → Works nl net is
        → other_user name (net.ip_string ip) a.svc_ingresses ≡ false
        → All (Absent nl net held ip (delete_address nl net a name ip).host) is
    delete_address-Absent a name ip works alone =
        rw (delete_address-alone a name ip alone)
          (delete_addr-IsDeleted nl net held ip laws a.host (works.lists a.host)
            (ap (λ e. (e, (delete_addr nl net a.host ip).1)) (works.deletes a.host ip))).absent

    -- Nothing appears on the host.
    abbrev pub Shrinks : H → H → Type 0
    Shrinks h h' =
        (index : ℕ) (x : String)
        → Dict.member (held h' index) x ≡ true
        → Dict.member (held h index) x ≡ true

    delete_address-Shrinks :
        (a : Announcer H) (name : String) (ip : Ip)
        → Shrinks a.host (delete_address nl net a name ip).host
    delete_address-Shrinks a name ip =
        elim (Bool-cases (other_user name (net.ip_string ip) a.svc_ingresses)) [
          | inl shared ↦ rw (delete_address-shared a name ip shared) (λ index x m. m)
          | inr alone ↦
              rw (delete_address-alone a name ip alone)
                (λ index x m. ground (arith, delete_addr-Kept nl net held ip laws a.host index x))
        ]

    pub delete_addresses-Shrinks :
        (texts : List String) (a : Announcer H) (name : String)
        → Shrinks a.host (delete_addresses nl net a name texts).1.host
    unfolding delete_addresses
    delete_addresses-Shrinks [] a name = λ index x m. m
    delete_addresses-Shrinks (text ∷ texts) a name =
        elim (Bool-cases (is_nil (net.parse_ip text))) [
          | inl bad ↦ rw (bad, delete_addresses) (λ index x m. m)
          | inr good ↦
              let a' = delete_address nl net a name (net.parse_ip text) in
              rw (good, delete_addresses)
                (λ index x m.
                  delete_address-Shrinks a name (net.parse_ip text) index x
                    (delete_addresses-Shrinks texts a' name index x m))
        ]
