-- ===== src/Go/Ip/Prefix.antt =====
-- Facts about prefixes, masks and (*IPNet).Contains on IPv4 networks.
use native.Mathlib.Nat.{
  div-div-eq-div-mul, pow-suc, pow-zero, mul_assoc, add-suc, add-zero, mul-one,
}
use gopher_cni.Prelude.{
  refl, false, none, ℕ, zero, suc, ◌+◌, ◌-◌, ◌*◌, ◌/◌, ◌^◌, ◌≤◌, ◌≡◌, ◌↔◌, ◌∙◌, sym, ap, true, some,
  arith, ==_iff,
}
use gopher_cni.Go.Ip.{ip16, mask16, contains4, Ip, ip4, to4, IpNet, prefix, network, contains}

-- A network with an IPv4 address and a mask of four bytes.
pub record IsV4 (net : IpNet) : Type 0 where
  pub number : ℕ
  pub number_lem : to4 net.ip ≡ some number
  pub bits_lem : net.bits ≡ 32
  pub fits : net.ones ≤ 32

pow_add : (a m n : ℕ) → a ^ (m + n) ≡ a ^ m * a ^ n
pow_add a m zero = simp (add-zero, pow-zero, mul-one)
pow_add a m (suc n) = rw (add-suc, pow-suc, pow-suc, pow_add a m n) (mul_assoc (a ^ m) (a ^ n) a)

-- A shorter prefix is a prefix of the longer one.
pub prefix-prefix : (w o o' n : ℕ) → o ≤ o' → o' ≤ w → prefix w o n ≡ prefix w o' n / 2 ^ (o' - o)
unfolding prefix
prefix-prefix w o o' n h k =
    let e : w - o ≡ (w - o') + (o' - o) = omega arith in
    rw (e, pow_add 2 (w - o') (o' - o)) (sym (div-div-eq-div-mul n (2 ^ (w - o')) (2 ^ (o' - o))))

pub prefix_coarser :
    (w o o' x y : ℕ) → o ≤ o' → o' ≤ w → prefix w o' x ≡ prefix w o' y → prefix w o x ≡ prefix w o y
prefix_coarser w o o' x y h k e =
    prefix-prefix w o o' x h k
    ∙ ap (λ (t : ℕ). t / 2 ^ (o' - o)) e
    ∙ sym (prefix-prefix w o o' y h k)

pub to4-ip4 : (a : ℕ) → to4 (ip4 a) ≡ some a
unfolding to4
to4-ip4 a = refl

-- Contains looks only at the IPv4 form of an address that has one.
pub contains-to4 :
    (net : IpNet) (ip : Ip) (x : ℕ) → to4 ip ≡ some x → contains net ip ≡ contains net (ip4 x)
unfolding contains to4
contains-to4 net ip x e = ground arith

-- What Contains computes on an IPv4 network.
pub contains_iff_prefix :
    (net : IpNet) (v : IsV4 net) (ip : Ip) (x : ℕ)
    → to4 ip ≡ some x
    → (contains net ip ≡ true) ↔ (prefix 32 net.ones v.number ≡ prefix 32 net.ones x)
unfolding contains
contains_iff_prefix net v ip x e =
    rw (e, contains)
      (rw (v.number_lem, network)
        (rw v.bits_lem (==_iff (prefix 32 net.ones v.number) (prefix 32 net.ones x))))

-- A network that is not the odd one out, which net.ParseCIDR gives for an IPv4 address in IPv6
-- form: there the number is an IPv4 address and the mask has sixteen bytes.
pub data IsPlain (net : IpNet) : Type 0 where
  four : IsV4 net → IsPlain net
  six : to4 net.ip ≡ none → IsPlain net

contains4-mask16 :
    (ip : Ip) (ones bits x : ℕ) → to4 ip ≡ none → contains4 (mask16 ip ones bits) x ≡ false
unfolding contains4 mask16 to4
contains4-mask16 (ip4 n) ones bits x h = refl
contains4-mask16 (ip16 n) ones bits x h = ground arith

six_holds_none : (net : IpNet) (a : ℕ) → to4 net.ip ≡ none → contains net (ip4 a) ≡ false
unfolding contains
six_holds_none net a e =
    rw (to4-ip4 a, contains) (rw (e, network) (contains4-mask16 net.ip net.ones net.bits a e))

-- A plain network that holds an IPv4 address is an IPv4 network.
pub holds-IsV4 : (net : IpNet) (a : ℕ) → IsPlain net → contains net (ip4 a) ≡ true → IsV4 net
holds-IsV4 net a (four v) h = v
holds-IsV4 net a (six e) h = cc (six_holds_none net a e, h)
