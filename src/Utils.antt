-- ===== src/Utils.antt =====
-- internal/utils/net.go: the comma-separated lists of addresses and networks.
pub mod Env
pub mod Printed
use gopher_cni.Prelude.{Option, none, some, List, [], ◌∷◌, if◌then◌else◌, Result, ok, err, ◌>>=◌}
use gopher_cni.Go.Text.{Text, trim_space, split, is_empty, contains_code}
use gopher_cni.Go.Ip.{Ip, IpNet, to4}
use gopher_cni.Go.ParseIp.{parse_ip, parse_cidr}

-- The errors of ParseIPOrCIDRList, with the token that each names.
pub data ListError : Type 0 where
  invalid_cidr : Text → ListError
  invalid_ip : Text → ListError

-- A plain address as a host network: /32, or /128 if it has no IPv4 form.
unfoldable pub host_net : Ip → IpNet
unfolding to4
host_net ip = elim (to4 ip) [
  | none ↦ record { ip = ip; ones = 128; bits = 128 }
  | some _ ↦ record { ip = ip; ones = 32; bits = 32 }
]

cidr_or_error : Text → Option IpNet → Result ListError IpNet
cidr_or_error s none = err (invalid_cidr s)
cidr_or_error s (some n) = ok n

ip_or_error : Text → Option Ip → Result ListError IpNet
unfolding host_net
ip_or_error s none = err (invalid_ip s)
ip_or_error s (some ip) = ok (host_net ip)

-- The body of the loop, for a token that is not empty.
unfoldable pub parse_token : Text → Result ListError IpNet
unfolding cidr_or_error ip_or_error
parse_token s =
    if contains_code b'/' s then cidr_or_error s (parse_cidr s) else ip_or_error s (parse_ip s)

unfoldable pub parse_tokens : List Text → Result ListError (List IpNet)
parse_tokens [] = ok []
parse_tokens (raw ∷ rest) =
    let s = trim_space raw in
    let later = parse_tokens rest in
    if is_empty s then later else do n ← parse_token s; ns ← later; ok (n ∷ ns)

-- ParseIPOrCIDRList
unfoldable pub parse_ip_or_cidr_list : Text → Result ListError (List IpNet)
unfolding parse_tokens
parse_ip_or_cidr_list raw = parse_tokens (split b',' raw)
