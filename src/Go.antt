-- ===== src/Go.antt =====
-- What the program uses of Go's standard library: strings, strconv, bufio.Scanner, net and
-- net/netip. Everything here is independent of the repository's own code.
pub mod Text
pub mod Int
pub mod Lines
pub mod Ip
pub mod ParseIp
pub mod ShowIp
pub mod Dict
pub mod Json
pub mod Order
pub mod Base64
pub mod Path
