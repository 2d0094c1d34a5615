-- ===== src/Protocol/Hosts.antt =====
-- A little-endian and a big-endian host.
use rest_rpc.Base.{ℕ, ◌^◌, ◌<◌, ◌≡◌, refl, arith}
use rest_rpc.Base.Bytes.{le_bytes, be_bytes}
use rest_rpc.Protocol.{Host, little, big}
use rest_rpc.Md5.{swap_endian}
use rest_rpc.Md5.Rotation.{swap_endian-eq, swap_endian-swap_endian}

pub swapped-lt : (v : ℕ) → v < 2 ^ 32 → swap_endian v < 2 ^ 32
swapped-lt v h = rw (swap_endian-eq v h) (omega arith)

pub swapped_network : (v : ℕ) → v < 2 ^ 32 → le_bytes 4 (swap_endian v) ≡ be_bytes 4 v
swapped_network v h = let e = swap_endian-eq v h in ground (arith, e)

abbrev pub little_host : Host
little_host = record {
  endian = little;
  htonl = swap_endian;
  ntohl = swap_endian;
  htonl-lt = swapped-lt;
  ntohl-htonl = swap_endian-swap_endian;
  htonl_network = swapped_network;
}

abbrev pub big_host : Host
big_host = record {
  endian = big;
  htonl = λ v. v;
  ntohl = λ v. v;
  htonl-lt = λ v h. h;
  ntohl-htonl = λ v h. refl;
  htonl_network = λ v h. refl;
}
