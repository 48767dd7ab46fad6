-- ===== src/Examples/Addresses.antt =====
-- The address of a peer, of src/common/utils.c, at concrete inputs.
use sample_sds_storage.Base.{
  ℕ, suc, ◌+◌, ◌/◌, ◌%◌, ◌≡◌, some, List, [], ◌∷◌, ◌++◌, arith, length, drop, replicate, ok,
}
use sample_sds_storage.Slice.Strings.{at, c_string}
use sample_sds_storage.Utils.Address.{
  Peer, Names, IsNaming, fetch_sock_addr_info, fetch_sock_addr_info-names,
}

-- Every port has five digits, and every address is 1.2.
abbrev names : Names
names = record {
  ntohs = λ n. n % 65536;
  ntop = λ a. b'1' ∷ b'.' ∷ b'2' ∷ [];
  decimal = λ n.
      (b'0' + n / 10000 % 10)
      ∷ (b'0' + n / 1000 % 10)
      ∷ (b'0' + n / 100 % 10)
      ∷ (b'0' + n / 10 % 10)
      ∷ (b'0' + n % 10)
      ∷ [];
}

names-IsNaming : IsNaming names
names-IsNaming = record {
  ports = λ n. omega arith;
  hosts = λ a. omega arith;
  numerals = λ n below. omega arith;
}

abbrev peer : Peer
peer = record { sin_port = 8765; sin_addr = 0 }

-- The array of the caller in src/server/netsocket.c.
abbrev client_host : List ℕ
client_host = replicate 64 0

fetch_sock_addr_info-names_example :
    let text = (b'1' ∷ b'.' ∷ b'2' ∷ []) ++ b':' ∷ names.decimal 8765 in
    (out : List ℕ) × (fetch_sock_addr_info names (some peer) client_host ≡ ok out)
    × (c_string (at out) ≡ ok text)
    × (length out ≡ length client_host)
    × (drop (suc (length text)) out ≡ drop (suc (length text)) client_host)
fetch_sock_addr_info-names_example =
    fetch_sock_addr_info-names names peer client_host names-IsNaming (omega arith)
