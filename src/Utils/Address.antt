-- ===== src/Utils/Address.antt =====
-- `fetch_sock_addr_info` of src/common/utils.c: the address and the port of a peer as a string.
use sample_sds_storage.Base.{
  sizes, ℕ, suc, ◌-◌, ◌≤◌, ◌<◌, ◌≡◌, refl, true, Option, none, some, List, [], ◌∷◌, ◌++◌, arith,
  ltb, lt→ltb, ltb→lt, if◌then◌else◌, length, length-append, drop, replicate, Run, ok, fault, ◌>>=◌,
}
use sample_sds_storage.Slice.Strings.{at, c_string, IsText, until_nul-append}

-- What `getpeername` stores: the port and the address in network byte order.
pub record Peer : Type 0 where
  pub sin_port : ℕ
  pub sin_addr : ℕ

-- The socket library and `"%d"` of `sprintf`.
pub record Names : Type 0 where
  pub ntohs : ℕ → ℕ
  pub ntop : ℕ → List ℕ
  pub decimal : ℕ → List ℕ

-- `ip_addr`
abbrev pub host_size : ℕ
host_size = 64

-- `inet_ntop` into an array of zeros: an address that does not fit with its NUL is not written.
unfoldable pub host_array : List ℕ → List ℕ
host_array ip =
    if ltb (length ip) host_size
    then ip ++ replicate (host_size - length ip) 0
    else replicate host_size 0

-- The bytes of `str` afterwards. Where `getpeername` fails the structure has not been written.
unfoldable pub fetch_sock_addr_info : Names → (peer : Option Peer) → (str : List ℕ) → Run (List ℕ)
fetch_sock_addr_info names none str = fault
fetch_sock_addr_info names (some peer) str = do
  ip_addr ← c_string (at (host_array (names.ntop peer.sin_addr)))
  let text = ip_addr ++ b':' ∷ names.decimal (names.ntohs peer.sin_port)
  if ltb (length text) (length str) then ok (text ++ 0 ∷ drop (suc (length text)) str) else fault

-- An address is at most 15 bytes of text, a port has 16 bits, and such a number at most 5 digits.
pub record IsNaming (names : Names) : Type 0 where
  pub ports : (n : ℕ) → names.ntohs n < 65536
  pub hosts : (a : ℕ) → IsText (names.ntop a) × (length (names.ntop a) ≤ 15)
  pub numerals : (n : ℕ) → n < 65536 → IsText (names.decimal n) × (length (names.decimal n) ≤ 5)

IsText-append : (v w : List ℕ) → IsText v → IsText w → IsText (v ++ w)
IsText-append [] w h k = k
IsText-append (c ∷ v) w (ne, h) k = (ne, IsText-append v w h k)

host_array-text : (ip : List ℕ) → IsText ip → length ip ≤ 15 → c_string (at (host_array ip)) ≡ ok ip
unfolding host_array c_string
host_array-text ip text short =
    let fits : ltb (length ip) 64 ≡ true = lt→ltb (length ip) 64 (omega arith) in
    let left : 64 - length ip ≡ suc (63 - length ip) = omega arith in
    rw (fits, left) (until_nul-append ip (replicate (63 - length ip) 0) text)

drop-behind : (v : List ℕ) (c : ℕ) (rest : List ℕ) → drop (suc (length v)) (v ++ c ∷ rest) ≡ rest
drop-behind [] c rest = refl
drop-behind (e ∷ v) c rest = drop-behind v c rest

-- Where `inet_ntop` names an address in at most 15 bytes, a port is below 2 ^ 16 and `%d` prints it
-- in at most 5, and the peer of the socket is known: in a buffer of 22 bytes or more,
-- `fetch_sock_addr_info` leaves the string of the address, a colon and the port; the buffer keeps
-- its size, and the bytes behind the string are as they were.
pub fetch_sock_addr_info-names :
    (names : Names) (peer : Peer) (str : List ℕ)
    → IsNaming names
    → 22 ≤ length str
    → let text = names.ntop peer.sin_addr ++ b':' ∷ names.decimal (names.ntohs peer.sin_port) in
      (out : List ℕ) × (fetch_sock_addr_info names (some peer) str ≡ ok out)
      × (c_string (at out) ≡ ok text)
      × (length out ≡ length str)
      × (drop (suc (length text)) out ≡ drop (suc (length text)) str)
unfolding fetch_sock_addr_info c_string
fetch_sock_addr_info-names names peer str naming large =
    let ip = names.ntop peer.sin_addr in
    let port = names.decimal (names.ntohs peer.sin_port) in
    let text = ip ++ b':' ∷ port in
    let (text_ip, short_ip) = naming.hosts peer.sin_addr in
    let (text_port, short_port) = naming.numerals _ (naming.ports peer.sin_port) in
    let size = length-append ip (b':' ∷ port) in
    let whole = IsText-append ip (b':' ∷ port) text_ip ((omega arith, text_port)) in
    let room : ltb (length text) (length str) ≡ true =
      lt→ltb (length text) (length str) (omega arith) in
    (
      text ++ 0 ∷ drop (suc (length text)) str,
      rw (◌>>=◌, host_array-text ip text_ip short_ip) (rw room refl),
      until_nul-append text (drop (suc (length text)) str) whole,
      grind (sizes, ltb→lt (length text) (length str) room),
      drop-behind text 0 (drop (suc (length text)) str),
    )
