-- ===== src/Dns/Host.antt =====
-- src/gethostbyname.c: the addresses of a host. What is given to `freeaddrinfo` comes with the result;
-- the static storage that the result points to is part of it.
use nucleo_tests.Base.{
  ℕ, zero, suc, ◌<◌, ◌≡◌, arith, refl, List, [], ◌∷◌, length, take, drop, map, leb, false, Option,
  none, some, if◌then◌else◌,
}
use nucleo_tests.Base.Run.{Run, done, ◌>>=◌}
use nucleo_tests.Base.Int.{pos, eqb_ℤ}
use nucleo_tests.Socket.{Net}
use nucleo_tests.Dns.Response.{AddrInfo, Outcome, getaddrinfo}

abbrev pub name_max_len : ℕ
name_max_len = 256

abbrev pub addresses_max : ℕ
addresses_max = 4

-- The members that differ: the name, and the addresses up to the null pointer.
pub record Hostent : Type 0 where
  pub h_name : List ℕ
  pub h_addr_list : List ℕ

-- The loop, with the places left, and where `res` points after it.
unfoldable pub take_addresses : ℕ → List AddrInfo → List ℕ × List AddrInfo
take_addresses zero res = ([], res)
take_addresses (suc left) [] = ([], [])
take_addresses (suc left) (ai ∷ res) =
    let (addresses, rest) = take_addresses left res in (ai.ai_addr ∷ addresses, rest)

abbrev pub host_of : List ℕ → Option (List AddrInfo) → Option Hostent × List AddrInfo
host_of name none = (none, [])
host_of name (some []) = (none, [])
host_of name (some (ai ∷ res)) =
    let (addresses, rest) = take_addresses addresses_max (ai ∷ res) in
    (some (record { h_name = name; h_addr_list = addresses }), rest)

abbrev pub host_if_ok : List ℕ → Outcome → Option Hostent × List AddrInfo
host_if_ok name (ret, res) = if eqb_ℤ ret (pos 0) then host_of name res else (none, [])

unfoldable pub gethostbyname :
    {W : Type 0} → Net W → ℕ → ℕ → ℕ → List ℕ → W → Run (Option Hostent × List AddrInfo × W)
gethostbyname net steps rounds dns_server name w =
    if leb name_max_len (length name)
    then done (none, [], w)
    else (getaddrinfo net steps rounds dns_server (some name) none none w >>= λ r.
        let (host, freed) = host_if_ok name r.0 in done (host, freed, r.1))

take_addresses_lem :
    (left : ℕ) (res : List AddrInfo)
    → take_addresses left res ≡ (take left (map (λ ai. ai.ai_addr) res), drop left res)
unfolding take_addresses
take_addresses_lem zero res = refl
take_addresses_lem (suc left) [] = refl
take_addresses_lem (suc left) (ai ∷ res) = rw (take_addresses_lem left res) refl

-- For a name that fits its storage and is found, `gethostbyname` returns the name with the first four
-- of the addresses found. Only the results from the fifth on are freed.
pub gethostbyname-addresses :
    {W : Type 0} (net : Net W) (steps rounds dns_server : ℕ) (name : List ℕ) (w w' : W)
    (ai : AddrInfo) (res : List AddrInfo)
    → length name < name_max_len
    → getaddrinfo net steps rounds dns_server (some name) none none w
      ≡ done ((pos 0, some (ai ∷ res)), w')
    → gethostbyname net steps rounds dns_server name w
      ≡ done (
        some (record {
          h_name = name;
          h_addr_list = take addresses_max (map (λ a. a.ai_addr) (ai ∷ res));
        }),
        drop addresses_max (ai ∷ res),
        w',
      )
unfolding gethostbyname
gethostbyname-addresses net steps rounds dns_server name w w' ai res h e =
    let small : leb name_max_len (length name) ≡ false = ground arith in
    rw (small, e, take_addresses_lem addresses_max (ai ∷ res)) refl
