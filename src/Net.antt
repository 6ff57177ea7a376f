-- ===== src/Net.antt =====
-- IP addresses (`std::net::IpAddr`), and what the program uses of the crates `ipnet` and
-- `ipnet_trie`, which are not in the repository.
pub mod Model
use h3llo.Base.{ℕ, ◌≤◌, ◌≡◌, ◌↔◌, ◌==◌, Option, none, some, Bool, true, false, if◌then◌else◌, arith}

-- An address is the number that its octets spell, most significant first.
pub data IpAddr : Type 0 where
  v4 : ℕ → IpAddr
  v6 : ℕ → IpAddr

pub record SocketAddr : Type 0 where
  pub ip : IpAddr
  pub port : ℕ

-- `IpNet`, an address with a prefix length.
pub record IpNets (Net : Type 0) : Type 0 where
  pub addr : Net → IpAddr
  pub prefix_len : Net → ℕ
  -- `IpNet::from(addr)`: the host prefix, /32 or /128.
  pub host : IpAddr → Net
  -- The second prefix lies within the first.
  pub contains : Net → Net → Bool
  -- The same masked address and the same length: one prefix, for a prefix trie.
  pub same_prefix : Net → Net → Bool
  pub same_prefix_refl : (a : Net) → same_prefix a a ≡ true
  pub same_prefix_sym : (a b : Net) → same_prefix a b ≡ true → same_prefix b a ≡ true
  pub same_prefix_trans :
      (a b c : Net) → same_prefix a b ≡ true → same_prefix b c ≡ true → same_prefix a c ≡ true

-- `IpnetTrie`: a map from prefixes, with a search for the longest prefix.
pub record IpnetTrie (Net : Type 0) (nets : IpNets Net) (E Trie : Type 0) : Type 0 where
  pub empty : Trie
  pub insert : Trie → Net → E → Trie
  pub exact_match : Trie → Net → Option E
  pub longest_match : Trie → Net → Option (Net × E)
  pub exact_match-empty : (p : Net) → exact_match empty p ≡ none
  pub exact_match-insert :
      (t : Trie) (p q : Net) (e : E)
      → exact_match (insert t p e) q ≡ (if nets.same_prefix p q then some e else exact_match t q)
  pub exact_match-same :
      (t : Trie) (p q : Net) → nets.same_prefix p q ≡ true → exact_match t p ≡ exact_match t q
  -- A match is an entry of the trie, its prefix nets.contains the address, and no longer prefix does.
  pub longest_match-some :
      (t : Trie) (host p : Net) (e : E)
      → longest_match t host ≡ some (p, e)
      → (exact_match t p ≡ some e) × (nets.contains p host ≡ true)
  pub longest_match-longest :
      (t : Trie) (host p q : Net) (e f : E)
      → longest_match t host ≡ some (p, e)
      → exact_match t q ≡ some f
      → nets.contains q host ≡ true
      → nets.prefix_len q ≤ nets.prefix_len p
  pub longest_match-none :
      (t : Trie) (host q : Net) (f : E)
      → longest_match t host ≡ none
      → exact_match t q ≡ some f
      → nets.contains q host ≡ false

-- `==` on addresses.
unfoldable pub same_addr : IpAddr → IpAddr → Bool
same_addr (v4 a) (v4 b) = a == b
same_addr (v6 a) (v6 b) = a == b
same_addr _ _ = false

pub same_addr_iff : (a b : IpAddr) → (same_addr a b ≡ true) ↔ (a ≡ b)
unfolding same_addr
same_addr_iff (v4 a) (v4 b) = ground arith
same_addr_iff a b = ground arith
