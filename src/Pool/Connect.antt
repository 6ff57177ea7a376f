-- ===== src/Pool/Connect.antt =====
-- What `try_connect` dials: the addresses with no connection, no dial in flight and no backoff.
use h3llo.Base.{
  ℕ, ◌<◌, List, [], ◌∷◌, Option, none, some, Bool, true, false, not, ◌&&◌, ◌||◌, ◌≡◌, ◌↔◌, ◌⊎◌,
  refl, sym, ap, ◌∙◌, subst, Memᴰ, inl, inr, Bool-cases, retain-mem, mem-retain, any-mem, mem-any,
  arith, if◌then◌else◌,
}
use h3llo.Net.{IpAddr, same_addr, same_addr_iff}
use h3llo.Dial.{DialState, new_in_flight}
use h3llo.Pool.{
  ActiveConn, Dials, PeerEntry, contains, is_covered, mark, mark_in_flight, may_dial, try_connect,
  uncovered,
}
use h3llo.Pool.Prune.{contains_iff}

-- A dial to the address is in flight, or a failed one asks to wait.
abbrev pub IsBlocked : ℕ → Option DialState → Type 0
IsBlocked now none = ⊥
IsBlocked now (some s) = (s.in_flight ≡ true) ⊎ (now < s.next_allowed_at)

-- Some connection leads to the address.
abbrev pub IsCovered : {Net Tx : Type 0} → PeerEntry Net Tx → IpAddr → Type 0
IsCovered {Net} {Tx} e ip = (bound : ActiveConn Tx) × (Memᴰ bound e.bounds × (bound.dest.ip ≡ ip))

mark-mark : (now : ℕ) (o : Option DialState) → mark now (some (mark now o)) ≡ mark now o
unfolding new_in_flight
mark-mark now none = refl
mark-mark now (some s) = refl

merge :
    (now : ℕ) (again here : Bool) (o : Option DialState)
    → (if again
        then some (mark now (if here then some (mark now o) else o))
        else if here
        then some (mark now o)
        else o)
      ≡ (if here || again then some (mark now o) else o)
merge now true true o = ap some (mark-mark now o)
merge now true false o = refl
merge now false true o = refl
merge now false false o = refl

mark_here :
    (now : ℕ) (dials : Dials) (first ip : IpAddr)
    → (if same_addr first ip then some (mark now (dials first)) else dials ip)
      ≡ (if same_addr first ip then some (mark now (dials ip)) else dials ip)
mark_here now dials first ip = elim (Bool-cases (same_addr first ip)) [
  | inl t ↦ rw t (ap (λ a. some (mark now (dials a))) ((same_addr_iff first ip).0 t))
  | inr f ↦ rw f refl
]

-- The dial states afterwards, address by address.
pub mark_in_flight_lem :
    (now : ℕ) (ips : List IpAddr) (dials : Dials) (ip : IpAddr)
    → mark_in_flight now ips dials ip
      ≡ (if contains ips ip then some (mark now (dials ip)) else dials ip)
unfolding mark_in_flight
mark_in_flight_lem now [] dials ip = refl
mark_in_flight_lem now (first ∷ ips) dials ip =
    let dials' : Dials =
      λ other. if same_addr first other then some (mark now (dials first)) else dials other in
    mark_in_flight_lem now ips dials' ip
    ∙ ap (λ o. if contains ips ip then some (mark now o) else o) (mark_here now dials first ip)
    ∙ merge now (contains ips ip) (same_addr first ip) (dials ip)

is_covered-IsCovered :
    {Net Tx : Type 0} (e : PeerEntry Net Tx) (ip : IpAddr)
    → (is_covered e ip ≡ true) ↔ IsCovered e ip
is_covered-IsCovered e ip = (
  λ h.
      let found = any-mem (λ bound. same_addr bound.dest.ip ip) e.bounds h in
      (found.0, (found.1.0, (same_addr_iff found.0.dest.ip ip).0 found.1.1)),
  λ h.
      mem-any (λ bound. same_addr bound.dest.ip ip) e.bounds h.0 h.1.0
        ((same_addr_iff h.0.dest.ip ip).1 h.1.1),
)

may_dial_iff : (now : ℕ) (o : Option DialState) → (may_dial now o ≡ true) ↔ (¬ IsBlocked now o)
may_dial_iff now none = (λ h b. b, λ h. refl)
may_dial_iff now (some s) = ground arith

not_and_iff : (a b : Bool) → ((not a && b) ≡ true) ↔ ((¬ (a ≡ true)) × (b ≡ true))
not_and_iff a b = ground arith

-- An address is dialed exactly if the name has it, no connection leads to it, no dial to it is in
-- flight, and the backoff after the last failure is over.
pub try_connect_iff :
    {Net Tx : Type 0} (now : ℕ) (e : PeerEntry Net Tx) (ip : IpAddr)
    → Memᴰ ip (try_connect now e).1
      ↔ (Memᴰ ip e.resolved_ips × ((¬ IsCovered e ip) × (¬ IsBlocked now (e.dials ip))))
unfolding try_connect uncovered
try_connect_iff {Net} {Tx} now e ip =
    let free : IpAddr → Bool = λ other. not (is_covered e other) && may_dial now (e.dials other) in
    let split = not_and_iff (is_covered e ip) (may_dial now (e.dials ip)) in
    let covered = is_covered-IsCovered e ip in
    let may = may_dial_iff now (e.dials ip) in
    (
      λ m.
          let r = retain-mem free e.resolved_ips ip m in
          let s = split.0 r.1 in (r.0, ((λ c. s.0 (covered.1 c)), may.0 s.1)),
      λ h.
          mem-retain free e.resolved_ips ip h.0 (split.1 ((λ t. h.1.0 (covered.0 t)), may.1 h.1.1)),
    )

-- The failed dials in a row that a dial state remembers.
abbrev pub attempts : Option DialState → ℕ
attempts none = 0
attempts (some s) = s.attempt

mark_lem :
    (now : ℕ) (o : Option DialState)
    → ((mark now o).in_flight ≡ true) × ((mark now o).attempt ≡ attempts o)
unfolding new_in_flight
mark_lem now none = (refl, refl)
mark_lem now (some s) = (refl, refl)

-- An address that is dialed has a dial in flight afterwards, and keeps its count of failures.
pub try_connect-marks :
    {Net Tx : Type 0} (now : ℕ) (e : PeerEntry Net Tx) (ip : IpAddr)
    → Memᴰ ip (try_connect now e).1
    → (s : DialState) × (((try_connect now e).0.dials ip ≡ some s)
        × ((s.in_flight ≡ true) × (s.attempt ≡ attempts (e.dials ip))))
unfolding try_connect uncovered
try_connect-marks now e ip m =
    let ips = (try_connect now e).1 in
    let dialed = (contains_iff ips ip).1 m in
    (
      mark now (e.dials ip),
      (
        mark_in_flight_lem now ips e.dials ip
            ∙ ap (λ b. if b then some (mark now (e.dials ip)) else e.dials ip) dialed,
        mark_lem now (e.dials ip),
      ),
    )

-- An address that was dialed is not dialed again, at whatever time, while that dial is in flight.
pub try_connect-once :
    {Net Tx : Type 0} (now later : ℕ) (e : PeerEntry Net Tx) (ip : IpAddr)
    → Memᴰ ip (try_connect now e).1
    → ¬ Memᴰ ip (try_connect later (try_connect now e).0).1
try_connect-once now later e ip m again =
    let marked = try_connect-marks now e ip m in
    let free = ((try_connect_iff later (try_connect now e).0 ip).0 again).1.1 in
    free (subst (IsBlocked later) (sym marked.1.0) (inl marked.1.1.0))

blocked : (now : ℕ) (o : Option DialState) → may_dial now o ≡ false → IsBlocked now o
blocked now none h = ground arith
blocked now (some s) h = ground arith

still-IsBlocked :
    (now : ℕ) (ips : List IpAddr) (dials : Dials) (ip : IpAddr)
    → IsBlocked now (dials ip)
    → IsBlocked now (mark_in_flight now ips dials ip)
still-IsBlocked now ips dials ip h =
    subst (IsBlocked now) (sym (mark_in_flight_lem now ips dials ip))
      (elim (Bool-cases (contains ips ip)) [
        | inl t ↦ rw t (inl (mark_lem now (dials ip)).0)
        | inr f ↦ rw f h
      ])

split_false : (a b : Bool) → ((not a && b) ≡ false) → (a ≡ true) ⊎ (b ≡ false)
split_false true b h = inl refl
split_false false b h = inr h

-- After `try_connect` no address is idle: each one that the name has is led to by a connection, or
-- has a dial in flight or a backoff that is not over.
pub try_connect-busy :
    {Net Tx : Type 0} (now : ℕ) (e : PeerEntry Net Tx) (ip : IpAddr)
    → Memᴰ ip e.resolved_ips
    → IsCovered (try_connect now e).0 ip ⊎ IsBlocked now ((try_connect now e).0.dials ip)
unfolding try_connect uncovered
try_connect-busy now e ip m =
    let ips = (try_connect now e).1 in
    let free : IpAddr → Bool = λ other. not (is_covered e other) && may_dial now (e.dials other) in
    elim (Bool-cases (free ip)) [
      | inl t ↦
          let marked = try_connect-marks now e ip (mem-retain free e.resolved_ips ip m t) in
          inr (subst (IsBlocked now) (sym marked.1.0) (inl marked.1.1.0))
      | inr f ↦ elim (split_false (is_covered e ip) (may_dial now (e.dials ip)) f) [
        | inl covered ↦ inl ((is_covered-IsCovered e ip).0 covered)
        | inr waits ↦ inr (still-IsBlocked now ips e.dials ip (blocked now (e.dials ip) waits))
      ]
    ]
